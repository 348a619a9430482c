-- ===== src/Pool/Safety.antt =====
-- What a reconcile destroys (internal/pool/manager.go).
use mathlib.Core.List.Memᴰ
use mathlib.Core.List.{Memᴰ}
use browser_use.Base.{
  ℕ, zero, suc, ◌-◌, arith, String, ◌≡◌, refl, sym, subst, ◌⊎◌, inl, inr, true, ◌||◌, Option, none,
  List, [], ◌∷◌, ◌++◌, leb, min, Bool-cases, length, take, mem-take, Dict, insert, delete,
  delete-mem, Result-cases, sort_slice, sort_slice-mem, Error, Result,
}
use browser_use.Pool.Registry.{Node, is_ready}
use browser_use.Pool.Causes.{IsPast, IsOwn, Cause, IsOwn-of, stale-of, aged-of, surplus-of}
use browser_use.Pool.Manager.{
  Config, Manager, Scan, past, is_managed_node, should_reap_by_heartbeat, should_reap_by_age,
  destroy_node, scan_node, scan, prune_warming_known, still_warming, given_up,
  reap_timed_out_warming, boots_before, destroy_all, scale_down_excess_ready, provision, reconcile,
}

module _ (cfg : Config) (now : ℕ) where
  -- Every entry of a log satisfies `P`.
  abbrev Logged {ℓ} : (String → Type ℓ) → List String → Type ℓ
  Logged P l = (id : String) → Memᴰ id l → P id

  Logged-append {ℓ} :
      (P : String → Type ℓ) (l k : List String) → Logged P l → Logged P k → Logged P (l ++ k)
  Logged-append P l k f g id m = elim (Memᴰ.append_cases l m) [ inl a ↦ f id a | inr b ↦ g id b ]

  Logged-one {ℓ} : (P : String → Type ℓ) (id : String) → P id → Logged P (id ∷ [])
  Logged-one P id p i m = subst P (sym (Memᴰ.eq_of_singleton m)) p

  destroy_node-Logged {ℓ} :
      (P : String → Type ℓ) (m : Manager) (id : String)
      → Logged P m.destroyed
      → P id
      → Logged P (destroy_node cfg m id now).destroyed
  unfolding destroy_node
  destroy_node-Logged P m id f p = Logged-append P m.destroyed (id ∷ []) f (Logged-one P id p)

  -- Of each managed node of the list with a cause, `P` holds.
  abbrev Allowed {ℓ} : (String → Type ℓ) → List Node → Type ℓ
  Allowed P nodes =
      (n : Node) → Memᴰ n nodes → is_managed_node cfg n.id ≡ true → Cause cfg now n → P n.id

  abbrev Picked {ℓ} : (String → Type ℓ) → List Node → Type ℓ
  Picked P nodes = (n : Node) → Memᴰ n nodes → P n.id

  scan_node-Logged {ℓ} :
      (P : String → Type ℓ) (v : Scan) (n : Node)
      → Logged P v.manager.destroyed
      → Picked P v.candidates
      → (is_managed_node cfg n.id ≡ true → Cause cfg now n → P n.id)
      → Logged P (scan_node cfg v n now).manager.destroyed
        × Picked P (scan_node cfg v n now).candidates
  unfolding scan_node
  scan_node-Logged P v n f c p = elim (Bool-cases (is_managed_node cfg n.id)) [
    | inr u ↦ elim (Bool-cases (is_ready n.state)) [
      | inl r ↦ rw (u, r) (f, c)
      | inr r ↦ rw (u, r) (f, c)
    ]
    | inl u ↦ elim (Bool-cases (should_reap_by_heartbeat cfg n now)) [
      | inl h ↦ rw (u, h) (destroy_node-Logged P v.manager n.id f (p u (stale-of cfg now n h)), c)
      | inr h ↦ elim (Bool-cases (should_reap_by_age cfg n now)) [
        | inl a ↦
            rw (u, h, a) (destroy_node-Logged P v.manager n.id f (p u (aged-of cfg now n a)), c)
        | inr a ↦ elim (Bool-cases (is_ready n.state)) [
          | inl r ↦
              rw (u, h, a, r)
                (
                  f,
                  λ k m. elim (Memᴰ.append_cases v.candidates m) [
                    | inl b ↦ c k b
                    | inr b ↦
                        subst (λ (x : Node). P x.id) (sym (Memᴰ.eq_of_singleton b))
                          (p u (surplus-of cfg now n r))
                  ],
                )
          | inr r ↦ rw (u, h, a, r) (f, c)
        ]
      ]
    ]
  ]

  scan-Logged {ℓ} :
      (P : String → Type ℓ) (v : Scan) (nodes : List Node)
      → Logged P v.manager.destroyed
      → Picked P v.candidates
      → Allowed P nodes
      → Logged P (scan cfg v nodes now).manager.destroyed
        × Picked P (scan cfg v nodes now).candidates
  unfolding scan
  scan-Logged P v [] f c a = (f, c)
  scan-Logged P v (n ∷ nodes) f c a =
      let (g, d) = scan_node-Logged P v n f c (a n (Memᴰ.head refl)) in
      scan-Logged P (scan_node cfg v n now) nodes g d (λ k m. a k (Memᴰ.tail m))

  destroy_all-Logged {ℓ} :
      (P : String → Type ℓ) (m : Manager) (nodes : List Node)
      → Logged P m.destroyed
      → Picked P nodes
      → Logged P (destroy_all cfg m nodes now).destroyed
  unfolding destroy_all
  destroy_all-Logged P m [] f c = f
  destroy_all-Logged P m (n ∷ nodes) f c =
      destroy_all-Logged P (destroy_node cfg m n.id now) nodes
        (destroy_node-Logged P m n.id f (c n (Memᴰ.head refl))) (λ k q. c k (Memᴰ.tail q))

  scale_down-Logged {ℓ} :
      (P : String → Type ℓ) (m : Manager) (ready target : ℕ) (candidates : List Node)
      → Logged P m.destroyed
      → Picked P candidates
      → Logged P (scale_down_excess_ready cfg m now ready target candidates).0.destroyed
  unfolding scale_down_excess_ready
  scale_down-Logged P m ready target candidates f c =
      elim (Bool-cases (leb ready target || leb (length candidates) 0)) [
        | inl t ↦ rw t f
        | inr t ↦ rw t (
            destroy_all-Logged P m
              (take (min (ready - target) (length candidates))
                (sort_slice (boots_before cfg) candidates))
              f
              λ n q. c n (
                sort_slice-mem (boots_before cfg) n candidates (
                  mem-take n (min (ready - target) (length candidates))
                    (sort_slice (boots_before cfg) candidates) q)))
      ]

  provision-destroyed :
      (m : Manager) (k : ℕ) (outcome : ℕ → Result String) (i : ℕ) (first : Option Error)
      → (provision cfg m k outcome i first now).0.destroyed ≡ m.destroyed
  unfolding provision
  provision-destroyed m zero outcome i first = refl
  provision-destroyed m (suc k) outcome i first = elim (Result-cases (outcome i)) [
    | inl (id, e) ↦
        rw (e, provision)
          (provision-destroyed (record m { warming = insert id now m.warming }) k outcome (suc i)
            first)
    | inr (x, e) ↦ rw (e, provision) (provision-destroyed m k outcome (suc i) _)
  ]

  pub given_up-mem :
      (w : Dict ℕ) (id : String)
      → Memᴰ id (given_up cfg w now)
      → (t : ℕ) × Memᴰ (id, t) w × IsPast now t cfg.heartbeat_timeout
  unfolding given_up
  given_up-mem [] id m = elim m [ ]
  given_up-mem ((j, t) ∷ w) id m = elim (Bool-cases (past now t cfg.heartbeat_timeout)) [
    | inl p ↦ elim (Memᴰ.cases_cons (rw (p, given_up) at m)) [
      | inl e ↦ (t, Memᴰ.head (λ i. (e i, t)), ground arith)
      | inr n ↦ let (u, k, q) = given_up-mem w id n in (u, Memᴰ.tail k, q)
    ]
    | inr p ↦ let (u, k, q) = given_up-mem w id (rw (p, given_up) at m) in (u, Memᴰ.tail k, q)
  ]

  -- The entries of one map are among those of another.
  abbrev pub Within : Dict ℕ → Dict ℕ → Type 0
  Within a b = (e : String × ℕ) → Memᴰ e a → Memᴰ e b

  scan_node-Within :
      (w : Dict ℕ) (v : Scan) (n : Node)
      → Within v.manager.warming w
      → Within (scan_node cfg v n now).manager.warming w
  unfolding scan_node destroy_node
  scan_node-Within w v n f = elim (Bool-cases (is_managed_node cfg n.id)) [
    | inr u ↦ elim (Bool-cases (is_ready n.state)) [ inl r ↦ rw (u, r) f | inr r ↦ rw (u, r) f ]
    | inl u ↦ elim (Bool-cases (should_reap_by_heartbeat cfg n now)) [
      | inl h ↦ rw (u, h) (λ e m. f e (delete-mem e n.id v.manager.warming m))
      | inr h ↦ elim (Bool-cases (should_reap_by_age cfg n now)) [
        | inl a ↦ rw (u, h, a) (λ e m. f e (delete-mem e n.id v.manager.warming m))
        | inr a ↦ elim (Bool-cases (is_ready n.state)) [
          | inl r ↦ rw (u, h, a, r) f
          | inr r ↦ rw (u, h, a, r) f
        ]
      ]
    ]
  ]

  pub scan-Within :
      (w : Dict ℕ) (v : Scan) (nodes : List Node)
      → Within v.manager.warming w
      → Within (scan cfg v nodes now).manager.warming w
  unfolding scan
  scan-Within w v [] f = f
  scan-Within w v (n ∷ nodes) f =
      scan-Within w (scan_node cfg v n now) nodes (scan_node-Within w v n f)

  pub prune-Within : (ids : List String) (w : Dict ℕ) → Within (prune_warming_known ids w) w
  unfolding prune_warming_known
  prune-Within [] w e m = m
  prune-Within (id ∷ ids) w e m = delete-mem e id w (prune-Within ids (delete id w) e m)

  -- A reconcile destroys nothing without a cause. Each id that a DestroyNode call of a reconcile names, if the
  -- log did not name it before, is that of a node of the registry's list that has the pool's prefix
  -- and a cause: it is not dead, has sent a heartbeat, and sent the last one longer ago than the timeout;
  -- or it is not leased, has a boot time, and that is longer ago than the largest age; or it is ready.
  -- Otherwise it is the id of a warming node that was provisioned longer ago than the timeout.
  pub destroys_only_what_it_may :
      (m : Manager) (nodes : List Node) (target : ℕ) (outcome : ℕ → Result String) (id : String)
      → Memᴰ id (reconcile cfg m nodes target now outcome).manager.destroyed
      → Memᴰ id m.destroyed
        ⊎ ((n : Node) × Memᴰ n nodes × (n.id ≡ id) × IsOwn cfg now n × Cause cfg now n)
        ⊎ ((t : ℕ) × Memᴰ (id, t) m.warming × IsPast now t cfg.heartbeat_timeout)
  unfolding reconcile reap_timed_out_warming
  destroys_only_what_it_may m nodes target outcome id h =
      let start : Scan = record {
        manager = m;
        known_managed = [];
        ready_count = 0;
        candidates = [];
      } in
      let v = scan cfg start nodes now in
      let pruned = prune_warming_known v.known_managed v.manager.warming in
      let (logged, picked) =
        scan-Logged Known start nodes (λ i q. inl q) (λ k q. elim q [ ])
          (λ k q u c. inr (inl (k, q, refl, IsOwn-of cfg now k u, c))) in
      let timed : Logged Known (given_up cfg pruned now) = λ i q.
        let (t, k, p) = given_up-mem pruned i q in
        inr (
          inr (
            t,
            scan-Within m.warming start nodes (λ e r. r) _ (prune-Within v.known_managed _ _ k),
            p,
          )) in
      let both = Logged-append Known v.manager.destroyed (given_up cfg pruned now) logged timed in
      let reaped = (reap_timed_out_warming cfg (record (v.manager) { warming = pruned }) now).0 in
      let scaled = scale_down_excess_ready cfg reaped now v.ready_count target v.candidates in
      let warm = length (still_warming cfg pruned now) in
      scale_down-Logged Known reaped v.ready_count target v.candidates both picked id
        (subst (Memᴰ id) (provision-destroyed scaled.0 (target - scaled.1 - warm) outcome 0 none) h)
    where
      Known : String → Type 0
      Known i =
          Memᴰ i m.destroyed
          ⊎ ((n : Node) × Memᴰ n nodes × (n.id ≡ i) × IsOwn cfg now n × Cause cfg now n)
          ⊎ ((t : ℕ) × Memᴰ (i, t) m.warming × IsPast now t cfg.heartbeat_timeout)
