-- ===== src/Pool/Provisioning.antt =====
-- What the ProvisionNode calls of a reconcile leave, and its clean-up of warming nodes (internal/pool/manager.go).
use mathlib.Core.Bool.{false≢true}
use mathlib.Core.List.Memᴰ
use native.Mathlib.Decide.{dec_lt}
use mathlib.Core.List.{Memᴰ}
use browser_use.Base.{
  ℕ, zero, suc, ◌+◌, ◌≤◌, ◌<◌, String, ◌≡◌, refl, sym, ap, ◌∙◌, inl, inr, false, Option, none, some,
  [], ◌∷◌, arith, Bool-cases, Dict, lookup, insert, lookup-insert, str_eq_iff, Error, Result, ok,
  err, Result-cases, ok-injective, is_ok, subst,
}
use browser_use.Pool.Manager.{Config, Manager, past, still_warming, provision}
use browser_use.Pool.Causes.{}

module _ (cfg : Config) (now : ℕ) where
  -- The first outcome of a run of ProvisionNode calls that is an error.
  pub first_error : (ℕ → Result String) → ℕ → ℕ → Option Error
  first_error outcome i zero = none
  first_error outcome i (suc k) = elim (outcome i) [
    | err e ↦ some e
    | ok id ↦ first_error outcome (suc i) k
  ]

  or_else : Option Error → Option Error → Option Error
  or_else none f = f
  or_else (some e) f = some e

  provision_error :
      (m : Manager) (k i : ℕ) (outcome : ℕ → Result String) (first : Option Error)
      → (provision cfg m k outcome i first now).1 ≡ or_else first (first_error outcome i k)
  unfolding provision first_error or_else
  provision_error m zero i outcome none = refl
  provision_error m zero i outcome (some e) = refl
  provision_error m (suc k) i outcome none = elim (Result-cases (outcome i)) [
    | inl (id, e) ↦
        rw (e, provision, first_error)
          (provision_error (record m { warming = insert id now m.warming }) k (suc i) outcome none)
    | inr (x, e) ↦ rw (e, provision, first_error) (provision_error m k (suc i) outcome (some x))
  ]
  provision_error m (suc k) i outcome (some y) = elim (Result-cases (outcome i)) [
    | inl (id, e) ↦
        rw (e, provision, first_error)
          (provision_error (record m { warming = insert id now m.warming }) k (suc i) outcome
            (some y))
    | inr (x, e) ↦ rw (e, provision, first_error) (provision_error m k (suc i) outcome (some y))
  ]

  pub reported_error :
      (m : Manager) (k : ℕ) (outcome : ℕ → Result String)
      → (provision cfg m k outcome 0 none now).1 ≡ first_error outcome 0 k
  unfolding or_else
  reported_error m k outcome = provision_error m k 0 outcome none

  -- Warming from this instant on.
  abbrev pub IsFresh : Manager → String → Type 0
  IsFresh m id = lookup id m.warming ≡ some now

  insert-IsFresh :
      (m : Manager) (id k : String)
      → IsFresh m k
      → IsFresh (record m { warming = insert id now m.warming }) k
  insert-IsFresh m id k h = ground (arith, lookup-insert id k now m.warming)

  inserted_lookup :
      (m : Manager) (id : String) → IsFresh (record m { warming = insert id now m.warming }) id
  inserted_lookup m id = ground (arith, lookup-insert id id now m.warming, str_eq_iff id id)

  -- What a loop of ProvisionNode calls comes to: it keeps what was fresh, makes fresh what the calls return,
  -- and destroys nothing.
  pub record Provisioned (m n : Manager) (k i : ℕ) (outcome : ℕ → Result String) : Type 0 where
    pub keeps : (id : String) → IsFresh m id → IsFresh n id
    pub grows : (j : ℕ) (id : String) → i ≤ j → j < i + k → outcome j ≡ ok id → IsFresh n id
    pub logged : n.destroyed ≡ m.destroyed

  failed_first :
      (m : Manager) (k i : ℕ) (outcome : ℕ → Result String) (x : Error) (first : Option Error)
      → outcome i ≡ err x
      → let n = (provision cfg m k outcome (suc i) first now).0 in
        Provisioned m n k (suc i) outcome → Provisioned m n (suc k) i outcome
  failed_first m k i outcome x first e p = record {
    keeps = p.keeps;
    grows = λ j id a b h. elim (dec_lt i j) [
      | yes l ↦ p.grows j id (omega arith) (omega arith) h
      | no l ↦
          let same : i ≡ j = omega arith in
          absurd (false≢true (ap is_ok (sym e ∙ ap outcome same ∙ h)))
    ];
    logged = p.logged;
  }

  pub provision-Provisioned :
      (m : Manager) (k i : ℕ) (outcome : ℕ → Result String) (first : Option Error)
      → Provisioned m (provision cfg m k outcome i first now).0 k i outcome
  unfolding provision
  provision-Provisioned m zero i outcome first = record {
    keeps = λ id h. h;
    grows = λ j id a b h. absurd (omega arith);
    logged = refl;
  }
  provision-Provisioned m (suc k) i outcome first = elim (Result-cases (outcome i)) [
    | inl (id, e) ↦
        let m' : Manager = record m { warming = insert id now m.warming } in
        let p = provision-Provisioned m' k (suc i) outcome first in
        rw (e, provision)
          (record {
            keeps = λ x h. p.keeps x (insert-IsFresh m id x h);
            grows = λ j x a b h. elim (dec_lt i j) [
              | yes l ↦ p.grows j x (omega arith) (omega arith) h
              | no l ↦
                  let same : i ≡ j = omega arith in
                  subst (IsFresh (provision cfg m' k outcome (suc i) first now).0)
                    (ok-injective id x (sym e ∙ ap outcome same ∙ h))
                    (p.keeps id (inserted_lookup m id))
            ];
            logged = p.logged;
          })
    | inr (x, e) ↦
        let y : Option Error = elim first [ none ↦ some x | some f ↦ some f ] in
        let p = provision-Provisioned m k (suc i) outcome y in
        rw (e, provision) (failed_first m k i outcome x y e p)
  ]

  pub still_warming-mem :
      (w : Dict ℕ) (e : String × ℕ)
      → Memᴰ e (still_warming cfg w now)
      → Memᴰ e w × (past now e.1 cfg.heartbeat_timeout ≡ false)
  unfolding still_warming
  still_warming-mem [] e m = elim m [ ]
  still_warming-mem ((j, t) ∷ w) e m = elim (Bool-cases (past now t cfg.heartbeat_timeout)) [
    | inl p ↦ let (k, q) = still_warming-mem w e (rw (p, still_warming) at m) in (Memᴰ.tail k, q)
    | inr p ↦ elim (Memᴰ.cases_cons (rw (p, still_warming) at m)) [
      | inl f ↦ (Memᴰ.head f, rw f p)
      | inr n ↦ let (k, q) = still_warming-mem w e n in (Memᴰ.tail k, q)
    ]
  ]
