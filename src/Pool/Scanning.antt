-- ===== src/Pool/Scanning.antt =====
-- What the loop of a reconcile and its scaling down count and destroy (internal/pool/manager.go).

use mathlib.Core.Path.{fun_ext}
use mathlib.Core.List.{append_assoc, append-nil}
use browser_use.Base.{
  ℕ, ◌+◌, ◌-◌, String, ◌≡◌, refl, sym, ap, ◌∙◌, inl, inr, Bool, ◌||◌, List, [], ◌∷◌, ◌++◌, map, leb,
  min, arith, Bool-cases, length, take, length-append, keep, sort_slice,
}
use browser_use.Pool.Registry.{Node}
use browser_use.Pool.Manager.{
  Config, Manager, Scan, destroy_node, scan_node, scan, boots_before, destroy_all,
  scale_down_excess_ready,
}
use browser_use.Pool.Causes.{
  is_older, is_reaped, survives, is_candidate, managed_is_own, reaped_has_expired,
  boots_before-is_older,
}

abbrev pub ids : List Node → List String
ids nodes = map (λ (n : Node). n.id) nodes

module _ (cfg : Config) (now : ℕ) where
  -- What one node adds to the variables of the loop.
  pub record Scanned (v w : Scan) (n : Node) : Type 0 where
    pub counted : w.ready_count ≡ v.ready_count + length (keep (survives cfg now) (n ∷ []))
    pub picked : w.candidates ≡ v.candidates ++ keep (is_candidate cfg now) (n ∷ [])
    pub logged :
        w.manager.destroyed ≡ v.manager.destroyed ++ ids (keep (is_reaped cfg now) (n ∷ []))

  scan_node-Scanned : (v : Scan) (n : Node) → Scanned v (scan_node cfg v n now) n
  unfolding scan_node keep destroy_node
  scan_node-Scanned v n = ground (
    arith,
    managed_is_own cfg now n,
    reaped_has_expired cfg now n,
    append-nil v.candidates,
    append-nil v.manager.destroyed,
  )

  keep-cons :
      (p : Node → Bool) (n : Node) (nodes : List Node)
      → keep p (n ∷ nodes) ≡ keep p (n ∷ []) ++ keep p nodes
  unfolding keep
  keep-cons p n nodes = ground arith

  ids-append : (xs ys : List Node) → ids (xs ++ ys) ≡ ids xs ++ ids ys
  ids-append [] ys = refl
  ids-append (x ∷ xs) ys = ap (◌∷◌ x.id) (ids-append xs ys)

  -- What the loop adds.
  pub record Seen (v w : Scan) (nodes : List Node) : Type 0 where
    pub counted : w.ready_count ≡ v.ready_count + length (keep (survives cfg now) nodes)
    pub picked : w.candidates ≡ v.candidates ++ keep (is_candidate cfg now) nodes
    pub logged : w.manager.destroyed ≡ v.manager.destroyed ++ ids (keep (is_reaped cfg now) nodes)

  joined {ℓ} : {A : Type ℓ} (a b c d e : List A) → b ≡ a ++ c → d ≡ b ++ e → d ≡ a ++ (c ++ e)
  joined a b c d e f g = g ∙ ap (λ x. x ++ e) f ∙ append_assoc a c e

  pub scan-Seen : (v : Scan) (nodes : List Node) → Seen v (scan cfg v nodes now) nodes
  unfolding scan keep
  scan-Seen v [] = record {
    counted = omega arith;
    picked = sym (append-nil v.candidates);
    logged = sym (append-nil v.manager.destroyed);
  }
  scan-Seen v (n ∷ nodes) =
      let one = scan_node-Scanned v n in
      let rest = scan-Seen (scan_node cfg v n now) nodes in
      record {
        counted = omega (
          arith,
          ap length (keep-cons (survives cfg now) n nodes),
          length-append (keep (survives cfg now) (n ∷ [])) (keep (survives cfg now) nodes),
        );
        picked =
            joined _ _ (keep (is_candidate cfg now) (n ∷ [])) _ _ one.picked rest.picked
            ∙ ap (λ x. v.candidates ++ x) (sym (keep-cons (is_candidate cfg now) n nodes));
        logged =
            joined _ _ (ids (keep (is_reaped cfg now) (n ∷ []))) _ _ one.logged rest.logged
            ∙ ap (λ x. v.manager.destroyed ++ x)
                (sym (
                  ap ids (keep-cons (is_reaped cfg now) n nodes)
                  ∙ ids-append (keep (is_reaped cfg now) (n ∷ []))
                      (keep (is_reaped cfg now) nodes)));
      }

  destroy_all-logged :
      (m : Manager) (nodes : List Node)
      → (destroy_all cfg m nodes now).destroyed ≡ m.destroyed ++ ids nodes
  unfolding destroy_all destroy_node
  destroy_all-logged m [] = sym (append-nil m.destroyed)
  destroy_all-logged m (n ∷ nodes) =
      destroy_all-logged (destroy_node cfg m n.id now) nodes
      ∙ append_assoc m.destroyed (n.id ∷ []) (ids nodes)

  -- The `k` oldest.
  abbrev pub oldest : ℕ → List Node → List Node
  oldest k nodes = take k (sort_slice is_older nodes)

  oldest-cfg : boots_before cfg ≡ is_older
  oldest-cfg = fun_ext (λ a. fun_ext (λ b. boots_before-is_older cfg now a b))

  scale_down_lem :
      (m : Manager) (ready target : ℕ) (nodes : List Node)
      → let r = scale_down_excess_ready cfg m now ready target nodes in
        let k = min (ready - target) (length nodes) in
        (r.1 ≡ ready - k) × (r.0.destroyed ≡ m.destroyed ++ ids (oldest k nodes))
  unfolding scale_down_excess_ready
  scale_down_lem m ready target nodes =
      let k = min (ready - target) (length nodes) in
      elim (Bool-cases (leb ready target || leb (length nodes) 0)) [
        | inl t ↦
            let none_left : k ≡ 0 = ground (arith, t) in
            rw (t, none_left) (omega arith, sym (append-nil m.destroyed))
        | inr t ↦
            rw (t, oldest-cfg) (refl, destroy_all-logged m (take k (sort_slice is_older nodes)))
      ]

  pub scale_down_at :
      (m : Manager) (ready target ready' : ℕ) (nodes nodes' : List Node)
      → ready ≡ ready'
      → nodes ≡ nodes'
      → let r = scale_down_excess_ready cfg m now ready target nodes in
        let k = min (ready' - target) (length nodes') in
        (r.1 ≡ ready' - k) × (r.0.destroyed ≡ m.destroyed ++ ids (oldest k nodes'))
  scale_down_at m ready target ready' nodes nodes' e f =
      let (a, b) = scale_down_lem m ready target nodes in
      (
        a ∙ (λ i. e i - min (e i - target) (length (f i))),
        b ∙ (λ i. m.destroyed ++ ids (oldest (min (e i - target) (length (f i))) (f i))),
      )
