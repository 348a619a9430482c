-- ===== src/Agent/Plans.antt =====
-- What sanitizePlannedActions (cmd/node-agent/planner.go) lets a planner have the browser do.
use Prim.Native.String.{len}
use mathlib.Core.Bool.{false≢true}
use mathlib.Core.Option.{some-injective}
use browser_use.Base.{
  ℕ, zero, suc, ◌≤◌, min, String, ◌≡◌, refl, sym, ap, subst, ◌∙◌, ◌⊎◌, inl, inr, Bool, true, false,
  ◌&&◌, ◌||◌, Option, none, some, List, [], ◌∷◌, arith, Bool-cases, Option-cases, All, length, ltb,
  ℤ, pos, negsuc, str_eq, str_eq_iff, is_empty, is_one_of, trim_space, to_lower,
}
use browser_use.Agent.Actions.{
  ExecuteAction, clamped, allowed_types, selector_types, normalized, scroll_direction,
  complete_action, sanitize_action, signature, sanitize_loop, sanitize_planned_actions,
}

abbrev pub IsIn : ℕ → ℤ → Type 0
IsIn most z = (n : ℕ) × (z ≡ pos n) × (n ≤ most)

-- An action of an allowed type, with numbers in their ranges and with what its type needs.
pub record IsClean (a : ExecuteAction) : Type 0 where
  pub allowed : is_one_of a.kind allowed_types ≡ true
  pub pixels : IsIn 3000 a.pixels
  pub timeout : IsIn 60000 a.timeout_ms
  pub delay : IsIn 15000 a.delay_ms
  pub selects : is_one_of a.kind selector_types ≡ true → is_empty a.selector ≡ false
  pub types : str_eq a.kind "type" ≡ true → is_empty a.text ≡ false
  pub waits : str_eq a.kind "wait_for_url_contains" ≡ true → 2 ≤ len a.text
  pub scrolls : str_eq a.kind "scroll" ≡ true → (a.text ≡ "up") ⊎ (a.text ≡ "down")

clamped_lem : (most : ℕ) (z : ℤ) → IsIn most (clamped most z)
clamped_lem most (pos n) = (min n most, refl, omega arith)
clamped_lem most (negsuc n) = (0, refl, omega arith)

kinds_apart :
    (k : String)
    → is_one_of k selector_types ≡ true
    → (str_eq k "wait_for_url_contains" ≡ false) × (str_eq k "scroll" ≡ false)
unfolding is_one_of
kinds_apart k h = (apart "wait_for_url_contains" refl, apart "scroll" refl)
  where
    apart : (t : String) → is_one_of t selector_types ≡ false → str_eq k t ≡ false
    apart t e = elim (Bool-cases (str_eq k t)) [
      | inl q ↦ absurd (
          false≢true (
            sym e
            ∙ subst (λ (s : String). is_one_of s selector_types ≡ true) ((str_eq_iff k t).0 q) h))
      | inr q ↦ q
    ]

type_selects : (k : String) → str_eq k "type" ≡ true → is_one_of k selector_types ≡ true
unfolding is_one_of
type_selects k h = rw ((str_eq_iff k "type").0 h) refl

scroll_direction_lem : (t : String) → (scroll_direction t ≡ "up") ⊎ (scroll_direction t ≡ "down")
unfolding scroll_direction
scroll_direction_lem t = elim (Bool-cases (str_eq (to_lower (trim_space t)) "up")) [
  | inl e ↦ inl (rw (scroll_direction, (str_eq_iff (to_lower (trim_space t)) "up").0 e) refl)
  | inr e ↦ inr (elim (Bool-cases (str_eq (to_lower (trim_space t)) "down")) [
    | inl q ↦ rw (scroll_direction, (str_eq_iff (to_lower (trim_space t)) "down").0 q) refl
    | inr q ↦ rw (scroll_direction, e, q) refl
  ])
]

abbrev is_some {ℓ} : {A : Type ℓ} → Option A → Bool
is_some none = false
is_some (some a) = true

no_action : {a : ExecuteAction} → none ≡ some a → ⊥
no_action h = false≢true (ap is_some h)

url_is_no_scroll :
    (k : String) → str_eq k "wait_for_url_contains" ≡ true → str_eq k "scroll" ≡ true → ⊥
url_is_no_scroll k u s = false≢true (rw ((str_eq_iff k "wait_for_url_contains").0 u) at s)

-- What complete_action adds, for an action with its numbers in range.
complete_action-IsClean :
    (n a : ExecuteAction)
    → is_one_of n.kind allowed_types ≡ true
    → IsIn 3000 n.pixels
    → IsIn 60000 n.timeout_ms
    → IsIn 15000 n.delay_ms
    → complete_action n ≡ some a
    → IsClean a
unfolding complete_action
complete_action-IsClean n a k p t d h = elim (Bool-cases (is_one_of n.kind selector_types)) [
  | inl s ↦ elim (Bool-cases (is_empty n.selector || (str_eq n.kind "type" && is_empty n.text))) [
    | inl e ↦ absurd (no_action (rw (complete_action, s, e) at h))
    | inr e ↦
        let (u, v) = kinds_apart n.kind s in
        subst IsClean (some-injective n a (rw (complete_action, s, e) at h)) (record {
          allowed = k;
          pixels = p;
          timeout = t;
          delay = d;
          selects = λ x. ground (arith, e);
          types = λ x. ground (arith, e, x);
          waits = λ x. absurd (false≢true (sym u ∙ x));
          scrolls = λ x. absurd (false≢true (sym v ∙ x));
        })
  ]
  | inr s ↦ elim (Bool-cases (str_eq n.kind "wait_for_url_contains")) [
    | inl u ↦ elim (Bool-cases (ltb (len n.text) 2)) [
      | inl e ↦ absurd (no_action (rw (complete_action, s, u, e) at h))
      | inr e ↦ subst IsClean (some-injective n a (rw (complete_action, s, u, e) at h)) (record {
        allowed = k;
        pixels = p;
        timeout = t;
        delay = d;
        selects = λ x. absurd (false≢true (sym s ∙ x));
        types = λ x. absurd (false≢true (sym s ∙ type_selects n.kind x));
        waits = λ x. ground (arith, e);
        scrolls = λ x. absurd (url_is_no_scroll n.kind u x);
      })
    ]
    | inr u ↦ elim (Bool-cases (str_eq n.kind "scroll")) [
      | inl e ↦
          subst IsClean
            (some-injective (record n { text = scroll_direction n.text }) a
              (rw (complete_action, s, u, e) at h))
            (record {
              allowed = k;
              pixels = p;
              timeout = t;
              delay = d;
              selects = λ x. absurd (false≢true (sym s ∙ x));
              types = λ x. absurd (false≢true (sym s ∙ type_selects n.kind x));
              waits = λ x. absurd (false≢true (sym u ∙ x));
              scrolls = λ x. scroll_direction_lem n.text;
            })
      | inr e ↦ subst IsClean (some-injective n a (rw (complete_action, s, u, e) at h)) (record {
        allowed = k;
        pixels = p;
        timeout = t;
        delay = d;
        selects = λ x. absurd (false≢true (sym s ∙ x));
        types = λ x. absurd (false≢true (sym s ∙ type_selects n.kind x));
        waits = λ x. absurd (false≢true (sym u ∙ x));
        scrolls = λ x. absurd (false≢true (sym e ∙ x));
      })
    ]
  ]
]

sanitize_action-IsClean : (x a : ExecuteAction) → sanitize_action x ≡ some a → IsClean a
unfolding sanitize_action normalized
sanitize_action-IsClean x a h =
    let kind : String = to_lower (trim_space x.kind) in
    elim (Bool-cases (is_one_of kind allowed_types)) [
      | inl k ↦
          complete_action-IsClean (normalized kind x) a k (clamped_lem 3000 x.pixels)
            (clamped_lem 60000 x.timeout_ms) (clamped_lem 15000 x.delay_ms)
            (rw (sanitize_action, k) at h)
      | inr k ↦ absurd (no_action (rw (sanitize_action, k) at h))
    ]

-- A list of different signatures, none of which is in `seen`.
abbrev pub AreNew : List String → List ExecuteAction → Type 0
AreNew seen [] = Unit
AreNew seen (a ∷ later) = (is_one_of (signature a) seen ≡ false) × AreNew (signature a ∷ seen) later

sanitize_loop_lem :
    (room : ℕ) (seen : List String) (actions : List ExecuteAction)
    → let out = sanitize_loop room seen actions in
      (length out ≤ room) × All IsClean out × AreNew seen out
unfolding sanitize_loop
sanitize_loop_lem zero seen actions = (omega arith, tt, tt)
sanitize_loop_lem (suc room) seen [] = (omega arith, tt, tt)
sanitize_loop_lem (suc room) seen (x ∷ xs) = elim (Option-cases (sanitize_action x)) [
  | inl e ↦ rw (sanitize_loop, e) (sanitize_loop_lem (suc room) seen xs)
  | inr (a, e) ↦ elim (Bool-cases (is_one_of (signature a) seen)) [
    | inl s ↦ rw (sanitize_loop, e, s) (sanitize_loop_lem (suc room) seen xs)
    | inr s ↦
        let (short, clean, fresh) = sanitize_loop_lem room (signature a ∷ seen) xs in
        rw (sanitize_loop, e, s)
          (omega (arith, short), (sanitize_action-IsClean x a e, clean), (s, fresh))
  ]
]

-- Whatever a planner answers, what is carried out of it is at most twelve actions, no two with the same
-- signature, each of an allowed type with its scroll distance, timeout and delay inside their ranges, and
-- with what its type needs: a selector, a text to type, two bytes of a URL to wait for, or a direction.
pub sanitize_planned_actions_lem :
    (actions : List ExecuteAction)
    → let out = sanitize_planned_actions actions in
      (length out ≤ 12) × All IsClean out × AreNew [] out
unfolding sanitize_planned_actions
sanitize_planned_actions_lem actions = sanitize_loop_lem 12 [] actions
