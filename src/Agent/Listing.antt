-- ===== src/Agent/Listing.antt =====
-- Which hosts an allow list of the egress policy (cmd/node-agent/main.go) covers.
use Prim.Native.String.{◌++◌}
use mathlib.Core.Bool.{false≢true}
use mathlib.Core.List.{Memᴰ}
use browser_use.Base.{
  String, ◌≡◌, ◌≢◌, refl, sym, ◌∙◌, subst, has_prefix, ◌↔◌, ◌⊎◌, inl, inr, Bool, true, false, ◌||◌,
  List, [], ◌∷◌, arith, Bool-cases, str_eq, str_eq_iff, has_prefix_split, has_prefix-append,
  trim_prefix-append, is_empty, trim_space, has_suffix-append, has_suffix_split,
}
use browser_use.Agent.Egress.{base_of, host_matches, host_allowed}

-- The host is the entry's domain or one below it.
abbrev pub IsWithin : String → String → Type 0
IsWithin target base = (target ≡ base) ⊎ ((x : String) × (target ≡ x ++ ("." ++ base)))

-- What an entry of the list stands for: itself, or what follows a leading "*.".
abbrev pub StandsFor : String → String → Type 0
StandsFor entry base =
    (entry ≡ "*." ++ base) ⊎ ((entry ≡ base) × ((x : String) → entry ≢ "*." ++ x))

StandsFor-base_of : (entry : String) → StandsFor entry (base_of entry)
unfolding base_of
StandsFor-base_of entry = elim (Bool-cases (has_prefix entry "*.")) [
  | inl e ↦
      let (x, f) = has_prefix_split entry "*." e in inl (rw (e, f, trim_prefix-append "*." x) refl)
  | inr e ↦ rw e (inr (refl, λ x f. false≢true (sym (rw f at e) ∙ has_prefix-append "*." x)))
]

base_unique : (entry base : String) → StandsFor entry base → base_of entry ≡ base
unfolding base_of
base_unique entry base (inl e) =
    rw (e, base_of, has_prefix-append "*." base, trim_prefix-append "*." base) refl
base_unique entry base (inr (e, f)) = elim (Bool-cases (has_prefix entry "*.")) [
  | inl g ↦ let (x, h) = has_prefix_split entry "*." g in absurd (f x h)
  | inr g ↦ rw (base_of, g) e
]

-- The host is on the list. `lower` is strings.ToLower.
abbrev pub IsListed : (String → String) → String → List String → Type 0
IsListed lower host items =
    (item : String) × Memᴰ item items
    × (is_empty (lower (trim_space item)) ≡ false)
    × (base : String) × StandsFor (lower (trim_space item)) base
    × IsWithin (lower (trim_space host)) base

or_right : (a b : Bool) → b ≡ true → a || b ≡ true
or_right a b h = ground arith

host_matches_iff :
    (target candidate : String)
    → (host_matches target candidate ≡ true) ↔ IsWithin target (base_of candidate)
unfolding host_matches
host_matches_iff target candidate = (
  λ h. elim (Bool-cases (str_eq target (base_of candidate))) [
    | inl e ↦ inl ((str_eq_iff target (base_of candidate)).0 e)
    | inr e ↦ inr (has_suffix_split target ("." ++ base_of candidate) (rw (host_matches, e) at h))
  ],
  λ h. elim h [
    | inl e ↦ rw (host_matches, (str_eq_iff target (base_of candidate)).1 e) refl
    | inr (x, e) ↦
        or_right (str_eq target (base_of candidate)) _
          (rw e (has_suffix-append x ("." ++ base_of candidate)))
  ],
)

allowed-IsListed :
    (lower : String → String) (host : String) (items : List String)
    → host_allowed lower host items ≡ true
    → IsListed lower host items
unfolding host_allowed
allowed-IsListed lower host [] h = absurd (false≢true h)
allowed-IsListed lower host (item ∷ items) h =
    let later : host_allowed lower host items ≡ true → IsListed lower host (item ∷ items) = λ k.
      let (x, m, r, q, b, w) = allowed-IsListed lower host items k in
      (x, Memᴰ.tail m, r, q, b, w) in
    elim (Bool-cases (is_empty (lower (trim_space item)))) [
      | inl e ↦ later (rw (host_allowed, e) at h)
      | inr e ↦
          elim (Bool-cases (host_matches (lower (trim_space host)) (lower (trim_space item)))) [
            | inl f ↦ (
              item,
              Memᴰ.head refl,
              e,
              base_of (lower (trim_space item)),
              StandsFor-base_of (lower (trim_space item)),
              (host_matches_iff (lower (trim_space host)) (lower (trim_space item))).0 f,
            )
            | inr f ↦ later (rw (host_allowed, e, f) at h)
          ]
    ]

listed_later :
    (lower : String → String) (host item : String) (items : List String)
    → host_allowed lower host items ≡ true
    → host_allowed lower host (item ∷ items) ≡ true
unfolding host_allowed
listed_later lower host item items h = ground (arith, h)

IsListed-allowed :
    (lower : String → String) (host item : String) (items : List String)
    → Memᴰ item items
    → is_empty (lower (trim_space item)) ≡ false
    → IsWithin (lower (trim_space host)) (base_of (lower (trim_space item)))
    → host_allowed lower host items ≡ true
unfolding host_allowed
IsListed-allowed lower host item [] m e w = elim m [ ]
IsListed-allowed lower host item (first ∷ items) (Memᴰ.tail m) e w =
    listed_later lower host first items (IsListed-allowed lower host item items m e w)
IsListed-allowed lower host item (first ∷ items) (Memᴰ.head q) e w =
    subst (λ (i : String). host_allowed lower host (i ∷ items) ≡ true) q
      (rw
        (
          host_allowed,
          e,
          (host_matches_iff (lower (trim_space host)) (lower (trim_space item))).1 w,
        )
        refl)

-- A host is allowed exactly when some entry of the list that is not blank stands for the host or for a
-- domain above it, once both are trimmed and in lower case: an entry that begins with "*." stands for
-- what follows, and any other for itself.
pub host_allowed_lem :
    (lower : String → String) (host : String) (items : List String)
    → (host_allowed lower host items ≡ true) ↔ IsListed lower host items
host_allowed_lem lower host items = (
  allowed-IsListed lower host items,
  λ (item, m, e, base, b, w). IsListed-allowed lower host item items m e (
      subst (IsWithin (lower (trim_space host)))
        (sym (base_unique (lower (trim_space item)) base b)) w),
)
