-- ===== src/Base/Strings.antt =====
-- Go's strings.HasSuffix, TrimPrefix, TrimSuffix, Split at one character, Index and Join, and what
-- encoding/json and net/http leave to the text of a request.
use Prim.Native.Nat.{ℕ}
use Prim.Native.Char.{Char, code}
use Prim.Native.String.{String, ◌++◌}
use mathlib.Core.Path.{◌≡◌, refl, sym, ap, ◌∙◌}
use mathlib.Core.Bool.{Bool, true, false, ◌||◌}
use mathlib.Core.Option.{Option, none, some}
use mathlib.Core.List.{List, [], ◌∷◌}
use mathlib.Core.Logic.{inl, inr}
use native.Mathlib.Omega.{arith}
use text.Mathlib.TextEquality.{Char-path, starts_with_iff}
use text.Mathlib.TextPositions.{starts_with-append}
use text.Mathlib.TextLemmas.{nil-append, cons-append}
use browser_use.Base.Bools.{if◌then◌else◌, ◌==◌, Bool-cases}
use browser_use.Base.Text.{str_eq, str_eq_iff, is_empty, trim_right, has_prefix}

-- strings.HasSuffix.
unfoldable pub has_suffix : String → String → Bool
has_suffix String.[] t = is_empty t
has_suffix (String.◌∷◌ c s) t = str_eq (String.◌∷◌ c s) t || has_suffix s t

-- The text behind a prefix.
unfoldable pub strip_prefix : String → String → Option String
strip_prefix s String.[] = some s
strip_prefix String.[] (String.◌∷◌ d t) = none
strip_prefix (String.◌∷◌ c s) (String.◌∷◌ d t) = if code c == code d then strip_prefix s t else none

-- strings.TrimPrefix.
unfoldable pub trim_prefix : String → String → String
unfolding strip_prefix
trim_prefix s t = elim (strip_prefix s t) [ none ↦ s | some r ↦ r ]

-- strings.TrimSuffix.
unfoldable pub trim_suffix : String → String → String
trim_suffix String.[] t = String.[]
trim_suffix (String.◌∷◌ c s) t =
    let rest = trim_suffix s t in if str_eq (String.◌∷◌ c s) t then String.[] else String.◌∷◌ c rest

-- The text before the first character with the code `sep`.
unfoldable pub before : ℕ → String → String
before sep String.[] = String.[]
before sep (String.◌∷◌ c s) = if code c == sep then String.[] else String.◌∷◌ c (before sep s)

-- The first character joined to the first part.
abbrev pub onto_first : String → List String → List String
onto_first s [] = s ∷ []
onto_first s (t ∷ ts) = (s ++ t) ∷ ts

-- strings.Split with a separator of one character.
unfoldable pub split : ℕ → String → List String
split sep String.[] = "" ∷ []
split sep (String.◌∷◌ c s) =
    if code c == sep then "" ∷ split sep s else onto_first (String.◌∷◌ c String.[]) (split sep s)

-- strings.Join.
unfoldable pub join : String → List String → String
join sep [] = ""
join sep (s ∷ []) = s
join sep (s ∷ t ∷ ts) = s ++ (sep ++ join sep (t ∷ ts))

-- Whether the text is one of the list's.
unfoldable pub is_one_of : String → List String → Bool
is_one_of s [] = false
is_one_of s (t ∷ ts) = str_eq s t || is_one_of s ts

pub strip_prefix-append : (t r : String) → strip_prefix (t ++ r) t ≡ some r
unfolding strip_prefix
strip_prefix-append String.[] r = ap some (nil-append r)
strip_prefix-append (String.◌∷◌ c t) r =
    rw (cons-append c t r) (ground (arith, strip_prefix-append t r))

join-onto_first :
    (sep : String) (c : Char) (ss : List String)
    → join sep (onto_first (String.◌∷◌ c String.[]) ss) ≡ String.◌∷◌ c (join sep ss)
unfolding join
join-onto_first sep c [] = refl
join-onto_first sep c (t ∷ []) = rw (cons-append c "" t, nil-append t) refl
join-onto_first sep c (t ∷ u ∷ us) =
    rw (cons-append c "" t, nil-append t, cons-append c t (sep ++ join sep (u ∷ us))) refl

split_first : (sep : ℕ) (s : String) → (x : String) × (xs : List String) × (split sep s ≡ x ∷ xs)
unfolding split
split_first sep String.[] = ("", [], refl)
split_first sep (String.◌∷◌ c s) = elim (Bool-cases (code c == sep)) [
  | inl e ↦ rw e ("", split sep s, refl)
  | inr e ↦ let (x, xs, q) = split_first sep s in rw (e, q) (_, _, refl)
]

same_code : (c d : Char) → (code c == code d) ≡ true → code d ≡ code c
same_code c d e = ground arith

-- Joining the parts gives the text back.
pub join-split : (d : Char) (s : String) → join (String.◌∷◌ d String.[]) (split (code d) s) ≡ s
unfolding split join
join-split d String.[] = refl
join-split d (String.◌∷◌ c s) = elim (Bool-cases (code c == code d)) [
  | inl e ↦
      let (x, xs, q) = split_first (code d) s in
      rw
        (
          e,
          q,
          nil-append (String.◌∷◌ d "" ++ join (String.◌∷◌ d "") (x ∷ xs)),
          cons-append d "" (join (String.◌∷◌ d "") (x ∷ xs)),
          nil-append (join (String.◌∷◌ d "") (x ∷ xs)),
          sym q,
        )
        (λ i. String.◌∷◌ (Char-path d c (same_code c d e) i) (join-split d s i))
  | inr e ↦
      rw (e, join-onto_first (String.◌∷◌ d String.[]) c (split (code d) s), join-split d s) refl
]

has_suffix_self : (t : String) → has_suffix t t ≡ true
unfolding has_suffix
has_suffix_self String.[] = refl
has_suffix_self (String.◌∷◌ c t) = rw ((str_eq_iff (String.◌∷◌ c t) (String.◌∷◌ c t)).1 refl) refl

pub has_suffix-append : (s t : String) → has_suffix (s ++ t) t ≡ true
unfolding has_suffix
has_suffix-append String.[] t = rw (nil-append t) (has_suffix_self t)
has_suffix-append (String.◌∷◌ c s) t =
    rw (cons-append c s t) (ground (arith, has_suffix-append s t))

split_test : split 44 "a,,bc" ≡ "a" ∷ "" ∷ "bc" ∷ []
unfolding split
split_test = refl

trim_test : trim_suffix (trim_prefix "/v1/tasks/x/replay" "/v1/tasks/") "/replay" ≡ "x"
unfolding trim_prefix trim_suffix
trim_test = refl

suffix_test : has_suffix "/v1/tasks/x/cancel" "/cancel" ≡ true
unfolding has_suffix
suffix_test = refl

pub is_empty-append : (s t : String) → is_empty t ≡ false → is_empty (s ++ t) ≡ false
is_empty-append String.[] t h = rw (nil-append t) h
is_empty-append (String.◌∷◌ c s) t h = rw (cons-append c s t) refl

-- A text is trimmed when it neither starts nor ends with a space.
pub trim_right-append :
    (s t : String) → trim_right t ≡ t → is_empty t ≡ false → trim_right (s ++ t) ≡ s ++ t
unfolding trim_right
trim_right-append String.[] t h k = rw (nil-append t) h
trim_right-append (String.◌∷◌ c s) t h k =
    rw (cons-append c s t, trim_right-append s t h k, is_empty-append s t k) (ground arith)

pub has_suffix_split : (s t : String) → has_suffix s t ≡ true → (x : String) × (s ≡ x ++ t)
unfolding has_suffix
has_suffix_split String.[] String.[] h = ("", sym (nil-append ""))
has_suffix_split String.[] (String.◌∷◌ d t) h = cc
has_suffix_split (String.◌∷◌ c s) t h = elim (Bool-cases (str_eq (String.◌∷◌ c s) t)) [
  | inl e ↦ ("", (str_eq_iff (String.◌∷◌ c s) t).0 e ∙ sym (nil-append t))
  | inr e ↦
      let (x, q) = has_suffix_split s t (rw e at h) in
      (String.◌∷◌ c x, ap (String.◌∷◌ c) q ∙ sym (cons-append c x t))
]

pub has_prefix_split : (s t : String) → has_prefix s t ≡ true → (x : String) × (s ≡ t ++ x)
has_prefix_split s t h = let (x, e) = (starts_with_iff s t).0 h in (x, sym e)

pub has_prefix-append : (t x : String) → has_prefix (t ++ x) t ≡ true
has_prefix-append t x = starts_with-append t x

pub trim_prefix-append : (t x : String) → trim_prefix (t ++ x) t ≡ x
unfolding trim_prefix
trim_prefix-append t x = rw (trim_prefix, strip_prefix-append t x) refl
