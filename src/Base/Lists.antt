-- ===== src/Base/Lists.antt =====
-- Lists measured by native numbers, a Boolean filter, and a predicate on all elements.
use Prim.Native.Nat.{ℕ, zero, suc, ◌+◌, ◌≤◌, min}
use mathlib.Core.Path.{◌≡◌, ◌∙◌}
use mathlib.Core.Bool.{Bool, true}
use mathlib.Core.Logic.{inl, inr}
use mathlib.Core.List.Memᴰ
use mathlib.Core.List.{List, [], ◌∷◌, ◌++◌, Memᴰ, Permᴰ}
use native.Mathlib.Omega.{arith}
use browser_use.Base.Bools.{if◌then◌else◌, Bool-cases}

module _ {ℓ} {A : Type ℓ} where
  abbrev pub length : List A → ℕ
  length [] = 0
  length (x ∷ xs) = suc (length xs)

  abbrev pub take : ℕ → List A → List A
  take zero xs = []
  take (suc n) [] = []
  take (suc n) (x ∷ xs) = x ∷ take n xs

  abbrev pub drop : ℕ → List A → List A
  drop zero xs = xs
  drop (suc n) [] = []
  drop (suc n) (x ∷ xs) = drop n xs

  -- `for … { if !p { continue }; out = append(out, x) }`
  unfoldable pub keep : (A → Bool) → List A → List A
  keep p [] = []
  keep p (x ∷ xs) = if p x then x ∷ keep p xs else keep p xs

  pub length-append : (xs ys : List A) → length (xs ++ ys) ≡ length xs + length ys
  length-append [] ys = omega arith
  length-append (x ∷ xs) ys = omega (arith, length-append xs ys)

  pub length-take : (n : ℕ) (xs : List A) → length (take n xs) ≡ min n (length xs)
  length-take zero xs = omega arith
  length-take (suc n) [] = omega arith
  length-take (suc n) (x ∷ xs) = omega (arith, length-take n xs)

  pub length-keep-le : (p : A → Bool) (xs : List A) → length (keep p xs) ≤ length xs
  unfolding keep
  length-keep-le p [] = omega arith
  length-keep-le p (x ∷ xs) = ground (arith, length-keep-le p xs)

abbrev pub All {ℓ ℓ'} : {T : Type ℓ} → (T → Type ℓ') → List T → Type ℓ'
All Holds [] = Unit
All Holds (first ∷ rest) = Holds first × All Holds rest

-- An element is kept exactly when it is there and passes the test.
module _ {ℓ} {A : Type ℓ} (p : A → Bool) where
  pub keep-mem : (a : A) (xs : List A) → Memᴰ a (keep p xs) → Memᴰ a xs × (p a ≡ true)
  unfolding keep
  keep-mem a [] m = elim m [ ]
  keep-mem a (x ∷ xs) m = elim (Bool-cases (p x)) [
    | inl t ↦ elim (Memᴰ.cases_cons (rw (t, keep) at m)) [
      | inl e ↦ (Memᴰ.head e, rw e t)
      | inr n ↦ let (k, h) = keep-mem a xs n in (Memᴰ.tail k, h)
    ]
    | inr t ↦ let (k, h) = keep-mem a xs (rw (t, keep) at m) in (Memᴰ.tail k, h)
  ]

  pub mem-keep : (a : A) (xs : List A) → Memᴰ a xs → p a ≡ true → Memᴰ a (keep p xs)
  unfolding keep
  mem-keep a [] m h = elim m [ ]
  mem-keep a (x ∷ xs) (Memᴰ.head e) h = rw (rw e at h) (Memᴰ.head e)
  mem-keep a (x ∷ xs) (Memᴰ.tail m) h = elim (Bool-cases (p x)) [
    | inl t ↦ rw t (Memᴰ.tail (mem-keep a xs m h))
    | inr t ↦ rw t (mem-keep a xs m h)
  ]

-- A rearrangement has the same elements.
pub Permᴰ-mem {ℓ} : {A : Type ℓ} {xs ys : List A} (a : A) → Permᴰ xs ys → Memᴰ a xs → Memᴰ a ys
Permᴰ-mem a Permᴰ.nil m = m
Permᴰ-mem a (Permᴰ.cons e p) (Memᴰ.head f) = Memᴰ.head (f ∙ e)
Permᴰ-mem a (Permᴰ.cons e p) (Memᴰ.tail m) = Memᴰ.tail (Permᴰ-mem a p m)
Permᴰ-mem a (Permᴰ.swap e f) (Memᴰ.head g) = Memᴰ.tail (Memᴰ.head (g ∙ e))
Permᴰ-mem a (Permᴰ.swap e f) (Memᴰ.tail (Memᴰ.head g)) = Memᴰ.head (g ∙ f)
Permᴰ-mem a (Permᴰ.swap e f) (Memᴰ.tail (Memᴰ.tail m)) = Memᴰ.tail (Memᴰ.tail m)
Permᴰ-mem a (Permᴰ.trans p q) m = Permᴰ-mem a q (Permᴰ-mem a p m)
