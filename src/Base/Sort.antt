-- ===== src/Base/Sort.antt =====
-- sort.Slice with a Boolean `less`. Go's sort is not stable, so the source fixes no order among
-- elements that compare equal. The model inserts from the right, which keeps those in the order of
-- the input; where the input comes from a map, that order is arbitrary, and so is theirs.
use Prim.Native.Nat.{ℕ, zero, suc, ◌≤◌}
use mathlib.Core.Path.{◌≡◌, refl, ap}
use mathlib.Core.Bool.{Bool, true, false}
use mathlib.Core.Logic.{◌⊎◌, inl, inr}
use mathlib.Core.List.Perm
use mathlib.Core.List.Memᴰ
use mathlib.Core.List.{List, [], ◌∷◌, Perm, Memᴰ}
use native.Mathlib.Omega.{arith}
use browser_use.Base.Bools.{if◌then◌else◌, Bool-cases}
use browser_use.Base.Lists.{length, take, All, length-take}

module _ {ℓ} {A : Type ℓ} (less : A → A → Bool) where
  unfoldable pub place : A → List A → List A
  place x [] = x ∷ []
  place x (y ∷ ys) = if less y x then y ∷ place x ys else x ∷ y ∷ ys

  unfoldable pub sort_slice : List A → List A
  unfolding place
  sort_slice [] = []
  sort_slice (x ∷ xs) = place x (sort_slice xs)

  -- No element comes before one that is less.
  abbrev pub IsSorted : List A → Type ℓ
  IsSorted [] = Unit
  IsSorted (x ∷ xs) = All (λ y. less y x ≡ false) xs × IsSorted xs

  pub place-perm : (x : A) (ys : List A) → Perm (place x ys) (x ∷ ys)
  unfolding place
  place-perm x [] = Perm.refl (x ∷ [])
  place-perm x (y ∷ ys) = elim (Bool-cases (less y x)) [
    | inl t ↦ rw t (Perm.trans (Perm.cons y (place-perm x ys)) (Perm.swap x y ys))
    | inr t ↦ rw t (Perm.refl (x ∷ y ∷ ys))
  ]

  pub sort_slice-perm : (xs : List A) → Perm (sort_slice xs) xs
  unfolding sort_slice
  sort_slice-perm [] = Perm.nil
  sort_slice-perm (x ∷ xs) =
      Perm.trans (place-perm x (sort_slice xs)) (Perm.cons x (sort_slice-perm xs))

  place-mem : (a x : A) (ys : List A) → Memᴰ a (place x ys) → Memᴰ a (x ∷ ys)
  unfolding place
  place-mem a x [] m = m
  place-mem a x (y ∷ ys) m = elim (Bool-cases (less y x)) [
    | inl t ↦ elim (Memᴰ.cases_cons (rw (t, place) at m)) [
      | inl e ↦ Memᴰ.tail (Memᴰ.head e)
      | inr n ↦ elim (Memᴰ.cases_cons (place-mem a x ys n)) [
        | inl e ↦ Memᴰ.head e
        | inr k ↦ Memᴰ.tail (Memᴰ.tail k)
      ]
    ]
    | inr t ↦ rw (t, place) at m
  ]

  mem-place : (a x : A) (ys : List A) → Memᴰ a (x ∷ ys) → Memᴰ a (place x ys)
  unfolding place
  mem-place a x [] m = m
  mem-place a x (y ∷ ys) m = elim (Bool-cases (less y x)) [
    | inl t ↦ rw t (elim (Memᴰ.cases_cons m) [
      | inl e ↦ Memᴰ.tail (mem-place a x ys (Memᴰ.head e))
      | inr n ↦ elim (Memᴰ.cases_cons n) [
        | inl e ↦ Memᴰ.head e
        | inr k ↦ Memᴰ.tail (mem-place a x ys (Memᴰ.tail k))
      ]
    ])
    | inr t ↦ rw t m
  ]

  -- Sorting neither adds nor loses an element.
  pub sort_slice-mem : (a : A) (xs : List A) → Memᴰ a (sort_slice xs) → Memᴰ a xs
  unfolding sort_slice
  sort_slice-mem a [] m = m
  sort_slice-mem a (x ∷ xs) m = elim (Memᴰ.cases_cons (place-mem a x (sort_slice xs) m)) [
    | inl e ↦ Memᴰ.head e
    | inr n ↦ Memᴰ.tail (sort_slice-mem a xs n)
  ]

  pub mem-sort_slice : (a : A) (xs : List A) → Memᴰ a xs → Memᴰ a (sort_slice xs)
  unfolding sort_slice
  mem-sort_slice a [] m = m
  mem-sort_slice a (x ∷ xs) (Memᴰ.head e) = mem-place a x (sort_slice xs) (Memᴰ.head e)
  mem-sort_slice a (x ∷ xs) (Memᴰ.tail m) =
      mem-place a x (sort_slice xs) (Memᴰ.tail (mem-sort_slice a xs m))

  pub length-place : (x : A) (ys : List A) → length (place x ys) ≡ suc (length ys)
  unfolding place
  length-place x [] = refl
  length-place x (y ∷ ys) = ground (arith, length-place x ys)

  pub length-sort_slice : (xs : List A) → length (sort_slice xs) ≡ length xs
  unfolding sort_slice
  length-sort_slice [] = refl
  length-sort_slice (x ∷ xs) = ground (arith, length-place x (sort_slice xs), length-sort_slice xs)

  pub IsSorted-take : (n : ℕ) (xs : List A) → IsSorted xs → IsSorted (take n xs)
  IsSorted-take zero xs h = tt
  IsSorted-take (suc n) [] h = tt
  IsSorted-take (suc n) (x ∷ xs) h = (All-take n xs h.0, IsSorted-take n xs h.1)
    where
      All-take :
          (k : ℕ) (ys : List A)
          → All (λ y. less y x ≡ false) ys
          → All (λ y. less y x ≡ false) (take k ys)
      All-take zero ys g = tt
      All-take (suc k) [] g = tt
      All-take (suc k) (y ∷ ys) g = (g.0, All-take k ys g.1)

-- `less` orders like a strict weak order: what sort.Slice asks for.
pub record IsOrder {ℓ} {A : Type ℓ} (less : A → A → Bool) : Type ℓ where
  pub asymmetric : (a b : A) → less a b ≡ true → less b a ≡ false
  pub transitive : (a b c : A) → less b a ≡ false → less c b ≡ false → less c a ≡ false

module _ {ℓ} {A : Type ℓ} (less : A → A → Bool) (o : IsOrder less) where
  All-above :
      (x y : A) (ys : List A)
      → less y x ≡ false
      → All (λ z. less z y ≡ false) ys
      → All (λ z. less z x ≡ false) ys
  All-above x y [] e h = tt
  All-above x y (z ∷ ys) e h = (o.transitive x y z e h.0, All-above x y ys e h.1)

  All-place :
      (x y : A) (ys : List A)
      → less x y ≡ false
      → All (λ z. less z y ≡ false) ys
      → All (λ z. less z y ≡ false) (place less x ys)
  unfolding place
  All-place x y [] e h = (e, tt)
  All-place x y (z ∷ ys) e h = elim (Bool-cases (less z x)) [
    | inl t ↦ rw t (h.0, All-place x y ys e h.1)
    | inr t ↦ rw t (e, h)
  ]

  place-IsSorted : (x : A) (ys : List A) → IsSorted less ys → IsSorted less (place less x ys)
  unfolding place
  place-IsSorted x [] h = (tt, tt)
  place-IsSorted x (y ∷ ys) h = elim (Bool-cases (less y x)) [
    | inl t ↦ rw t (All-place x y ys (o.asymmetric y x t) h.0, place-IsSorted x ys h.1)
    | inr t ↦ rw t ((t, All-above x y ys t h.0), h)
  ]

  -- The result is sorted.
  pub sort_slice-IsSorted : (xs : List A) → IsSorted less (sort_slice less xs)
  unfolding sort_slice
  sort_slice-IsSorted [] = tt
  sort_slice-IsSorted (x ∷ xs) = place-IsSorted x (sort_slice less xs) (sort_slice-IsSorted xs)

-- `if len(items) > limit { items = items[:limit] }`, after sorting.
abbrev pub first_sorted {ℓ} : {A : Type ℓ} → (A → A → Bool) → ℕ → List A → List A
first_sorted less limit xs = take limit (sort_slice less xs)

pub mem-take {ℓ} : {A : Type ℓ} (a : A) (n : ℕ) (xs : List A) → Memᴰ a (take n xs) → Memᴰ a xs
mem-take a zero xs m = elim m [ ]
mem-take a (suc n) [] m = elim m [ ]
mem-take a (suc n) (x ∷ xs) (Memᴰ.head e) = Memᴰ.head e
mem-take a (suc n) (x ∷ xs) (Memᴰ.tail m) = Memᴰ.tail (mem-take a n xs m)

module _ {ℓ} {A : Type ℓ} (less : A → A → Bool) where
  pub first_sorted-mem : (a : A) (n : ℕ) (xs : List A) → Memᴰ a (first_sorted less n xs) → Memᴰ a xs
  first_sorted-mem a n xs m = sort_slice-mem less a xs (mem-take a n (sort_slice less xs) m)

  take_or_left :
      (a : A) (n : ℕ) (xs : List A)
      → IsSorted less xs
      → Memᴰ a xs
      → Memᴰ a (take n xs) ⊎ ((length (take n xs) ≡ n) × All (λ y. less a y ≡ false) (take n xs))
  take_or_left a zero xs h m = inr (refl, tt)
  take_or_left a (suc n) [] h m = elim m [ ]
  take_or_left a (suc n) (x ∷ xs) h (Memᴰ.head e) = inl (Memᴰ.head e)
  take_or_left a (suc n) (x ∷ xs) h (Memᴰ.tail m) = elim (take_or_left a n xs h.1 m) [
    | inl k ↦ inl (Memᴰ.tail k)
    | inr (l, g) ↦ inr (ap suc l, (All-mem a xs h.0 m, g))
  ]
    where
      All-mem :
          (b : A) (ys : List A) → All (λ y. less y x ≡ false) ys → Memᴰ b ys → less b x ≡ false
      All-mem b [] q k = elim k [ ]
      All-mem b (y ∷ ys) q (Memᴰ.head e) = rw e q.0
      All-mem b (y ∷ ys) q (Memᴰ.tail k) = All-mem b ys q.1 k

  pub first_sorted-IsSorted :
      IsOrder less → (n : ℕ) (xs : List A) → IsSorted less (first_sorted less n xs)
  first_sorted-IsSorted o n xs =
      IsSorted-take less n (sort_slice less xs) (sort_slice-IsSorted less o xs)

  -- Every element is among the first `n` in order, or there are `n` of them and it is less than none.
  pub mem-first_sorted :
      IsOrder less
      → (a : A) (n : ℕ) (xs : List A) → Memᴰ a xs
      → Memᴰ a (first_sorted less n xs)
        ⊎ ((length (first_sorted less n xs) ≡ n)
            × All (λ y. less a y ≡ false) (first_sorted less n xs))
  mem-first_sorted o a n xs m =
      take_or_left a n (sort_slice less xs) (sort_slice-IsSorted less o xs)
        (mem-sort_slice less a xs m)

  pub length-first_sorted-le : (n : ℕ) (xs : List A) → length (first_sorted less n xs) ≤ n
  length-first_sorted-le n xs = omega (arith, length-take {ℓ} n (sort_slice less xs))
