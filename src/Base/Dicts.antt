-- ===== src/Base/Dicts.antt =====
-- Go's map[string]V as an association list. A Go map has no order of its own: where the source
-- ranges over one, the model takes the order in which the entries come as an argument.
use Prim.Native.String.{String}
use mathlib.Core.Path.{◌≡◌, refl, sym, ap, subst, ◌∙◌}
use mathlib.Core.Logic.{◌≢◌, inl, inr}
use mathlib.Core.Option.{Option, none, some, some-injective}
use mathlib.Core.List.Memᴰ
use mathlib.Core.List.{List, [], ◌∷◌, map, Memᴰ}
use native.Mathlib.Omega.{arith}
use browser_use.Base.Bools.{if◌then◌else◌, Bool-cases}
use browser_use.Base.Lists.{All}
use browser_use.Base.Text.{str_eq, str_eq_iff}

abbrev pub Dict {ℓ} : Type ℓ → Type ℓ
Dict V = List (String × V)

module _ {ℓ} {V : Type ℓ} where
  -- `v, ok := m[k]`
  unfoldable pub lookup : String → Dict V → Option V
  lookup k [] = none
  lookup k ((j, v) ∷ m) = if str_eq j k then some v else lookup k m

  -- `m[k] = v`
  unfoldable pub insert : String → V → Dict V → Dict V
  insert k v [] = (k, v) ∷ []
  insert k v ((j, w) ∷ m) = if str_eq j k then (k, v) ∷ m else (j, w) ∷ insert k v m

  -- `delete(m, k)`
  unfoldable pub delete : String → Dict V → Dict V
  delete k [] = []
  delete k ((j, v) ∷ m) = if str_eq j k then delete k m else (j, v) ∷ delete k m

  pub lookup-insert :
      (key asked : String) (value : V) (entries : Dict V)
      → lookup asked (insert key value entries)
        ≡ (if str_eq key asked then some value else lookup asked entries)
  unfolding lookup insert
  lookup-insert key asked value [] = refl
  lookup-insert key asked value ((first, old) ∷ entries) = ground (
    arith,
    str_eq_iff key asked,
    str_eq_iff first key,
    str_eq_iff first asked,
    lookup-insert key asked value entries,
  )

  pub lookup-delete :
      (k j : String) (m : Dict V)
      → lookup j (delete k m) ≡ (if str_eq k j then none else lookup j m)
  unfolding lookup delete
  lookup-delete k j [] = ground arith
  lookup-delete k j ((i, w) ∷ m) =
      ground (arith, str_eq_iff k j, str_eq_iff i k, str_eq_iff i j, lookup-delete k j m)

  -- No key stands before an entry of the same key.
  abbrev pub Fresh : String → Dict V → Type 0
  Fresh k [] = Unit
  Fresh k ((j, v) ∷ m) = (k ≢ j) × Fresh k m

  abbrev pub Keyed : Dict V → Type 0
  Keyed [] = Unit
  Keyed ((k, v) ∷ m) = Fresh k m × Keyed m

  pub Fresh-insert :
      (i k : String) (v : V) (m : Dict V) → i ≢ k → Fresh i m → Fresh i (insert k v m)
  unfolding insert
  Fresh-insert i k v [] n f = (n, tt)
  Fresh-insert i k v ((j, w) ∷ m) n f = ground (arith, Fresh-insert i k v m)

  pub Fresh-delete : (i k : String) (m : Dict V) → Fresh i m → Fresh i (delete k m)
  unfolding delete
  Fresh-delete i k [] f = tt
  Fresh-delete i k ((j, w) ∷ m) f = ground (arith, Fresh-delete i k m)

  pub insert-Keyed : (k : String) (v : V) (m : Dict V) → Keyed m → Keyed (insert k v m)
  unfolding insert
  insert-Keyed k v [] h = (tt, tt)
  insert-Keyed k v ((j, w) ∷ m) h =
      ground (arith, str_eq_iff j k, insert-Keyed k v m, Fresh-insert j k v m)

  pub delete-Keyed : (k : String) (m : Dict V) → Keyed m → Keyed (delete k m)
  unfolding delete
  delete-Keyed k [] h = tt
  delete-Keyed k ((j, w) ∷ m) h = ground (arith, delete-Keyed k m, Fresh-delete j k m)

  -- A predicate on all the entries.
  pub lookup-All {κ} :
      (P : String × V → Type κ) (k : String) (m : Dict V) {v : V}
      → All P m
      → lookup k m ≡ some v
      → P (k, v)
  unfolding lookup
  lookup-All P k [] h e = cc
  lookup-All P k ((j, w) ∷ m) {v} h e = elim (Bool-cases (str_eq j k)) [
    | inl t ↦ subst P (λ i. ((str_eq_iff j k).0 t i, some-injective w v (rw t at e) i)) h.0
    | inr t ↦ lookup-All P k m h.1 (rw t at e)
  ]

  pub insert-All {κ} :
      (P : String × V → Type κ) (k : String) (v : V) (m : Dict V)
      → P (k, v)
      → All P m
      → All P (insert k v m)
  unfolding insert
  insert-All P k v [] p h = (p, tt)
  insert-All P k v ((j, w) ∷ m) p h = elim (Bool-cases (str_eq j k)) [
    | inl t ↦ rw t (p, h.1)
    | inr t ↦ rw t (h.0, insert-All P k v m p h.1)
  ]

  pub delete-All {κ} :
      (P : String × V → Type κ) (k : String) (m : Dict V) → All P m → All P (delete k m)
  unfolding delete
  delete-All P k [] h = tt
  delete-All P k ((j, w) ∷ m) h = elim (Bool-cases (str_eq j k)) [
    | inl t ↦ rw t (delete-All P k m h.1)
    | inr t ↦ rw t (h.0, delete-All P k m h.1)
  ]

  -- The values of a map, in the order of the list.
  abbrev pub values : Dict V → List V
  values = map (λ e. e.1)

  pub lookup-mem : (k : String) (m : Dict V) (v : V) → lookup k m ≡ some v → Memᴰ v (values m)
  unfolding lookup
  lookup-mem k [] v e = cc
  lookup-mem k ((j, w) ∷ m) v e = elim (Bool-cases (str_eq j k)) [
    | inl t ↦ Memᴰ.head (sym (some-injective w v (rw t at e)))
    | inr t ↦ Memᴰ.tail (lookup-mem k m v (rw t at e))
  ]

  Fresh-mem_ne : (k j : String) (m : Dict V) (v : V) → Fresh k m → Memᴰ (j, v) m → k ≢ j
  Fresh-mem_ne k j ((i, w) ∷ m) v f (Memᴰ.head e) = λ q. f.0 (q ∙ ap (λ x. x.0) e)
  Fresh-mem_ne k j ((i, w) ∷ m) v f (Memᴰ.tail n) = Fresh-mem_ne k j m v f.1 n
  Fresh-mem_ne k j [] v f n = elim n [ ]

  -- In a map no entry hides another.
  pub mem-lookup : (k : String) (m : Dict V) (v : V) → Keyed m → Memᴰ (k, v) m → lookup k m ≡ some v
  unfolding lookup
  mem-lookup k [] v h n = elim n [ ]
  mem-lookup k ((j, w) ∷ m) v h (Memᴰ.head e) =
      rw ((str_eq_iff j k).1 (sym (ap (λ x. x.0) e))) (ap some (sym (ap (λ x. x.1) e)))
  mem-lookup k ((j, w) ∷ m) v h (Memᴰ.tail n) = elim (Bool-cases (str_eq j k)) [
    | inl t ↦ absurd (Fresh-mem_ne j k m v h.0 n ((str_eq_iff j k).0 t))
    | inr t ↦ rw t (mem-lookup k m v h.1 n)
  ]

  pub delete-mem : (e : String × V) (k : String) (m : Dict V) → Memᴰ e (delete k m) → Memᴰ e m
  unfolding delete
  delete-mem e k [] n = n
  delete-mem e k ((j, w) ∷ m) n = elim (Bool-cases (str_eq j k)) [
    | inl t ↦ Memᴰ.tail (delete-mem e k m (rw (t, delete) at n))
    | inr t ↦ elim (Memᴰ.cases_cons (rw (t, delete) at n)) [
      | inl q ↦ Memᴰ.head q
      | inr q ↦ Memᴰ.tail (delete-mem e k m q)
    ]
  ]
