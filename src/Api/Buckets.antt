-- ===== src/Api/Buckets.antt =====
-- What one call of the rate limiter (internal/api/security.go) does to the clients' buckets.
use browser_use.Base.{
  ℕ, ◌+◌, ◌≤◌, ◌<◌, String, ◌≡◌, refl, sym, ap, subst, inl, inr, Bool, true, false, ◌&&◌, Option,
  none, some, [], ◌∷◌, arith, ltb, leb, ◌==◌, if◌then◌else◌, Bool-cases, keep, length, str_eq,
  str_eq_iff, Dict, lookup, insert, lookup-insert, Fresh, Keyed, insert-Keyed,
}
use browser_use.Api.Limiter.{Bucket, Limiter, current_bucket, is_fresh, prune_locked, allow_at}

Fresh-keep :
    {V : Type 0} (p : String × V → Bool) (k : String) (m : Dict V) → Fresh k m → Fresh k (keep p m)
unfolding keep
Fresh-keep p k [] f = tt
Fresh-keep p k (e ∷ m) f = elim (Bool-cases (p e)) [
  | inl t ↦ rw t (f.0, Fresh-keep p k m f.1)
  | inr t ↦ rw t (Fresh-keep p k m f.1)
]

keep-Keyed : {V : Type 0} (p : String × V → Bool) (m : Dict V) → Keyed m → Keyed (keep p m)
unfolding keep
keep-Keyed p [] h = tt
keep-Keyed p (e ∷ m) h = elim (Bool-cases (p e)) [
  | inl t ↦ rw t (Fresh-keep p e.0 m h.0, keep-Keyed p m h.1)
  | inr t ↦ rw t (keep-Keyed p m h.1)
]

lookup-Fresh : {V : Type 0} (k : String) (m : Dict V) → Fresh k m → lookup k m ≡ none
unfolding lookup
lookup-Fresh k [] f = refl
lookup-Fresh k ((j, v) ∷ m) f = ground (arith, str_eq_iff j k, lookup-Fresh k m f.1)

abbrev passed : {V : Type 0} → (String × V → Bool) → String → Option V → Option V
passed p k none = none
passed p k (some v) = if p (k, v) then some v else none

lookup-keep :
    {V : Type 0} (p : String × V → Bool) (k : String) (m : Dict V)
    → Keyed m
    → lookup k (keep p m) ≡ passed p k (lookup k m)
unfolding lookup keep
lookup-keep p k [] h = refl
lookup-keep p k ((j, v) ∷ m) h = elim (Bool-cases (str_eq j k)) [
  | inl e ↦ elim (Bool-cases (p (j, v))) [
    | inl t ↦ rw (e, t, e, sym (ap (λ i. p (i, v)) ((str_eq_iff j k).0 e)), t) refl
    | inr t ↦
        rw (t, e, sym (ap (λ i. p (i, v)) ((str_eq_iff j k).0 e)), t)
          (lookup-Fresh k (keep p m)
            (Fresh-keep p k m (subst (λ (i : String). Fresh i m) ((str_eq_iff j k).0 e) h.0)))
  ]
  | inr e ↦ elim (Bool-cases (p (j, v))) [
    | inl t ↦ rw (t, e) (lookup-keep p k m h.1)
    | inr t ↦ rw (t, e) (lookup-keep p k m h.1)
  ]
]

-- The grants that a client's bucket shows for the window that starts at `start`.
abbrev pub used_of : ℕ → Option Bucket → ℕ
used_of start none = 0
used_of start (some b) = if b.window_start == start then b.count else 0

-- The bucket belongs to a window that starts no later.
abbrev pub AtMost : ℕ → Option Bucket → Type 0
AtMost start none = Unit
AtMost start (some b) = b.window_start ≤ start

lookup-prune :
    (window active : ℕ) (k : String) (m : Dict Bucket)
    → Keyed m
    → lookup k (prune_locked window active m)
      ≡ (if ltb (length m) 1000 then lookup k m else passed (is_fresh window active) k (lookup k m))
unfolding prune_locked
lookup-prune window active k m h = ground (arith, lookup-keep (is_fresh window active) k m h)

prune-Keyed : (window active : ℕ) (m : Dict Bucket) → Keyed m → Keyed (prune_locked window active m)
unfolding prune_locked
prune-Keyed window active m h = ground (arith, keep-Keyed (is_fresh window active) m h)

abbrev counted_bucket : Limiter → String → ℕ → Bucket
counted_bucket l k w =
    let bucket = current_bucket (lookup k l.clients) w in
    record { window_start = bucket.window_start; count = bucket.count + 1 }

-- The limiter once a call of `k` in the window that starts at `w` is granted.
abbrev pub counted : Limiter → String → ℕ → Limiter
counted l k w = record {
  limit = l.limit;
  window = l.window;
  clients = prune_locked l.window w (insert k (counted_bucket l k w) l.clients);
}

leb_or_ltb :
    {A : Type 0} (a b : ℕ) (x y : A) → (if leb a b then x else y) ≡ (if ltb b a then y else x)
leb_or_ltb a b x y = ground arith

current_bucket-count :
    (o : Option Bucket) (w : ℕ) → 0 < w → (current_bucket o w).count ≡ used_of w o
unfolding current_bucket
current_bucket-count none w h = refl
current_bucket-count (some b) w h = ground arith

current_bucket-start : (o : Option Bucket) (w : ℕ) → (current_bucket o w).window_start ≡ w
unfolding current_bucket
current_bucket-start none w = refl
current_bucket-start (some b) w = ground arith

-- A call is granted exactly when the client's grants of its window are fewer than the limit.
pub allow_at_lem :
    (l : Limiter) (k : String) (w : ℕ)
    → 0 < w
    → allow_at l k w
      ≡ (if ltb (used_of w (lookup k l.clients)) l.limit then (counted l k w, true) else (l, false))
unfolding allow_at
allow_at_lem l k w h =
    subst
      (λ (n : ℕ). allow_at l k w ≡ (if ltb n l.limit then (counted l k w, true) else (l, false)))
      (current_bucket-count (lookup k l.clients) w h)
      (leb_or_ltb l.limit (current_bucket (lookup k l.clients) w).count (l, false)
        (counted l k w, true))

pub counted-Keyed :
    (l : Limiter) (k : String) (w : ℕ) → Keyed l.clients → Keyed (counted l k w).clients
counted-Keyed l k w h = prune-Keyed l.window w (insert k _ l.clients) (insert-Keyed k _ l.clients h)

counted_bucket_lem :
    (l : Limiter) (k : String) (w : ℕ)
    → 0 < w
    → counted_bucket l k w ≡ record { window_start = w; count = used_of w (lookup k l.clients) + 1 }
counted_bucket_lem l k w h = λ i. record {
  window_start = current_bucket-start (lookup k l.clients) w i;
  count = current_bucket-count (lookup k l.clients) w h i + 1;
}

-- A client's bucket after a granted call, apart from a removal of old buckets.
abbrev next_bucket : Limiter → String → ℕ → String → Option Bucket
next_bucket l k w key =
    if str_eq k key
    then some (record { window_start = w; count = used_of w (lookup k l.clients) + 1 })
    else lookup key l.clients

-- A removal of old buckets leaves a client's bucket or removes it.
abbrev pruned : Bool → ℕ → ℕ → String → Option Bucket → Option Bucket
pruned b window w key o = if b then o else passed (is_fresh window w) key o

lookup-counted :
    (l : Limiter) (k key : String) (w : ℕ)
    → 0 < w
    → Keyed l.clients
    → lookup key (counted l k w).clients
      ≡ pruned
          (ltb (length (insert k (counted_bucket l k w) l.clients)) 1000)
          l.window
          w
          key
          (next_bucket l k w key)
lookup-counted l k key w h d =
    rw
      (
        lookup-prune l.window w key (insert k (counted_bucket l k w) l.clients)
            (insert-Keyed k (counted_bucket l k w) l.clients d),
        lookup-insert k key (counted_bucket l k w) l.clients,
        counted_bucket_lem l k w h,
      )
      refl

pruned-AtMost :
    (b : Bool) (window w : ℕ) (key : String) (o : Option Bucket)
    → AtMost w o
    → AtMost w (pruned b window w key o)
pruned-AtMost b window w key none h = ground arith
pruned-AtMost b window w key (some x) h = ground arith

used_of-pruned :
    (b : Bool) (window w start : ℕ) (key : String) (o : Option Bucket)
    → w ≤ start
    → used_of start (pruned b window w key o) ≡ used_of start o
used_of-pruned b window w start key none h = ground arith
used_of-pruned b window w start key (some x) h = ground arith

pub AtMost-weaken : (v w : ℕ) (o : Option Bucket) → v ≤ w → AtMost v o → AtMost w o
AtMost-weaken v w none h a = tt
AtMost-weaken v w (some b) h a = omega (arith, a)

next_bucket-AtMost :
    (l : Limiter) (k key : String) (w : ℕ)
    → AtMost w (lookup key l.clients)
    → AtMost w (next_bucket l k w key)
next_bucket-AtMost l k key w a = elim (Bool-cases (str_eq k key)) [
  | inl e ↦ rw e (ground arith)
  | inr e ↦ rw e a
]

pub counted-AtMost :
    (l : Limiter) (k key : String) (w : ℕ)
    → 0 < w
    → Keyed l.clients
    → AtMost w (lookup key l.clients)
    → AtMost w (lookup key (counted l k w).clients)
counted-AtMost l k key w p h a = rw (lookup-counted l k key w p h) (
    pruned-AtMost (ltb (length (insert k (counted_bucket l k w) l.clients)) 1000) l.window w key
      (next_bucket l k w key) (next_bucket-AtMost l k key w a))

used_of-next :
    (o : Option Bucket) (w start : ℕ)
    → AtMost w o
    → w ≤ start
    → used_of start (some (record { window_start = w; count = used_of w o + 1 }))
      ≡ (if w == start then 1 else 0) + used_of start o
used_of-next none w start a q = ground arith
used_of-next (some b) w start a q = ground arith

-- The grants a client has in a window, after a granted call of any client in a window no later.
pub used_of-counted :
    (l : Limiter) (k key : String) (w start : ℕ)
    → 0 < w
    → w ≤ start
    → Keyed l.clients
    → AtMost w (lookup key l.clients)
    → used_of start (lookup key (counted l k w).clients)
      ≡ (if str_eq k key && w == start then 1 else 0) + used_of start (lookup key l.clients)
used_of-counted l k key w start p q h a =
    rw
      (
        lookup-counted l k key w p h,
        used_of-pruned (ltb (length (insert k (counted_bucket l k w) l.clients)) 1000) l.window w
            start key (next_bucket l k w key) q,
      )
      (elim (Bool-cases (str_eq k key)) [
        | inl e ↦
            rw (e, ap (λ i. lookup i l.clients) ((str_eq_iff k key).0 e))
              (used_of-next (lookup key l.clients) w start a q)
        | inr e ↦ rw e (omega arith)
      ])
