-- ===== src/Idempotency/Store.antt =====
-- InMemoryStore (internal/idempotency/inmemory.go). `now` is the clock's reading. A body is its bytes.
-- Values do not change in the model, so the copies of bodies and headers are the values themselves.
use Prim.Native.String.{◌++◌}
use browser_use.Base.{
  ℕ, ◌+◌, ◌*◌, String, Bool, true, false, not, ◌&&◌, Option, none, some, List, [], ltb,
  if◌then◌else◌, ℤ, positive_or, second, hour, is_zero, str_eq, is_empty, trim_space, Dict, lookup,
  insert, delete, plain, Result, ok, ◌>>=◌, ◌>>◌, guard,
}

pub record Entry : Type 0 where
  pub status_code : ℤ
  pub content_type : String
  pub headers : Dict (List String)
  pub body : List ℕ

pub record Item : Type 0 where
  pub entry : Entry
  pub expires_at : ℕ

pub record Claim : Type 0 where
  pub owner : String
  pub expires_at : ℕ

pub record Store : Type 0 where
  pub items : Dict Item
  pub claims : Dict Claim

-- NewInMemoryStore
abbrev pub new : Store
new = record { items = []; claims = [] }

-- `digest` is the hexadecimal SHA-256 of a text.
module _ (digest : String → String) where
  unfoldable pub normalize_compound_key : String → String → Result String
  normalize_compound_key scope key = do
    guard (not (is_empty (trim_space scope))) (plain "scope is required")
    guard (not (is_empty (trim_space key))) (plain "key is required")
    ok (trim_space scope ++ ":" ++ digest (trim_space scope ++ "|" ++ trim_space key))

  unfoldable pub get_at : Store → String → ℕ → Store × Option Entry
  get_at s compound now = elim (lookup compound s.items) [
    | none ↦ (s, none)
    | some item ↦
        if not (is_zero item.expires_at) && ltb item.expires_at now
        then (record s { items = delete compound s.items }, none)
        else (s, some item.entry)
  ]

  unfoldable pub get : Store → String → String → ℕ → Result (Store × Option Entry)
  unfolding get_at
  get s scope key now = do compound ← normalize_compound_key scope key; ok (get_at s compound now)

  unfoldable pub claim_at : Store → String → String → ℕ → ℕ → Store × Bool
  claim_at s compound owner ttl now =
      let taken : Store = record s {
        claims = insert compound (record { owner = owner; expires_at = now + ttl }) s.claims;
      } in
      elim (lookup compound s.claims) [
        | none ↦ (taken, true)
        | some existing ↦ if ltb now existing.expires_at then (s, false) else (taken, true)
      ]

  unfoldable pub claim : Store → String → String → String → ℤ → ℕ → Result (Store × Bool)
  unfolding claim_at
  claim s scope key owner ttl now = do
    compound ← normalize_compound_key scope key
    guard (not (is_empty (trim_space owner))) (plain "owner is required")
    ok (claim_at s compound (trim_space owner) (positive_or ttl (30 * second)) now)

  unfoldable pub save_at : Store → String → Entry → ℕ → ℕ → Store
  save_at s compound entry ttl now = record s {
    items = insert compound (record { entry = entry; expires_at = now + ttl }) s.items;
  }

  unfoldable pub save : Store → String → String → Entry → ℤ → ℕ → Result Store
  unfolding save_at
  save s scope key entry ttl now = do
    compound ← normalize_compound_key scope key
    ok (save_at s compound entry (positive_or ttl (24 * hour)) now)

  unfoldable pub release_at : Store → String → String → Store
  release_at s compound owner = elim (lookup compound s.claims) [
    | none ↦ s
    | some existing ↦
        if not (str_eq existing.owner owner)
        then s
        else record s { claims = delete compound s.claims }
  ]

  unfoldable pub release : Store → String → String → String → Result Store
  unfolding release_at
  release s scope key owner = do
    compound ← normalize_compound_key scope key
    guard (not (is_empty (trim_space owner))) (plain "owner is required")
    ok (release_at s compound (trim_space owner))
