-- ===== src/Idempotency/Response.antt =====
-- writeIdempotencyEntry and copyResponse (internal/api/idempotency.go): what the client is sent.
-- A response writer is its headers; header names are in canonical form, as net/http keeps them.
use browser_use.Base.{
  ℕ, String, Option, none, some, List, [], ◌∷◌, ◌++◌, if◌then◌else◌, ℤ, positive_or, is_empty,
  trim_space, Dict, lookup, insert, delete,
}
use browser_use.Idempotency.Store.{Entry}

abbrev pub Headers : Type 0
Headers = Dict (List String)

pub record Response : Type 0 where
  pub status : ℕ
  pub headers : Headers
  pub body : List ℕ

abbrev pub or_nil : Option (List String) → List String
or_nil none = []
or_nil (some vs) = vs

-- Header.Add, and Header.Get: the first value, or the empty text.
unfoldable pub add_header : String → String → Headers → Headers
add_header key value w = insert key (or_nil (lookup key w) ++ value ∷ []) w

abbrev pub first_value : List String → String
first_value [] = ""
first_value (v ∷ vs) = v

abbrev pub get_header : String → Headers → String
get_header key h = first_value (or_nil (lookup key h))

-- `for _, value := range values { w.Header().Add(key, value) }`
unfoldable pub add_values : String → List String → Headers → Headers
unfolding add_header
add_values key [] w = w
add_values key (v ∷ vs) w = add_values key vs (add_header key v w)

-- The loop over the headers: Del, then Add each value.
unfoldable pub copy_headers : Headers → Headers → Headers
unfolding add_values
copy_headers [] w = w
copy_headers ((key, values) ∷ hs) w = copy_headers hs (add_values key values (delete key w))

-- `if status <= 0 { status = http.StatusOK }`
unfoldable pub write_idempotency_entry : Headers → Entry → Response
unfolding copy_headers
write_idempotency_entry w entry =
    let copied = copy_headers entry.headers w in
    record {
      status = positive_or entry.status_code 200;
      headers =
          if is_empty (trim_space entry.content_type)
          then copied
          else insert "Content-Type" (trim_space entry.content_type ∷ []) copied;
      body = entry.body;
    }

unfoldable pub copy_response : Headers → Headers → ℤ → List ℕ → Response
unfolding copy_headers
copy_response w headers status body = record {
  status = positive_or status 200;
  headers = copy_headers headers w;
  body = body;
}
