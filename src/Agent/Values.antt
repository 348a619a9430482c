-- ===== src/Agent/Values.antt =====
-- The bounds and checks that an action's execution uses (cmd/node-agent/main.go): actionTimeout,
-- boundedActionDelay, minDuration, splitExtractSelectorCandidates, isExtractedValueValid, looksLikePrice and looksLikeRating.
-- A time.Duration is a 64-bit number of nanoseconds, so a product of one wraps.
use Prim.Native.Char.{code}
use browser_use.Base.{
  ℕ, ◌*◌, ◌%◌, ◌^◌, ◌≤◌, min, max, String, ◌≡◌, ◌⊎◌, refl, inl, Bool, true, false, not, ◌&&◌, ◌||◌,
  List, [], ◌∷◌, arith, if◌then◌else◌, leb, ◌==◌, ℤ, pos, negsuc, second, millisecond, str_eq,
  is_empty, trim_space, to_lower, contains, contains_any, onto_first,
}

-- Nanoseconds, for a number of milliseconds.
unfoldable pub action_timeout : ℤ → ℕ
action_timeout (negsuc n) = 12 * second
action_timeout (pos n) = if n == 0 then 12 * second else min (max n 250) 60_000 * millisecond

-- A product of milliseconds that wraps to a negative duration is as if there were none.
unfoldable pub bounded_action_delay : ℤ → ℕ → ℕ
bounded_action_delay (negsuc n) fallback = fallback
bounded_action_delay (pos n) fallback =
    let delay = (n * millisecond) % 2 ^ 64 in
    if n == 0 then fallback else if leb (2 ^ 63) delay then fallback else min delay (15 * second)

-- minDuration, of durations that are positive or not.
unfoldable pub min_duration : ℤ → ℤ → ℤ
min_duration (negsuc a) b = b
min_duration (pos a) (negsuc b) = if a == 0 then negsuc b else pos a
min_duration (pos a) (pos b) = if a == 0 then pos b else if b == 0 then pos a else pos (min a b)

-- strings.Split at "||".
unfoldable pub split_bars : String → List String
split_bars String.[] = "" ∷ []
split_bars (String.◌∷◌ c String.[]) = String.◌∷◌ c String.[] ∷ []
split_bars (String.◌∷◌ c (String.◌∷◌ d s)) = elim (code c == b'|' && code d == b'|') [
  | true ↦ "" ∷ split_bars s
  | false ↦ onto_first (String.◌∷◌ c String.[]) (split_bars (String.◌∷◌ d s))
]

unfoldable pub trimmed_parts : List String → List String
trimmed_parts [] = []
trimmed_parts (part ∷ parts) =
    let rest = trimmed_parts parts in
    if is_empty (trim_space part) then rest else trim_space part ∷ rest

abbrev pub or_only : String → List String → List String
or_only s [] = s ∷ []
or_only s (t ∷ ts) = t ∷ ts

unfoldable pub split_extract_selector_candidates : String → List String
split_extract_selector_candidates selector =
    let trimmed = trim_space selector in
    if is_empty trimmed then [] else or_only trimmed (trimmed_parts (split_bars trimmed))

unfoldable pub has_digit : String → Bool
has_digit String.[] = false
has_digit (String.◌∷◌ c s) = (leb b'0' (code c) && leb (code c) b'9') || has_digit s

unfoldable pub looks_like_price : String → Bool
looks_like_price value =
    let lower = to_lower (trim_space value) in
    if is_empty lower || not (has_digit lower)
    then false
    else contains_any lower ("$" ∷ "€" ∷ "£" ∷ "₹" ∷ "¥" ∷ [])
      || contains_any lower ("usd" ∷ "eur" ∷ "gbp" ∷ "inr" ∷ "cad" ∷ "aud" ∷ [])
      || contains lower "."
      || contains lower ","

unfoldable pub looks_like_rating : String → Bool
looks_like_rating value =
    let lower = to_lower (trim_space value) in
    if is_empty lower || not (has_digit lower)
    then false
    else contains_any lower ("star" ∷ "/5" ∷ "out of" ∷ [])

unfoldable pub is_extracted_value_valid : String → String → Bool
is_extracted_value_valid expected value =
    let kind = to_lower (trim_space expected) in
    let trimmed = trim_space value in
    if is_empty trimmed
    then false
    else if str_eq kind "price"
    then looks_like_price trimmed
    else if str_eq kind "rating"
    then looks_like_rating trimmed
    else true

timeout_bounds : (t : ℤ) → (250 * millisecond ≤ action_timeout t) × (action_timeout t ≤ 60 * second)
unfolding action_timeout
timeout_bounds (negsuc n) = (omega arith, omega arith)
timeout_bounds (pos n) = (ground arith, ground arith)

delay_bounds :
    (d : ℤ) (fallback : ℕ)
    → (bounded_action_delay d fallback ≡ fallback) ⊎ (bounded_action_delay d fallback ≤ 15 * second)
unfolding bounded_action_delay
delay_bounds (negsuc n) fallback = inl refl
delay_bounds (pos n) fallback = ground arith

-- Every wait of an action is bounded: its timeout is from a quarter of a second to a minute, and its
-- delay is the fallback or at most 15 seconds, however large the number in the request, also where the product
-- of milliseconds wraps.
pub waits_are_bounded :
    (timeout_ms delay_ms : ℤ) (fallback : ℕ)
    → (250 * millisecond ≤ action_timeout timeout_ms)
      × (action_timeout timeout_ms ≤ 60 * second)
      × ((bounded_action_delay delay_ms fallback ≡ fallback)
          ⊎ (bounded_action_delay delay_ms fallback ≤ 15 * second))
waits_are_bounded timeout_ms delay_ms fallback =
    let (low, high) = timeout_bounds timeout_ms in (low, high, delay_bounds delay_ms fallback)
