-- ===== src/Base/Errors.antt =====
-- Go's `error` values that the program makes or tests, and results that carry one.
use Prim.Native.String.{String, ◌++◌}
use mathlib.Core.Bool.{Bool, true, false}
use mathlib.Core.Path.{◌≡◌, refl}
use mathlib.Core.Logic.{◌⊎◌, inl, inr}

-- `plain` is errors.New with a text; `wrapped p e` is fmt.Errorf("p: %w", e); the others are the
-- package-level values that errors.Is looks for.
pub data Error : Type 0 where
  plain : String → Error
  wrapped : String → Error → Error
  task_not_found task_not_queued task_not_cancelable : Error
  node_not_found session_not_found queue_full : Error
  canceled deadline_exceeded : Error

-- err.Error()
unfoldable pub error_text : Error → String
error_text (plain s) = s
error_text (wrapped s e) = s ++ ": " ++ error_text e
error_text task_not_found = "task not found"
error_text task_not_queued = "task is not queued"
error_text task_not_cancelable = "task is not cancelable"
error_text node_not_found = "node not found"
error_text session_not_found = "session not found"
error_text queue_full = "task queue is full"
error_text canceled = "context canceled"
error_text deadline_exceeded = "context deadline exceeded"

-- errors.Is(err, context.Canceled), and so on: through the chain of wrapped errors.
abbrev pub is_canceled : Error → Bool
is_canceled canceled = true
is_canceled (wrapped s e) = is_canceled e
is_canceled _ = false

abbrev pub is_deadline : Error → Bool
is_deadline deadline_exceeded = true
is_deadline (wrapped s e) = is_deadline e
is_deadline _ = false

abbrev pub is_queue_full : Error → Bool
is_queue_full queue_full = true
is_queue_full (wrapped s e) = is_queue_full e
is_queue_full _ = false

abbrev pub is_not_queued : Error → Bool
is_not_queued task_not_queued = true
is_not_queued (wrapped s e) = is_not_queued e
is_not_queued _ = false

abbrev pub is_not_cancelable : Error → Bool
is_not_cancelable task_not_cancelable = true
is_not_cancelable (wrapped s e) = is_not_cancelable e
is_not_cancelable _ = false

abbrev pub is_task_not_found : Error → Bool
is_task_not_found task_not_found = true
is_task_not_found (wrapped s e) = is_task_not_found e
is_task_not_found _ = false

abbrev pub is_node_not_found : Error → Bool
is_node_not_found node_not_found = true
is_node_not_found (wrapped s e) = is_node_not_found e
is_node_not_found _ = false

abbrev pub is_session_not_found : Error → Bool
is_session_not_found session_not_found = true
is_session_not_found (wrapped s e) = is_session_not_found e
is_session_not_found _ = false

-- `(value, nil)` or `(_, err)`.
pub data Result {ℓ} (T : Type ℓ) : Type ℓ where
  err : Error → Result T
  ok : T → Result T

-- `if err != nil { return err }` after a call, then the rest.
infixl 5 ◌>>=◌
abbrev pub ◌>>=◌ {ℓ ℓ'} : {T : Type ℓ} {U : Type ℓ'} → Result T → (T → Result U) → Result U
err failure >>= rest = err failure
ok value >>= rest = rest value

-- The same after a call that returns nothing but an error.
infixl 5 ◌>>◌
abbrev pub ◌>>◌ {ℓ} : {U : Type ℓ} → Result (Unit {0}) → Result U → Result U
checked >> rest = checked >>= (λ nothing. rest)

-- `if !passes { return err }`
abbrev pub guard : Bool → Error → Result (Unit {0})
guard false failure = err failure
guard true failure = ok tt

abbrev pub is_ok {ℓ} : {A : Type ℓ} → Result A → Bool
is_ok (ok a) = true
is_ok (err e) = false

pub Result-cases {ℓ} :
    {A : Type ℓ} (m : Result A) → ((a : A) × (m ≡ ok a)) ⊎ ((e : Error) × (m ≡ err e))
Result-cases (ok a) = inl (a, refl)
Result-cases (err e) = inr (e, refl)

abbrev ok_or {ℓ} : {A : Type ℓ} → A → Result A → A
ok_or a (ok b) = b
ok_or a (err e) = a

pub ok-injective {ℓ} : {A : Type ℓ} (a b : A) → ok a ≡ ok b → a ≡ b
ok-injective a b h = λ i. ok_or a (h i)
