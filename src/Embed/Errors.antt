-- ===== src/Embed/Errors.antt =====
-- The errors of internal/embed, their texts and their classes (embed.go and circuit.go). `message`
-- is any error of a provider or of the network, known by its text; `wrapped` is `fmt.Errorf` with a
-- text in front of `%w`.
use semidx.Prelude.{
  ℕ, ◌+◌, Bool, true, false, ◌||◌, Option, none, some, List, [], ◌∷◌, ◌++◌, leb, ◌==◌, ltb, ◌/◌,
  ◌%◌, if◌then◌else◌, ◌&&◌, not,
}
use semidx.Prelude.Bytes.{Bytes, codes, has_infix, lower}

mutual
  pub data Err : Type 0 where
    message : Bytes → Err
    canceled : Err
    deadline_exceeded : Err
    unknown_model : Bytes → Bytes → Bytes → Err
    retryable : Err → ℕ → Err
    chain_error : Bytes → Failures → Err
    wrapped : Bytes → Err → Err

  -- the `[]ProviderFailure` of a `ChainError`: names and errors
  pub data Failures : Type 0 where
    nil : Failures
    cons : Bytes → Err → Failures → Failures

pub data Res {ℓ} (A : Type ℓ) : Type ℓ where
  ok : A → Res A
  err : Err → Res A

-- append(failures, ProviderFailure{name, err})
unfoldable pub append_failure : Failures → Bytes → Err → Failures
append_failure nil name e = cons name e nil
append_failure (cons n x fs) name e = cons n x (append_failure fs name e)

unfoldable pub no_failures : Failures → Bool
no_failures nil = true
no_failures (cons n x fs) = false

abbrev hex : ℕ → ℕ
hex n = if ltb n 10 then b'0' + n else 87 + n

-- what `%q` writes for one byte of a UTF-8 text whose characters beyond ASCII are printable: those
-- stand as they are
quote_byte : ℕ → Bytes
quote_byte c =
    if (c == b'"') || (c == b'\\')
    then b'\\' ∷ c ∷ []
    else if leb 32 c && not (c == 127)
    then c ∷ []
    else if c == 7
    then codes "\\a"
    else if c == 8
    then codes "\\b"
    else if c == 11
    then codes "\\v"
    else if c == 12
    then codes "\\f"
    else if c == 10
    then codes "\\n"
    else if c == 9
    then codes "\\t"
    else if c == 13
    then codes "\\r"
    else b'\\' ∷ b'x' ∷ hex (c / 16) ∷ hex (c % 16) ∷ []

quote_bytes : Bytes → Bytes
quote_bytes [] = []
quote_bytes (c ∷ s) = quote_byte c ++ quote_bytes s

unfoldable pub quote : Bytes → Bytes
unfolding quote_bytes quote_byte
quote s = b'"' ∷ (quote_bytes s ++ (b'"' ∷ []))

-- `Error()`, `errors.Is(err, context.Canceled)`, `errors.Is(err, context.DeadlineExceeded)` and
-- `errors.As` with the three error types, all through `Unwrap`: a `ChainError` unwraps to its last
-- failure.
unfoldable mutual
  unfolding quote

  pub error_text : Err → Bytes
  error_text (message s) = s
  error_text canceled = codes "context canceled"
  error_text deadline_exceeded = codes "context deadline exceeded"
  error_text (unknown_model provider model reason) =
      provider
      ++ (codes ": unknown embedding model "
          ++ (quote model ++ (codes " (" ++ (reason ++ codes ")"))))
  error_text (retryable e after) = error_text e
  error_text (chain_error op fs) = codes "chain: " ++ (op ++ (codes ": " ++ last_text [] fs))
  error_text (wrapped s e) = s ++ error_text e

  -- the text of the last failure; the first argument is that of the one before
  pub last_text : Bytes → Failures → Bytes
  last_text before nil = before
  last_text before (cons name e fs) = last_text (error_text e) fs

unfoldable mutual
  pub is_canceled : Err → Bool
  is_canceled (message s) = false
  is_canceled canceled = true
  is_canceled deadline_exceeded = false
  is_canceled (unknown_model provider model reason) = false
  is_canceled (retryable e after) = is_canceled e
  is_canceled (chain_error op fs) = last_canceled false fs
  is_canceled (wrapped s e) = is_canceled e

  pub last_canceled : Bool → Failures → Bool
  last_canceled before nil = before
  last_canceled before (cons name e fs) = last_canceled (is_canceled e) fs

unfoldable mutual
  pub is_deadline : Err → Bool
  is_deadline (message s) = false
  is_deadline canceled = false
  is_deadline deadline_exceeded = true
  is_deadline (unknown_model provider model reason) = false
  is_deadline (retryable e after) = is_deadline e
  is_deadline (chain_error op fs) = last_deadline false fs
  is_deadline (wrapped s e) = is_deadline e

  pub last_deadline : Bool → Failures → Bool
  last_deadline before nil = before
  last_deadline before (cons name e fs) = last_deadline (is_deadline e) fs

unfoldable mutual
  -- the hint of the `RetryableError`
  pub as_retryable : Err → Option ℕ
  as_retryable (message s) = none
  as_retryable canceled = none
  as_retryable deadline_exceeded = none
  as_retryable (unknown_model provider model reason) = none
  as_retryable (retryable e after) = some after
  as_retryable (chain_error op fs) = last_retryable none fs
  as_retryable (wrapped s e) = as_retryable e

  pub last_retryable : Option ℕ → Failures → Option ℕ
  last_retryable before nil = before
  last_retryable before (cons name e fs) = last_retryable (as_retryable e) fs

unfoldable mutual
  pub as_unknown_model : Err → Bool
  as_unknown_model (message s) = false
  as_unknown_model canceled = false
  as_unknown_model deadline_exceeded = false
  as_unknown_model (unknown_model provider model reason) = true
  as_unknown_model (retryable e after) = as_unknown_model e
  as_unknown_model (chain_error op fs) = last_unknown_model false fs
  as_unknown_model (wrapped s e) = as_unknown_model e

  pub last_unknown_model : Bool → Failures → Bool
  last_unknown_model before nil = before
  last_unknown_model before (cons name e fs) = last_unknown_model (as_unknown_model e) fs

unfoldable pub as_chain_error : Err → Option Failures
as_chain_error (chain_error op fs) = some fs
as_chain_error (retryable e after) = as_chain_error e
as_chain_error (wrapped s e) = as_chain_error e
as_chain_error _ = none

-- `strings.Contains(msg, a) || strings.Contains(msg, b) || …`
pub mentions : Bytes → List Bytes → Bool
mentions msg [] = false
mentions msg (word ∷ words) = has_infix msg word || mentions msg words

abbrev transient_words : List Bytes
transient_words =
    codes "timeout"
    ∷ codes "connection refused"
    ∷ codes "connection reset"
    ∷ codes "429"
    ∷ codes "502"
    ∷ codes "503"
    ∷ codes "504"
    ∷ codes "too many requests"
    ∷ codes "service unavailable"
    ∷ codes "bad gateway"
    ∷ codes "gateway timeout"
    ∷ codes "temporarily unavailable"
    ∷ []

unfoldable pub is_transient : Err → Bool
unfolding mentions error_text is_canceled
is_transient e = if is_canceled e then false else mentions (lower (error_text e)) transient_words

unfoldable pub failure_class : Err → Bytes
unfolding mentions error_text as_retryable is_deadline
failure_class e =
    let msg = lower (error_text e) in
    elim (as_retryable e) [
      | some after ↦ codes "circuit open"
      | none ↦
          if is_deadline e || mentions msg (codes "timeout" ∷ [])
          then codes "timeout"
          else if mentions msg (codes "429" ∷ codes "too many requests" ∷ codes "rate limit" ∷ [])
          then codes "rate limited"
          else if mentions msg (
              codes "502"
              ∷ codes "503"
              ∷ codes "504"
              ∷ codes "bad gateway"
              ∷ codes "service unavailable"
              ∷ codes "gateway timeout"
              ∷ codes "temporarily unavailable"
              ∷ [])
          then codes "5xx"
          else if mentions msg (codes "connection refused" ∷ codes "connection reset" ∷ [])
          then codes "unreachable"
          else codes "error"
    ]

-- the last failure, if there is one; the first argument is the one before
last_failure : Option (Bytes × Err) → Failures → Option (Bytes × Err)
last_failure before nil = before
last_failure before (cons name e fs) = last_failure (some (name, e)) fs

summarize_last : Err → Option (Bytes × Err) → Bytes
summarize_last e none = failure_class e
summarize_last e (some (name, last)) = name ++ (codes ": " ++ failure_class last)

-- `SummarizeFailure`; `none` is the nil error
unfoldable pub summarize_failure : Option Err → Bytes
unfolding last_failure summarize_last failure_class as_chain_error
summarize_failure none = []
summarize_failure (some e) = elim (as_chain_error e) [
  | none ↦ failure_class e
  | some fs ↦ summarize_last e (last_failure none fs)
]
