-- ===== src/Retry.antt =====
-- internal/enrichment/http/circuit_breaker.go: the retrier. What the request function returns at
-- each attempt, whether the context is done at a wait, and the product of a duration and the
-- float multiplier are arguments. The actions of a run are its trace.
pub mod Attempts
pub mod Backoff
use ggt.Prelude.{
  ℕ, zero, suc, Bool, true, false, not, ◌&&◌, ◌||◌, Option, none, some, List, [], ◌∷◌, ◌++◌, ◌+◌,
  ltb, leb, ◌==◌, if◌then◌else◌,
}
use ggt.Prelude.Int.{ℤ, pos, ltb_ℤ, pos_part}

-- `context.Canceled`, `context.DeadlineExceeded` and any other error
pub data Error : Type 0 where
  canceled deadline_exceeded : Error
  other : ℕ → Error

pub record Response : Type 0 where
  pub status_code : ℕ
  pub body : List ℕ

pub record Outcome : Type 0 where
  pub resp : Option Response
  pub err : Option Error

pub data DoError : Type 0 where
  plain : Error → DoError
  max_retries_exceeded : Option Error → DoError

pub record RetryConfig : Type 0 where
  pub max_retries : ℤ
  pub initial_backoff : ℤ
  pub max_backoff : ℤ

-- `DefaultRetryConfig` and `NewRetrier`; the multiplier, 2.0, is in the argument that scales.
unfoldable pub default_retry_config : RetryConfig
default_retry_config = record {
  max_retries = pos 3;
  initial_backoff = pos 100000000;
  max_backoff = pos 10000000000;
}

unfoldable pub new_retrier : Option RetryConfig → RetryConfig
unfolding default_retry_config
new_retrier none = default_retry_config
new_retrier (some cfg) = cfg

pub data Action : Type 0 where
  call : ℕ → Action
  drain : Response → Action
  wait : ℤ → Action

pub record Run : Type 0 where
  pub resp : Option Response
  pub err : Option DoError
  pub trace : List Action

retryable_status : ℕ → Bool
retryable_status code = leb 500 code || code == 408 || code == 429

unfoldable pub is_retryable : Option Error → ℕ → Bool
unfolding retryable_status
is_retryable (some canceled) code = false
is_retryable (some deadline_exceeded) code = false
is_retryable (some (other e)) code = true
is_retryable none code = retryable_status code

-- the test that ends the loop with a response
unfoldable pub is_success : Outcome → Bool
is_success o = elim o.err [
  | some _ ↦ false
  | none ↦ elim o.resp [
    | none ↦ false
    | some r ↦ ltb r.status_code 500 && not (r.status_code == 408) && not (r.status_code == 429)
  ]
]

abbrev pub status_of : Option Response → ℕ
status_of none = 0
status_of (some r) = r.status_code

abbrev pub drained : Option Response → List Action
drained none = []
drained (some r) = drain r ∷ []

abbrev pub plain_error : Option Error → Option DoError
plain_error none = none
plain_error (some e) = some (plain e)

-- the trace of a run goes on behind what was done before it
abbrev pub after : List Action → Run → Run
after before r = record r { trace = before ++ r.trace }

unfoldable pub next_backoff : (ℤ → ℤ) → RetryConfig → ℤ → ℤ
next_backoff scale cfg backoff =
    let grown = scale backoff in if ltb_ℤ cfg.max_backoff grown then cfg.max_backoff else grown

module _ (scale : ℤ → ℤ) (fn : ℕ → Outcome) (done : ℕ → Option Error) (cfg : RetryConfig) where
  -- the `for` loop, by the rounds that are left
  unfoldable pub attempts : ℕ → ℕ → ℤ → Outcome → Run
  unfolding is_success is_retryable
  attempts zero attempt backoff last = record {
    resp = last.resp;
    err = some (max_retries_exceeded last.err);
    trace = [];
  }
  attempts (suc left) attempt backoff last =
      let out = fn attempt in
      let called = call attempt ∷ drained last.resp in
      let again = attempts left (attempt + 1) (next_backoff scale cfg backoff) out in
      let unwaited = attempts left (attempt + 1) backoff out in
      if is_success out
      then record { resp = out.resp; err = none; trace = call attempt ∷ [] }
      else if not (is_retryable out.err (status_of out.resp))
      then record { resp = out.resp; err = plain_error out.err; trace = called }
      else if ltb_ℤ (pos attempt) cfg.max_retries
      then elim (done attempt) [
        | some e ↦ record {
          resp = out.resp;
          err = some (plain e);
          trace = called ++ drained out.resp;
        }
        | none ↦ after (called ++ drained out.resp ++ wait backoff ∷ []) again
      ]
      else after (called ++ drained out.resp) unwaited

  -- `Do`
  unfoldable pub do_request : Run
  do_request =
      attempts (pos_part cfg.max_retries) 0 cfg.initial_backoff (record { resp = none; err = none })
