-- ===== src/Imds/Transport.antt =====
-- pkg/imds/transport.go: one request to the metadata service and the loop that repeats it. The replies
-- of the HTTP client and the waits between two attempts are parameters, by the number of the attempt.
use oci_cpu_shaper.Base.{
  ℕ, zero, suc, Bool, not, ◌||◌, ◌&&◌, if◌then◌else◌, Option, none, some, Result, ok, err, leb,
  ◌==◌,
}
use oci_cpu_shaper.Base.Text.{Text, trim_space, is_empty}

-- What `http.Do`, `io.ReadAll` and `Close` come to.
pub record Response : Type 0 where
  pub status : ℕ
  pub body : Text
  pub read_error : Option Text
  pub close_error : Option Text

-- A request that fails comes with the error of the context, if that is done.
pub data Reply : Type 0 where
  bad_request : Text → Reply
  failed : Text → Option Text → Reply
  answered : Response → Reply

pub data FetchError : Type 0 where
  request_not_built : Text → FetchError
  request_failed : Text → FetchError
  body_not_read : Text → Option Text → FetchError
  body_not_closed : Text → FetchError
  unexpected_status : ℕ → Text → FetchError
  retryable_status : ℕ → FetchError
  wait_failed : Text → FetchError
  exhausted_retries : FetchError → FetchError
  never_attempted : FetchError
  empty_response : FetchError

pub data Attempt : Type 0 where
  done : Text → Attempt
  fatal : FetchError → Attempt
  retry : FetchError → Attempt

unfoldable pub is_retryable : ℕ → Bool
is_retryable status = status == 408 || status == 429 || (leb 500 status && not (status == 501))

-- The end of `tryFetch`, once the body is read and closed.
unfoldable pub judge_status : ℕ → Text → Attempt
unfolding is_retryable trim_space
judge_status status body =
    if status == 200
    then done body
    else if not (is_retryable status)
    then fatal (unexpected_status status (trim_space body))
    else retry (retryable_status status)

unfoldable pub judge_response : ℕ → Text → Option Text → Option Text → Attempt
unfolding judge_status
judge_response status body (some e) closing = fatal (body_not_read e closing)
judge_response status body none (some e) = fatal (body_not_closed e)
judge_response status body none none = judge_status status body

unfoldable pub try_fetch : Reply → Attempt
unfolding judge_response
try_fetch (bad_request e) = fatal (request_not_built e)
try_fetch (failed e (some ended)) = fatal (request_failed ended)
try_fetch (failed e none) = retry (request_failed e)
try_fetch (answered r) = judge_response r.status r.body r.read_error r.close_error

-- The loop of `fetch` with so many attempts left, the number of the next one, and the last error.
unfoldable pub fetch_from :
    ℕ → ℕ → (ℕ → Reply) → (ℕ → Option Text) → Option FetchError → Result FetchError Text
unfolding try_fetch
fetch_from zero attempt reply wait none = err never_attempted
fetch_from zero attempt reply wait (some e) = err (exhausted_retries e)
fetch_from (suc left) attempt reply wait last = elim (try_fetch (reply attempt)) [
  | done body ↦ ok body
  | fatal e ↦ err e
  | retry e ↦ if left == 0 then err (exhausted_retries e) else elim (wait attempt) [
    | some w ↦ err (wait_failed w)
    | none ↦ fetch_from left (suc attempt) reply wait (some e)
  ]
]

unfoldable pub fetch : ℕ → (ℕ → Reply) → (ℕ → Option Text) → Result FetchError Text
unfolding fetch_from
fetch max_attempt reply wait = fetch_from max_attempt 1 reply wait none

-- `getText`.
unfoldable pub get_text : ℕ → (ℕ → Reply) → (ℕ → Option Text) → Result FetchError Text
unfolding fetch
get_text max_attempt reply wait = elim (fetch max_attempt reply wait) [
  | err e ↦ err e
  | ok payload ↦ let t = trim_space payload in if is_empty t then err empty_response else ok t
]
