-- ===== src/Imds/Retry.antt =====
-- Which attempt of pkg/imds/transport.go's loop decides.
use oci_cpu_shaper.Base.{
  ℕ, zero, suc, ◌≤◌, ◌<◌, ◌≡◌, ◌∙◌, ◌⊎◌, ◌==◌, refl, arith, false, Option, none, some, Result, ok,
  err,
}
use oci_cpu_shaper.Base.Text.{Text}
use oci_cpu_shaper.Imds.Transport.{
  Reply, bad_request, failed, answered, never_attempted, FetchError, exhausted_retries, Attempt,
  done, fatal, retry, try_fetch, fetch_from, fetch,
}

-- An attempt that the loop repeats, after a wait that is not cut short.
abbrev pub Repeats : (ℕ → Reply) → (ℕ → Option Text) → ℕ → Type 0
Repeats reply wait attempt =
    ((e : FetchError) × (try_fetch (reply attempt) ≡ retry e)) × (wait attempt ≡ none)

-- So many attempts from this one on.
abbrev pub RepeatsFor : (ℕ → Reply) → (ℕ → Option Text) → ℕ → ℕ → Type 0
RepeatsFor reply wait attempt zero = Unit
RepeatsFor reply wait attempt (suc n) =
    Repeats reply wait attempt × RepeatsFor reply wait (suc attempt) n

-- What an attempt makes of the fetch, given what it is if the attempt is to be repeated.
abbrev pub verdict : Attempt → Result FetchError Text → Result FetchError Text
verdict (done body) other = ok body
verdict (fatal e) other = err e
verdict (retry e) other = other

-- A fetch that settles: the body, or an error that is not worth another attempt.
abbrev pub Settles : Attempt → Type 0
Settles (done body) = Unit
Settles (fatal e) = Unit
Settles (retry e) = ⊥

abbrev pub Retryable : Reply → Type 0
Retryable (bad_request e) = ⊥
Retryable (failed e none) = Unit
Retryable (failed e (some ended)) = ⊥
Retryable (answered r) =
    (r.read_error ≡ none)
    × (r.close_error ≡ none)
    × ((r.status ≡ 408) ⊎ (r.status ≡ 429) ⊎ ((500 ≤ r.status) × ¬ (r.status ≡ 501)))

settle :
    (a : Attempt) (left attempt : ℕ) (reply : ℕ → Reply) (wait : ℕ → Option Text)
    (last : Option FetchError) (other : Result FetchError Text)
    → try_fetch (reply attempt) ≡ a
    → Settles a
    → fetch_from (suc left) attempt reply wait last ≡ verdict a other
unfolding fetch_from
settle (done body) left attempt reply wait last other h s = rw (h, fetch_from) refl
settle (fatal e) left attempt reply wait last other h s = rw (h, fetch_from) refl
settle (retry e) left attempt reply wait last other h s = absurd s

again :
    (left attempt : ℕ) (reply : ℕ → Reply) (wait : ℕ → Option Text) (last : Option FetchError)
    (e : FetchError)
    → try_fetch (reply attempt) ≡ retry e
    → wait attempt ≡ none
    → fetch_from (suc (suc left)) attempt reply wait last
      ≡ fetch_from (suc left) (suc attempt) reply wait (some e)
unfolding fetch_from
again left attempt reply wait last e h w =
    let more : (suc left == 0) ≡ false = ground arith in rw (h, fetch_from, more, w) refl

-- The attempt that comes so many after this one.
abbrev pub after : ℕ → ℕ → ℕ
after attempt zero = attempt
after attempt (suc k) = after (suc attempt) k

fetch_from-Settles :
    (k left attempt : ℕ) (reply : ℕ → Reply) (wait : ℕ → Option Text) (last : Option FetchError)
    (other : Result FetchError Text)
    → k < left
    → RepeatsFor reply wait attempt k
    → Settles (try_fetch (reply (after attempt k)))
    → fetch_from left attempt reply wait last ≡ verdict (try_fetch (reply (after attempt k))) other
fetch_from-Settles k zero attempt reply wait last other h r s = absurd (omega arith)
fetch_from-Settles zero (suc left) attempt reply wait last other h r s =
    settle (try_fetch (reply attempt)) left attempt reply wait last other refl s
fetch_from-Settles (suc k) (suc zero) attempt reply wait last other h r s = absurd (omega arith)
fetch_from-Settles (suc k) (suc (suc left)) attempt reply wait last other h r s =
    let (e, failing) = r.0.0 in
    again left attempt reply wait last e failing r.0.1
    ∙ fetch_from-Settles k (suc left) (suc attempt) reply wait (some e) other (omega arith) r.1 s

-- Where fewer attempts than the budget are repeated and the one after them is not, that one decides:
-- the fetch returns its body or its error, and nothing is asked for after it.
pub fetch-Settles :
    (max_attempt k : ℕ) (reply : ℕ → Reply) (wait : ℕ → Option Text)
    → k < max_attempt
    → RepeatsFor reply wait 1 k
    → Settles (try_fetch (reply (after 1 k)))
    → fetch max_attempt reply wait ≡ verdict (try_fetch (reply (after 1 k))) (err never_attempted)
unfolding fetch
fetch-Settles max_attempt k reply wait h r s =
    fetch_from-Settles k max_attempt 1 reply wait none (err never_attempted) h r s

last_attempt :
    (attempt : ℕ) (reply : ℕ → Reply) (wait : ℕ → Option Text) (last : Option FetchError)
    (e : FetchError)
    → try_fetch (reply attempt) ≡ retry e
    → fetch_from 1 attempt reply wait last ≡ err (exhausted_retries e)
unfolding fetch_from
last_attempt attempt reply wait last e h = rw (h, fetch_from) refl

exhausts_from :
    (k attempt : ℕ) (reply : ℕ → Reply) (wait : ℕ → Option Text) (last : Option FetchError)
    (e : FetchError)
    → RepeatsFor reply wait attempt k
    → try_fetch (reply (after attempt k)) ≡ retry e
    → fetch_from (suc k) attempt reply wait last ≡ err (exhausted_retries e)
exhausts_from zero attempt reply wait last e r h = last_attempt attempt reply wait last e h
exhausts_from (suc k) attempt reply wait last e r h =
    let (e', failing) = r.0.0 in
    again k attempt reply wait last e' failing r.0.1
    ∙ exhausts_from k (suc attempt) reply wait (some e') e r.1 h

-- Where every attempt of the budget is worth another one and no wait is cut short, the fetch ends with
-- the error of the last attempt, and does not wait after it.
pub fetch_exhausts :
    (k : ℕ) (reply : ℕ → Reply) (wait : ℕ → Option Text) (e : FetchError)
    → RepeatsFor reply wait 1 k
    → try_fetch (reply (after 1 k)) ≡ retry e
    → fetch (suc k) reply wait ≡ err (exhausted_retries e)
unfolding fetch
fetch_exhausts k reply wait e r h = exhausts_from k 1 reply wait none e r h
