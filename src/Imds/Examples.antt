-- ===== src/Imds/Examples.antt =====
-- A fetch that is answered 503, then fails, then succeeds.
use oci_cpu_shaper.Base.{ℕ, ◌≡◌, refl, arith, Option, none, ok, err, if◌then◌else◌, ◌==◌}
use oci_cpu_shaper.Base.Text.{Text, codes}
use oci_cpu_shaper.Imds.Transport.{
  Response, Reply, failed, answered, request_failed, retryable_status, exhausted_retries, retry,
  is_retryable, judge_status, judge_response, try_fetch, fetch,
}
use oci_cpu_shaper.Imds.Retry.{RepeatsFor, Settles, fetch-Settles, fetch_exhausts}

abbrev response : ℕ → Text → Response
response status body = record {
  status = status;
  body = body;
  read_error = none;
  close_error = none;
}

abbrev reply : ℕ → Reply
reply attempt =
    if attempt == 1
    then answered (response 503 (codes "busy"))
    else if attempt == 2
    then failed (codes "timeout") none
    else answered (response 200 (codes "ocid1"))

abbrev wait : ℕ → Option Text
wait attempt = none

repeated : RepeatsFor reply wait 1 2
unfolding try_fetch judge_response judge_status is_retryable
repeated =
    (((retryable_status 503, refl), refl), (((request_failed (codes "timeout"), refl), refl), tt))

third-Settles : Settles (try_fetch (reply 3))
unfolding try_fetch judge_response judge_status
third-Settles = tt

third : try_fetch (reply 2) ≡ retry (request_failed (codes "timeout"))
unfolding try_fetch
third = refl

fetch-Settles_example : fetch 3 reply wait ≡ ok (codes "ocid1")
unfolding try_fetch judge_response judge_status
fetch-Settles_example = fetch-Settles 3 2 reply wait (omega arith) repeated third-Settles

fetch_exhausts_example :
    fetch 2 reply wait ≡ err (exhausted_retries (request_failed (codes "timeout")))
fetch_exhausts_example =
    fetch_exhausts 1 reply wait (request_failed (codes "timeout")) (repeated.0, tt) third
