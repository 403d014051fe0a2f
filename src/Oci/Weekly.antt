-- ===== src/Oci/Weekly.antt =====
-- QueryP95CPU of pkg/oci/query.go from the request to the percentile.
use oci_cpu_shaper.Base.{
  ℕ, ◌-◌, ◌*◌, ◌/◌, ◌^◌, ◌≤◌, ◌<◌, ◌≡◌, refl, arith, false, Option, none, some, Result, ok, List,
  [], ◌∷◌, ◌++◌, map, length, if◌then◌else◌, ◌==◌,
}
use oci_cpu_shaper.Base.Text.{Text, codes, is_empty}
use oci_cpu_shaper.Float.{Float, IsFloat, IsNumber}
use oci_cpu_shaper.Oci.Query.{
  Page, Request, escape_dimension_value, compute_window, build_summarize_request, query_p95_cpu,
}
use oci_cpu_shaper.Oci.Percentile.{All}
use oci_cpu_shaper.Oci.Paging.{concat, Serves, datapoints, values_of, latest_of, collect_pages_lem}
use oci_cpu_shaper.Oci.Rank.{IsPercentile, percentile-IsPercentile}

-- A text in which each quotation mark, 34, has a backslash, 92, before it.
abbrev pub escaped : Text → Text
escaped s = concat (map (λ c. if c == 34 then 92 ∷ 34 ∷ [] else c ∷ []) s)

-- The request for the one-minute samples of an instance in the seven days up to a time in nanoseconds,
-- both ends in whole seconds.
abbrev pub week_request : Text → ℕ → Text → Request
week_request compartment_id now ocid = record {
  compartment_id = compartment_id;
  namespace = codes "oci_computeagent";
  query =
      codes "CpuUtilization[1m]{resourceId = \"" ++ (escaped ocid ++ codes "\"}.percentile(0.95)");
  start_time = (now / 1_000_000_000 - 604_800) * 1_000_000_000;
  end_time = now / 1_000_000_000 * 1_000_000_000;
}

escape-escaped : (s : Text) → escape_dimension_value s ≡ escaped s
unfolding escape_dimension_value
escape-escaped [] = refl
escape-escaped (c ∷ s) = ground (arith, escape-escaped s)

compute_window_lem :
    (now : ℕ)
    → ((compute_window now).0 ≡ (now / 1_000_000_000 - 604_800) * 1_000_000_000)
      × ((compute_window now).1 ≡ now / 1_000_000_000 * 1_000_000_000)
unfolding compute_window
compute_window_lem now = (omega arith, refl)

request-week :
    (compartment_id : Text) (now : ℕ) (ocid : Text)
    → build_summarize_request compartment_id ocid (compute_window now).0 (compute_window now).1
      ≡ week_request compartment_id now ocid
unfolding build_summarize_request
request-week compartment_id now ocid =
    let (start, end) = compute_window_lem now in rw (start, end, escape-escaped ocid) refl

module _ {F : Type 0} ⦃d : Float F⦄ where
  -- For an OCID that is not empty and a service that answers the request of the seven days up to
  -- `now` with a chain of pages: if every value is a number, there are between one and 2^53 of
  -- them, and the fuel covers the pages, `QueryP95CPU` returns one of the values with the latest
  -- time of a complete datapoint. At least 0.95 of the values are at most the returned one, and
  -- less than 0.95 of them are less than it, with 0.95 of their number as the float product. The
  -- request has the one-minute query with quotation marks escaped, the namespace of the compute
  -- agent, and an end and a start in whole seconds, 604800 seconds apart where the time is later
  -- than that.
  pub query_p95_cpu_lem :
      (laws : IsFloat F) (fuel : ℕ) (compartment_id : Text)
      (service : Request → Option Text → Result Text (Page F)) (now : ℕ) (ocid : Text)
      (pages : List (Page F))
      → is_empty ocid ≡ false
      → Serves (service (week_request compartment_id now ocid)) none pages
      → length pages ≤ fuel
      → All IsNumber (values_of (datapoints pages))
      → 0 < length (values_of (datapoints pages))
      → length (values_of (datapoints pages)) ≤ 2 ^ 53
      → (v : F) × (query_p95_cpu fuel compartment_id service now ocid
          ≡ some (ok (v, latest_of 0 (datapoints pages))))
        × IsPercentile (d.milli 950) (values_of (datapoints pages)) v
  unfolding query_p95_cpu
  query_p95_cpu_lem laws fuel compartment_id service now ocid pages named served enough numbers one
        few =
      let (v, e, rank) =
        percentile-IsPercentile laws (values_of (datapoints pages)) (d.milli 950) numbers one few
          (laws.milli_le 1 950 (omega arith)) (laws.milli_le 950 1000 (omega arith)) in
      (
        v,
        rw
            (
              named,
              request-week compartment_id now ocid,
              collect_pages_lem (service (week_request compartment_id now ocid)) fuel none ([], 0)
                  pages served enough,
              e,
            )
            refl,
        rank,
      )
