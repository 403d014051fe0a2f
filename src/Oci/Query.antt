-- ===== src/Oci/Query.antt =====
-- pkg/oci/query.go: the pages of a query and the percentile over all of them. The service is a function
-- from a page token to an answer; a time is in nanoseconds, and 0 is the zero time.
use oci_cpu_shaper.Base.{
  ℕ, zero, suc, ◌-◌, ◌*◌, ◌/◌, Bool, not, ◌&&◌, ◌||◌, if◌then◌else◌, Option, none, some, Result, ok,
  err, List, [], ◌∷◌, ◌++◌, ltb, length, ◌==◌,
}
use oci_cpu_shaper.Base.Int.{pos, leb_ℤ, ltb_ℤ, ◌-ℤ◌, pos_part}
use oci_cpu_shaper.Base.Text.{Text, codes, trim_space, is_empty}
use oci_cpu_shaper.Float.{Float, is_nan}

-- `monitoring.AggregatedDatapoint`; both pointers may be nil.
pub record Datapoint (F : Type 0) : Type 0 where
  pub value : Option F
  pub timestamp : Option ℕ

-- The datapoints of each stream of a response, and the token of the page after it.
pub record Page (F : Type 0) : Type 0 where
  pub items : List (List (Datapoint F))
  pub next_page : Option Text

pub data QueryError : Type 0 where
  missing_instance_ocid : QueryError
  summarize_failed : Text → QueryError
  no_metrics_data : QueryError

abbrev pub second : ℕ
second = 1_000_000_000

-- Start and end of the trailing seven days; times lie after the first week of the epoch.
unfoldable pub compute_window : ℕ → ℕ × ℕ
compute_window now = let end = now / second * second in (end - 7 * 24 * 3600 * second, end)

unfoldable pub normalize_page_token : Option Text → Option Text
normalize_page_token none = none
normalize_page_token (some token) =
    let trimmed = trim_space token in if is_empty trimmed then none else some trimmed

-- A quotation mark, 34, gets a backslash, 92, before it.
unfoldable pub escape_dimension_value : Text → Text
escape_dimension_value [] = []
escape_dimension_value (c ∷ s) =
    let rest = escape_dimension_value s in if c == 34 then 92 ∷ 34 ∷ rest else c ∷ rest

abbrev pub later : ℕ → ℕ → ℕ
later timestamp latest = if ltb latest timestamp then timestamp else latest

-- What the code sets in a `SummarizeMetricsDataRequest`.
pub record Request : Type 0 where
  pub compartment_id : Text
  pub namespace : Text
  pub query : Text
  pub start_time : ℕ
  pub end_time : ℕ

unfoldable pub build_summarize_request : Text → Text → ℕ → ℕ → Request
build_summarize_request compartment_id instance_ocid start_time end_time = record {
  compartment_id = compartment_id;
  namespace = codes "oci_computeagent";
  query =
      codes "CpuUtilization[1m]{resourceId = \""
      ++ (escape_dimension_value instance_ocid ++ codes "\"}.percentile(0.95)");
  start_time = start_time;
  end_time = end_time;
}

module _ {F : Type 0} where
  abbrev pub get_elem? : List F → ℕ → Option F
  get_elem? [] i = none
  get_elem? (x ∷ xs) zero = some x
  get_elem? (x ∷ xs) (suc i) = get_elem? xs i

  -- One round of the inner loop of `appendMetricValues`.
  unfoldable pub add_datapoint : Option F → Option ℕ → List F × ℕ → List F × ℕ
  add_datapoint (some v) (some t) (values, latest) = (values ++ (v ∷ []), later t latest)
  add_datapoint _ _ acc = acc

  unfoldable pub append_stream : List F × ℕ → List (Datapoint F) → List F × ℕ
  append_stream acc [] = acc
  append_stream acc (p ∷ rest) = append_stream (add_datapoint p.value p.timestamp acc) rest

  unfoldable pub append_metric_values : List F × ℕ → List (List (Datapoint F)) → List F × ℕ
  unfolding append_stream add_datapoint
  append_metric_values acc [] = acc
  append_metric_values acc (stream ∷ rest) = append_metric_values (append_stream acc stream) rest

  -- The loop of `collectLatestDatapoint`, for at most `fuel` pages: the values and the latest time, or
  -- `none` if the service still names a next page.
  unfoldable pub collect_pages :
      ℕ
      → (Option Text → Result Text (Page F))
      → Option Text
      → List F × ℕ
      → Option (Result Text (List F × ℕ))
  unfolding append_metric_values normalize_page_token
  collect_pages zero service token acc = none
  collect_pages (suc fuel) service token acc = elim (service token) [
    | err e ↦ some (err e)
    | ok page ↦
        let acc' = append_metric_values acc page.items in
        elim (normalize_page_token page.next_page) [
          | none ↦ some (ok acc')
          | some next ↦ collect_pages fuel service (some next) acc'
        ]
  ]

module _ {F : Type 0} ⦃d : Float F⦄ where
  open d use {lt, mul, of_int, ceil, milli}

  -- The order of `sort.Float64s`: NaN stands first.
  abbrev pub before : F → F → Bool
  before x y = lt x y || is_nan x && not (is_nan y)

  unfoldable pub insert_sorted : F → List F → List F
  insert_sorted x [] = x ∷ []
  insert_sorted x (y ∷ ys) = if before y x then y ∷ insert_sorted x ys else x ∷ y ∷ ys

  -- `sort.Float64s`, as an insertion sort: its result does not depend on the algorithm.
  unfoldable pub sort_floats : List F → List F
  unfolding insert_sorted
  sort_floats [] = []
  sort_floats (x ∷ xs) = insert_sorted x (sort_floats xs)

  -- The index that `percentile` reads, in a list of `n` values, `n` positive.
  unfoldable pub percentile_index : F → ℕ → ℕ
  percentile_index target n =
      let rank = ceil (mul target (of_int (pos n))) in
      let rank' = if ltb_ℤ rank (pos 1) then pos 1 else rank in
      let index = rank' -ℤ pos 1 in if leb_ℤ (pos n) index then n - 1 else pos_part index

  unfoldable pub percentile : List F → F → Option F
  unfolding sort_floats percentile_index
  percentile values target =
      get_elem? (sort_floats values) (percentile_index target (length values))

  -- `QueryP95CPU` on a client that is not nil, with a bound on the pages: the P95 and its time.
  unfoldable pub query_p95_cpu :
      ℕ
      → Text
      → (Request → Option Text → Result Text (Page F))
      → ℕ
      → Text
      → Option (Result QueryError (F × ℕ))
  unfolding collect_pages percentile compute_window build_summarize_request
  query_p95_cpu fuel compartment_id service now instance_ocid =
      let (start_time, end_time) = compute_window now in
      let request = build_summarize_request compartment_id instance_ocid start_time end_time in
      if is_empty instance_ocid
      then some (err missing_instance_ocid)
      else elim (collect_pages fuel (service request) none ([], 0)) [
        | none ↦ none
        | some (err e) ↦ some (err (summarize_failed e))
        | some (ok (values, latest)) ↦ elim (percentile values (milli 950)) [
          | none ↦ some (err no_metrics_data)
          | some p95 ↦ some (ok (p95, latest))
        ]
      ]
