-- ===== src/Oci/Examples.antt =====
-- A query over two pages, on fixed-point numbers.
use oci_cpu_shaper.Base.{
  ℕ, ◌≡◌, refl, arith, Option, none, some, false, Result, ok, err, List, [], ◌∷◌, if◌then◌else◌,
  ◌==◌,
}
use oci_cpu_shaper.Base.Int.{pos}
use oci_cpu_shaper.Base.Text.{Text, codes, is_empty, trim_space}
use oci_cpu_shaper.Float.Fixed.{Fixed, fixed_float, Fixed-IsFloat}
use oci_cpu_shaper.Oci.Query.{
  Datapoint, Page, Request, normalize_page_token, collect_pages, query_p95_cpu,
}
use oci_cpu_shaper.Oci.Rank.{IsPercentile}
use oci_cpu_shaper.Oci.Paging.{Serves, values_of, datapoints, collect_pages_lem}
use oci_cpu_shaper.Oci.Weekly.{query_p95_cpu_lem}

abbrev point : ℕ → ℕ → Datapoint Fixed
point v t = record { value = some (some (pos v)); timestamp = some t }

abbrev first_page : Page Fixed
first_page = record {
  items = (point 310 60 ∷ point 120 120 ∷ []) ∷ [];
  next_page = some (codes " more ");
}

abbrev last_page : Page Fixed
last_page = record {
  items = (point 250 180 ∷ record { value = none; timestamp = some 240 } ∷ []) ∷ [];
  next_page = some (codes " ");
}

abbrev pages : List (Page Fixed)
pages = first_page ∷ last_page ∷ []

-- The service tells the pages apart by the token.
abbrev service : Option Text → Result Text (Page Fixed)
service none = ok first_page
service (some token) = ok last_page

service-Serves : Serves service none pages
unfolding normalize_page_token trim_space is_empty
service-Serves = (refl, (codes "more", refl, (refl, refl)))

collect_pages_lem_example :
    collect_pages 5 service none ([], 0)
    ≡ some (ok (some (pos 310) ∷ some (pos 120) ∷ some (pos 250) ∷ [], 180))
collect_pages_lem_example =
    collect_pages_lem service 5 none ([], 0) pages service-Serves (omega arith)

named : is_empty (codes "i") ≡ false
unfolding is_empty
named = refl

-- At a million seconds the window starts after 395200 seconds; other requests are refused.
abbrev weekly : Request → Option Text → Result Text (Page Fixed)
weekly request token =
    if request.start_time == 395_200_000_000_000
    then service token
    else err (codes "another window")

query_p95_cpu_lem_example :
    (v : Fixed) × (query_p95_cpu 5 (codes "c") weekly 1_000_000_000_000_000 (codes "i")
      ≡ some (ok (v, 180)))
    × IsPercentile (some (pos 950)) (values_of (datapoints pages)) v
query_p95_cpu_lem_example =
    query_p95_cpu_lem Fixed-IsFloat 5 (codes "c") weekly 1_000_000_000_000_000 (codes "i") pages
      named service-Serves (omega arith) (refl, (refl, (refl, tt))) (omega arith) (omega arith)
