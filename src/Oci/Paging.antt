-- ===== src/Oci/Paging.antt =====
-- The loop of pkg/oci/query.go over the pages of a response, and the query that it serves.
use oci_cpu_shaper.Base.{
  ℕ, zero, suc, ◌≤◌, ◌≡◌, ap, ◌∙◌, refl, arith, Option, none, some, Result, ok, err, List, [], ◌∷◌,
  ◌++◌, length,
}
use mathlib.Core.List.{append_assoc, append-nil}
use oci_cpu_shaper.Base.Text.{Text}
use oci_cpu_shaper.Oci.Query.{
  Datapoint, Page, later, normalize_page_token, add_datapoint, append_stream, append_metric_values,
  collect_pages,
}

abbrev pub concat : {A : Type 0} → List (List A) → List A
concat [] = []
concat (xs ∷ rest) = xs ++ concat rest

module _ {F : Type 0} where
  -- From this token on, the service answers with these pages, each naming the token of the next.
  abbrev pub Serves : (Option Text → Result Text (Page F)) → Option Text → List (Page F) → Type 0
  Serves service token [] = ⊥
  Serves service token (p ∷ []) = (service token ≡ ok p) × (normalize_page_token p.next_page ≡ none)
  Serves service token (p ∷ q ∷ rest) =
      (service token ≡ ok p)
      × ((next : Text) × (normalize_page_token p.next_page ≡ some next)
          × Serves service (some next) (q ∷ rest))

  -- The datapoints of all streams of all pages.
  abbrev pub datapoints : List (Page F) → List (Datapoint F)
  datapoints [] = []
  datapoints (p ∷ rest) = concat p.items ++ datapoints rest

  -- A datapoint without a value or a time is left out.
  abbrev pub keep : Option F → Option ℕ → List F → List F
  keep (some v) (some t) rest = v ∷ rest
  keep _ _ rest = rest

  abbrev pub newer : Option F → Option ℕ → ℕ → ℕ
  newer (some v) (some t) latest = later t latest
  newer _ _ latest = latest

  abbrev pub values_of : List (Datapoint F) → List F
  values_of [] = []
  values_of (p ∷ rest) = keep p.value p.timestamp (values_of rest)

  -- The latest time among them, if it is after this one.
  abbrev pub latest_of : ℕ → List (Datapoint F) → ℕ
  latest_of latest [] = latest
  latest_of latest (p ∷ rest) = latest_of (newer p.value p.timestamp latest) rest

  values_of-append :
      (xs ys : List (Datapoint F)) → values_of (xs ++ ys) ≡ values_of xs ++ values_of ys
  values_of-append [] ys = refl
  values_of-append (x ∷ xs) ys =
      ap (keep x.value x.timestamp) (values_of-append xs ys)
      ∙ keep-append x.value x.timestamp (values_of xs) (values_of ys)
    where
      keep-append :
          (v : Option F) (t : Option ℕ) (xs ys : List F) → keep v t (xs ++ ys) ≡ keep v t xs ++ ys
      keep-append none t xs ys = refl
      keep-append (some v) none xs ys = refl
      keep-append (some v) (some t) xs ys = refl

  latest_of-append :
      (latest : ℕ) (xs ys : List (Datapoint F))
      → latest_of latest (xs ++ ys) ≡ latest_of (latest_of latest xs) ys
  latest_of-append latest [] ys = refl
  latest_of-append latest (x ∷ xs) ys = latest_of-append (newer x.value x.timestamp latest) xs ys

  add_datapoint_lem :
      (v : Option F) (t : Option ℕ) (values : List F) (latest : ℕ) (rest : List F)
      → ((add_datapoint v t (values, latest)).0 ++ rest ≡ values ++ keep v t rest)
        × ((add_datapoint v t (values, latest)).1 ≡ newer v t latest)
  unfolding add_datapoint
  add_datapoint_lem none t values latest rest = (refl, refl)
  add_datapoint_lem (some v) none values latest rest = (refl, refl)
  add_datapoint_lem (some v) (some t) values latest rest = (rw append_assoc, refl)

  append_stream_lem :
      (acc : List F × ℕ) (ps : List (Datapoint F))
      → append_stream acc ps ≡ (acc.0 ++ values_of ps, latest_of acc.1 ps)
  unfolding append_stream
  append_stream_lem acc [] = rw append-nil
  append_stream_lem acc (p ∷ rest) =
      let (values, time) = add_datapoint_lem p.value p.timestamp acc.0 acc.1 (values_of rest) in
      append_stream_lem (add_datapoint p.value p.timestamp acc) rest ∙ rw (values, time)

  append_metric_values_lem :
      (acc : List F × ℕ) (streams : List (List (Datapoint F)))
      → append_metric_values acc streams
        ≡ (acc.0 ++ values_of (concat streams), latest_of acc.1 (concat streams))
  unfolding append_metric_values
  append_metric_values_lem acc [] = rw append-nil
  append_metric_values_lem acc (s ∷ rest) =
      append_metric_values_lem (append_stream acc s) rest
      ∙ rw (
        append_stream_lem acc s,
        values_of-append s (concat rest),
        latest_of-append acc.1 s (concat rest),
        append_assoc,
      )

  add_page :
      (acc : List F × ℕ) (p : Page F) (rest : List (Page F))
      → let next = append_metric_values acc p.items in
        ◌≡◌ {A = List F × ℕ}
          (next.0 ++ values_of (datapoints rest), latest_of next.1 (datapoints rest))
          (acc.0 ++ values_of (datapoints (p ∷ rest)), latest_of acc.1 (datapoints (p ∷ rest)))
  add_page acc p rest = rw (
    append_metric_values_lem acc p.items,
    values_of-append (concat p.items) (datapoints rest),
    latest_of-append acc.1 (concat p.items) (datapoints rest),
    append_assoc,
  )

  -- Against a service that answers with a chain of pages, and with as much fuel as there are pages,
  -- the loop ends: it collects the values of all complete datapoints of all pages, in order, and their
  -- latest time.
  pub collect_pages_lem :
      (service : Option Text → Result Text (Page F)) (fuel : ℕ) (token : Option Text)
      (acc : List F × ℕ) (pages : List (Page F))
      → Serves service token pages
      → length pages ≤ fuel
      → collect_pages fuel service token acc
        ≡ some (ok (acc.0 ++ values_of (datapoints pages), latest_of acc.1 (datapoints pages)))
  unfolding collect_pages
  collect_pages_lem service fuel token acc [] s h = absurd s
  collect_pages_lem service zero token acc (p ∷ rest) s h = absurd (omega arith)
  collect_pages_lem service (suc fuel) token acc (p ∷ []) s h =
      let final = append_metric_values acc p.items in
      let whole : final ≡ (final.0 ++ [], final.1) = rw append-nil refl in
      rw (s.0, collect_pages, s.1) (ap (λ x. some (ok x)) (whole ∙ add_page acc p []))
  collect_pages_lem service (suc fuel) token acc (p ∷ q ∷ rest) s h =
      let (next, e, more) = s.1 in
      let ih =
        collect_pages_lem service fuel (some next) (append_metric_values acc p.items) (q ∷ rest)
          more (omega arith) in
      rw (s.0, collect_pages, e) (ih ∙ ap (λ x. some (ok x)) (add_page acc p (q ∷ rest)))

  -- A page that fails ends the loop with its error, whatever came before.
  failing_page :
      (service : Option Text → Result Text (Page F)) (fuel : ℕ) (token : Option Text)
      (acc : List F × ℕ) (e : Text)
      → service token ≡ err e
      → collect_pages (suc fuel) service token acc ≡ some (err e)
  unfolding collect_pages
  failing_page service fuel token acc e h = rw (h, collect_pages) refl
