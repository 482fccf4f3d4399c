-- ===== src/Paper/Extract.antt =====
-- `extract_k6_metrics` of project/analysis/plot_paper_figures.py: the latency percentiles, the
-- request rate and the error percentage of one k6 results file.
use laborator_pcd.Base.{
  ℕ, ◌+◌, String, ◌&&◌, if◌then◌else◌, Option, none, some, List, [], ◌∷◌, ◌++◌, length,
}
use laborator_pcd.Base.Chars.{Chars, newline, split}
use laborator_pcd.Py.{
  Result, ok, raise, ◌>>=◌, ◌>>◌, Json, null, str, int, obj, end, get, is_text, Floats, to_float,
  strip, is_empty, Disk, Decoder, lines_of, fold_each,
}
use laborator_pcd.Numpy.{Numpy}
use Prim.Native.Nat.{max}
use laborator_pcd.Base.{pos}

-- The variables of the second loop.
pub record Tally (F : Type 0) : Type 0 where
  pub dur_values : List F
  pub req_count : ℕ
  pub fail_count : F

pub record Metrics (F : Type 0) : Type 0 where
  pub p50 : F
  pub p95 : F
  pub p99 : F
  pub rps : F
  pub err_rate : F

module _ {F : Type 0} where
  -- The first loop keeps nothing, but its lookups can raise. From `metric = ...` on:
  unfoldable pub inspect_rest : Json F → Json F → Result (Unit {0})
  inspect_rest v t = do
    metric ← get v "metric" (str "")
    d ← get v "data" (obj end)
    (if is_text metric "http_req_duration" && is_text t "Metric"
        then ok tt
        else if is_text t "Metric" && is_text metric "http_reqs"
        then (get d "contains" (obj end) >>= λ _. ok tt)
        else ok tt)

  unfoldable pub inspect_value : Json F → Result (Unit {0})
  unfolding inspect_rest
  inspect_value v = do
    t ← get v "type" null
    (if is_text t "Point" then ok tt else inspect_rest v t)

  abbrev inspect_decoded : Option (Json F) → Result (Unit {0})
  inspect_decoded none = ok tt
  inspect_decoded (some v) = inspect_value v

  unfoldable pub inspect_line : Decoder F → Unit {0} → Chars → Result (Unit {0})
  unfolding inspect_value
  inspect_line loads _ line =
      let text = strip line in if is_empty text then ok tt else inspect_decoded (loads text)

module _ {F : Type 0} ⦃fl : Floats F⦄ where
  -- The `if t == "Point"` of the second loop.
  unfoldable pub count_point : Tally F → Json F → Json F → Json F → Result (Tally F)
  count_point s t metric val =
      if is_text t "Point"
      then if is_text metric "http_req_duration"
        then (to_float val >>= λ x. ok (record s { dur_values = s.dur_values ++ (x ∷ []) }))
        else if is_text metric "http_reqs"
        then ok (record s { req_count = s.req_count + 1 })
        else if is_text metric "http_req_failed"
        then (to_float val >>= λ x. ok (record s { fail_count = fl.add s.fail_count x }))
        else ok s
      else ok s

  unfoldable pub tally_value : Tally F → Json F → Result (Tally F)
  unfolding count_point
  tally_value s v = do
    t ← get v "type" (str "")
    metric ← get v "metric" (str "")
    d ← get v "data" (obj end)
    val ← get d "value" (int (pos 0))
    count_point s t metric val

  abbrev pub tally_decoded : Tally F → Option (Json F) → Result (Tally F)
  tally_decoded s none = ok s
  tally_decoded s (some v) = tally_value s v

  unfoldable pub tally_line : Decoder F → Tally F → Chars → Result (Tally F)
  unfolding tally_value
  tally_line loads s line = if is_empty (strip line) then ok s else tally_decoded s (loads line)

  abbrev pub no_tally : Tally F
  no_tally = record { dur_values = []; req_count = 0; fail_count = fl.nought }

  -- After the loops. The `rps` that is computed first is overwritten, since there are durations.
  abbrev pub metrics_of : Numpy F → F → List F → Option (Metrics F)
  metrics_of np fails [] = none
  metrics_of np fails (x ∷ xs) = some (record {
    p50 = np.percentile (x ∷ xs) 50;
    p95 = np.percentile (x ∷ xs) 95;
    p99 = np.percentile (x ∷ xs) 99;
    rps = fl.ratio (length (x ∷ xs)) 60;
    err_rate = fl.div_by (fl.scale 100 fails) (max 1 (length (x ∷ xs)));
  })

  unfoldable pub summarise : Numpy F → Tally F → Option (Metrics F)
  summarise np s = metrics_of np s.fail_count s.dur_values

  -- The body of the `try`.
  unfoldable pub measure : Numpy F → Decoder F → Chars → Result (Option (Metrics F))
  unfolding inspect_line tally_line summarise
  measure np loads content = do
    fold_each (inspect_line loads) tt (lines_of content)
    s ← fold_each (tally_line loads) no_tally (split newline (strip content))
    ok (summarise np s)

  -- `except Exception`
  abbrev pub or_none : Result (Option (Metrics F)) → Option (Metrics F)
  or_none (ok m) = m
  or_none (raise _) = none

  abbrev pub extract_text : Numpy F → Decoder F → Option Chars → Option (Metrics F)
  extract_text np loads none = none
  extract_text np loads (some content) = or_none (measure np loads content)

  unfoldable pub extract_k6_metrics : Numpy F → Decoder F → Disk → String → Option (Metrics F)
  extract_k6_metrics np loads disk path = extract_text np loads (disk path)
