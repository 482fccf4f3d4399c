-- ===== src/Results/K6.antt =====
-- `load_prom` and `load_k6` of project/analysis/plot_results.py.
pub mod Agreement
pub mod Percentiles
use laborator_pcd.Base.{
  ℕ, ◌+◌, pos, String, Bool, true, false, if◌then◌else◌, ◌==◌, Option, none, some, List, [], ◌∷◌,
  ◌++◌,
}
use laborator_pcd.Base.Chars.{Chars}
use laborator_pcd.Py.{
  Result, ok, raise, ◌>>=◌, Json, null, str, int, float, obj, end, get, is_text, Floats,
  is_above_nought, Disk, Decoder, load, lines_of, fold_each,
}
use laborator_pcd.Numpy.{Numpy}
use laborator_pcd.Paper.Load.{k6_path}
use laborator_pcd.Summary.{prom_path}

abbrev pub read_prom : {F : Type 0} → Decoder F → Option Chars → Result (Json F)
read_prom loads none = ok (obj end)
read_prom loads (some text) = load loads text

unfoldable pub load_prom : {F : Type 0} → Decoder F → Disk → String → String → Result (Json F)
load_prom loads disk policy scenario = read_prom loads (disk (prom_path policy scenario))

-- The variables of the loop. The durations are kept as they were decoded.
pub record Counts (F : Type 0) : Type 0 where
  pub durations : List (Json F)
  pub errors : ℕ
  pub totals : ℕ

-- The dict that is returned. `none` stands for None and for a key that is missing, which `get`
-- does not tell apart.
pub record K6 (F : Type 0) : Type 0 where
  pub p50_ms : Option F
  pub p95_ms : Option F
  pub p99_ms : Option F
  pub error_rate : Option F

module _ {F : Type 0} ⦃fl : Floats F⦄ where
  -- The tests on the metric of a point.
  unfoldable pub count_metric : Counts F → Json F → Json F → Result (Counts F)
  count_metric s m v =
      if is_text m "http_req_duration"
      then ok (record s { durations = s.durations ++ (v ∷ []) })
      else if is_text m "http_reqs"
      then ok (record s { totals = s.totals + 1 })
      else if is_text m "http_req_failed"
      then (is_above_nought v >>= λ failed.
          ok (if failed then record s { errors = s.errors + 1 } else s))
      else ok s

  unfoldable pub count_point : Counts F → Json F → Result (Counts F)
  unfolding count_metric
  count_point s obj_ = do
    m ← get obj_ "metric" (str "")
    d ← get obj_ "data" (obj end)
    v ← get d "value" (int (pos 0))
    count_metric s m v

  unfoldable pub count_value : Counts F → Json F → Result (Counts F)
  unfolding count_point
  count_value s obj_ = do
    t ← get obj_ "type" null
    (if is_text t "Point" then count_point s obj_ else ok s)

  abbrev pub count_decoded : Counts F → Option (Json F) → Result (Counts F)
  count_decoded s none = ok s
  count_decoded s (some v) = count_value s v

  unfoldable pub count_line : Decoder F → Counts F → Chars → Result (Counts F)
  unfolding count_value
  count_line loads s line = count_decoded s (loads line)

  abbrev pub no_counts : Counts F
  no_counts = record { durations = []; errors = 0; totals = 0 }

  abbrev pub rate_of : ℕ → ℕ → Option F
  rate_of errors totals = if totals == 0 then none else some (fl.ratio errors totals)

  -- After the loop.
  abbrev pub k6_of : Numpy F → List (Json F) → Option F → Result (K6 F)
  k6_of np [] error_rate =
      ok (record { p50_ms = none; p95_ms = none; p99_ms = none; error_rate = error_rate })
  k6_of np (v ∷ vs) error_rate = do
    p95 ← np.percentile_of (v ∷ vs) 95
    p50 ← np.percentile_of (v ∷ vs) 50
    p99 ← np.percentile_of (v ∷ vs) 99
    ok (record { p50_ms = some p50; p95_ms = some p95; p99_ms = some p99; error_rate = error_rate })

  abbrev pub k6_of_text : Numpy F → Decoder F → Option Chars → Result (K6 F)
  k6_of_text np loads none =
      ok (record { p50_ms = none; p95_ms = none; p99_ms = none; error_rate = none })
  k6_of_text np loads (some text) = fold_each (count_line loads) no_counts (lines_of text) >>= λ s.
      k6_of np s.durations (rate_of s.errors s.totals)

  unfoldable pub load_k6 : Numpy F → Decoder F → Disk → String → String → Result (K6 F)
  load_k6 np loads disk policy scenario = k6_of_text np loads (disk (k6_path policy scenario))
