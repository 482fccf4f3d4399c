-- ===== src/Paper/Calls.antt =====
-- The calls of matplotlib that project/analysis/plot_paper_figures.py makes for each figure, once its
-- numbers are known.
use Prim.Native.String.{◌++◌ as ◌<>◌}
use laborator_pcd.Base.{ℤ, String, if◌then◌else◌, Option, none, some, List, [], ◌∷◌, ◌++◌, map}
use laborator_pcd.Base.Chars.{Chars, codes}
use laborator_pcd.Py.{
  Json, Floats, Result, ok, raise, value_error, overflow_error, or_raise, for_each, show_number,
}
use laborator_pcd.Numpy.{Numpy}
use laborator_pcd.Drawing.{
  Series, Points, Call, subplots, save, close, bars, value_bars, scatter, steps, line, time_line,
  vertical, horizontal, image, text, white_text, x_label, y_label, x_ticks, y_ticks, y_limit,
  legend, colorbar,
}
use laborator_pcd.Paper.Figures.{short_labels, policy_names, HeatCell, heat_cell}
use laborator_pcd.Paper.Scaling.{Timeline, Scaling}
use laborator_pcd.Paper.Latency.{Bin}

-- `s.capitalize()` of each scenario
abbrev pub capitalized : List Chars
capitalized = codes "Steady" ∷ codes "Burst" ∷ codes "Heavy" ∷ codes "Spike" ∷ []

-- The end of every figure: `out`, and `out.replace(".pdf", ".png")`, where the directory's own name
-- has no such part.
abbrev pub save_both : {F : Type 0} → String → List (Call F)
save_both name = save (name <> ".pdf") ∷ save (name <> ".png") ∷ close ∷ []

-- The calls after the bars or points, in the figures that draw one for each policy.
abbrev pub by_scenario : {F : Type 0} → String → String → List (Call F)
by_scenario measured name =
    x_label "Load Scenario" ∷ y_label measured ∷ x_ticks capitalized ∷ legend ∷ save_both name

abbrev pub by_p50 : {F : Type 0} → List (Call F)
by_p50 =
    x_label "p50 Latency (ms)" ∷ y_label "p95 Latency (ms)" ∷ legend ∷ save_both "fig_p50_vs_p95"

abbrev pub under_heat_map : {F : Type 0} → List (Call F)
under_heat_map = x_label "Scenario" ∷ colorbar "Error Rate (%)" ∷ save_both "fig_error_rate"

abbrev pub by_time : {F : Type 0} → List (Call F)
by_time =
    x_label "Elapsed Time (s)"
    ∷ y_label "Latency (ms)"
    ∷ legend
    ∷ save_both "fig_hpa_latency_timeseries"

-- What `fig_hpa_scaling` hands to the latency figure.
abbrev pub ScaleUps : Type 0 → Type 0
ScaleUps F = Option (List F × F)

module _ {F : Type 0} ⦃fl : Floats F⦄ where
  -- `max` of two numbers, the first one if neither is larger.
  abbrev pub larger : F → F → F
  larger x y = if fl.gt y x then y else x

  -- The calls of a figure, once it is open and its numbers are known.
  abbrev pub p95_latency_calls : List (Series F) → List (Call F)
  p95_latency_calls series = map bars series ++ by_scenario "p95 Latency (ms)" "fig_p95_latency"

  abbrev pub throughput_calls : List (Series F) → List (Call F)
  throughput_calls series = map bars series ++ by_scenario "Throughput (req/s)" "fig_throughput"

  -- `f"{v}s"`
  abbrev pub in_seconds : Json F → Call F
  in_seconds v = text (show_number v ++ codes "s")

  -- `ax.set_ylim(0, x)` refuses an infinity and NaN.
  abbrev pub checked_limit : F → Result F
  checked_limit x = if fl.is_finite x then ok x else raise value_error

  abbrev pub recovery_bars : List (Json F) → List (Call F)
  recovery_bars vals =
      subplots 1
      ∷ value_bars vals
      ∷ x_ticks (map codes short_labels)
      ∷ y_label "Recovery Time (s)"
      ∷ []

  abbrev pub recovery_calls : List (Json F) → F → List (Call F)
  recovery_calls vals limit =
      y_limit limit ∷ (map in_seconds vals ++ save_both "fig_fault_recovery")

  abbrev pub p50_calls : List (Points F) → List (Call F)
  p50_calls points = map scatter points ++ by_p50

  abbrev pub cell_text : HeatCell → Call F
  cell_text (label, white) = if white then white_text label else text label

  abbrev pub cell_texts : F → List (List F) → List (Call F)
  cell_texts highest [] = []
  cell_texts highest (row ∷ rows) =
      map (λ val. cell_text (heat_cell highest val)) row ++ cell_texts highest rows

  abbrev pub heat_map : F → List (List F) → List (Call F)
  heat_map highest matrix =
      image matrix (larger (fl.ratio 1 2) highest) ∷ x_ticks capitalized ∷ y_ticks policy_names ∷ []

  abbrev pub error_calls : F → List (List F) → List (Call F)
  error_calls highest matrix =
      heat_map highest matrix ++ (cell_texts highest matrix ++ under_heat_map)

  abbrev pub unlabelled : F → Call F
  unlabelled t = vertical t none

  -- `ax1.step` makes floats of the replica counts.
  abbrev pub to_floats : List ℤ → Result (List F)
  to_floats replicas = for_each (λ r. or_raise overflow_error (fl.of_int r)) replicas

  -- `max(100, cpu_pct.max() * 1.15)`
  abbrev pub cpu_limit : Numpy F → Timeline F → F
  cpu_limit np t = larger (fl.ratio 100 1) (fl.mul (np.max_of (t.cpu_pct ∷ [])) (fl.ratio 115 100))

  abbrev pub scaling_lines : Timeline F → List (Call F)
  scaling_lines t =
      steps "Replicas" t.elapsed t.replicas
      ∷ x_label "Elapsed Time (s)"
      ∷ y_label "Replica Count"
      ∷ y_limit (fl.ratio 8 1)
      ∷ line "CPU Util. (%)" t.elapsed t.cpu_pct
      ∷ horizontal (fl.ratio 70 1) "Target (70%)"
      ∷ y_label "Avg CPU Utilisation (%)"
      ∷ []

  abbrev pub scaling_end : List (Call F)
  scaling_end = legend ∷ save_both "fig_hpa_scaling"

  -- The calls after the limit of the second axis is known.
  abbrev pub scaling_calls : Scaling F → F → List (Call F)
  scaling_calls s limit = y_limit limit ∷ (map unlabelled s.marks ++ scaling_end)

  -- The first mark has a label.
  abbrev pub scale_up_marks : ScaleUps F → List (Call F)
  scale_up_marks none = []
  scale_up_marks (some ([], start)) = []
  scale_up_marks (some (t ∷ ts, start)) = vertical t (some "Scale-up") ∷ map unlabelled ts

  abbrev pub percentile_lines : List (Bin F) → List (Call F)
  percentile_lines bins =
      subplots 1
      ∷ time_line "p50" (map (λ b. b.centre) bins) (map (λ b. b.p50) bins)
      ∷ time_line "p95" (map (λ b. b.centre) bins) (map (λ b. b.p95) bins)
      ∷ []

  abbrev pub latency_calls : ScaleUps F → List (Bin F) → List (Call F)
  latency_calls info bins = percentile_lines bins ++ (scale_up_marks info ++ by_time)
