-- ===== src/Checks/Figures.antt =====
-- The main blocks of project/analysis/plot_paper_figures.py and project/analysis/plot_results.py on
-- a results directory with a k6 file, a fault injection, an autoscaling run and a pod distribution.
use mathlib.Core.List.{flatten}
use mathlib.Core.Path.{subst}
use mathlib.Core.Option.{some-injective}
use laborator_pcd.Base.{
  Bool-cases, inl, inr, All, ◌≡◌, ◌≢◌, refl, false, pos, String, str_eq, if◌then◌else◌, Option,
  none, some, List, [], ◌∷◌, ◌++◌,
}
use laborator_pcd.Base.Chars.{Chars, codes, split}
use laborator_pcd.Py.{
  is_space, IgnoresBlanks, HasJsonBlanks, Json, int, float, str, obj, end, field, ok, for_each,
  fold_each, Decoder, Disk, strip, lines_of, get, index, has_key, lookup_or, is_text, is_truthy,
  is_above_nought, to_float, to_int, to_number,
}
use laborator_pcd.Policies.{label_of}
use laborator_pcd.Paper.Extract.{
  inspect_rest, inspect_value, inspect_line, tally_line, tally_value, count_point, summarise,
  measure, extract_k6_metrics,
}
use laborator_pcd.Paper.Rates.{count_value, count_line, get_rps_from_k6}
use laborator_pcd.Paper.Load.{
  k6_path, fault_path, duration_of, load_entry, load_policy, load_all_metrics, load_fault_data,
}
use laborator_pcd.Paper.Figures.{
  index_dict, get_dict, bar_series, fig_p95_latency, fig_throughput, scatter_series, fig_p50_vs_p95,
  error_row, summary_of, print_summary,
}
use laborator_pcd.Paper.Scaling.{
  Scaling, read_line, read_timeline, drop_last, mark_scale_ups, scale_ups, fig_hpa_scaling,
}
use laborator_pcd.Paper.Latency.{Clock, fig_hpa_latency_timeseries}
use laborator_pcd.Summary.{prom_path}
use laborator_pcd.Paper.Drawn.{
  get_or_nought, recovery_limit, draw_p95_latency, draw_throughput, draw_fault_recovery,
  draw_p50_vs_p95, draw_error_rate, draw_hpa_scaling, draw_hpa_latency, draw_figures, main,
}
use laborator_pcd.Paper.Drawn.Each.{both, always}
use laborator_pcd.Paper.Load.Safety.{AreJsonFiles}
use laborator_pcd.Paper.Drawn.Total.{HasTimeLimit, main-total}
use laborator_pcd.Paper.Drawn.Saved.{main-in_order, main-saved}
use laborator_pcd.Results.K6.{
  load_prom, load_k6, count_metric, count_point as k6_count_point, count_value as k6_count_value,
  count_line as k6_count_line,
}
use laborator_pcd.Results.Figures.{
  prefer, height, rps_height, error_height, latency_bars, fig_latency_bar, throughput_series,
  fig_throughput_bar, error_series, fig_error_rate,
}
use laborator_pcd.Results.Drawn.{
  main as plot_results, draw_latency_bar, draw_throughput_bar, draw_error_rate as draw_error_rates,
  draw_fault_recovery as draw_recovery_times, draw_pod_distribution, draw_recovery, draw_pods,
  draw_pod_figure, pods_of, label_or_key,
}
use laborator_pcd.Results.Drawn.Kept.{main-drawn_in_order, main-saves_png}
use laborator_pcd.Drawing.Discipline.{follow}
use laborator_pcd.Drawing.Saving.{saved}
use laborator_pcd.Checks.Sample.{
  Milli, milli, nearest, element, knows_squeezed, squeeze, knows_squeezed-IgnoresBlanks,
}

abbrev point : String → Json Milli → Json Milli
point metric value = obj (
    field "type" (str "Point")
      (field "metric" (str metric) (field "data" (obj (field "value" value end)) end)))

abbrev sample : Json Milli
sample = obj (
    field "elapsed_s" (int (pos 0))
      (field "replicas" (int (pos 2)) (field "cpu_pct" (int (pos 50)) end)))

abbrev pods : Json Milli
pods = obj (field "rr" (obj (field "worker-5d9-x2x" (int (pos 40)) end)) end)

abbrev known : List (Chars × Json Milli)
known =
    (codes "P", point "http_req_duration" (float 120_500))
    ∷ (codes "R", obj (field "recovery_time_s" (int (pos 12)) end))
    ∷ (codes "S", sample)
    ∷ (codes "D", pods)
    ∷ []

abbrev loads : Decoder Milli
loads = knows_squeezed known

-- One letter in each file.
abbrev file : String → List (String × Chars) → Option Chars
file path [] = none
file path ((name, text) ∷ rest) = if str_eq path name then some text else file path rest

abbrev contents : List (String × Chars)
contents =
    ("k6-rr-steady.json", codes "P")
    ∷ ("fault-maglev.json", codes "R")
    ∷ ("hpa-scaling-timeline.jsonl", codes "S")
    ∷ ("pod-distribution.json", codes "D")
    ∷ []

abbrev disk : Disk
disk path = file path contents

law : IgnoresBlanks loads
law = knows_squeezed-IgnoresBlanks known refl

file-HasJsonBlanks :
    (path : String) (files : List (String × Chars)) (t : Chars)
    → All (λ f. HasJsonBlanks f.1) files
    → file path files ≡ some t
    → HasJsonBlanks t
file-HasJsonBlanks path [] t all e = absurd (cc e)
file-HasJsonBlanks path ((name, text) ∷ rest) t all e = elim (Bool-cases (str_eq path name)) [
  | inl same ↦ subst HasJsonBlanks (some-injective _ _ (rw same at e)) all.0
  | inr other ↦ file-HasJsonBlanks path rest t all.1 (rw other at e)
]

files : AreJsonFiles disk
unfolding is_space
files path t =
    file-HasJsonBlanks path contents t
      ((λ h. cc, tt), ((λ h. cc, tt), ((λ h. cc, tt), ((λ h. cc, tt), tt))))

abbrev clock : Clock
clock text = none

abbrev scaling : Scaling Milli
scaling = record {
  timeline = record { elapsed = 0 ∷ []; replicas = pos 2 ∷ []; cpu_pct = 50_000 ∷ [] };
  marks = [];
  scale_up_times = [];
  start = 0;
}

scaled : fig_hpa_scaling loads disk ≡ ok (some scaling)
unfolding fig_hpa_scaling read_timeline read_line lines_of strip squeeze get index lookup_or has_key
    to_float to_int mark_scale_ups scale_ups drop_last
scaled = refl

binned : fig_hpa_latency_timeseries nearest clock loads disk ≡ ok []
unfolding fig_hpa_latency_timeseries
binned = refl

drawn : (main nearest clock loads disk).1 ≡ ok tt
unfolding main draw_figures draw_p95_latency draw_throughput draw_fault_recovery draw_p50_vs_p95
    draw_error_rate draw_hpa_scaling draw_hpa_latency get_or_nought recovery_limit to_number
    for_each fold_each k6_path fault_path duration_of load_entry load_policy load_all_metrics
    load_fault_data fig_hpa_scaling read_timeline read_line lines_of strip squeeze get index
    lookup_or has_key to_float to_int mark_scale_ups scale_ups drop_last fig_hpa_latency_timeseries
    extract_k6_metrics inspect_rest inspect_value inspect_line tally_line tally_value count_point
    summarise measure count_value count_line get_rps_from_k6 is_text split label_of index_dict
    get_dict bar_series fig_p95_latency fig_throughput scatter_series fig_p50_vs_p95 error_row
    summary_of print_summary element flatten
drawn = refl

main-in_order_example : follow false (main nearest clock loads disk).0 ≢ none
main-in_order_example = main-in_order nearest clock loads disk

main-saved_example :
    follow false (main nearest clock loads disk).0 ≡ some false
    × saved (main nearest clock loads disk).0 ≡ always ++ both "fig_hpa_scaling"
main-saved_example = main-saved nearest clock loads disk (some scaling) scaled [] binned drawn

recovered : load_fault_data loads disk ≡ ok (("maglev", int (pos 12)) ∷ [])
unfolding load_fault_data for_each fault_path strip squeeze get lookup_or flatten
recovered = refl

main-total_example :
    ((main nearest clock loads disk).1 ≡ ok tt)
    × (saved (main nearest clock loads disk).0 ≡ always ++ both "fig_hpa_scaling")
unfolding to_number HasTimeLimit
main-total_example =
    main-total nearest clock loads disk law files refl (("maglev", int (pos 12)) ∷ []) recovered
      ((12_000, refl), tt) (λ xs h. refl) (some scaling) scaled (((2_000, refl), tt), refl) []
      binned

plotted : (plot_results nearest loads disk).1 ≡ ok tt
unfolding plot_results draw_latency_bar draw_throughput_bar draw_error_rates draw_recovery_times
    draw_pod_distribution draw_recovery draw_pods draw_pod_figure pods_of label_or_key for_each
    fold_each fig_latency_bar latency_bars fig_throughput_bar throughput_series fig_error_rate
    error_series prefer height rps_height error_height load_prom load_k6 count_metric k6_count_point
    k6_count_value k6_count_line load_fault_data fault_path lines_of strip squeeze get index
    lookup_or has_key is_text is_truthy is_above_nought to_float to_number label_of flatten element
    split prom_path k6_path
plotted = refl

main-drawn_in_order_example : follow false (plot_results nearest loads disk).0 ≢ none
main-drawn_in_order_example = main-drawn_in_order nearest loads disk

main-saves_png_example :
    follow false (plot_results nearest loads disk).0 ≡ some false
    × saved (plot_results nearest loads disk).0
      ≡ "fig_latency_comparison.png" ∷ "fig_throughput_comparison.png" ∷ "fig_error_rate.png"
        ∷ "fig_fault_recovery.png" ∷ "fig_pod_distribution.png" ∷ []
main-saves_png_example =
    main-saves_png nearest loads disk (("maglev", int (pos 12)) ∷ []) recovered plotted
