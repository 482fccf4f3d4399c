-- ===== src/Paper/Drawn.antt =====
-- The figures of project/analysis/plot_paper_figures.py as they are drawn, saved and closed, and
-- its main block.
pub mod Each
pub mod Saved
pub mod Total
use laborator_pcd.Base.{String, str_eq, if◌then◌else◌, Option, none, some, List, [], ◌∷◌, map, pos}
use laborator_pcd.Py.{Result, ok, raise, Json, int, Floats, Disk, Decoder, for_each, to_number}
use laborator_pcd.Numpy.{Numpy}
use laborator_pcd.Policies.{policies}
use laborator_pcd.Drawing.{subplots, Run, emit, lift, return, ◌>>=◌, ◌>>◌}
use laborator_pcd.Paper.Load.{Table, load_all_metrics, load_fault_data}
use laborator_pcd.Paper.Figures.{
  fig_p95_latency, fig_throughput, fig_p50_vs_p95, error_row, print_summary,
}
use laborator_pcd.Paper.Scaling.{Scaling, fig_hpa_scaling}
use laborator_pcd.Paper.Latency.{Bin, Clock, fig_hpa_latency_timeseries}
use laborator_pcd.Paper.Calls.{
  ScaleUps, by_p50, by_scenario, by_time, capitalized, cell_text, cell_texts, error_calls, heat_map,
  cpu_limit, checked_limit, to_floats, in_seconds, larger, latency_calls, p50_calls,
  p95_latency_calls, percentile_lines, recovery_bars, recovery_calls, save_both, scale_up_marks,
  scaling_calls, scaling_end, scaling_lines, throughput_calls, under_heat_map, unlabelled,
}

-- `d.get(key, 0)`
unfoldable pub get_or_nought : {F : Type 0} → List (String × Json F) → String → Json F
get_or_nought [] key = int (pos 0)
get_or_nought ((k, v) ∷ rest) key = if str_eq k key then v else get_or_nought rest key

module _ {F : Type 0} ⦃fl : Floats F⦄ where
  abbrev pub largest_from : F → List F → F
  largest_from x [] = x
  largest_from x (y ∷ ys) = largest_from (larger x y) ys

  abbrev pub largest : List F → F
  largest [] = fl.nought
  largest (x ∷ xs) = largest_from x xs

  -- `max(vals) * 1.4 + 0.5`
  abbrev pub above : List F → F
  above xs = fl.add (fl.mul (largest xs) (fl.ratio 14 10)) (fl.ratio 1 2)

  abbrev pub limit_of : Result (List F) → Result F
  limit_of (raise e) = raise e
  limit_of (ok xs) = checked_limit (above xs)

  unfoldable pub recovery_limit : List (Json F) → Result F
  unfolding to_number
  recovery_limit vals = limit_of (for_each to_number vals)

  unfoldable pub draw_p95_latency : Table F → Run F (Unit {0})
  draw_p95_latency table = do
    emit (subplots 1 ∷ [])
    series ← lift (fig_p95_latency table)
    emit (p95_latency_calls series)

  unfoldable pub draw_throughput : Table F → Run F (Unit {0})
  draw_throughput table = do
    emit (subplots 1 ∷ [])
    series ← lift (fig_throughput table)
    emit (throughput_calls series)

  unfoldable pub draw_fault_recovery : List (String × Json F) → Run F (Unit {0})
  unfolding recovery_limit get_or_nought
  draw_fault_recovery fault_data = do
    let vals = map (get_or_nought fault_data) policies
    emit (recovery_bars vals)
    limit ← lift (recovery_limit vals)
    emit (recovery_calls vals limit)

  unfoldable pub draw_p50_vs_p95 : Table F → Run F (Unit {0})
  draw_p50_vs_p95 table = do
    emit (subplots 1 ∷ [])
    points ← lift (fig_p50_vs_p95 table)
    emit (p50_calls points)

  unfoldable pub draw_error_rate : Numpy F → Table F → Run F (Unit {0})
  draw_error_rate np table = do
    emit (subplots 1 ∷ [])
    matrix ← lift (for_each (error_row table) policies)
    emit (error_calls (np.max_of matrix) matrix)

  abbrev pub draw_scaled : Numpy F → Scaling F → Run F (Unit {0})
  draw_scaled np s = do
    emit (subplots 1 ∷ [])
    counts ← lift (to_floats {F = F} s.timeline.replicas)
    emit (scaling_lines s.timeline)
    limit ← lift (checked_limit (cpu_limit np s.timeline))
    emit (scaling_calls s limit)

  abbrev pub draw_if_scaling : Numpy F → Option (Scaling F) → Run F (ScaleUps F)
  draw_if_scaling np none = return none
  draw_if_scaling np (some s) = draw_scaled np s >>= λ _. return (some (s.scale_up_times, s.start))

  unfoldable pub draw_hpa_scaling : Numpy F → Decoder F → Disk → Run F (ScaleUps F)
  draw_hpa_scaling np loads disk = lift (fig_hpa_scaling loads disk) >>= draw_if_scaling np

  abbrev pub draw_bins : ScaleUps F → List (Bin F) → Run F (Unit {0})
  draw_bins info [] = emit []
  draw_bins info (b ∷ bs) = emit (latency_calls info (b ∷ bs))

  unfoldable pub draw_hpa_latency :
      Numpy F → Clock → Decoder F → Disk → ScaleUps F → Run F (Unit {0})
  draw_hpa_latency np clock loads disk info =
      lift (fig_hpa_latency_timeseries np clock loads disk) >>= draw_bins info

  -- The figures, in the order of the main block.
  unfoldable pub draw_figures :
      Numpy F → Clock → Decoder F → Disk → Table F → List (String × Json F) → Run F (Unit {0})
  draw_figures np clock loads disk table fault_data = do
    draw_p95_latency table
    draw_throughput table
    draw_fault_recovery fault_data
    draw_p50_vs_p95 table
    draw_error_rate np table
    info ← draw_hpa_scaling np loads disk
    draw_hpa_latency np clock loads disk info

  -- The main block.
  unfoldable pub main : Numpy F → Clock → Decoder F → Disk → Run F (Unit {0})
  main np clock loads disk = do
    table ← lift (load_all_metrics np loads disk)
    fault_data ← lift (load_fault_data loads disk)
    lines ← lift (print_summary table)
    draw_figures np clock loads disk table fault_data
