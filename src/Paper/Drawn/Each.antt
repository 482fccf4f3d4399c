-- ===== src/Paper/Drawn/Each.antt =====
-- The order in which project/analysis/plot_paper_figures.py opens, draws on, saves and closes its
-- figures, one by one, and the files that it saves them to.
use Prim.Native.String.{◌++◌ as ◌<>◌}
use laborator_pcd.Base.{
  ◌≡◌, refl, true, false, Option, none, some, List, [], ◌∷◌, ◌++◌, map, String,
}
use laborator_pcd.Py.{Json, Floats, Result, ok, for_each}
use laborator_pcd.Numpy.{Numpy}
use laborator_pcd.Policies.{policies}
use laborator_pcd.Drawing.{bars, scatter, vertical, y_limit, subplots, Call, emit, lift, ◌>>=◌}
use laborator_pcd.Drawing.Discipline.{after_call, follow}
use laborator_pcd.Drawing.Saving.{saved, saved_by}
use laborator_pcd.Drawing.Figure.{
  Figure, Figure-emit, Figure-map, Figure-lift, Figure-then, Figure-after,
}
use laborator_pcd.Paper.Load.{Table}
use laborator_pcd.Paper.Figures.{
  fig_p95_latency, fig_throughput, fig_p50_vs_p95, error_row, heat_cell, HeatCell,
}
use laborator_pcd.Paper.Scaling.{Scaling}
use laborator_pcd.Paper.Latency.{Bin}
use laborator_pcd.Paper.Calls.{
  ScaleUps, cell_text, cell_texts, in_seconds, unlabelled, scale_up_marks, save_both, by_scenario,
  by_p50, under_heat_map, by_time, recovery_bars, heat_map, percentile_lines, scaling_lines,
  checked_limit, to_floats, cpu_limit, scaling_end,
}
use laborator_pcd.Paper.Drawn.{
  draw_p95_latency, draw_throughput, draw_fault_recovery, draw_p50_vs_p95, draw_error_rate,
  draw_if_scaling, draw_bins, recovery_limit, get_or_nought,
}

-- A figure is saved as PDF and as PNG.
abbrev pub both : String → List String
both name = (name <> ".pdf") ∷ (name <> ".png") ∷ []

-- The figures that are drawn in every case.
abbrev pub always : List String
always =
    both "fig_p95_latency"
    ++ (both "fig_throughput"
        ++ (both "fig_fault_recovery" ++ (both "fig_p50_vs_p95" ++ both "fig_error_rate")))

abbrev pub if_scaling : {F : Type 0} → Option (Scaling F) → List String
if_scaling none = []
if_scaling (some s) = both "fig_hpa_scaling"

abbrev pub if_bins : {F : Type 0} → List (Bin F) → List String
if_bins [] = []
if_bins (b ∷ bs) = both "fig_hpa_latency_timeseries"

module _ (F : Type 0) ⦃fl : Floats F⦄ where
  cell_text-drawn : (c : HeatCell) → after_call {F = F} true (cell_text c) ≡ some true
  cell_text-drawn (label, true) = refl
  cell_text-drawn (label, false) = refl

  cell_text-silent : (c : HeatCell) → saved_by {F = F} (cell_text c) ≡ []
  cell_text-silent (label, true) = refl
  cell_text-silent (label, false) = refl

module _ {F : Type 0} ⦃fl : Floats F⦄ where
  -- A figure with one mark of a kind for each policy, and then other calls.
  marked-Figure :
      {A : Type 0} (r : Result (List A)) (mark : A → Call F) (last : List (Call F))
      {names : List String}
      → ((a : A) → after_call true (mark a) ≡ some true)
      → ((a : A) → saved_by (mark a) ≡ [])
      → Figure true false names (last, ok tt)
      → Figure false false names
          (emit (subplots 1 ∷ []) >>= λ _. lift r >>= λ found. emit (map mark found ++ last))
  unfolding follow saved
  marked-Figure r mark last h e ends =
      Figure-then (Figure-emit false true (subplots 1 ∷ []) refl refl)
        (Figure-after r _ (λ found. Figure-then (Figure-map mark found h e) ends))

  pub draw_p95_latency-Figure :
      (table : Table F) → Figure false false (both "fig_p95_latency") (draw_p95_latency table)
  unfolding draw_p95_latency follow saved
  draw_p95_latency-Figure table =
      marked-Figure (fig_p95_latency table) bars _ (λ _. refl) (λ _. refl)
        (Figure-emit true false (by_scenario "p95 Latency (ms)" "fig_p95_latency") refl refl)

  pub draw_throughput-Figure :
      (table : Table F) → Figure false false (both "fig_throughput") (draw_throughput table)
  unfolding draw_throughput follow saved
  draw_throughput-Figure table =
      marked-Figure (fig_throughput table) bars _ (λ _. refl) (λ _. refl)
        (Figure-emit true false (by_scenario "Throughput (req/s)" "fig_throughput") refl refl)

  pub draw_fault_recovery-Figure :
      (fault_data : List (String × Json F))
      → Figure false false (both "fig_fault_recovery") (draw_fault_recovery fault_data)
  unfolding draw_fault_recovery follow saved
  draw_fault_recovery-Figure fault_data =
      let vals = map (get_or_nought fault_data) policies in
      Figure-then (Figure-emit false true (recovery_bars vals) refl refl) (
        Figure-after (recovery_limit vals) _ (λ limit.
          Figure-then (Figure-emit true true (y_limit limit ∷ []) refl refl) (
            Figure-then (Figure-map in_seconds vals (λ _. refl) (λ _. refl))
              (Figure-emit true false (save_both "fig_fault_recovery") refl refl))))

  pub draw_p50_vs_p95-Figure :
      (table : Table F) → Figure false false (both "fig_p50_vs_p95") (draw_p50_vs_p95 table)
  unfolding draw_p50_vs_p95 follow saved
  draw_p50_vs_p95-Figure table =
      marked-Figure (fig_p50_vs_p95 table) scatter _ (λ _. refl) (λ _. refl)
        (Figure-emit true false by_p50 refl refl)

  cell_texts-Figure :
      (highest : F) (rows : List (List F)) → Figure true true [] (cell_texts highest rows, ok tt)
  unfolding follow saved
  cell_texts-Figure highest [] = Figure-emit true true [] refl refl
  cell_texts-Figure highest (row ∷ rows) =
      Figure-then
        (Figure-map (λ (val : F). cell_text (heat_cell highest val)) row
          (λ val. cell_text-drawn F (heat_cell highest val))
          (λ val. cell_text-silent F (heat_cell highest val)))
        (cell_texts-Figure highest rows)

  pub draw_error_rate-Figure :
      (np : Numpy F) (table : Table F)
      → Figure false false (both "fig_error_rate") (draw_error_rate np table)
  unfolding draw_error_rate follow saved
  draw_error_rate-Figure np table =
      Figure-then (Figure-emit false true (subplots 1 ∷ []) refl refl) (
        Figure-after (for_each (error_row table) policies) _ (λ m.
          Figure-then (Figure-emit true true (heat_map (np.max_of m) m) refl refl) (
            Figure-then (cell_texts-Figure (np.max_of m) m)
              (Figure-emit true false under_heat_map refl refl))))

  pub draw_if_scaling-Figure :
      (np : Numpy F) (s : Option (Scaling F))
      → Figure false false (if_scaling s) (draw_if_scaling np s)
  unfolding follow saved
  draw_if_scaling-Figure np none = Figure-lift false (ok none)
  draw_if_scaling-Figure np (some s) =
      Figure-then
        (Figure-then (Figure-emit false true (subplots 1 ∷ []) refl refl) (
          Figure-after (to_floats {F = F} s.timeline.replicas) _ (λ _.
            Figure-then (Figure-emit true true (scaling_lines s.timeline) refl refl) (
              Figure-after (checked_limit (cpu_limit np s.timeline)) _ (λ limit.
                Figure-then (Figure-emit true true (y_limit limit ∷ []) refl refl) (
                  Figure-then (Figure-map unlabelled s.marks (λ _. refl) (λ _. refl))
                    (Figure-emit true false scaling_end refl refl)))))))
        (Figure-lift false (ok (some (s.scale_up_times, s.start))))

  scale_up_marks-Figure : (info : ScaleUps F) → Figure true true [] (scale_up_marks info, ok tt)
  unfolding follow saved
  scale_up_marks-Figure none = Figure-emit true true [] refl refl
  scale_up_marks-Figure (some ([], start)) = Figure-emit true true [] refl refl
  scale_up_marks-Figure (some (t ∷ ts, start)) =
      Figure-then (Figure-emit true true (vertical t (some "Scale-up") ∷ []) refl refl)
        (Figure-map unlabelled ts (λ _. refl) (λ _. refl))

  pub draw_bins-Figure :
      (info : ScaleUps F) (bins : List (Bin F))
      → Figure false false (if_bins bins) (draw_bins info bins)
  unfolding follow saved
  draw_bins-Figure info [] = Figure-emit false false [] refl refl
  draw_bins-Figure info (b ∷ bs) =
      Figure-then (Figure-emit false true (percentile_lines (b ∷ bs)) refl refl)
        (Figure-then (scale_up_marks-Figure info) (Figure-emit true false by_time refl refl))
