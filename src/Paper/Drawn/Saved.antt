-- ===== src/Paper/Drawn/Saved.antt =====
-- The order in which project/analysis/plot_paper_figures.py opens, draws on, saves and closes its
-- figures, and the files that it saves.
use laborator_pcd.Base.{◌≡◌, ◌≢◌, false, Option, none, some, List, ◌++◌, String}
use laborator_pcd.Py.{Json, Floats, Disk, Decoder, ok}
use laborator_pcd.Numpy.{Numpy}
use laborator_pcd.Drawing.Discipline.{
  follow, Keeps, Keeps-after, Keeps-then, Keeps-bind, Keeps-in_order,
}
use laborator_pcd.Drawing.Saving.{saved}
use laborator_pcd.Drawing.Figure.{
  Figure, Figure-bind, Figure-then, Figure-after, Figure-known, Figure-saved,
}
use laborator_pcd.Paper.Load.{Table, load_all_metrics, load_fault_data}
use laborator_pcd.Paper.Figures.{print_summary}
use laborator_pcd.Paper.Scaling.{Scaling, fig_hpa_scaling}
use laborator_pcd.Paper.Latency.{Bin, Clock, fig_hpa_latency_timeseries}
use laborator_pcd.Paper.Drawn.Each.{
  always, if_scaling, if_bins, draw_p95_latency-Figure, draw_throughput-Figure,
  draw_fault_recovery-Figure, draw_p50_vs_p95-Figure, draw_error_rate-Figure,
  draw_if_scaling-Figure, draw_bins-Figure,
}
use laborator_pcd.Paper.Calls.{ScaleUps}
use laborator_pcd.Paper.Drawn.{
  draw_hpa_scaling, draw_hpa_latency, draw_if_scaling, draw_bins, draw_figures, main,
}

module _ {F : Type 0} ⦃fl : Floats F⦄ where
  module _ (np : Numpy F) (clock : Clock) (loads : Decoder F) (disk : Disk) where
    main-Keeps : Keeps false false (main np clock loads disk)
    unfolding main draw_figures draw_hpa_scaling draw_hpa_latency
    main-Keeps = Keeps-after (load_all_metrics np loads disk) _ (λ table.
        Keeps-after (load_fault_data loads disk) _ (λ fault_data.
          Keeps-after (print_summary table) _ (λ lines.
            Keeps-then (draw_p95_latency-Figure table).keeps (
              Keeps-then (draw_throughput-Figure table).keeps (
                Keeps-then (draw_fault_recovery-Figure fault_data).keeps (
                  Keeps-then (draw_p50_vs_p95-Figure table).keeps (
                    Keeps-then (draw_error_rate-Figure np table).keeps (
                      Keeps-bind false false false _ _
                        (Keeps-after (fig_hpa_scaling loads disk) _
                          (λ s. (draw_if_scaling-Figure np s).keeps))
                        (λ info.
                          Keeps-after (fig_hpa_latency_timeseries np clock loads disk) _
                            (λ bins. (draw_bins-Figure info bins).keeps))))))))))

    -- Whatever exception ends it, a run of plot_paper_figures.py opens a figure only after it has
    -- closed the one before, and draws and saves only while a figure is open.
    pub main-in_order : follow false (main np clock loads disk).0 ≢ none
    main-in_order = Keeps-in_order main-Keeps

    module _ (s : Option (Scaling F)) (scaled : fig_hpa_scaling loads disk ≡ ok s)
        (bins : List (Bin F))
        (binned : fig_hpa_latency_timeseries np clock loads disk ≡ ok bins) where
      draw_hpa_scaling-Figure : Figure false false (if_scaling s) (draw_hpa_scaling np loads disk)
      unfolding draw_hpa_scaling
      draw_hpa_scaling-Figure =
          Figure-known (draw_if_scaling np) scaled (draw_if_scaling-Figure np s)

      draw_hpa_latency-Figure :
          (info : ScaleUps F)
          → Figure false false (if_bins bins) (draw_hpa_latency np clock loads disk info)
      unfolding draw_hpa_latency
      draw_hpa_latency-Figure info =
          Figure-known (draw_bins info) binned (draw_bins-Figure info bins)

      draw_figures-Figure :
          (table : Table F) (fault_data : List (String × Json F))
          → Figure false false
              (always ++ (if_scaling s ++ if_bins bins))
              (draw_figures np clock loads disk table fault_data)
      unfolding draw_figures
      draw_figures-Figure table fault_data = Figure-then (draw_p95_latency-Figure table) (
          Figure-then (draw_throughput-Figure table) (
            Figure-then (draw_fault_recovery-Figure fault_data) (
              Figure-then (draw_p50_vs_p95-Figure table) (
                Figure-then (draw_error_rate-Figure np table)
                  (Figure-bind _ _ draw_hpa_scaling-Figure draw_hpa_latency-Figure)))))

      main-Figure :
          Figure false false (always ++ (if_scaling s ++ if_bins bins)) (main np clock loads disk)
      unfolding main
      main-Figure = Figure-after (load_all_metrics np loads disk) _ (λ table.
          Figure-after (load_fault_data loads disk) _ (λ fault_data.
            Figure-after (print_summary table) _ (λ lines. draw_figures-Figure table fault_data)))

      -- A run of plot_paper_figures.py that raises nothing closes its last figure and saves five
      -- figures in order, each as PDF and as PNG; then that of the autoscaling if its timeline has
      -- a sample, and that of its latency if a bin of ten seconds has a sample.
      pub main-saved :
          (main np clock loads disk).1 ≡ ok tt
          → follow false (main np clock loads disk).0 ≡ some false
            × saved (main np clock loads disk).0 ≡ always ++ (if_scaling s ++ if_bins bins)
      main-saved h = Figure-saved main-Figure h
