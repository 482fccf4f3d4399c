-- ===== src/Results/Drawn/Kept.antt =====
-- The order in which project/analysis/plot_results.py opens, draws on, saves and closes its
-- figures, and the files that it saves.
use laborator_pcd.Base.{
  ℕ, zero, suc, ◌≡◌, ◌≢◌, refl, true, false, Option, none, some, List, [], ◌∷◌, ◌++◌, map, length,
  String,
}
use laborator_pcd.Base.Chars.{Chars, codes}
use laborator_pcd.Py.{
  Json, null, bool, int, float, str, arr, obj, Floats, Disk, Decoder, Result, ok, for_each, load,
  attribute_error, type_error, value_error,
}
use laborator_pcd.Numpy.{Numpy}
use laborator_pcd.Policies.{policy_labels, label_of, scenarios}
use laborator_pcd.Paper.Load.{load_fault_data}
use laborator_pcd.Drawing.{Series, Call, bars, subplots, emit, lift, ◌>>=◌}
use laborator_pcd.Drawing.Discipline.{follow, Keeps, Keeps-after, Keeps-then, Keeps-in_order}
use laborator_pcd.Drawing.Saving.{saved}
use laborator_pcd.Drawing.Figure.{
  Figure, Figure-emit, Figure-map, Figure-raise, Figure-then, Figure-after, Figure-known,
  Figure-saved,
}
use laborator_pcd.Results.Figures.{Latencies, fig_latency_bar, fig_throughput_bar, fig_error_rate}
use laborator_pcd.Results.Drawn.{
  latency_axis, latency_axes, latency_end, throughput_end, error_end, save_png, recovery_bars,
  recovery_text, items, pods_of, pod_calls, draw_pods, pods_end, item_count, open_axes,
  draw_pod_figure, text_places, draw_recovery, draw_latency_bar, draw_throughput_bar,
  draw_error_rate, draw_fault_recovery, pods_in, draw_pod_distribution, main,
}

abbrev pub if_any : {A : Type 0} → List A → List String
if_any [] = []
if_any (x ∷ xs) = "fig_fault_recovery.png" ∷ []

abbrev pub if_written : Option Chars → List String
if_written none = []
if_written (some text) = "fig_pod_distribution.png" ∷ []

module _ {F : Type 0} where
  latency_axes-Figure :
      (names : List String) (ls : List (Latencies F))
      → Figure {F = F} true true [] (latency_axes names ls, ok tt)
  unfolding follow saved
  latency_axes-Figure [] ls = Figure-emit true true [] refl refl
  latency_axes-Figure (n ∷ ns) [] = Figure-emit true true [] refl refl
  latency_axes-Figure (n ∷ ns) (l ∷ ls) =
      Figure-then (Figure-emit true true (latency_axis n l) refl refl) (latency_axes-Figure ns ls)

  -- A figure with bars for each policy.
  grouped-Figure :
      (r : Result (List (Series F))) (last : List (Call F)) {names : List String}
      → Figure true false names (last, ok tt)
      → Figure false false names
          (emit (subplots 1 ∷ []) >>= λ _. lift r >>= λ series. emit (map bars series ++ last))
  unfolding follow saved
  grouped-Figure r last ends =
      Figure-then (Figure-emit false true (subplots 1 ∷ []) refl refl)
        (Figure-after r _ (λ s. Figure-then (Figure-map bars s (λ _. refl) (λ _. refl)) ends))

  draw_pods-Figure : (pods : List (String × Json F)) → Figure true true [] (draw_pods pods)
  unfolding draw_pods follow saved
  draw_pods-Figure [] = Figure-emit true true [] refl refl
  draw_pods-Figure ((policy, v) ∷ more) = Figure-after (pods_of v) _ (λ pods.
      Figure-then (Figure-emit true true (pod_calls policy pods) refl refl) (draw_pods-Figure more))

  open_axes-Figure : (n : ℕ) → Figure {F = F} false true [] (open_axes n)
  unfolding follow saved
  open_axes-Figure zero = Figure-raise false true [] value_error
  open_axes-Figure (suc n) = Figure-emit false true (subplots (suc n) ∷ []) refl refl

  draw_pod_figure-Figure :
      (v : Json F) → Figure false false ("fig_pod_distribution.png" ∷ []) (draw_pod_figure v)
  unfolding draw_pod_figure follow saved
  draw_pod_figure-Figure (obj fs) =
      Figure-then (open_axes-Figure (length (items fs)))
        (Figure-then (draw_pods-Figure (items fs)) (Figure-emit true false pods_end refl refl))
  draw_pod_figure-Figure (arr xs) =
      Figure-then (open_axes-Figure (item_count xs)) (Figure-raise true false _ attribute_error)
  draw_pod_figure-Figure (str s) =
      Figure-then (open_axes-Figure (length (codes s))) (Figure-raise true false _ attribute_error)
  draw_pod_figure-Figure null = Figure-raise false false _ type_error
  draw_pod_figure-Figure (bool b) = Figure-raise false false _ type_error
  draw_pod_figure-Figure (int n) = Figure-raise false false _ type_error
  draw_pod_figure-Figure (float x) = Figure-raise false false _ type_error

module _ {F : Type 0} ⦃fl : Floats F⦄ where
  draw_recovery-Figure :
      (found : List (String × Json F)) → Figure false false (if_any found) (draw_recovery found)
  unfolding draw_recovery follow saved
  draw_recovery-Figure [] = Figure-emit false false [] refl refl
  draw_recovery-Figure (f ∷ more) =
      let values = map (λ (r : String × Json F). r.1) (f ∷ more) in
      Figure-then (Figure-emit false true (subplots 1 ∷ []) refl refl) (
        Figure-after (for_each (λ (r : String × Json F). label_of policy_labels r.0) (f ∷ more)) _
          (λ labels. Figure-then (Figure-emit true true (recovery_bars labels values) refl refl) (
            Figure-after (text_places values) _ (λ places.
              Figure-then (Figure-map recovery_text values (λ _. refl) (λ _. refl))
                (Figure-emit true false (save_png "fig_fault_recovery") refl refl)))))

module _ {F : Type 0} ⦃fl : Floats F⦄ (np : Numpy F) (loads : Decoder F) (disk : Disk) where
  draw_latency_bar-Figure :
      Figure false false ("fig_latency_comparison.png" ∷ []) (draw_latency_bar np loads disk)
  unfolding draw_latency_bar follow saved
  draw_latency_bar-Figure = Figure-then (Figure-emit false true (subplots 4 ∷ []) refl refl) (
      Figure-after (fig_latency_bar np loads disk) _ (λ ls.
        Figure-then (latency_axes-Figure scenarios ls)
          (Figure-emit true false latency_end refl refl)))

  draw_throughput_bar-Figure :
      Figure false false ("fig_throughput_comparison.png" ∷ []) (draw_throughput_bar np loads disk)
  unfolding draw_throughput_bar follow saved
  draw_throughput_bar-Figure =
      grouped-Figure (fig_throughput_bar np loads disk) throughput_end
        (Figure-emit true false throughput_end refl refl)

  draw_error_rate-Figure :
      Figure false false ("fig_error_rate.png" ∷ []) (draw_error_rate np loads disk)
  unfolding draw_error_rate follow saved
  draw_error_rate-Figure =
      grouped-Figure (fig_error_rate np loads disk) error_end
        (Figure-emit true false error_end refl refl)

  draw_pod_distribution-Figure :
      Figure false false
        (if_written (disk "pod-distribution.json"))
        (draw_pod_distribution np loads disk)
  unfolding draw_pod_distribution follow saved
  draw_pod_distribution-Figure = on (disk "pod-distribution.json")
    where
      on :
          (written : Option Chars)
          → Figure false false (if_written written) (pods_in np loads disk written)
      on none = Figure-emit false false [] refl refl
      on (some written) = Figure-after (load loads written) _ draw_pod_figure-Figure

  main-drawn_Keeps : Keeps false false (main np loads disk)
  unfolding main draw_fault_recovery
  main-drawn_Keeps = Keeps-then draw_latency_bar-Figure.keeps (
      Keeps-then draw_throughput_bar-Figure.keeps (
        Keeps-then draw_error_rate-Figure.keeps (
          Keeps-then
            (Keeps-after (load_fault_data loads disk) draw_recovery
              (λ found. (draw_recovery-Figure found).keeps))
            draw_pod_distribution-Figure.keeps)))

  -- Whatever exception ends it, a run of plot_results.py opens a figure only after it has closed
  -- the one before, and draws and saves only while a figure is open.
  pub main-drawn_in_order : follow false (main np loads disk).0 ≢ none
  main-drawn_in_order = Keeps-in_order main-drawn_Keeps

  module _ (found : List (String × Json F)) (read : load_fault_data loads disk ≡ ok found) where
    recovery-Figure : Figure false false (if_any found) (draw_fault_recovery np loads disk)
    unfolding draw_fault_recovery
    recovery-Figure = Figure-known draw_recovery read (draw_recovery-Figure found)

    main-Figure :
        Figure false false
          ("fig_latency_comparison.png"
            ∷ "fig_throughput_comparison.png"
            ∷ "fig_error_rate.png"
            ∷ (if_any found ++ if_written (disk "pod-distribution.json")))
          (main np loads disk)
    unfolding main
    main-Figure = Figure-then draw_latency_bar-Figure (
        Figure-then draw_throughput_bar-Figure (
          Figure-then draw_error_rate-Figure
            (Figure-then recovery-Figure draw_pod_distribution-Figure)))

    -- A run of plot_results.py that raises nothing closes its last figure and saves the latency,
    -- throughput and error figures in order, then that of the fault recovery if a fault injection
    -- left a result, and that of the pods if their distribution was written.
    pub main-saves_png :
        (main np loads disk).1 ≡ ok tt
        → follow false (main np loads disk).0 ≡ some false
          × saved (main np loads disk).0
            ≡ "fig_latency_comparison.png"
              ∷ "fig_throughput_comparison.png"
              ∷ "fig_error_rate.png"
              ∷ (if_any found ++ if_written (disk "pod-distribution.json"))
    main-saves_png h = Figure-saved main-Figure h
