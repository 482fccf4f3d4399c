-- ===== src/Results/Drawn.antt =====
-- The figures of project/analysis/plot_results.py as they are drawn, saved and closed, and its main
-- block. The latency bars, the throughput and the error rates are computed in Results/Figures.
pub mod Kept
use Prim.Native.String.{◌++◌ as ◌<>◌}
use laborator_pcd.Base.{
  ℕ, zero, suc, String, str_eq, if◌then◌else◌, Option, none, some, List, [], ◌∷◌, ◌++◌, map, length,
}
use laborator_pcd.Base.Chars.{Chars, codes, split}
use laborator_pcd.Py.{
  Error, attribute_error, type_error, value_error, Result, ok, raise, Json, str, arr, obj, Items,
  nil, cons, Fields, end, field, Floats, Disk, Decoder, load, for_each, show_number, to_number,
}
use laborator_pcd.Numpy.{Numpy}
use laborator_pcd.Policies.{scenarios, policy_labels, label_of}
use laborator_pcd.Paper.Load.{load_fault_data}
use laborator_pcd.Paper.Figures.{places}
use laborator_pcd.Drawing.{
  Call, subplots, save, close, bars, labelled_bars, value_bars, text, title, x_label, y_label,
  x_ticks, legend, Run, emit, lift, ◌>>=◌, ◌>>◌,
}
use laborator_pcd.Results.Figures.{Latencies, fig_latency_bar, fig_throughput_bar, fig_error_rate}

abbrev pub save_png : {F : Type 0} → String → List (Call F)
save_png name = save (name <> ".png") ∷ close ∷ []

abbrev pub latency_series : {F : Type 0} → ℕ → String → List String → List F → Call F
latency_series i label labels heights =
    bars (record { label = label; xs = places 1250 3 i 0 labels; heights = heights })

-- One subplot.
abbrev pub latency_axis : {F : Type 0} → String → Latencies F → List (Call F)
latency_axis scenario l =
    latency_series 0 "p50" l.labels l.p50s
    ∷ latency_series 1 "p95" l.labels l.p95s
    ∷ latency_series 2 "p99" l.labels l.p99s
    ∷ title ("Latency — " <> scenario)
    ∷ y_label "Latency (ms)"
    ∷ x_ticks (map codes l.labels)
    ∷ legend
    ∷ []

abbrev pub latency_axes : {F : Type 0} → List String → List (Latencies F) → List (Call F)
latency_axes [] ls = []
latency_axes (scenario ∷ more) [] = []
latency_axes (scenario ∷ more) (l ∷ ls) = latency_axis scenario l ++ latency_axes more ls

abbrev pub latency_end : {F : Type 0} → List (Call F)
latency_end = title "Latency Comparison by Policy and Scenario" ∷ save_png "fig_latency_comparison"

-- After the bars of a figure with one group for each scenario.
abbrev pub grouped : {F : Type 0} → String → String → String → List (Call F)
grouped heading measured name =
    title heading ∷ y_label measured ∷ x_ticks (map codes scenarios) ∷ legend ∷ save_png name

abbrev pub throughput_end : {F : Type 0} → List (Call F)
throughput_end =
    grouped "Throughput (req/s) by Policy and Scenario" "Requests / second"
      "fig_throughput_comparison"

abbrev pub error_end : {F : Type 0} → List (Call F)
error_end = grouped "Error Rate (%) by Policy and Scenario" "Error rate (%)" "fig_error_rate"

abbrev pub recovery_text : {F : Type 0} ⦃fl : Floats F⦄ → Json F → Call F
recovery_text v = text (show_number v ++ codes "s")

abbrev pub recovery_bars : {F : Type 0} → List String → List (Json F) → List (Call F)
recovery_bars labels values =
    labelled_bars labels values
    ∷ title "Pod Recovery Time After Fault Injection"
    ∷ y_label "Recovery time (s)"
    ∷ []

-- `p.split("-")[-1]`: a split gives one part at least.
abbrev pub last_part : List Chars → Chars
last_part [] = []
last_part (part ∷ []) = part
last_part (part ∷ next ∷ rest) = last_part (next ∷ rest)

abbrev pub suffix : String → Chars
unfolding split
suffix p = last_part (split b'-' (codes p))

abbrev pub items : {F : Type 0} → Fields F → List (String × Json F)
items end = []
items (field k v rest) = (k, v) ∷ items rest

-- `POLICY_LABELS.get(policy, policy)`
unfoldable pub label_or_key : List (String × String) → String → String
label_or_key [] key = key
label_or_key ((k, label) ∷ rest) key = if str_eq k key then label else label_or_key rest key

abbrev pub pod_calls : {F : Type 0} → String → List (String × Json F) → List (Call F)
pod_calls policy pods =
    value_bars (map (λ p. p.1) pods)
    ∷ title (label_or_key policy_labels policy)
    ∷ x_ticks (map (λ p. suffix p.0) pods)
    ∷ x_label "Pod (suffix)"
    ∷ []

-- `pods.keys()` and `pods.values()`: of the decoded values only a dict has them.
unfoldable pub pods_of : {F : Type 0} → Json F → Result (List (String × Json F))
pods_of (obj fs) = ok (items fs)
pods_of _ = raise attribute_error

unfoldable pub draw_pods : {F : Type 0} → List (String × Json F) → Run F (Unit {0})
draw_pods [] = emit []
draw_pods ((policy, v) ∷ more) = do
  pods ← lift (pods_of v)
  emit (pod_calls policy pods)
  draw_pods more

abbrev pub pods_end : {F : Type 0} → List (Call F)
pods_end =
    y_label "Total requests"
    ∷ title "Request Distribution per Pod by Policy"
    ∷ save_png "fig_pod_distribution"

abbrev pub item_count : {F : Type 0} → Items F → ℕ
item_count nil = zero
item_count (cons x xs) = suc (item_count xs)

-- `plt.subplots(1, n)`: a grid has one column at least.
abbrev pub open_axes : {F : Type 0} → ℕ → Run F (Unit {0})
open_axes zero = lift (raise value_error)
open_axes (suc n) = emit (subplots (suc n) ∷ [])

-- From `len(data)` on. A list and a text have a length, but no `data.items()`.
unfoldable pub draw_pod_figure : {F : Type 0} → Json F → Run F (Unit {0})
unfolding draw_pods
draw_pod_figure (obj fs) = do open_axes (length (items fs)); draw_pods (items fs); emit pods_end
draw_pod_figure (arr xs) = open_axes (item_count xs) >> lift (raise attribute_error)
draw_pod_figure (str s) = open_axes (length (codes s)) >> lift (raise attribute_error)
draw_pod_figure _ = lift (raise type_error)

module _ {F : Type 0} ⦃fl : Floats F⦄ where
  -- `v + 0.3` for a bar's text: a number, or TypeError.
  abbrev pub text_places : List (Json F) → Result (List F)
  text_places values = for_each to_number values

  -- The fault injections whose results were found, in the order of the policies.
  unfoldable pub draw_recovery : List (String × Json F) → Run F (Unit {0})
  unfolding to_number
  draw_recovery [] = emit []
  draw_recovery (found ∷ more) = do
    let values = map (λ r. r.1) (found ∷ more)
    emit (subplots 1 ∷ [])
    labels ← lift (for_each (λ r. label_of policy_labels r.0) (found ∷ more))
    emit (recovery_bars labels values)
    places ← lift (text_places values)
    emit (map recovery_text values ++ save_png "fig_fault_recovery")

module _ {F : Type 0} ⦃fl : Floats F⦄ (np : Numpy F) (loads : Decoder F) (disk : Disk) where
  unfoldable pub draw_latency_bar : Run F (Unit {0})
  draw_latency_bar = do
    emit (subplots 4 ∷ [])
    axes ← lift (fig_latency_bar np loads disk)
    emit (latency_axes scenarios axes ++ latency_end)

  unfoldable pub draw_throughput_bar : Run F (Unit {0})
  draw_throughput_bar = do
    emit (subplots 1 ∷ [])
    series ← lift (fig_throughput_bar np loads disk)
    emit (map bars series ++ throughput_end)

  unfoldable pub draw_error_rate : Run F (Unit {0})
  draw_error_rate = do
    emit (subplots 1 ∷ [])
    series ← lift (fig_error_rate np loads disk)
    emit (map bars series ++ error_end)

  unfoldable pub draw_fault_recovery : Run F (Unit {0})
  unfolding draw_recovery
  draw_fault_recovery = do
    recovery_times ← lift (load_fault_data loads disk)
    draw_recovery recovery_times

  abbrev pub pods_in : Option Chars → Run F (Unit {0})
  pods_in none = emit []
  pods_in (some written) = do distribution ← lift (load loads written); draw_pod_figure distribution

  unfoldable pub draw_pod_distribution : Run F (Unit {0})
  draw_pod_distribution = pods_in (disk "pod-distribution.json")

  -- The main block.
  unfoldable pub main : Run F (Unit {0})
  main = do
    draw_latency_bar
    draw_throughput_bar
    draw_error_rate
    draw_fault_recovery
    draw_pod_distribution
