-- ===== src/Paper/Figures.antt =====
-- The figures of project/analysis/plot_paper_figures.py that are drawn from the loaded table, and
-- the summary that the script prints. A figure is what the plotting library is handed: the series
-- with their labels, places and values, and the files it is saved to.
pub mod Complete
use Prim.Native.Nat.{max}
use laborator_pcd.Base.{
  ℕ, suc, ◌+◌, ◌*◌, ℤ, pos, sub_ℕ, String, str_eq, if◌then◌else◌, Bool, Option, none, some, List,
  [], ◌∷◌, ◌++◌, map, length,
}
use laborator_pcd.Base.Chars.{Chars, codes}
use laborator_pcd.Py.{
  Result, ok, raise, ◌>>=◌, key_error, type_error, or_raise, Json, int, Floats, for_each, ljust,
  rjust,
}
use laborator_pcd.Numpy.{Numpy}
use laborator_pcd.Policies.{policies, scenarios}
use laborator_pcd.Drawing.{Series, Points}
use laborator_pcd.Paper.Load.{Entry, Table}

abbrev pub short_labels : List String
short_labels = "RR" ∷ "Least\nReq" ∷ "Ring\nHash" ∷ "Maglev" ∷ []

abbrev pub policy_names : List String
policy_names = "Round Robin" ∷ "Least Request" ∷ "Ring Hash" ∷ "Maglev" ∷ []

-- `POLICIES` with `POLICY_LABELS` and the index, `enumerate(zip(...))`.
abbrev pub numbered : ℕ → List String → List String → List (ℕ × String × String)
numbered i (p ∷ ps) (l ∷ ls) = (i, p, l) ∷ numbered (suc i) ps ls
numbered i _ _ = []

module _ {ℓ} {A : Type ℓ} where
  -- `data[key]`
  unfoldable pub index_dict : List (String × A) → String → Result A
  index_dict [] key = raise key_error
  index_dict ((k, v) ∷ rest) key = if str_eq k key then ok v else index_dict rest key

  -- `row.get(key)`, where the values may be None
  unfoldable pub get_dict : List (String × Option A) → String → Option A
  get_dict [] key = none
  get_dict ((k, v) ∷ rest) key = if str_eq k key then v else get_dict rest key

-- The place of bar `i` of `n` in group `j`, in units of 1/10000 of the distance between groups,
-- where bars are `2 * half` wide: `x[j] + (i - n / 2 + 0.5) * bar_w`.
unfoldable pub place : ℕ → ℕ → ℕ → ℕ → ℤ
place half n i j = sub_ℕ (10_000 * j + (2 * i + 1) * half) (n * half)

unfoldable pub places : ℕ → ℕ → ℕ → ℕ → List String → List ℤ
places half n i j [] = []
places half n i j (_ ∷ ss) = place half n i j ∷ places half n i (suc j) ss

-- Half of `group_w / n_policies`, 0.7 / 4.
abbrev pub half_bar : ℕ
half_bar = 875

-- A cell of the heat map: its text, and whether it is written in white.
abbrev pub HeatCell : Type 0
HeatCell = Chars × Bool

module _ {F : Type 0} ⦃fl : Floats F⦄ where
  -- `m[1] if m else 0`
  abbrev pub or_nought : (Entry F → F) → Option (Entry F) → F
  or_nought pick none = fl.nought
  or_nought pick (some m) = pick m

  -- `m[3] if (m and m[3] is not None) else 0`
  abbrev pub rate_or_nought : Option F → F
  rate_or_nought none = fl.nought
  rate_or_nought (some x) = x

  -- The loop of a grouped bar chart.
  unfoldable pub bar_series : (Entry F → F) → Table F → ℕ × String × String → Result (Series F)
  bar_series pick table (i, policy, label) = do
    row ← index_dict table policy
    ok (record {
      label = label;
      xs = places half_bar (length policies) i 0 scenarios;
      heights = map (λ sc. or_nought pick (get_dict row sc)) scenarios;
    })

  unfoldable pub fig_p95_latency : Table F → Result (List (Series F))
  unfolding bar_series
  fig_p95_latency table =
      for_each (bar_series (λ m. m.p95) table) (numbered 0 policies policy_names)

  unfoldable pub fig_throughput : Table F → Result (List (Series F))
  unfolding bar_series
  fig_throughput table =
      for_each (bar_series (λ m. rate_or_nought m.rps) table) (numbered 0 policies policy_names)

  -- The entries that are not None, in order.
  abbrev pub present : List (Option (Entry F)) → List (Entry F)
  present [] = []
  present (none ∷ es) = present es
  present (some e ∷ es) = e ∷ present es

  unfoldable pub scatter_series : Table F → ℕ × String × String → Result (Points F)
  scatter_series table (i, policy, label) = do
    row ← index_dict table policy
    let kept = present (map (get_dict row) scenarios)
    ok (record { label = label; xs = map (λ m. m.p50) kept; ys = map (λ m. m.p95) kept })

  unfoldable pub fig_p50_vs_p95 : Table F → Result (List (Points F))
  unfolding scatter_series
  fig_p50_vs_p95 table = for_each (scatter_series table) (numbered 0 policies policy_names)

  unfoldable pub error_row : Table F → String → Result (List F)
  error_row table policy = do
    row ← index_dict table policy
    ok (map (λ sc. or_nought (λ m. m.err) (get_dict row sc)) scenarios)

  abbrev pub heat_cell : F → F → HeatCell
  heat_cell largest val = (fl.fixed 2 val ++ codes "%", fl.gt val (fl.mul largest (fl.ratio 6 10)))

  unfoldable pub fig_error_rate : Numpy F → Table F → Result (List (List HeatCell))
  unfolding error_row
  fig_error_rate np table = do
    matrix ← for_each (error_row table) policies
    let largest = np.max_of matrix
    ok (map (map (heat_cell largest)) matrix)

  -- One line of the printed summary; formatting None as a number is a TypeError.
  abbrev pub summary_line : String → String → Option (Entry F) → Result (List Chars)
  summary_line policy sc none = ok []
  summary_line policy sc (some m) = do
    rps ← or_raise type_error m.rps
    ok (
        (ljust 16 (codes policy)
          ++ codes " "
          ++ ljust 10 (codes sc)
          ++ codes " "
          ++ rjust 8 (fl.fixed 1 m.p50)
          ++ codes " "
          ++ rjust 8 (fl.fixed 1 m.p95)
          ++ codes " "
          ++ rjust 8 (fl.fixed 1 m.p99)
          ++ codes " "
          ++ rjust 8 (fl.fixed 1 rps)
          ++ codes " "
          ++ rjust 8 (fl.fixed 2 m.err))
        ∷ [])

  unfoldable pub summary_of : Table F → String → Result (List (List Chars))
  summary_of table policy = do
    row ← index_dict table policy
    for_each (λ sc. summary_line policy sc (get_dict row sc)) scenarios

  -- The loops of the `main` block that print the table, the lines of each policy by scenario.
  unfoldable pub print_summary : Table F → Result (List (List (List Chars)))
  unfolding summary_of
  print_summary table = for_each (summary_of table) policies
