-- ===== src/Paper/Figures/Complete.antt =====
-- On a table from `load_all_metrics`, project/analysis/plot_paper_figures.py draws every figure and
-- prints its summary without an exception, and each has a value for each policy and scenario.
use mathlib.Core.Path.{subst}
use laborator_pcd.Base.{
  ℕ, ◌≡◌, refl, sym, ap, ◌∙◌, inl, inr, String, str_eq, eq_iff, Option, none, some, List, [], ◌∷◌,
  All, All₂, In, All-of_In, All-weaken, Bool-cases,
}
use laborator_pcd.Base.Chars.{Chars}
use laborator_pcd.Py.{
  ok, bind-of_ok, type_error, Floats, for_each, for_each-total, or_raise, Disk, Decoder,
  IgnoresBlanks,
}
use laborator_pcd.Numpy.{Numpy}
use laborator_pcd.Policies.{policies, scenarios}
use laborator_pcd.Paper.Load.{Entry, Table, load_all_metrics}
use laborator_pcd.Paper.Load.Safety.{HasRate, IsRow, AreJsonFiles, load_all_metrics-total}
use laborator_pcd.Drawing.{Series, Points}
use laborator_pcd.Paper.Figures.{
  index_dict, get_dict, numbered, policy_names, HeatCell, bar_series, fig_p95_latency,
  fig_throughput, scatter_series, fig_p50_vs_p95, error_row, fig_error_rate, summary_line,
  summary_of, print_summary,
}

index_dict-In {ℓ κ} :
    {A : Type ℓ} (Q : String → A → Type κ) (keys : List String) (table : List (String × A))
    (key : String)
    → All₂ (λ k row. (row.0 ≡ k) × Q k row.1) keys table
    → In key keys
    → (v : A) × (index_dict table key ≡ ok v) × Q key v
unfolding index_dict
index_dict-In Q [] table key all m = elim m [ ]
index_dict-In Q (k ∷ ks) [] key all m = elim all [ ]
index_dict-In Q (k ∷ ks) ((j, v) ∷ rest) key ((named, q), all) m =
    elim (Bool-cases (str_eq j key)) [
      | inl e ↦ (v, rw e, subst (λ x. Q x v) (sym named ∙ (eq_iff j key).0 e) q)
      | inr e ↦ elim m [
        | inl here ↦ absurd (cc ((eq_iff j key).1 (named ∙ here)))
        | inr later ↦
            let (w, found, q') = index_dict-In Q ks rest key all later in (w, rw e found, q')
      ]
    ]

-- The entries of a row, by scenario.
abbrev Cells : {F : Type 0} → List (String × Option (Entry F)) → Type 0
Cells row = All₂ (λ scenario cell. (cell.0 ≡ scenario) × HasRate cell.1) scenarios row

get_dict-HasRate :
    {F : Type 0} (keys : List String) (row : List (String × Option (Entry F))) (key : String)
    → All₂ (λ k cell. (cell.0 ≡ k) × HasRate cell.1) keys row
    → HasRate (get_dict row key)
unfolding get_dict
get_dict-HasRate [] [] key all = tt
get_dict-HasRate [] (_ ∷ _) key all = elim all [ ]
get_dict-HasRate (k ∷ ks) [] key all = elim all [ ]
get_dict-HasRate (k ∷ ks) ((j, e) ∷ rest) key all = elim (Bool-cases (str_eq j key)) [
  | inl same ↦ rw same all.0.1
  | inr other ↦ rw other (get_dict-HasRate ks rest key all.1)
]

module _ {F : Type 0} ⦃fl : Floats F⦄ (table : Table F) (loaded : All₂ IsRow policies table) where
  row_of :
      (policy : String)
      → In policy policies
      → (row : List (String × Option (Entry F))) × (index_dict table policy ≡ ok row) × Cells row
  row_of policy m = index_dict-In (λ _ row. Cells row) policies table policy loaded m

  summary_line-total :
      (policy sc : String) (e : Option (Entry F))
      → HasRate e
      → (l : List Chars) × (summary_line policy sc e ≡ ok l)
  summary_line-total policy sc none h = ([], refl)
  summary_line-total policy sc (some m) (x, h) = (_, bind-of_ok _ _ (ap (or_raise type_error) h))

  summary_of-total :
      (policy : String)
      → In policy policies
      → (ls : List (List Chars)) × (summary_of table policy ≡ ok ls)
  unfolding summary_of
  summary_of-total policy m =
      let (row, found, cells) = row_of policy m in
      let (ls, e) =
        for_each-total (λ sc. summary_line policy sc (get_dict row sc)) scenarios
          (All-of_In _ scenarios
            (λ sc _. summary_line-total policy sc _ (get_dict-HasRate scenarios row sc cells))) in
      (ls, bind-of_ok _ _ found ∙ e)

  -- The summary is printed to its end: no entry lacks a number that is formatted.
  pub print_summary-total : (ls : List (List (List Chars))) × (print_summary table ≡ ok ls)
  unfolding print_summary
  print_summary-total =
      for_each-total (summary_of table) policies (All-of_In _ policies summary_of-total)

  numbered-In : All (λ x. In x.1 policies) (numbered 0 policies policy_names)
  numbered-In =
      (inl refl, (inr (inl refl), (inr (inr (inl refl)), (inr (inr (inr (inl refl))), tt))))

  bar_series-total :
      (pick : Entry F → F) (x : ℕ × String × String)
      → In x.1 policies
      → (s : Series F) × (bar_series pick table x ≡ ok s)
  unfolding bar_series
  bar_series-total pick (i, policy, label) m =
      let (row, found, _) = row_of policy m in (_, bind-of_ok _ _ found)

  scatter_series-total :
      (x : ℕ × String × String) → In x.1 policies → (s : Points F) × (scatter_series table x ≡ ok s)
  unfolding scatter_series
  scatter_series-total (i, policy, label) m =
      let (row, found, _) = row_of policy m in (_, bind-of_ok _ _ found)

  error_row-total :
      (policy : String) → In policy policies → (xs : List F) × (error_row table policy ≡ ok xs)
  unfolding error_row
  error_row-total policy m = let (row, found, _) = row_of policy m in (_, bind-of_ok _ _ found)

  pub error_rows-total : (m : List (List F)) × (for_each (error_row table) policies ≡ ok m)
  error_rows-total =
      for_each-total (error_row table) policies (All-of_In _ policies error_row-total)

  -- All four figures over the table are drawn.
  pub figures-total :
      (np : Numpy F)
      → ((ss : List (Series F)) × (fig_p95_latency table ≡ ok ss))
        × ((ss : List (Series F)) × (fig_throughput table ≡ ok ss))
        × ((ps : List (Points F)) × (fig_p50_vs_p95 table ≡ ok ps))
        × ((cells : List (List HeatCell)) × (fig_error_rate np table ≡ ok cells))
  unfolding fig_p95_latency fig_throughput fig_p50_vs_p95 fig_error_rate
  figures-total np =
      let numbered = numbered 0 policies policy_names in
      let (matrix, e) = error_rows-total in
      (
        for_each-total _ numbered (All-weaken _ _ numbered (bar_series-total _) numbered-In),
        for_each-total _ numbered (All-weaken _ _ numbered (bar_series-total _) numbered-In),
        for_each-total _ numbered (All-weaken _ _ numbered scatter_series-total numbered-In),
        (_, bind-of_ok _ _ e),
      )

-- What the script draws and prints of a table that it has loaded.
pub record Drawn {F : Type 0} ⦃fl : Floats F⦄ (np : Numpy F) (table : Table F) : Type 0 where
  pub p95 : (ss : List (Series F)) × (fig_p95_latency table ≡ ok ss)
  pub throughput : (ss : List (Series F)) × (fig_throughput table ≡ ok ss)
  pub scatter : (ps : List (Points F)) × (fig_p50_vs_p95 table ≡ ok ps)
  pub heat_map : (cells : List (List HeatCell)) × (fig_error_rate np table ≡ ok cells)
  pub printed : (ls : List (List (List Chars))) × (print_summary table ≡ ok ls)

-- If no file of the results directory holds white space that JSON does not allow, and the decoder
-- ignores white space around a value, then plot_paper_figures.py loads its table, draws the four
-- figures over it and prints its summary without an exception, whatever else the files hold.
pub load_and_draw :
    {F : Type 0} ⦃fl : Floats F⦄ (np : Numpy F) (loads : Decoder F) (disk : Disk)
    → IgnoresBlanks loads
    → AreJsonFiles disk
    → (table : Table F) × (load_all_metrics np loads disk ≡ ok table) × Drawn np table
load_and_draw np loads disk law files =
    let (table, loaded, rows) = load_all_metrics-total np loads disk law files in
    let (p95, throughput, scatter, heat_map) = figures-total table rows np in
    (
      table,
      loaded,
      record {
        p95 = p95;
        throughput = throughput;
        scatter = scatter;
        heat_map = heat_map;
        printed = print_summary-total table rows;
      },
    )
