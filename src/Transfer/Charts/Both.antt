-- ===== src/Transfer/Charts/Both.antt =====
-- What the two charts of tema1/generate_charts.py show.
use laborator_pcd.Base.{
  ℕ, String, str_eq, eq_iff, ◌≡◌, refl, ap, ◌∙◌, inl, inr, Bool, true, false, Bool-cases,
  if◌then◌else◌, some, List, [], ◌∷◌, ◌++◌, map, All,
}
use laborator_pcd.Base.Chars.{Chars}
use laborator_pcd.Py.{ok, ok-injective, Disk}
use laborator_pcd.Drawing.{Table, Call, subplots, bar_chart, Run, emit, lift, ◌>>=◌, ◌>>◌}
use laborator_pcd.Drawing.Discipline.{follow}
use laborator_pcd.Drawing.Saving.{saved}
use laborator_pcd.Transfer.Charts.{
  Pandas, csv_path, column, assign, keep, rows_where, bar_plot, time_end, loss_end, with_sizes,
  select_from, select, is_gigabyte, is_unreliable, time_chart, loss_chart, generate_charts,
}

-- The tables of the bar charts, in order.
abbrev pub bar_chart_of : {C : Type 0} → Call C → List (Table C)
bar_chart_of (bar_chart df x y hue) = df ∷ []
bar_chart_of call = []

unfoldable pub bar_charts : {C : Type 0} → List (Call C) → List (Table C)
bar_charts [] = []
bar_charts (call ∷ calls) = bar_chart_of call ++ bar_charts calls

module _ {C : Type 0} where
  column-assign :
      (df : Table C) (name : String) (cells : List C)
      → column (assign df name cells) name ≡ ok cells
  unfolding column assign
  column-assign [] name cells = rw ((eq_iff name name).1 refl) refl
  column-assign ((k, old) ∷ rest) name cells = elim (Bool-cases (str_eq k name)) [
    | inl e ↦ rw (e, e) refl
    | inr e ↦ rw (e, e) (column-assign rest name cells)
  ]

  column-assign_other :
      (df : Table C) (name other : String) (cells : List C)
      → str_eq name other ≡ false
      → column (assign df name cells) other ≡ column df other
  unfolding column assign
  column-assign_other [] name other cells h = rw h refl
  column-assign_other ((k, old) ∷ rest) name other cells h = elim (Bool-cases (str_eq k name)) [
    | inl e ↦ rw (e, ap (λ k. str_eq k other) ((eq_iff k name).0 e) ∙ h) refl
    | inr e ↦ rw e (
        ap (λ r. if str_eq k other then ok old else r)
          (column-assign_other rest name other cells h))
  ]

  column-rows_where :
      (mask : List Bool) (df : Table C) (name : String) {cells : List C}
      → column df name ≡ ok cells
      → column (rows_where mask df) name ≡ ok (keep mask cells)
  unfolding column rows_where
  column-rows_where mask [] name h = absurd (cc h)
  column-rows_where mask ((k, old) ∷ rest) name h = elim (Bool-cases (str_eq k name)) [
    | inl e ↦ rw e (ap (λ c. ok (keep mask c)) (ok-injective (rw e at h)))
    | inr e ↦ rw e (column-rows_where mask rest name (rw e at h))
  ]

  keep-All :
      (test : C → Bool) (cells : List C) → All (λ c. test c ≡ true) (keep (map test cells) cells)
  unfolding keep
  keep-All test [] = tt
  keep-All test (c ∷ cs) = elim (Bool-cases (test c)) [
    | inl e ↦ rw e (e, keep-All test cs)
    | inr e ↦ rw e (keep-All test cs)
  ]

-- The table of a chart: the rows whose cell in one column passes a test, with the block sizes as
-- texts beside the measured values and the protocols.
pub record IsChart {C : Type 0} (pandas : Pandas C) (name y : String) (test : C → Bool)
    (df t : Table C) : Type 0 where
  pub tested : List C
  pub sizes : List C
  pub values : List C
  pub protocols : List C
  pub of_test : column df name ≡ ok tested
  pub of_sizes : column df "BlockSize" ≡ ok sizes
  pub of_values : column df y ≡ ok values
  pub of_protocols : column df "Protocol" ≡ ok protocols
  pub x : column t "BlockSizeStr" ≡ ok (map pandas.to_text (keep (map test tested) sizes))
  pub y_axis : column t y ≡ ok (keep (map test tested) values)
  pub hue : column t "Protocol" ≡ ok (keep (map test tested) protocols)
  pub passed : All (λ c. test c ≡ true) (keep (map test tested) tested)

module _ {C : Type 0} (pandas : Pandas C) (df : Table C) (name y : String) (test : C → Bool)
    (plain_y : str_eq "BlockSizeStr" y ≡ false) {tested sizes values protocols : List C}
    (of_test : column df name ≡ ok tested) (of_sizes : column df "BlockSize" ≡ ok sizes)
    (of_values : column df y ≡ ok values) (of_protocols : column df "Protocol" ≡ ok protocols) where
  abbrev mask : List Bool
  mask = map test tested

  chosen : Table C
  chosen = assign (rows_where mask df) "BlockSizeStr" (map pandas.to_text (keep mask sizes))

  select-ok : select pandas name test df ≡ ok chosen
  unfolding select chosen
  select-ok =
      ap (select_from pandas df test) of_test
      ∙ ap (with_sizes pandas (rows_where mask df)) (column-rows_where mask df "BlockSize" of_sizes)

  column-chosen : column chosen y ≡ ok (keep mask values)
  unfolding chosen
  column-chosen =
      column-assign_other (rows_where mask df) "BlockSizeStr" y
        (map pandas.to_text (keep mask sizes)) plain_y
      ∙ column-rows_where mask df y of_values

  chosen-IsChart : IsChart pandas name y test df chosen
  unfolding chosen
  chosen-IsChart =
      let kept = rows_where mask df in
      let texts = map pandas.to_text (keep mask sizes) in
      record {
        tested = tested;
        sizes = sizes;
        values = values;
        protocols = protocols;
        of_test = of_test;
        of_sizes = of_sizes;
        of_values = of_values;
        of_protocols = of_protocols;
        x = column-assign kept "BlockSizeStr" texts;
        y_axis = column-chosen;
        hue =
            column-assign_other kept "BlockSizeStr" "Protocol" texts refl
            ∙ column-rows_where mask df "Protocol" of_protocols;
        passed = keep-All test tested;
      }

  bar_plot-chosen :
      pandas.is_numeric (keep mask values) ≡ true
      → bar_plot pandas chosen y ≡ (bar_chart chosen "BlockSizeStr" y "Protocol" ∷ [], ok tt)
  unfolding bar_plot
  bar_plot-chosen numeric =
      let chart = chosen-IsChart in rw (chart.x, chart.hue, column-chosen, numeric) refl

  -- The calls of the whole chart, with `last` after its bars.
  chart-calls :
      (last : List (Call C))
      → pandas.is_numeric (keep mask values) ≡ true
      → (emit (subplots 1 ∷ [])
          >> (lift (select pandas name test df) >>= λ t. bar_plot pandas t y >> emit last))
        ≡ (subplots 1 ∷ bar_chart chosen "BlockSizeStr" y "Protocol" ∷ last, ok tt)
  chart-calls last numeric =
      ap (λ r. emit (subplots 1 ∷ []) >> (lift r >>= λ t. bar_plot pandas t y >> emit last))
        select-ok
      ∙ ap (λ r. emit (subplots 1 ∷ []) >> (r >> emit last)) (bar_plot-chosen numeric)

-- The script has ended with code 0, after two charts: of the rows of 1 GB by time, and of those of
-- the unreliable protocols by losses.
pub record IsComplete {C : Type 0} (pandas : Pandas C) (df : Table C) (r : Run C ℕ) : Type 0 where
  pub code : r.1 ≡ ok 0
  pub order : follow false r.0 ≡ some false
  pub files : saved r.0 ≡ "report/time_vs_protocol.png" ∷ "report/loss_vs_blocksize.png" ∷ []
  pub time_table : Table C
  pub loss_table : Table C
  pub shown : bar_charts r.0 ≡ time_table ∷ loss_table ∷ []
  pub times : IsChart pandas "Payload" "TimeTaken" (is_gigabyte pandas) df time_table
  pub losses : IsChart pandas "Protocol" "LossRate" (is_unreliable pandas) df loss_table

module _ {C : Type 0} (pandas : Pandas C) (df : Table C)
    {payloads sizes times losses protocols : List C}
    (of_payloads : column df "Payload" ≡ ok payloads) (of_sizes : column df "BlockSize" ≡ ok sizes)
    (of_times : column df "TimeTaken" ≡ ok times) (of_losses : column df "LossRate" ≡ ok losses)
    (of_protocols : column df "Protocol" ≡ ok protocols) where
  -- If the results file exists, pandas reads from it a table with the five columns that are used,
  -- and seaborn takes the times and the loss rates of the chosen rows for numbers,
  -- generate_charts.py ends with code 0 and draws and saves two charts, one after the other: of the
  -- rows of 1 GB by time taken, and of the rows of udp and quic by loss rate, each with the block
  -- sizes as texts and the protocols of the same rows.
  pub generate_charts-draws :
      (disk : Disk) {text : Chars}
      → pandas.is_numeric (keep (map (is_gigabyte pandas) payloads) times) ≡ true
      → pandas.is_numeric (keep (map (is_unreliable pandas) protocols) losses) ≡ true
      → disk csv_path ≡ some text
      → pandas.read_csv text ≡ ok df
      → IsComplete pandas df (generate_charts pandas disk)
  unfolding generate_charts time_chart loss_chart follow saved bar_charts
  generate_charts-draws disk numeric_times numeric_losses found read =
      let time =
        chart-calls pandas df "Payload" "TimeTaken" (is_gigabyte pandas) refl of_payloads of_sizes
          of_times of_protocols time_end numeric_times in
      let loss =
        chart-calls pandas df "Protocol" "LossRate" (is_unreliable pandas) refl of_protocols
          of_sizes of_losses of_protocols loss_end numeric_losses in
      rw (found, read, time, loss)
        (record {
          code = refl;
          order = refl;
          files = refl;
          time_table = _;
          loss_table = _;
          shown = refl;
          times =
              chosen-IsChart pandas df "Payload" "TimeTaken" (is_gigabyte pandas) refl of_payloads
                of_sizes of_times of_protocols;
          losses =
              chosen-IsChart pandas df "Protocol" "LossRate" (is_unreliable pandas) refl
                of_protocols of_sizes of_losses of_protocols;
        })
