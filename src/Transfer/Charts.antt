-- ===== src/Transfer/Charts.antt =====
-- tema1/generate_charts.py. pandas is a parameter: it reads a table from a text, and compares and
-- prints its cells.
pub mod Both
use laborator_pcd.Base.{
  ℕ, String, str_eq, Bool, true, false, ◌||◌, ◌&&◌, if◌then◌else◌, Option, none, some, List, [],
  ◌∷◌, map,
}
use laborator_pcd.Base.Chars.{Chars}
use laborator_pcd.Py.{key_error, value_error, type_error, Result, ok, raise, Disk}
use laborator_pcd.Drawing.{
  Table, Call, subplots, save, close, bar_chart, title, x_label, y_label, y_scale, legend, Run,
  emit, lift, return, ◌>>=◌, ◌>>◌,
}

pub record Pandas (C : Type 0) : Type 0 where
  -- `pd.read_csv` of a file with this text
  pub read_csv : Chars → Result (Table C)
  -- `cell == text`
  pub equals : C → String → Bool
  -- whether seaborn takes a column of these cells for numbers
  pub is_numeric : List C → Bool
  -- `str(cell)`
  pub to_text : C → C

abbrev pub csv_path : String
csv_path = "report/results.csv"

module _ {C : Type 0} where
  -- `df[name]`
  unfoldable pub column : Table C → String → Result (List C)
  column [] name = raise key_error
  column ((k, cells) ∷ rest) name = if str_eq k name then ok cells else column rest name

  -- `df[name] = cells`: a new column stands last.
  unfoldable pub assign : Table C → String → List C → Table C
  assign [] name cells = (name, cells) ∷ []
  assign ((k, old) ∷ rest) name cells =
      if str_eq k name then (k, cells) ∷ rest else (k, old) ∷ assign rest name cells

  -- The cells of the rows that a mask keeps, and `df[mask]`.
  unfoldable pub keep : List Bool → List C → List C
  keep [] cells = []
  keep (m ∷ ms) [] = []
  keep (m ∷ ms) (c ∷ cs) = if m then c ∷ keep ms cs else keep ms cs

  unfoldable pub rows_where : List Bool → Table C → Table C
  unfolding keep
  rows_where mask df = map (λ col. (col.0, keep mask col.1)) df

  abbrev pub is_found : Result (List C) → Bool
  is_found (raise e) = false
  is_found (ok cells) = true

  abbrev pub save_chart : String → List (Call C)
  save_chart path = legend ∷ save path ∷ close ∷ []

  -- From the titles on.
  abbrev pub time_end : List (Call C)
  time_end =
      title "Time Taken by Protocol and Block Size (1 GB Payload)"
      ∷ x_label "Block Size (Bytes)"
      ∷ y_label "Time Taken (seconds)"
      ∷ y_scale "log"
      ∷ save_chart "report/time_vs_protocol.png"

  abbrev pub loss_end : List (Call C)
  loss_end =
      title "Correlation between Block Size and Data Loss"
      ∷ x_label "Block Size (Bytes)"
      ∷ y_label "Loss Rate (%)"
      ∷ save_chart "report/loss_vs_blocksize.png"

  module _ (pandas : Pandas C) where
    -- `df['BlockSizeStr'] = df['BlockSize'].astype(str)`, for what `df['BlockSize']` gives.
    abbrev pub with_sizes : Table C → Result (List C) → Result (Table C)
    unfolding assign
    with_sizes df (raise e) = raise e
    with_sizes df (ok sizes) = ok (assign df "BlockSizeStr" (map pandas.to_text sizes))

    abbrev pub select_from : Table C → (C → Bool) → Result (List C) → Result (Table C)
    unfolding column assign rows_where
    select_from df test (raise e) = raise e
    select_from df test (ok cells) =
        let kept = rows_where (map test cells) df in with_sizes kept (column kept "BlockSize")

    -- The rows whose cell in a column passes a test, with the sizes of blocks as texts.
    unfoldable pub select : String → (C → Bool) → Table C → Result (Table C)
    unfolding column assign rows_where
    select name test df = select_from df test (column df name)

    abbrev pub is_gigabyte : C → Bool
    is_gigabyte c = pandas.equals c "1 GB"

    -- `isin(unreliable_protocols)`
    abbrev pub is_unreliable : C → Bool
    is_unreliable c = pandas.equals c "udp" || pandas.equals c "quic"

    -- `sns.barplot(data=df, x='BlockSizeStr', y=y, hue='Protocol')` wants its columns to be there,
    -- and one of the axes to be of numbers; the other one is of texts.
    abbrev pub bars_of : Table C → String → Result (List C) → Run C (Unit {0})
    bars_of df y (raise e) = lift (raise value_error)
    bars_of df y (ok cells) =
        if pandas.is_numeric cells
        then emit (bar_chart df "BlockSizeStr" y "Protocol" ∷ [])
        else lift (raise type_error)

    unfoldable pub bar_plot : Table C → String → Run C (Unit {0})
    unfolding column
    bar_plot df y =
        if is_found (column df "BlockSizeStr") && is_found (column df "Protocol")
        then bars_of df y (column df y)
        else lift (raise value_error)

    unfoldable pub time_chart : Table C → Run C (Unit {0})
    unfolding select bar_plot
    time_chart df = do
      emit (subplots 1 ∷ [])
      df_1gb ← lift (select "Payload" is_gigabyte df)
      bar_plot df_1gb "TimeTaken"
      emit time_end

    unfoldable pub loss_chart : Table C → Run C (Unit {0})
    unfolding select bar_plot
    loss_chart df = do
      emit (subplots 1 ∷ [])
      df_unreliable ← lift (select "Protocol" is_unreliable df)
      bar_plot df_unreliable "LossRate"
      emit loss_end

    -- The script; its value is the exit code.
    abbrev pub charts_of : Option Chars → Run C ℕ
    unfolding time_chart loss_chart
    charts_of none = return 1
    charts_of (some text) = do
      df ← lift (pandas.read_csv text)
      time_chart df
      loss_chart df
      return 0

    unfoldable pub generate_charts : Disk → Run C ℕ
    generate_charts disk = charts_of (disk csv_path)
