-- ===== src/Drawing.antt =====
-- What the plotting scripts of project/analysis ask of matplotlib: the calls that open, fill, save
-- and close a figure. Colours, sizes, fonts, grids and spines are left out.
pub mod Discipline
pub mod Saving
pub mod Figure
use laborator_pcd.Base.{
  ℕ, ℤ, String, Bool, true, false, Option, none, some, List, [], ◌∷◌, ◌++◌, map,
}
use laborator_pcd.Base.Chars.{Chars}
use laborator_pcd.Py.{Error, Result, ok, raise, Json}

-- Bars with a common label, in units of 1/10000 of the distance between groups.
pub record Series (F : Type 0) : Type 0 where
  pub label : String
  pub xs : List ℤ
  pub heights : List F

-- A scatter plot has measured values on both axes.
pub record Points (F : Type 0) : Type 0 where
  pub label : String
  pub xs : List F
  pub ys : List F

-- A table by columns.
abbrev pub Table : Type 0 → Type 0
Table C = List (String × List C)

pub data Call (F : Type 0) : Type 0 where
  -- `plt.subplots` with so many axes, `fig.savefig` and `plt.close`
  subplots : ℕ → Call F
  save : String → Call F
  close : Call F
  -- `ax.bar`: a series, or values that are not known to be numbers, at 0, 1, 2, ... or at texts
  bars : Series F → Call F
  value_bars : List (Json F) → Call F
  labelled_bars : List String → List (Json F) → Call F
  -- `sns.barplot` of a table's columns, with those for x, y and hue
  bar_chart : Table F → String → String → String → Call F
  -- `ax.scatter`, `ax.step` and `ax.plot`
  scatter : Points F → Call F
  steps : String → List F → List ℤ → Call F
  line : String → List F → List F → Call F
  time_line : String → List ℕ → List F → Call F
  -- `ax.axvline` and `ax.axhline`
  vertical : F → Option String → Call F
  horizontal : F → String → Call F
  -- `ax.imshow` with its `vmax`, and `ax.text`
  image : List (List F) → F → Call F
  text : Chars → Call F
  white_text : Chars → Call F
  -- titles of axes and figures, labels, ticks, limits, the legend and the colour bar
  title : String → Call F
  x_label : String → Call F
  y_label : String → Call F
  x_ticks : List Chars → Call F
  y_ticks : List String → Call F
  y_limit : F → Call F
  y_scale : String → Call F
  legend : Call F
  colorbar : String → Call F

-- A piece of a script: its calls in order, and its value or the exception that ended it.
abbrev pub Run : Type 0 → Type 0 → Type 0
Run F A = List (Call F) × Result A

abbrev pub emit : {F : Type 0} → List (Call F) → Run F (Unit {0})
emit calls = (calls, ok tt)

-- Code that draws nothing.
abbrev pub lift : {F : Type 0} {A : Type 0} → Result A → Run F A
lift r = ([], r)

abbrev pub return : {F : Type 0} {A : Type 0} → A → Run F A
return a = ([], ok a)

infixl 5 ◌>>=◌ ◌>>◌
abbrev pub ◌>>=◌ : {F : Type 0} {A B : Type 0} → Run F A → (A → Run F B) → Run F B
(calls, raise e) >>= next = (calls, raise e)
(calls, ok a) >>= next = let (later, result) = next a in (calls ++ later, result)

abbrev pub ◌>>◌ : {F : Type 0} {B : Type 0} → Run F (Unit {0}) → Run F B → Run F B
first >> rest = first >>= λ _. rest
