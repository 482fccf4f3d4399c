-- ===== src/Summary.antt =====
-- project/analysis/summary_table.py: the summary of all runs as a Markdown and a LaTeX table.
-- Paths are relative to the results directory. A run of the script gives the files that it wrote,
-- in order, and the exception that ended it, if any.
pub mod Format
pub mod Tables
pub mod Rows
pub mod Script
use laborator_pcd.Base.{
  ◌≡◌, refl, String, str_eq, Bool, true, false, ◌||◌, if◌then◌else◌, Option, none, some, List, [],
  ◌∷◌, ◌++◌, ℕ,
}
use laborator_pcd.Base.Chars.{Chars, codes, newline, join}
use laborator_pcd.Py.{
  Error, type_error, is_value_error, Result, ok, raise, ◌>>=◌, Json, null, obj, end, get, is_none,
  is_text, Floats, to_float, is_nought, Disk, Decoder, load, for_each,
}
use laborator_pcd.Policies.{policies, scenarios, policy_labels, label_of}
use mathlib.Core.List.{flatten}
use Prim.Native.String.{◌++◌ as ◌<>◌}

unfoldable pub prom_path : String → String → String
prom_path policy scenario = "prom-" <> policy <> "-" <> scenario <> ".json"

abbrev pub dash : Chars
dash = codes "—"

abbrev is_type_error : Error → Bool
is_type_error type_error = true
is_type_error _ = false

-- An empty dict if there is no file.
abbrev read_or_empty : {F : Type 0} → Decoder F → Option Chars → Result (Json F)
read_or_empty loads none = ok (obj end)
read_or_empty loads (some text) = load loads text

unfoldable pub load_prom : {F : Type 0} → Decoder F → Disk → String → String → Result (Json F)
load_prom loads disk policy scenario = read_or_empty loads (disk (prom_path policy scenario))

pub record Row (F : Type 0) : Type 0 where
  pub policy : String
  pub scenario : String
  pub p50 : Json F
  pub p95 : Json F
  pub p99 : Json F
  pub rps : Json F
  pub err5xx : Json F

module _ {F : Type 0} ⦃fl : Floats F⦄ where
  -- The `try` of `fmt`, given what `float(v)` does.
  abbrev attempt : ℕ → Result F → Result Chars
  attempt decimals (ok x) = ok (fl.fixed decimals x)
  attempt decimals (raise e) = if is_value_error e || is_type_error e then ok dash else raise e

  unfoldable pub fmt : Json F → ℕ → Result Chars
  fmt v decimals =
      if is_none v || is_text v "null" || is_nought v
      then ok dash
      else attempt decimals (to_float v)

module _ {F : Type 0} (loads : Decoder F) (disk : Disk) where
  -- The body of the two loops of `build_rows`.
  unfoldable pub build_row : String → String → Result (Row F)
  build_row policy scenario = do
    prom ← load_prom loads disk policy scenario
    lat ← get prom "latency_ms" (obj end)
    label ← label_of policy_labels policy
    p50 ← get lat "p50" null
    p95 ← get lat "p95" null
    p99 ← get lat "p99" null
    rps ← get prom "throughput_rps" null
    err5xx ← get prom "errors_5xx_rps" null
    ok (record {
      policy = label;
      scenario = scenario;
      p50 = p50;
      p95 = p95;
      p99 = p99;
      rps = rps;
      err5xx = err5xx;
    })

  unfoldable pub build_rows : Result (List (Row F))
  build_rows = do
    rows ← for_each (λ policy. for_each (build_row policy) scenarios) policies
    ok (flatten rows)

-- The f-strings of the two loops, with the formatted cells filled in.
abbrev pub markdown_line : String → String → (a b c d e : Chars) → Chars
markdown_line policy scenario a b c d e =
    codes "| "
    ++ codes policy
    ++ codes " | "
    ++ codes scenario
    ++ codes " "
    ++ codes "| "
    ++ a
    ++ codes " | "
    ++ b
    ++ codes " | "
    ++ c
    ++ codes " "
    ++ codes "| "
    ++ d
    ++ codes " | "
    ++ e
    ++ codes " |"

abbrev pub latex_line : String → String → (a b c d e : Chars) → Chars
latex_line policy scenario a b c d e =
    codes policy
    ++ codes " & "
    ++ codes scenario
    ++ codes " & "
    ++ a
    ++ codes " & "
    ++ b
    ++ codes " & "
    ++ c
    ++ codes " & "
    ++ d
    ++ codes " & "
    ++ e
    ++ codes " \\\\"

abbrev pub markdown_header : Chars
markdown_header = codes "| Policy | Scenario | p50 (ms) | p95 (ms) | p99 (ms) | RPS | 5xx/s |"

abbrev pub markdown_sep : Chars
markdown_sep = codes "|--------|----------|----------|----------|----------|-----|-------|"

abbrev pub latex_head : List Chars
latex_head =
    codes "\\begin{table}[htbp]"
    ∷ codes "\\centering"
    ∷ codes "\\caption{Load-Balancing Algorithm Comparison}"
    ∷ codes "\\label{tab:results}"
    ∷ codes "\\begin{tabular}{llrrrrr}"
    ∷ codes "\\toprule"
    ∷ codes "Policy & Scenario & p50 (ms) & p95 (ms) & p99 (ms) & RPS & 5xx/s \\\\"
    ∷ codes "\\midrule"
    ∷ []

abbrev pub latex_foot : List Chars
latex_foot = codes "\\bottomrule" ∷ codes "\\end{tabular}" ∷ codes "\\end{table}" ∷ []

module _ {F : Type 0} ⦃fl : Floats F⦄ where
  -- One line of a table, with the five numbers formatted in the order of the f-string.
  unfoldable pub fill : (String → String → (a b c d e : Chars) → Chars) → Row F → Result Chars
  unfolding fmt
  fill line r = do
    a ← fmt r.p50 1
    b ← fmt r.p95 1
    c ← fmt r.p99 1
    d ← fmt r.rps 1
    e ← fmt r.err5xx 3
    ok (line r.policy r.scenario a b c d e)

  -- The text written to summary.md.
  unfoldable pub write_markdown : List (Row F) → Result Chars
  unfolding fill for_each join
  write_markdown rows = do
    lines ← for_each (fill markdown_line) rows
    ok (join newline (markdown_header ∷ markdown_sep ∷ lines) ++ codes "\n")

  -- The text written to summary_tex.tex.
  unfoldable pub write_latex : List (Row F) → Result Chars
  unfolding fill for_each join
  write_latex rows = do
    lines ← for_each (fill latex_line) rows
    ok (join newline (latex_head ++ lines ++ latex_foot) ++ codes "\n")

-- What a run of the script leaves behind.
pub record Outcome : Type 0 where
  pub written : List (String × Chars)
  pub raised : Option Error

abbrev stopped : List (String × Chars) → Error → Outcome
stopped files e = record { written = files; raised = some e }

module _ {F : Type 0} ⦃fl : Floats F⦄ where
  -- The `main` block after `build_rows`.
  unfoldable pub write_tables : List (Row F) → Outcome
  unfolding write_markdown write_latex
  write_tables rows = elim (write_markdown rows) [
    | raise e ↦ stopped [] e
    | ok md ↦ elim (write_latex rows) [
      | raise e ↦ stopped (("summary.md", md) ∷ []) e
      | ok tex ↦ record {
        written = ("summary.md", md) ∷ ("summary_tex.tex", tex) ∷ [];
        raised = none;
      }
    ]
  ]

  unfoldable pub main : Decoder F → Disk → Outcome
  unfolding build_rows write_tables
  main loads disk = elim (build_rows loads disk) [
    | raise e ↦ stopped [] e
    | ok rows ↦ write_tables rows
  ]
