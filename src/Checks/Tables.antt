-- ===== src/Checks/Tables.antt =====
-- project/analysis/summary_table.py on a results directory with one file.
use mathlib.Core.List.{flatten}
use mathlib.Core.Option.{some-injective}
use laborator_pcd.Base.{
  ◌≡◌, refl, sym, ap, ◌∙◌, Bool, Bool-cases, inl, inr, pos, String, str_eq, if◌then◌else◌, Option,
  none, some, List, [], ◌∷◌, ◌++◌, map, arith, length,
}
use laborator_pcd.Base.Chars.{Chars, codes, newline, split, join}
use laborator_pcd.Py.{
  Json, null, int, float, str, obj, end, field, ok, raise, overflow_error, to_float, decimal,
  is_nought, is_text, get, lookup_or, for_each, Decoder, Disk,
}
use laborator_pcd.Policies.{label_of}
use laborator_pcd.Summary.{
  Row, fmt, fill, markdown_line, latex_line, markdown_header, markdown_sep, write_markdown,
  build_row, build_rows, main, load_prom, prom_path,
}
use laborator_pcd.Summary.Format.{fmt_raises}
use laborator_pcd.Summary.Rows.{heading, headings, HoldsReports, build_rows-total}
use laborator_pcd.Summary.Script.{IsAtomic, both, summary_lines, main-IsAtomic}
use laborator_pcd.Summary.Tables.{Cells, markdown_fields, latex_fields, columns_agree}
use laborator_pcd.Checks.Sample.{Milli, milli, milli-IsPlain, knows, fraction}

abbrev report : Json Milli
report = obj (
    field "latency_ms"
      (obj (field "p50" (float 12_345) (field "p95" (str "null") (field "p99" (int (pos 0)) end))))
      (field "throughput_rps" (int (pos 250)) end))

abbrev disk : Disk
disk path = if str_eq path "prom-rr-burst.json" then some (codes "R") else none

abbrev loads : Decoder Milli
loads = knows ((codes "R", report) ∷ [])

abbrev row : Row Milli
row = record {
  policy = "Round Robin";
  scenario = "burst";
  p50 = float 12_345;
  p95 = str "null";
  p99 = int (pos 0);
  rps = int (pos 250);
  err5xx = null;
}

built : build_row loads disk "rr" "burst" ≡ ok row
unfolding build_row load_prom prom_path get lookup_or label_of
built = refl

printed : fill markdown_line row ≡ ok (codes "| Round Robin | burst | 12.3 | — | — | 250.0 | — |")
unfolding fill to_float is_nought is_text decimal fraction
printed = refl

printed_tex : fill latex_line row ≡ ok (codes "Round Robin & burst & 12.3 & — & — & 250.0 & — \\\\")
unfolding fill to_float is_nought is_text decimal fraction
printed_tex = refl

-- An integer that is too large for a float is not caught by `fmt`.
huge : fmt {F = Milli} (int (pos 1_000_000)) 1 ≡ raise overflow_error
unfolding fmt to_float is_nought is_text
huge = refl

fmt_raises_example :
    (overflow_error ≡ overflow_error)
    × (to_float {F = Milli} (int (pos 1_000_000)) ≡ raise overflow_error)
fmt_raises_example = fmt_raises (int (pos 1_000_000)) 1 huge

columns_agree_example :
    (a b c d e : Chars) × Cells row a b c d e
    × (split b'|' (codes "| Round Robin | burst | 12.3 | — | — | 250.0 | — |")
        ≡ markdown_fields (codes "Round Robin") (codes "burst") a b c d e)
    × (split b'&' (codes "Round Robin & burst & 12.3 & — & — & 250.0 & — \\\\")
        ≡ latex_fields (codes "Round Robin") (codes "burst") a b c d e)
columns_agree_example =
    columns_agree milli-IsPlain row (omega arith) (omega arith) (omega arith) (omega arith) printed
      printed_tex

reports : HoldsReports loads disk
unfolding lookup_or
reports policy scenario text e =
    elim (Bool-cases (str_eq (prom_path policy scenario) "prom-rr-burst.json")) [
      | inl here ↦ (
        report,
        ap loads (sym (some-injective _ _ (ap in_burst (sym here) ∙ e))),
        (_, _, refl, refl),
      )
      | inr gone ↦ absurd (cc (ap in_burst (sym gone) ∙ e))
    ]
  where
    in_burst : Bool → Option Chars
    in_burst b = if b then some (codes "R") else none

build_rows-total_example : (rows : List (Row Milli)) × (build_rows loads disk ≡ ok rows)
build_rows-total_example = build_rows-total loads disk reports

some_rows : (rows : List (Row Milli)) × (build_rows loads disk ≡ ok rows)
some_rows = build_rows-total loads disk reports

first : List (String × Chars) → Chars
first [] = []
first ((_, text) ∷ _) = text

second : List (String × Chars) → Chars
unfolding first
second [] = []
second (_ ∷ rest) = first rest

ran : main loads disk ≡ both (first (main loads disk).written) (second (main loads disk).written)
unfolding main write_markdown build_row load_prom prom_path get lookup_or label_of first second
    to_float is_nought is_text decimal fraction for_each flatten join
ran = refl

summary_lines_example :
    (rows : List (Row Milli)) × (lines : List Chars) × (build_rows loads disk ≡ ok rows)
    × (map heading rows ≡ headings)
    × (for_each (fill markdown_line) rows ≡ ok lines)
    × (length lines ≡ 16)
    × (split newline (first (main loads disk).written)
        ≡ markdown_header ∷ markdown_sep ∷ (lines ++ ([] ∷ [])))
summary_lines_example = summary_lines milli-IsPlain loads disk ran

main-IsAtomic_example : IsAtomic (main loads disk)
main-IsAtomic_example = main-IsAtomic loads disk
