-- ===== src/Checks/Metrics.antt =====
-- project/analysis/plot_paper_figures.py and project/analysis/plot_results.py on a results
-- directory with one k6 file.
use mathlib.Core.Path.{subst}
use mathlib.Core.Option.{some-injective}
use laborator_pcd.Base.{
  true, false, ◌≡◌, refl, sym, Bool, pos, ℕ, suc, String, str_eq, if◌then◌else◌, Option, none, some,
  List, [], ◌∷◌, All, All₂,
}
use laborator_pcd.Base.Chars.{Chars, codes, newline, split}
use laborator_pcd.Py.{
  Json, int, float, str, obj, end, field, ok, to_float, is_text, is_space, get, lookup_or,
  fold_each, Decoder, Disk, strip, lines_of, decoded, HasJsonBlanks, IgnoresBlanks, ok-injective,
}
use laborator_pcd.Numpy.{is_number}
use laborator_pcd.Policies.{policies}
use laborator_pcd.Paper.Extract.{
  Metrics, tally_line, no_tally, inspect_line, inspect_value, inspect_rest, measure, summarise,
  extract_k6_metrics,
}
use laborator_pcd.Paper.Rates.{count_line, get_rps_from_k6}
use laborator_pcd.Paper.Agreement.{count_lines-tally}
use laborator_pcd.Paper.Load.{Table, load_all_metrics, k6_path}
use laborator_pcd.Paper.Load.Safety.{AreJsonFiles, IsRow, get_rps-extract, load_all_metrics-total}
use laborator_pcd.Paper.Figures.Complete.{Drawn, load_and_draw}
use laborator_pcd.Results.K6.{K6, load_k6}
use laborator_pcd.Results.K6.Agreement.{HasNumber}
use laborator_pcd.Results.K6.Percentiles.{SamePercentiles, load_k6-extract}
use laborator_pcd.Results.Figures.{prefer, height}
use laborator_pcd.Results.Figures.Fallback.{shown, height-prefer}
use laborator_pcd.Checks.Sample.{
  Milli, milli, knows_squeezed, squeeze, knows_squeezed-IgnoresBlanks, nearest,
  nearest-ConvertsFirst, element,
}

abbrev point : String → Json Milli → Json Milli
point metric value = obj (
    field "type" (str "Point")
      (field "metric" (str metric) (field "data" (obj (field "value" value end)) end)))

abbrev known : List (Chars × Json Milli)
known =
    (codes "A", point "http_req_duration" (float 120_500))
    ∷ (codes "B", point "http_req_failed" (int (pos 1)))
    ∷ []

abbrev loads : Decoder Milli
loads = knows_squeezed known

abbrev text : Chars
text = codes "A\nB\n?\nA\n"

abbrev on_disk : Bool → Option Chars
on_disk b = if b then some text else none

abbrev disk : Disk
disk path = on_disk (str_eq path "k6-rr-steady.json")

law : IgnoresBlanks loads
law = knows_squeezed-IgnoresBlanks known refl

text-HasJsonBlanks : HasJsonBlanks text
unfolding is_space
text-HasJsonBlanks = (
  λ h. cc,
  (λ _. refl, (λ h. cc, (λ _. refl, (λ h. cc, (λ _. refl, (λ h. cc, (λ _. refl, tt))))))),
)

on_disk-HasJsonBlanks : (b : Bool) (t : Chars) → on_disk b ≡ some t → HasJsonBlanks t
on_disk-HasJsonBlanks true t e = subst HasJsonBlanks (some-injective _ _ e) text-HasJsonBlanks
on_disk-HasJsonBlanks false t e = cc

files : AreJsonFiles disk
files path = on_disk-HasJsonBlanks (str_eq path "k6-rr-steady.json")

abbrev metrics : Metrics Milli
metrics = record { p50 = 120_500; p95 = 120_500; p99 = 120_500; rps = 33; err_rate = 50_000 }

tallied :
    fold_each (tally_line loads) no_tally (split newline (strip text))
    ≡ ok (record { dur_values = 120_500 ∷ 120_500 ∷ []; req_count = 0; fail_count = 1000 })
unfolding fold_each tally_line strip squeeze split get lookup_or is_text to_float
tallied = refl

extracted : extract_k6_metrics nearest loads disk (k6_path "rr" "steady") ≡ some metrics
unfolding extract_k6_metrics measure inspect_line inspect_value inspect_rest summarise fold_each
    tally_line lines_of strip squeeze split get lookup_or is_text to_float element k6_path
extracted = refl

count_lines-tally_example : fold_each (count_line loads) 0 (lines_of text) ≡ ok 2
count_lines-tally_example = count_lines-tally loads law text text-HasJsonBlanks tallied

get_rps-extract_example :
    (n : ℕ) × (metrics.rps ≡ milli.ratio (suc n) 60)
    × (get_rps_from_k6 loads disk (k6_path "rr" "steady") 90 ≡ ok (some (milli.ratio (suc n) 90)))
get_rps-extract_example =
    get_rps-extract nearest loads disk law files (k6_path "rr" "steady") 90 extracted

load_all_metrics-total_example :
    (table : Table Milli) × (load_all_metrics nearest loads disk ≡ ok table)
    × All₂ IsRow policies table
load_all_metrics-total_example = load_all_metrics-total nearest loads disk law files

load_and_draw_example :
    (table : Table Milli) × (load_all_metrics nearest loads disk ≡ ok table) × Drawn nearest table
load_and_draw_example = load_and_draw nearest loads disk law files

point-HasNumber :
    (metric : String) (v : Json Milli) → is_number v ≡ true → HasNumber (point metric v)
unfolding get lookup_or
point-HasNumber metric v number d w e f =
    subst (λ w. is_number w ≡ true)
      (ok-injective (subst (λ d. get d "value" (int (pos 0)) ≡ ok w) (sym (ok-injective e)) f))
      number

text-HasNumber : All HasNumber (decoded loads (lines_of text))
unfolding decoded lines_of squeeze
text-HasNumber = (
  point-HasNumber "http_req_duration" _ refl,
  (point-HasNumber "http_req_failed" _ refl, (point-HasNumber "http_req_duration" _ refl, tt)),
)

run-HasNumber :
    (t : Chars) → disk (k6_path "rr" "steady") ≡ some t → All HasNumber (decoded loads (lines_of t))
unfolding k6_path
run-HasNumber t e =
    subst (λ t. All HasNumber (decoded loads (lines_of t))) (some-injective _ _ e) text-HasNumber

load_k6-extract_example :
    (k : K6 Milli) × (load_k6 nearest loads disk "rr" "steady" ≡ ok k) × SamePercentiles k metrics
load_k6-extract_example =
    load_k6-extract nearest loads law nearest-ConvertsFirst disk "rr" "steady" files run-HasNumber
      extracted

-- The text "null" hides what k6 measured.
height-prefer_example :
    height {F = Milli} (prefer (str "null") (some 120_500)) ≡ shown (str "null") (some 120_500)
height-prefer_example = height-prefer (str "null") (some 120_500) refl
