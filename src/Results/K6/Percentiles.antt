-- ===== src/Results/K6/Percentiles.antt =====
-- The percentiles of `load_k6` in project/analysis/plot_results.py and those of
-- `extract_k6_metrics` in project/analysis/plot_paper_figures.py.
use mathlib.Core.Option.{some-injective}
use laborator_pcd.Base.{
  ℕ, ◌≡◌, refl, sym, ap, ◌∙◌, inl, inr, String, true, Option, some, List, [], ◌∷◌, All,
  Option-cases,
}
use laborator_pcd.Base.Chars.{Chars, newline, split}
use laborator_pcd.Py.{
  ok, bind-eq-ok, bind-of_ok, ok-injective, Json, Floats, to_float, strip, Disk, Decoder, lines_of,
  fold_each, for_each, decoded, IgnoresBlanks, HasJsonBlanks,
}
use laborator_pcd.Numpy.{Numpy, is_number, ConvertsFirst}
use laborator_pcd.Paper.Extract.{
  Metrics, tally_line, no_tally, inspect_line, summarise, measure, metrics_of, extract_text,
  extract_k6_metrics,
}
use laborator_pcd.Paper.Load.{k6_path}
use laborator_pcd.Paper.Load.Safety.{AreJsonFiles, or_none-some}
use laborator_pcd.Paper.Agreement.{tally_lines-decoded}
use laborator_pcd.Results.K6.{K6, no_counts, rate_of, k6_of, k6_of_text, load_k6}
use laborator_pcd.Results.K6.Agreement.{HasNumber, count_values-tally_values, count_lines-decoded}

module _ {F : Type 0} ⦃fl : Floats F⦄ where
  -- The same percentiles.
  abbrev pub SamePercentiles : K6 F → Metrics F → Type 0
  SamePercentiles k m = (k.p50_ms ≡ some m.p50) × (k.p95_ms ≡ some m.p95) × (k.p99_ms ≡ some m.p99)

  k6_of-metrics_of :
      (np : Numpy F) (vs : List (Json F)) (xs : List F) (fails : F) (r : Option F) {m : Metrics F}
      → ConvertsFirst np
      → All (λ v. is_number v ≡ true) vs
      → for_each to_float vs ≡ ok xs
      → metrics_of np fails xs ≡ some m
      → (k : K6 F) × (k6_of np vs r ≡ ok k) × SamePercentiles k m
  unfolding for_each
  k6_of-metrics_of np [] [] fails r conv n e h = cc
  k6_of-metrics_of np [] (x ∷ xs) fails r conv n e h = cc
  k6_of-metrics_of np (v ∷ vs) [] fails r conv n e h = cc
  k6_of-metrics_of np (v ∷ vs) (x ∷ xs) fails r conv n e h =
      let at = λ (q : ℕ). conv (v ∷ vs) (x ∷ xs) q n e in
      let same = some-injective _ _ h in
      (
        record {
          p50_ms = some (np.percentile (x ∷ xs) 50);
          p95_ms = some (np.percentile (x ∷ xs) 95);
          p99_ms = some (np.percentile (x ∷ xs) 99);
          error_rate = r;
        },
        rw (at 95, at 50, at 99) refl,
        (
          ap some (ap (λ (m : Metrics F). m.p50) same),
          ap some (ap (λ (m : Metrics F). m.p95) same),
          ap some (ap (λ (m : Metrics F). m.p99) same),
        ),
      )

module _ {F : Type 0} ⦃fl : Floats F⦄ (np : Numpy F) (loads : Decoder F) (law : IgnoresBlanks loads)
    (conv : ConvertsFirst np) where
  k6_of_text-measure :
      (text : Chars) {m : Metrics F}
      → HasJsonBlanks text
      → All HasNumber (decoded loads (lines_of text))
      → measure np loads text ≡ ok (some m)
      → (k : K6 F) × (k6_of_text np loads (some text) ≡ ok k) × SamePercentiles k m
  unfolding measure summarise for_each
  k6_of_text-measure text blanks numbers h =
      let (_, _, h1) = bind-eq-ok (fold_each (inspect_line loads) tt (lines_of text)) _ h in
      let (t, tallied, h2) =
        bind-eq-ok (fold_each (tally_line loads) no_tally (split newline (strip text))) _ h1 in
      let (s, counted, agrees) =
        count_values-tally_values no_counts no_tally (decoded loads (lines_of text))
          (record { numbers = tt; floats = refl }) numbers
          (sym (tally_lines-decoded loads law text blanks no_tally) ∙ tallied) in
      let (k, e, same) =
        k6_of-metrics_of np s.durations t.dur_values t.fail_count (rate_of s.errors s.totals) conv
          agrees.numbers agrees.floats (ok-injective h2) in
      (k, bind-of_ok _ _ (count_lines-decoded loads (lines_of text) no_counts ∙ counted) ∙ e, same)

  -- Where extract_k6_metrics has metrics of a run, load_k6 raises nothing on the same file, and its
  -- percentiles are the same. The values that the file's lines decode to hold numbers only, the
  -- decoder ignores white space around a value, the files have no other white space than JSON's,
  -- and numpy takes the percentile of integers and floats to be that of the floats.
  pub load_k6-extract :
      (disk : Disk) (policy scenario : String) {m : Metrics F}
      → AreJsonFiles disk
      → ((text : Chars)
          → disk (k6_path policy scenario) ≡ some text
          → All HasNumber (decoded loads (lines_of text)))
      → extract_k6_metrics np loads disk (k6_path policy scenario) ≡ some m
      → (k : K6 F) × (load_k6 np loads disk policy scenario ≡ ok k) × SamePercentiles k m
  unfolding extract_k6_metrics load_k6
  load_k6-extract disk policy scenario files numbers h =
      elim (Option-cases (disk (k6_path policy scenario))) [
        | inl e ↦ absurd (cc (ap (extract_text np loads) (sym e) ∙ h))
        | inr (text, e) ↦
            let measured = or_none-some np _ (ap (extract_text np loads) (sym e) ∙ h) in
            let (k, found, same) =
              k6_of_text-measure text (files (k6_path policy scenario) text e) (numbers text e)
                measured in
            (k, ap (k6_of_text np loads) e ∙ found, same)
      ]
