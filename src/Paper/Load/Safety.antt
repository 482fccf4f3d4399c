-- ===== src/Paper/Load/Safety.antt =====
-- `load_all_metrics` of project/analysis/plot_paper_figures.py raises nothing, and an entry that
-- it keeps always has a request rate, which the summary printed by the script formats unchecked.
use mathlib.Core.Option.{some-injective}
use laborator_pcd.Base.{
  ℕ, suc, ◌≡◌, refl, sym, ap, ◌∙◌, inl, inr, String, Option, none, some, List, [], ◌∷◌, arith, All₂,
  length, Option-cases,
}
use laborator_pcd.Base.Chars.{Chars, newline, split}
use laborator_pcd.Py.{
  Result, ok, raise, bind-eq-ok, bind-of_ok, ok-injective, Floats, Disk, Decoder, strip, lines_of,
  fold_each, for_each-All₂, IgnoresBlanks, HasJsonBlanks,
}
use laborator_pcd.Numpy.{Numpy}
use laborator_pcd.Policies.{policies, scenarios}
use laborator_pcd.Paper.Extract.{
  Metrics, tally_line, inspect_line, no_tally, summarise, measure, metrics_of, or_none,
  extract_text, extract_k6_metrics,
}
use laborator_pcd.Paper.Rates.{rate, rps_of_text, get_rps_from_k6}
use laborator_pcd.Paper.Agreement.{count_lines-tally}
use laborator_pcd.Paper.Load.{
  Entry, Table, entry_of, load_entry, load_policy, load_all_metrics, k6_path, duration_of,
}

-- Every file of the results directory has JSON's white space only.
abbrev pub AreJsonFiles : Disk → Type 0
AreJsonFiles disk = (path : String) (text : Chars) → disk path ≡ some text → HasJsonBlanks text

-- An entry that is kept has a request rate.
abbrev pub HasRate : {F : Type 0} → Option (Entry F) → Type 0
HasRate none = Unit
HasRate {F} (some e) = (x : F) × (e.rps ≡ some x)

-- The row of a policy: all scenarios, in order, each with its entry.
abbrev pub IsRow : {F : Type 0} → String → String × List (String × Option (Entry F)) → Type 0
IsRow policy row =
    (row.0 ≡ policy) × All₂ (λ scenario cell. (cell.0 ≡ scenario) × HasRate cell.1) scenarios row.1

module _ {F : Type 0} ⦃fl : Floats F⦄ (np : Numpy F) where
  metrics_of-some :
      (fails : F) (xs : List F) {m : Metrics F}
      → metrics_of np fails xs ≡ some m
      → (n : ℕ) × (length xs ≡ suc n) × (m.rps ≡ fl.ratio (suc n) 60)
  metrics_of-some fails [] h = cc
  metrics_of-some fails (x ∷ xs) h =
      (length xs, refl, ap (λ (m : Metrics F). m.rps) (sym (some-injective _ _ h)))

  pub or_none-some :
      (r : Result (Option (Metrics F))) {m : Metrics F} → or_none r ≡ some m → r ≡ ok (some m)
  or_none-some (ok o) h = ap ok h
  or_none-some (raise e) h = cc

  rate-suc :
      (n count duration_s : ℕ)
      → count ≡ suc n
      → rate count duration_s ≡ some (fl.ratio (suc n) duration_s)
  rate-suc n count duration_s e = ground arith

module _ {F : Type 0} ⦃fl : Floats F⦄ (np : Numpy F) (loads : Decoder F)
    (law : IgnoresBlanks loads) where
  -- What holds of one file's text.
  rps_of_text-measure :
      (text : Chars) (duration_s : ℕ) {m : Metrics F}
      → HasJsonBlanks text
      → measure np loads text ≡ ok (some m)
      → (n : ℕ) × (m.rps ≡ fl.ratio (suc n) 60)
        × (rps_of_text loads duration_s (some text) ≡ ok (some (fl.ratio (suc n) duration_s)))
  unfolding measure summarise
  rps_of_text-measure text duration_s blanks h =
      let (_, _, h1) = bind-eq-ok (fold_each (inspect_line loads) tt (lines_of text)) _ h in
      let (s, tallied, h2) =
        bind-eq-ok (fold_each (tally_line loads) no_tally (split newline (strip text))) _ h1 in
      let (n, many, e) = metrics_of-some np s.fail_count s.dur_values (ok-injective h2) in
      (
        n,
        e,
        bind-of_ok _ _ (count_lines-tally loads law text blanks tallied)
            ∙ ap ok (rate-suc np n (length s.dur_values) duration_s many),
      )

module _ {F : Type 0} ⦃fl : Floats F⦄ (np : Numpy F) (loads : Decoder F) (disk : Disk)
    (law : IgnoresBlanks loads) (files : AreJsonFiles disk) where
  pub get_rps-extract :
      (path : String) (duration_s : ℕ) {m : Metrics F}
      → extract_k6_metrics np loads disk path ≡ some m
      → (n : ℕ) × (m.rps ≡ fl.ratio (suc n) 60)
        × (get_rps_from_k6 loads disk path duration_s ≡ ok (some (fl.ratio (suc n) duration_s)))
  unfolding extract_k6_metrics get_rps_from_k6
  get_rps-extract path duration_s {m} h = elim (Option-cases (disk path)) [
    | inl e ↦ absurd (cc (ap (extract_text np loads) (sym e) ∙ h))
    | inr (text, e) ↦
        let measured = or_none-some np _ (ap (extract_text np loads) (sym e) ∙ h) in
        let (n, em, er) =
          rps_of_text-measure np loads law text duration_s (files path text e) measured in
        (n, em, ap (rps_of_text loads duration_s) e ∙ er)
  ]

  entry_of-total :
      (path scenario : String) (o : Option (Metrics F))
      → extract_k6_metrics np loads disk path ≡ o
      → (e : Option (Entry F)) × (entry_of np loads disk path scenario o ≡ ok e) × HasRate e
  entry_of-total path scenario none h = (none, refl, tt)
  entry_of-total path scenario (some m) h =
      let (n, _, e) = get_rps-extract path (duration_of scenario) h in
      (
        some (record {
          p50 = m.p50;
          p95 = m.p95;
          p99 = m.p99;
          rps = some (fl.ratio (suc n) (duration_of scenario));
          err = m.err_rate;
        }),
        bind-of_ok _ _ e,
        (fl.ratio (suc n) (duration_of scenario), refl),
      )

  load_entry-total :
      (policy scenario : String)
      → (cell : String × Option (Entry F)) × (load_entry np loads disk policy scenario ≡ ok cell)
        × ((cell.0 ≡ scenario) × HasRate cell.1)
  unfolding load_entry
  load_entry-total policy scenario =
      let path = k6_path policy scenario in
      let (e, found, rated) =
        entry_of-total path scenario (extract_k6_metrics np loads disk path) refl in
      ((scenario, e), bind-of_ok _ _ found, (refl, rated))

  load_policy-total :
      (policy : String)
      → (row : String × List (String × Option (Entry F))) × (load_policy np loads disk policy
          ≡ ok row)
        × IsRow policy row
  unfolding load_policy
  load_policy-total policy =
      let (cells, e, all) =
        for_each-All₂ _ (load_entry np loads disk policy) (load_entry-total policy) scenarios in
      ((policy, cells), bind-of_ok _ _ e, (refl, all))

  -- load_all_metrics raises nothing. Its table has a row for each policy and in it an entry for
  -- each scenario, in order, and every entry that is not None has a request rate. The decoder
  -- ignores white space around a value, and the files have no other white space than JSON's.
  pub load_all_metrics-total :
      (table : Table F) × (load_all_metrics np loads disk ≡ ok table) × All₂ IsRow policies table
  unfolding load_all_metrics
  load_all_metrics-total =
      for_each-All₂ IsRow (load_policy np loads disk) load_policy-total policies
