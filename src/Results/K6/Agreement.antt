-- ===== src/Results/K6/Agreement.antt =====
-- The loops of `load_k6` in project/analysis/plot_results.py and of `extract_k6_metrics` in
-- project/analysis/plot_paper_figures.py, which read the same files by different code, keep the
-- same durations.
use mathlib.Core.Path.{subst}
use laborator_pcd.Base.{
  pos, ◌+◌, ◌≡◌, refl, sym, ap, ◌∙◌, inl, inr, Bool, true, false, if◌then◌else◌, Option, none, some,
  List, [], ◌∷◌, ◌++◌, All, All-append, Bool-cases,
}
use laborator_pcd.Base.Chars.{Chars}
use laborator_pcd.Py.{
  Result, ok, ◌>>=◌, bind-eq-ok, bind-of_ok, ok-injective, Json, null, bool, int, float, str, arr,
  obj, end, get, lookup_or, is_text, is_above_nought, Floats, to_float, Decoder, fold_each,
  for_each, decoded, act_on, fold_each-decoded,
}
use laborator_pcd.Numpy.{is_number}
use laborator_pcd.Paper.Extract.{Tally, tally_value, count_point as tally_point}
use laborator_pcd.Paper.Agreement.{is_text-lookup_or}
use laborator_pcd.Results.K6.{
  Counts, count_metric, count_point, count_value, count_decoded, count_line,
}

-- The value of a point is a number, as k6 writes it; a line that has none counts as 0.
abbrev pub HasNumber : {F : Type 0} → Json F → Type 0
HasNumber {F} v =
    (d w : Json F)
    → get v "data" (obj end) ≡ ok d
    → get d "value" (int (pos 0)) ≡ ok w
    → is_number w ≡ true

for_each-snoc {ℓ κ} :
    {A : Type ℓ} {B : Type κ} (f : A → Result B) (xs : List A) {ys : List B} (x : A) {y : B}
    → for_each f xs ≡ ok ys
    → f x ≡ ok y
    → for_each f (xs ++ (x ∷ [])) ≡ ok (ys ++ (y ∷ []))
unfolding for_each
for_each-snoc f [] x e h = rw (h, ← ok-injective e)
for_each-snoc f (a ∷ rest) x e h =
    let (b, first, e') = bind-eq-ok (f a) _ e in
    let (bs, others, e'') = bind-eq-ok (for_each f rest) _ e' in
    rw (first, for_each-snoc f rest x others h, ← ok-injective e'')

module _ {F : Type 0} ⦃fl : Floats F⦄ where
  -- The one loop has kept the numbers whose floats the other has kept.
  pub record Agrees (s : Counts F) (t : Tally F) : Type 0 where
    pub numbers : All (λ v. is_number v ≡ true) s.durations
    pub floats : for_each to_float s.durations ≡ ok t.dur_values

  is_above_nought-number :
      (v : Json F) → is_number v ≡ true → (b : Bool) × (is_above_nought v ≡ ok b)
  unfolding is_above_nought
  is_above_nought-number (int n) h = (_, refl)
  is_above_nought-number (float x) h = (_, refl)
  is_above_nought-number null h = absurd (cc h)
  is_above_nought-number (bool b) h = absurd (cc h)
  is_above_nought-number (str s) h = absurd (cc h)
  is_above_nought-number (arr xs) h = absurd (cc h)
  is_above_nought-number (obj fs) h = absurd (cc h)

  -- A value of no sample changes neither list.
  Agrees-same :
      (s s' : Counts F) (t t' : Tally F)
      → Agrees s t
      → s'.durations ≡ s.durations
      → t'.dur_values ≡ t.dur_values
      → Agrees s' t'
  Agrees-same s s' t t' a e e' = record {
    numbers = subst (All (λ v. is_number v ≡ true)) (sym e) a.numbers;
    floats = ap (for_each to_float) e ∙ a.floats ∙ ap ok (sym e');
  }

  add_sample :
      (s : Counts F) (t : Tally F) (v : Json F) {t' : Tally F}
      → Agrees s t
      → is_number v ≡ true
      → (to_float v >>= λ x. ok (record t { dur_values = t.dur_values ++ (x ∷ []) })) ≡ ok t'
      → Agrees (record s { durations = s.durations ++ (v ∷ []) }) t'
  add_sample s t v a number h =
      let (x, e, e') = bind-eq-ok (to_float v) _ h in
      let same : _ ≡ _ = ap (λ (u : Tally F). u.dur_values) (ok-injective e') in
      record {
        numbers = All-append _ s.durations (v ∷ []) a.numbers (number, tt);
        floats = for_each-snoc to_float s.durations v a.floats e ∙ ap ok same;
      }

  add_failure :
      (s : Counts F) (t : Tally F) (v : Json F) {t' : Tally F}
      → Agrees s t
      → is_number v ≡ true
      → (to_float v >>= λ x. ok (record t { fail_count = fl.add t.fail_count x })) ≡ ok t'
      → (s' : Counts F) × ((is_above_nought v >>= λ failed.
            ok (if failed then record s { errors = s.errors + 1 } else s))
          ≡ ok s')
        × Agrees s' t'
  add_failure s t v a number h =
      let (x, e, e') = bind-eq-ok (to_float v) _ h in
      let (b, above) = is_above_nought-number v number in
      let s' = if b then record s { errors = s.errors + 1 } else s in
      (
        s',
        bind-of_ok _ _ above,
        Agrees-same s s' t _ a (kept b)
            (sym (ap (λ (u : Tally F). u.dur_values) (ok-injective e'))),
      )
    where
      kept :
          (b : Bool) → (if b then record s { errors = s.errors + 1 } else s).durations ≡ s.durations
      kept true = refl
      kept false = refl

  -- A point is dealt with alike.
  count_metric-tally_point :
      (s : Counts F) (t : Tally F) (ty metric val : Json F) {t' : Tally F}
      → Agrees s t
      → is_number val ≡ true
      → is_text ty "Point" ≡ true
      → tally_point t ty metric val ≡ ok t'
      → (s' : Counts F) × (count_metric s metric val ≡ ok s') × Agrees s' t'
  unfolding tally_point count_metric
  count_metric-tally_point s t ty metric val {t'} a number p h =
      elim (Bool-cases (is_text metric "http_req_duration")) [
        | inl d ↦ rw d (_, refl, add_sample s t val a number (rw (p, d) at h))
        | inr d ↦ rw d (elim (Bool-cases (is_text metric "http_reqs")) [
          | inl r ↦ rw r (
            _,
            refl,
            Agrees-same s _ t t' a refl
                (sym (ap (λ (u : Tally F). u.dur_values) (ok-injective (rw (p, d, r) at h)))),
          )
          | inr r ↦ rw r (elim (Bool-cases (is_text metric "http_req_failed")) [
            | inl f ↦ rw f (add_failure s t val a number (rw (p, d, r, f) at h))
            | inr f ↦ rw f (
              s,
              refl,
              Agrees-same s s t t' a refl
                  (sym (ap (λ (u : Tally F). u.dur_values) (ok-injective (rw (p, d, r, f) at h)))),
            )
          ])
        ])
      ]

  count_value-tally_value :
      (s : Counts F) (t : Tally F) (v : Json F) {t' : Tally F}
      → Agrees s t
      → HasNumber v
      → tally_value t v ≡ ok t'
      → (s' : Counts F) × (count_value s v ≡ ok s') × Agrees s' t'
  unfolding tally_value count_value count_point get
  count_value-tally_value s t (obj fs) {t'} a number h =
      let ty = lookup_or fs "type" (str "") in
      let d = lookup_or fs "data" (obj end) in
      let (val, got, counted) = bind-eq-ok (get d "value" (int (pos 0))) _ h in
      let et = is_text-lookup_or fs "type" "Point" null (str "") (unfold is_text in refl) in
      elim (Bool-cases (is_text ty "Point")) [
        | inl p ↦
            let (s', e, a') =
              count_metric-tally_point s t ty _ val a (number d val refl got) p counted in
            (s', rw (et, p, got) e, a')
        | inr p ↦ (
          s,
          rw (et, p) refl,
          Agrees-same s s t t' a refl
              (sym (ap (λ (u : Tally F). u.dur_values) (no_point _ val p counted))),
        )
      ]
    where
      no_point :
          (metric val : Json F)
          → is_text (lookup_or fs "type" (str "")) "Point" ≡ false
          → tally_point t (lookup_or fs "type" (str "")) metric val ≡ ok t'
          → t ≡ t'
      no_point metric val p h = ok-injective (unfold tally_point in rw p at h)
  count_value-tally_value s t v a number h = cc

  pub count_values-tally_values :
      (s : Counts F) (t : Tally F) (vs : List (Json F)) {t' : Tally F}
      → Agrees s t
      → All HasNumber vs
      → fold_each tally_value t vs ≡ ok t'
      → (s' : Counts F) × (fold_each count_value s vs ≡ ok s') × Agrees s' t'
  unfolding fold_each
  count_values-tally_values s t [] a n h = (
    s,
    refl,
    Agrees-same s s t _ a refl (sym (ap (λ (u : Tally F). u.dur_values) (ok-injective h))),
  )
  count_values-tally_values s t (v ∷ vs) a n h =
      let (t1, first, others) = bind-eq-ok (tally_value t v) _ h in
      let (s1, e, a1) = count_value-tally_value s t v a n.0 first in
      let (s2, e', a2) = count_values-tally_values s1 t1 vs a1 n.1 others in
      (s2, bind-of_ok _ _ e ∙ e', a2)

  pub count_lines-decoded :
      (loads : Decoder F) (ls : List Chars) (s : Counts F)
      → fold_each (count_line loads) s ls ≡ fold_each count_value s (decoded loads ls)
  unfolding count_line
  count_lines-decoded loads ls s =
      fold_each-decoded loads count_value (count_line loads) ls (each ls) s
    where
      step : (s : Counts F) (o : Option (Json F)) → count_decoded s o ≡ act_on loads count_value s o
      step s none = refl
      step s (some v) = refl

      each :
          (ls : List Chars)
          → All
              (λ l. (s : Counts F) → count_line loads s l ≡ act_on loads count_value s (loads l))
              ls
      each [] = tt
      each (l ∷ ls) = (λ s. step s (loads l), each ls)
