-- ===== src/Paper/Agreement.antt =====
-- The two routines of project/analysis/plot_paper_figures.py that read a k6 results file, one by
-- splitting its stripped text and the other line by line, count the same latency samples.
use laborator_pcd.Base.{
  ℕ, pos, ◌+◌, ◌≡◌, refl, sym, ap, ◌∙◌, inl, inr, String, str_eq, Bool, true, false, if◌then◌else◌,
  Option, none, some, List, [], ◌∷◌, ◌++◌, arith, All, Bool-cases, length, length-append,
}
use laborator_pcd.Base.Chars.{Chars, newline, split}
use laborator_pcd.Py.{
  Result, ok, raise, ◌>>=◌, bind-eq-ok, ok-injective, Json, null, int, str, obj, Fields, end, field,
  get, lookup_or, is_text, Floats, to_float, strip, is_empty, Decoder, lines_of, fold_each, decoded,
  IgnoresBlanks, HasJsonBlanks, act_on, fold_each-decoded, fold_each-decoded-strip,
}
use laborator_pcd.Paper.Extract.{
  Tally, tally_value, tally_line, tally_decoded, count_point, no_tally,
}
use laborator_pcd.Paper.Rates.{count_value, count_line, count_decoded}

-- Whether a looked-up value is a given text does not turn on a default that is not that text.
pub is_text-lookup_or :
    {F : Type 0} (fs : Fields F) (key t : String) (d d' : Json F)
    → is_text d t ≡ is_text d' t
    → is_text (lookup_or fs key d) t ≡ is_text (lookup_or fs key d') t
unfolding lookup_or
is_text-lookup_or end key t d d' h = h
is_text-lookup_or (field k v fs) key t d d' h = elim (Bool-cases (str_eq k key)) [
  | inl e ↦ rw e
  | inr e ↦ rw e (is_text-lookup_or fs key t d d' h)
]

-- 1 for a latency sample, and 0 for any other line.
abbrev sample : {F : Type 0} → Json F → Json F → ℕ
sample t metric =
    if is_text t "Point" then (if is_text metric "http_req_duration" then 1 else 0) else 0

count-sample :
    (n : ℕ) (point duration : Bool)
    → ◌≡◌ {A = Result ℕ}
        (if point then ok (if duration then n + 1 else n) else ok n)
        (ok (n + (if point then (if duration then 1 else 0) else 0)))
count-sample n true true = refl
count-sample n true false = ap ok (omega arith)
count-sample n false duration = ap ok (omega arith)

module _ {F : Type 0} ⦃fl : Floats F⦄ where
  dur_values-append :
      (s : Tally F) (r : Result F) {s' : Tally F}
      → (r >>= λ x. ok (record s { dur_values = s.dur_values ++ (x ∷ []) })) ≡ ok s'
      → length s'.dur_values ≡ length s.dur_values + 1
  dur_values-append s (raise e) h = cc
  dur_values-append s (ok x) h =
      ap (λ (u : Tally F). length u.dur_values) (sym (ok-injective h))
      ∙ length-append s.dur_values (x ∷ [])

  fail_count-only :
      (s : Tally F) (r : Result F) {s' : Tally F}
      → (r >>= λ x. ok (record s { fail_count = fl.add s.fail_count x })) ≡ ok s'
      → length s'.dur_values ≡ length s.dur_values + 0
  fail_count-only s (raise e) h = cc
  fail_count-only s (ok x) h =
      ap (λ (u : Tally F). length u.dur_values) (sym (ok-injective h)) ∙ omega arith

  unchanged :
      (s u : Tally F) {s' : Tally F}
      → u.dur_values ≡ s.dur_values
      → ok u ≡ ok s'
      → length s'.dur_values ≡ length s.dur_values + 0
  unchanged s u same h =
      ap (λ (u : Tally F). length u.dur_values) (sym (ok-injective h))
      ∙ ap length same
      ∙ omega arith

  count_point-length :
      (s : Tally F) (t metric val : Json F) {s' : Tally F}
      → count_point s t metric val ≡ ok s'
      → length s'.dur_values ≡ length s.dur_values + sample t metric
  unfolding count_point
  count_point-length s t metric val {s'} h = elim (Bool-cases (is_text t "Point")) [
    | inr p ↦ rw p (unchanged s s refl (rw p at h))
    | inl p ↦ elim (Bool-cases (is_text metric "http_req_duration")) [
      | inl m ↦ rw (p, m) (dur_values-append s (to_float val) (rw (p, m) at h))
      | inr m ↦ rw (p, m) (other (rw (p, m) at h))
    ]
  ]
    where
      other :
          (if is_text metric "http_reqs"
              then ok (record s { req_count = s.req_count + 1 })
              else if is_text metric "http_req_failed"
              then (to_float val >>= λ x. ok (record s { fail_count = fl.add s.fail_count x }))
              else ok s)
            ≡ ok s'
          → length s'.dur_values ≡ length s.dur_values + 0
      other h = elim (Bool-cases (is_text metric "http_reqs")) [
        | inl r ↦ unchanged s (record s { req_count = s.req_count + 1 }) refl (rw r at h)
        | inr r ↦ elim (Bool-cases (is_text metric "http_req_failed")) [
          | inl f ↦ fail_count-only s (to_float val) (rw (r, f) at h)
          | inr f ↦ unchanged s s refl (rw (r, f) at h)
        ]
      ]

  -- One value counts as many samples in the one loop as it adds durations in the other.
  count_value-tally_value :
      (s : Tally F) (v : Json F) {s' : Tally F} (n : ℕ)
      → tally_value s v ≡ ok s'
      → (k : ℕ) × (length s'.dur_values ≡ length s.dur_values + k) × (count_value n v ≡ ok (n + k))
  unfolding tally_value count_value get
  count_value-tally_value s (obj fs) n h =
      let t = lookup_or fs "type" (str "") in
      let metric = lookup_or fs "metric" (str "") in
      let (val, _, counted) =
        bind-eq-ok (get (lookup_or fs "data" (obj end)) "value" (int (pos 0))) _ h in
      let et = is_text-lookup_or fs "type" "Point" null (str "") (unfold is_text in refl) in
      let em =
        is_text-lookup_or fs "metric" "http_req_duration" null (str "") (unfold is_text in refl) in
      (sample t metric, count_point-length s t metric val counted, rw (et, em) (count-sample n _ _))
  count_value-tally_value s v n h = cc

  -- So it is with all values that are decoded.
  count-tally :
      (s : Tally F) (vs : List (Json F)) {s' : Tally F} (n : ℕ)
      → fold_each tally_value s vs ≡ ok s'
      → (k : ℕ) × (length s'.dur_values ≡ length s.dur_values + k)
        × (fold_each count_value n vs ≡ ok (n + k))
  unfolding fold_each
  count-tally s [] {s'} n h = (
    0,
    ap (λ (u : Tally F). length u.dur_values) (sym (ok-injective h)) ∙ omega arith,
    ap ok (omega arith),
  )
  count-tally s (v ∷ vs) n h =
      let (s1, first, rest) = bind-eq-ok (tally_value s v) _ h in
      let (k, e, c) = count_value-tally_value s v n first in
      let (j, e', c') = count-tally s1 vs (n + k) rest in
      (k + j, omega arith, rw (c, c') (ap ok (omega arith)))

module _ {F : Type 0} ⦃fl : Floats F⦄ (loads : Decoder F) (law : IgnoresBlanks loads) where
  pub tally_lines-decoded :
      (text : Chars)
      → HasJsonBlanks text
      → (s : Tally F)
      → fold_each (tally_line loads) s (split newline (strip text))
        ≡ fold_each tally_value s (decoded loads (lines_of text))
  unfolding tally_line
  tally_lines-decoded text h s =
      fold_each-decoded-strip loads tally_value (tally_line loads) law skips text h s
    where
      step : (s : Tally F) (o : Option (Json F)) → tally_decoded s o ≡ act_on loads tally_value s o
      step s none = refl
      step s (some v) = refl

      skips :
          (s : Tally F) (l : Chars)
          → tally_line loads s l
            ≡ (if is_empty (strip l) then ok s else act_on loads tally_value s (loads l))
      skips s l = ap (λ r. if is_empty (strip l) then ok s else r) (step s (loads l))

  count_lines-decoded :
      (ls : List Chars) (n : ℕ)
      → fold_each (count_line loads) n ls ≡ fold_each count_value n (decoded loads ls)
  unfolding count_line
  count_lines-decoded ls n = fold_each-decoded loads count_value (count_line loads) ls (each ls) n
    where
      step : (n : ℕ) (o : Option (Json F)) → count_decoded n o ≡ act_on loads count_value n o
      step n none = refl
      step n (some v) = refl

      each :
          (ls : List Chars)
          → All (λ l. (n : ℕ) → count_line loads n l ≡ act_on loads count_value n (loads l)) ls
      each [] = tt
      each (l ∷ ls) = (λ n. step n (loads l), each ls)

  -- Where the loop of extract_k6_metrics ends on a text whose white space is JSON's, so does that
  -- of get_rps_from_k6, and it has counted as many samples as the other has collected. The decoder
  -- ignores white space around a value.
  pub count_lines-tally :
      (text : Chars)
      → HasJsonBlanks text
      → {s : Tally F} → fold_each (tally_line loads) no_tally (split newline (strip text)) ≡ ok s
      → fold_each (count_line loads) 0 (lines_of text) ≡ ok (length s.dur_values)
  count_lines-tally text h {s} done =
      let (k, e, counted) =
        count-tally no_tally (decoded loads (lines_of text)) 0
          (sym (tally_lines-decoded text h no_tally) ∙ done) in
      count_lines-decoded (lines_of text) 0 ∙ counted ∙ ap ok (sym e)
