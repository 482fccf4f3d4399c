-- ===== src/Results/Figures/Fallback.antt =====
-- Which measurement a latency bar of project/analysis/plot_results.py shows.
use laborator_pcd.Base.{
  ◌≡◌, ap, inl, inr, pos, str_eq, eq_iff, not, true, Bool-cases, if◌then◌else◌, Option, none, some,
}
use laborator_pcd.Py.{
  Result, ok, Json, null, bool, int, float, str, arr, obj, is_text, is_truthy, or_else, Floats,
  to_float,
}
use laborator_pcd.Results.Figures.{prefer, height, value_or_none}

module _ {F : Type 0} ⦃fl : Floats F⦄ where
  -- The percentile that k6 measured, 0 if there is none.
  abbrev pub measured : Option F → F
  measured none = fl.nought
  measured (some x) = if fl.is_zero x then fl.nought else x

  -- The Prometheus value where there is one, and what k6 measured where there is none.
  abbrev pub shown : Json F → Option F → Result F
  shown prom k6 =
      if is_text prom "null"
      then ok fl.nought
      else if is_truthy prom
      then to_float prom
      else ok (measured k6)

  null-truthy : (prom : Json F) → is_text prom "null" ≡ true → is_truthy prom ≡ true
  unfolding is_text is_truthy
  null-truthy (str s) h = ap not (ap (λ t. str_eq t "") ((eq_iff s "null").0 h))
  null-truthy null h = cc
  null-truthy (bool b) h = cc
  null-truthy (int n) h = cc
  null-truthy (float x) h = cc
  null-truthy (arr xs) h = cc
  null-truthy (obj fs) h = cc

  -- `k6.get(key) or 0`, drawn.
  height-k6 :
      (k6 : Option F)
      → fl.of_int (pos 0) ≡ some fl.nought
      → height (or_else (value_or_none k6) (int (pos 0))) ≡ ok (measured k6)
  unfolding height is_truthy is_text to_float
  height-k6 none zero = rw zero
  height-k6 (some x) zero = elim (Bool-cases (fl.is_zero x)) [ inl e ↦ rw (e, zero) | inr e ↦ rw e ]

  -- A latency bar is as high as the Prometheus value, if that is truthy, and else as k6's
  -- percentile, or 0 if that is missing too; a Prometheus value that is the text "null" gives a bar
  -- of height 0 whatever k6 measured. A float made of the integer 0 is 0.0.
  pub height-prefer :
      (prom : Json F) (k6 : Option F)
      → fl.of_int (pos 0) ≡ some fl.nought
      → height (prefer prom k6) ≡ shown prom k6
  unfolding height prefer
  height-prefer prom k6 zero = elim (Bool-cases (is_truthy prom)) [
    | inl e ↦ rw (e, e)
    | inr e ↦ elim (Bool-cases (is_text prom "null")) [
      | inl n ↦ absurd (cc (null-truthy prom n))
      | inr n ↦ rw (e, n) (height-k6 k6 zero)
    ]
  ]
