-- ===== src/Summary/Tables.antt =====
-- The lines of the two tables of project/analysis/summary_table.py, read back: which columns a
-- line has, and which lines a file has.
use mathlib.Core.List.{append_assoc}
use laborator_pcd.Base.{
  ℕ, ◌≡◌, ◌≢◌, refl, sym, ap, ◌∙◌, inl, inr, false, List, [], ◌∷◌, ◌++◌, arith, All, All-weaken,
  All-append, String,
}
use laborator_pcd.Base.Chars.{Chars, codes, newline, Lacks, join, split, split-join, join-Lacks}
use laborator_pcd.Py.{ok, bind-eq-ok, ok-injective, Json, Floats}
use laborator_pcd.Summary.{Row, fmt, fill, markdown_line, latex_line}
use laborator_pcd.Summary.Format.{is_fixed_char, FixedIsPlain, fmt_cases}

-- A cell between the separators of a row.
abbrev pub pad : Chars → Chars
pad t = codes " " ++ t ++ codes " "

module _ (policy scenario a b c d e : Chars) where
  abbrev pub markdown_fields : List Chars
  markdown_fields = [] ∷ pad policy ∷ pad scenario ∷ pad a ∷ pad b ∷ pad c ∷ pad d ∷ pad e ∷ [] ∷ []

  abbrev pub latex_fields : List Chars
  latex_fields =
      (policy ++ codes " ")
      ∷ pad scenario
      ∷ pad a
      ∷ pad b
      ∷ pad c
      ∷ pad d
      ∷ (codes " " ++ e ++ codes " \\\\")
      ∷ []

markdown_line-join :
    (policy scenario : String) (a b c d e : Chars)
    → markdown_line policy scenario a b c d e
      ≡ join b'|' (markdown_fields (codes policy) (codes scenario) a b c d e)
unfolding join
markdown_line-join policy scenario a b c d e = simp append_assoc

latex_line-join :
    (policy scenario : String) (a b c d e : Chars)
    → latex_line policy scenario a b c d e
      ≡ join b'&' (latex_fields (codes policy) (codes scenario) a b c d e)
unfolding join
latex_line-join policy scenario a b c d e = simp append_assoc

Lacks-pad : (c : ℕ) (t : Chars) → c ≢ 32 → Lacks c t → Lacks c (pad t)
Lacks-pad c t blank h = (λ e. blank (sym e), All-append _ t _ h ((λ e. blank (sym e)), tt))

module _ {F : Type 0} ⦃fl : Floats F⦄ where
  -- The formatted numbers of a row.
  abbrev pub Cells : Row F → (a b c d e : Chars) → Type 0
  Cells r a b c d e =
      (fmt r.p50 1 ≡ ok a)
      × (fmt r.p95 1 ≡ ok b)
      × (fmt r.p99 1 ≡ ok c)
      × (fmt r.rps 1 ≡ ok d)
      × (fmt r.err5xx 3 ≡ ok e)

  -- The cells of a line that was filled.
  pub fill-ok :
      (line : String → String → (a b c d e : Chars) → Chars) (r : Row F) {l : Chars}
      → fill line r ≡ ok l
      → (a b c d e : Chars) × Cells r a b c d e × (l ≡ line r.policy r.scenario a b c d e)
  unfolding fill
  fill-ok line r h =
      let (a, ha, h1) = bind-eq-ok (fmt r.p50 1) _ h in
      let (b, hb, h2) = bind-eq-ok (fmt r.p95 1) _ h1 in
      let (c, hc, h3) = bind-eq-ok (fmt r.p99 1) _ h2 in
      let (d, hd, h4) = bind-eq-ok (fmt r.rps 1) _ h3 in
      let (e, he, h5) = bind-eq-ok (fmt r.err5xx 3) _ h4 in
      (a, b, c, d, e, (ha, hb, hc, hd, he), sym (ok-injective h5))

  pub fill_of_Cells :
      (line : String → String → (a b c d e : Chars) → Chars) (r : Row F) (a b c d e : Chars)
      → Cells r a b c d e
      → fill line r ≡ ok (line r.policy r.scenario a b c d e)
  unfolding fill
  fill_of_Cells line r a b c d e (ha, hb, hc, hd, he) = rw (ha, hb, hc, hd, he)

  module _ (plain : FixedIsPlain fl) (sep : ℕ) (free : is_fixed_char sep ≡ false)
      (ne : sep ≢ 8212) where
    fmt-Lacks : (v : Json F) (decimals : ℕ) {t : Chars} → fmt v decimals ≡ ok t → Lacks sep t
    fmt-Lacks v decimals h = elim (fmt_cases v decimals h) [
      | inl e ↦ rw e ((λ s. ne (sym s)), tt)
      | inr (x, e) ↦ rw e (All-weaken _ _ _ (λ c p s. cc) (plain decimals x))
    ]

    Cells-Lacks :
        (r : Row F) (a b c d e : Chars)
        → Cells r a b c d e
        → All (Lacks sep) (a ∷ b ∷ c ∷ d ∷ e ∷ [])
    Cells-Lacks r a b c d e (ha, hb, hc, hd, he) = (
      fmt-Lacks r.p50 1 ha,
      (
        fmt-Lacks r.p95 1 hb,
        (fmt-Lacks r.p99 1 hc, (fmt-Lacks r.rps 1 hd, (fmt-Lacks r.err5xx 3 he, tt))),
      ),
    )

module _ {F : Type 0} ⦃fl : Floats F⦄ (plain : FixedIsPlain fl) (r : Row F) where
  markdown_fields-Lacks :
      (a b c d e : Chars)
      → Lacks b'|' (codes r.policy)
      → Lacks b'|' (codes r.scenario)
      → Cells r a b c d e
      → All (Lacks b'|') (markdown_fields (codes r.policy) (codes r.scenario) a b c d e)
  markdown_fields-Lacks a b c d e hp hs cells =
      let (ha, (hb, (hc, (hd, (he, _))))) =
        Cells-Lacks plain b'|' refl (omega arith) r a b c d e cells in
      let padded = Lacks-pad b'|' in
      let blank : ◌≢◌ {A = ℕ} b'|' 32 = omega arith in
      (
        tt,
        (
          padded _ blank hp,
          (
            padded _ blank hs,
            (
              padded a blank ha,
              (
                padded b blank hb,
                (padded c blank hc, (padded d blank hd, (padded e blank he, (tt, tt)))),
              ),
            ),
          ),
        ),
      )

  latex_fields-Lacks :
      (a b c d e : Chars)
      → Lacks b'&' (codes r.policy)
      → Lacks b'&' (codes r.scenario)
      → Cells r a b c d e
      → All (Lacks b'&') (latex_fields (codes r.policy) (codes r.scenario) a b c d e)
  latex_fields-Lacks a b c d e hp hs cells =
      let (ha, (hb, (hc, (hd, (he, _))))) =
        Cells-Lacks plain b'&' refl (omega arith) r a b c d e cells in
      let padded = Lacks-pad b'&' in
      let blank : ◌≢◌ {A = ℕ} b'&' 32 = omega arith in
      (
        All-append _ (codes r.policy) _ hp (omega arith),
        (
          padded _ blank hs,
          (
            padded a blank ha,
            (
              padded b blank hb,
              (
                padded c blank hc,
                (
                  padded d blank hd,
                  (
                    All-append _ (codes " ") _ (omega arith) (All-append _ e _ he (omega arith)),
                    tt,
                  ),
                ),
              ),
            ),
          ),
        ),
      )

  -- The Markdown line and the LaTeX line of a row, split at their separators, show the same seven
  -- columns.
  pub columns_agree :
      {md tex : Chars}
      → Lacks b'|' (codes r.policy)
      → Lacks b'|' (codes r.scenario)
      → Lacks b'&' (codes r.policy)
      → Lacks b'&' (codes r.scenario)
      → fill markdown_line r ≡ ok md
      → fill latex_line r ≡ ok tex
      → (a b c d e : Chars) × Cells r a b c d e
        × (split b'|' md ≡ markdown_fields (codes r.policy) (codes r.scenario) a b c d e)
        × (split b'&' tex ≡ latex_fields (codes r.policy) (codes r.scenario) a b c d e)
  columns_agree p s p' s' hm ht =
      let (a, b, c, d, e, cells, em) = fill-ok markdown_line r hm in
      let et = ok-injective (sym ht ∙ fill_of_Cells latex_line r a b c d e cells) in
      (
        a,
        b,
        c,
        d,
        e,
        cells,
        ap (split b'|') (em ∙ markdown_line-join r.policy r.scenario a b c d e)
            ∙ split-join b'|' _ _ (markdown_fields-Lacks a b c d e p s cells),
        ap (split b'&') (et ∙ latex_line-join r.policy r.scenario a b c d e)
            ∙ split-join b'&' _ _ (latex_fields-Lacks a b c d e p' s' cells),
      )

-- A filled line stands on one line.
pub line-Lacks :
    {F : Type 0} ⦃fl : Floats F⦄
    → FixedIsPlain fl
    → (r : Row F) {l : Chars} → Lacks newline (codes r.policy) × Lacks newline (codes r.scenario)
    → fill markdown_line r ≡ ok l
    → Lacks newline l
line-Lacks plain r (hp, hs) h =
    let (a, b, c, d, e, cells, el) = fill-ok markdown_line r h in
    let (ha, (hb, (hc, (hd, (he, _))))) =
      Cells-Lacks plain newline refl (omega arith) r a b c d e cells in
    let padded = Lacks-pad newline in
    let blank : ◌≢◌ {A = ℕ} newline 32 = omega arith in
    rw (el ∙ markdown_line-join r.policy r.scenario a b c d e) (
      join-Lacks newline b'|' _ (omega arith) (
        tt,
        (
          padded _ blank hp,
          (
            padded _ blank hs,
            (
              padded a blank ha,
              (
                padded b blank hb,
                (padded c blank hc, (padded d blank hd, (padded e blank he, (tt, tt)))),
              ),
            ),
          ),
        ),
      ))
