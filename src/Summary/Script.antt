-- ===== src/Summary/Script.antt =====
-- The whole script project/analysis/summary_table.py: the lines of the files that it writes, and
-- what it leaves behind when it is stopped by an exception.
use mathlib.Core.List.{flatten}
use laborator_pcd.Base.{
  ℕ, ◌≡◌, refl, sym, ap, ◌∙◌, ◌⊎◌, inl, inr, String, none, some, List, [], ◌∷◌, ◌++◌, map, arith,
  All, length, All-append, All-of_map, length-map,
}
use laborator_pcd.Base.Chars.{
  Chars, codes, newline, Lacks, join, split, split-join, join-append_sep,
}
use laborator_pcd.Py.{
  Error, ok, bind-eq-ok, bind-of_ok, Result-cases, ok-injective, Floats, Decoder, Disk, for_each,
  for_each-All, for_each-transfer, length-for_each,
}
use laborator_pcd.Summary.{
  Row, fill, markdown_line, latex_line, markdown_header, markdown_sep, write_markdown, write_latex,
  latex_head, latex_foot, Outcome, write_tables, main, build_rows,
}
use laborator_pcd.Summary.Format.{FixedIsPlain}
use laborator_pcd.Summary.Rows.{heading, headings, build_rows-headings}
use laborator_pcd.Summary.Tables.{fill-ok, fill_of_Cells, line-Lacks}

-- A row whose policy and scenario do not hold the character.
abbrev pub NamesLack : ℕ → String × String → Type 0
NamesLack c h = Lacks c (codes h.0) × Lacks c (codes h.1)

-- A run that raised nothing and wrote these two texts.
abbrev pub both : Chars → Chars → Outcome
both md tex = record { written = ("summary.md", md) ∷ ("summary_tex.tex", tex) ∷ []; raised = none }

-- Nothing was written and an exception ended the run, or both files were.
abbrev pub IsAtomic : Outcome → Type 0
IsAtomic o =
    ((e : Error) × (o ≡ record { written = []; raised = some e }))
    ⊎ ((md tex : Chars) × (o ≡ both md tex))

module _ {F : Type 0} ⦃fl : Floats F⦄ where
  module _ (plain : FixedIsPlain fl) where
    -- The Markdown file, split at its newlines: the header, the rule, the filled line of each row,
    -- in order, and nothing after the last newline.
    pub write_markdown-lines :
        (rows : List (Row F)) {text : Chars}
        → All (λ r. NamesLack newline (heading r)) rows
        → write_markdown rows ≡ ok text
        → (lines : List Chars) × (for_each (fill markdown_line) rows ≡ ok lines)
          × (length lines ≡ length rows)
          × (split newline text ≡ markdown_header ∷ markdown_sep ∷ (lines ++ ([] ∷ [])))
    unfolding write_markdown
    write_markdown-lines rows names h =
        let (ls, filled, e) = bind-eq-ok (for_each (fill markdown_line) rows) _ h in
        let free : All (Lacks newline) (ls ++ ([] ∷ [])) =
          All-append _ ls ([] ∷ [])
            (for_each-All (λ r. NamesLack newline (heading r)) (Lacks newline) (fill markdown_line)
              rows (λ r l n f. line-Lacks plain r n f) names filled)
            (tt, tt) in
        (
          ls,
          filled,
          length-for_each (fill markdown_line) rows filled,
          ap (split newline)
                (sym (ok-injective e) ∙ join-append_sep newline markdown_header (markdown_sep ∷ ls))
              ∙ split-join newline markdown_header _ (omega arith, (omega arith, free)),
        )

  -- Where the one table can be filled, so can the other.
  write_latex_of_markdown :
      (rows : List (Row F)) {md : Chars}
      → write_markdown rows ≡ ok md
      → (tex : Chars) × (write_latex rows ≡ ok tex)
  unfolding write_markdown write_latex
  write_latex_of_markdown rows h =
      let (ls, e, _) = bind-eq-ok (for_each (fill markdown_line) rows) _ h in
      let (ms, e') =
        for_each-transfer (fill markdown_line) (fill latex_line) rows
          (λ r l filled.
            let (a, b, c, d, e, cells, _) = fill-ok markdown_line r filled in
            (latex_line r.policy r.scenario a b c d e, fill_of_Cells latex_line r a b c d e cells))
          e in
      (join newline (latex_head ++ ms ++ latex_foot) ++ codes "\n", bind-of_ok _ _ e')

  write_tables-IsAtomic : (rows : List (Row F)) → IsAtomic (write_tables rows)
  unfolding write_tables
  write_tables-IsAtomic rows = elim (Result-cases (write_markdown rows)) [
    | inr (e, h) ↦ inl (e, rw (h, write_tables))
    | inl (md, h) ↦
        let (tex, h') = write_latex_of_markdown rows h in inr (md, tex, rw (h, write_tables, h'))
  ]

  -- A run of summary_table.py writes both tables, or raises an exception and writes neither.
  pub main-IsAtomic : (loads : Decoder F) (disk : Disk) → IsAtomic (main loads disk)
  unfolding main
  main-IsAtomic loads disk = elim (Result-cases (build_rows loads disk)) [
    | inr (e, h) ↦ inl (e, rw (h, main))
    | inl (rows, h) ↦ rw (h, main) (write_tables-IsAtomic rows)
  ]

module _ {F : Type 0} ⦃fl : Floats F⦄ where
  write_tables-runs :
      (rows : List (Row F)) {md tex : Chars}
      → write_tables rows ≡ both md tex
      → write_markdown rows ≡ ok md
  unfolding write_tables
  write_tables-runs rows {md} h = elim (Result-cases (write_markdown rows)) [
    | inr (e, filled) ↦ absurd (cc (rw (filled, write_tables) at h))
    | inl (text, filled) ↦
        let (tex, also) = write_latex_of_markdown rows filled in
        let same = rw (filled, write_tables, also) at h in
        let written = ap (λ (o : Outcome). o.written) same in filled ∙ ap ok (cc written)
  ]

  -- A run that raises nothing has built its rows and filled the Markdown table from them.
  main-runs :
      (loads : Decoder F) (disk : Disk) {md tex : Chars}
      → main loads disk ≡ both md tex
      → (rows : List (Row F)) × (build_rows loads disk ≡ ok rows) × (write_markdown rows ≡ ok md)
  unfolding main
  main-runs loads disk h = elim (Result-cases (build_rows loads disk)) [
    | inr (e, built) ↦ absurd (cc (rw (built, main) at h))
    | inl (rows, built) ↦ (rows, built, write_tables-runs rows (rw (built, main) at h))
  ]

headings-NamesLack : All (NamesLack newline) headings
unfolding flatten
headings-NamesLack = omega arith

length-headings : length headings ≡ 16
unfolding flatten
length-headings = refl

module _ {F : Type 0} ⦃fl : Floats F⦄ (plain : FixedIsPlain fl) (loads : Decoder F)
    (disk : Disk) where
  -- A run of summary_table.py that raises nothing writes a Markdown file that splits into the
  -- header, the rule and sixteen lines, one for each policy and scenario in order, each filled from
  -- that run's row.
  pub summary_lines :
      {md tex : Chars}
      → main loads disk ≡ both md tex
      → (rows : List (Row F)) × (lines : List Chars) × (build_rows loads disk ≡ ok rows)
        × (map heading rows ≡ headings)
        × (for_each (fill markdown_line) rows ≡ ok lines)
        × (length lines ≡ 16)
        × (split newline md ≡ markdown_header ∷ markdown_sep ∷ (lines ++ ([] ∷ [])))
  summary_lines {md} h =
      let (rows, built, filled) = main-runs loads disk h in
      let named = build_rows-headings loads disk built in
      let names : All (λ r. NamesLack newline (heading r)) rows =
        All-of_map (NamesLack newline) heading rows (rw named headings-NamesLack) in
      let (lines, each, many, e) = write_markdown-lines plain rows names filled in
      let count = many ∙ sym (length-map heading rows) ∙ ap length named ∙ length-headings in
      (rows, lines, built, named, each, count, e)
