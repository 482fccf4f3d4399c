-- ===== src/Py/Stripped.antt =====
-- The two ways in which the scripts read a file of JSON lines, line by line and by splitting the
-- stripped text at its newlines, and why they decode the same values.
use mathlib.Core.Path.{subst}
use laborator_pcd.Base.{
  ◌≡◌, refl, sym, ap, ◌∙◌, inl, inr, true, if◌then◌else◌, Option, none, some, List, [], ◌∷◌, ◌++◌,
  All, All-of_append, All-of_append_right, All-weaken, Bool-cases, Option-cases,
}
use laborator_pcd.Base.Chars.{Chars, newline, split, split-All}
use laborator_pcd.Py.Exceptions.{Result, raise, ok, ◌>>=◌}
use laborator_pcd.Py.Loops.{fold_each}
use laborator_pcd.Py.Values.{Json}
use laborator_pcd.Py.Convert.{is_space, strip, is_empty, lstrip, rstrip, keep_unless_blank}
use laborator_pcd.Py.Files.{Decoder, lines_of}
use laborator_pcd.Py.Lines.{lines_of-split}
use laborator_pcd.Py.Decoded.{
  AreBlank, IgnoresBlanks, HasJsonBlanks, decoded, decoded-split_before, decoded-split_after,
  decoded-terminated,
}

rstrip-parts :
    (cs : Chars)
    → HasJsonBlanks cs
    → (blanks : Chars) × AreBlank blanks × (cs ≡ rstrip cs ++ blanks)
unfolding rstrip
rstrip-parts [] h = ([], tt, refl)
rstrip-parts (c ∷ cs) h = let (bs, b, e) = rstrip-parts cs h.1 in extend (rstrip cs) bs b e
  where
    extend :
        (r bs : Chars)
        → AreBlank bs
        → cs ≡ r ++ bs
        → (blanks : Chars) × AreBlank blanks × (c ∷ cs ≡ keep_unless_blank c r ++ blanks)
    extend [] bs b e = elim (Bool-cases (is_space c)) [
      | inl s ↦ (c ∷ bs, (h.0 s, b), rw s (ap (◌∷◌ c) e))
      | inr s ↦ (bs, b, rw s (ap (◌∷◌ c) e))
    ]
    extend (d ∷ ds) bs b e = (bs, b, ap (◌∷◌ c) e)

lstrip-parts :
    (cs : Chars)
    → HasJsonBlanks cs
    → (blanks : Chars) × AreBlank blanks × (cs ≡ blanks ++ lstrip cs)
unfolding lstrip
lstrip-parts [] h = ([], tt, refl)
lstrip-parts (c ∷ cs) h =
    let (bs, b, e) = lstrip-parts cs h.1 in
    elim (Bool-cases (is_space c)) [
      | inl s ↦ (c ∷ bs, (h.0 s, b), rw s (ap (◌∷◌ c) e))
      | inr s ↦ ([], tt, rw s refl)
    ]

strip-HasJsonBlanks : (cs : Chars) → HasJsonBlanks cs → HasJsonBlanks (strip cs)
unfolding strip
strip-HasJsonBlanks cs h =
    let (after, _, e) = rstrip-parts cs h in
    let left = All-of_append _ (rstrip cs) after (subst HasJsonBlanks e h) in
    let (before, _, e') = lstrip-parts (rstrip cs) left in
    All-of_append_right _ before (strip cs) (subst HasJsonBlanks e' left)

-- A line that `strip` empties decodes to nothing.
loads-blank :
    {F : Type 0} (loads : Decoder F)
    → IgnoresBlanks loads
    → (line : Chars) → HasJsonBlanks line
    → is_empty (strip line) ≡ true
    → loads line ≡ none
unfolding strip
loads-blank loads law line h empty =
    let (after, ab, e) = rstrip-parts line h in
    let left = All-of_append _ (rstrip line) after (subst HasJsonBlanks e h) in
    let (before, bb, e') = lstrip-parts (rstrip line) left in
    let gone : strip line ≡ [] = nothing (strip line) empty in
    ap loads e
    ∙ law.after (rstrip line) after ab
    ∙ ap loads (e' ∙ ap (λ r. before ++ r) gone)
    ∙ law.before before [] bb
    ∙ law.blank_only
  where
    nothing : (r : Chars) → is_empty r ≡ true → r ≡ []
    nothing [] e = refl
    nothing (x ∷ xs) e = cc

-- A loop over lines that acts on what they decode to is a loop over the decoded values.
module _ {ℓ} {F : Type 0} {S : Type ℓ} (loads : Decoder F) (act : S → Json F → Result S) where
  abbrev pub act_on : S → Option (Json F) → Result S
  act_on s none = ok s
  act_on s (some v) = act s v

  pub fold_each-decoded :
      (f : S → Chars → Result S) (ls : List Chars)
      → All (λ l. (s : S) → f s l ≡ act_on s (loads l)) ls
      → (s : S) → fold_each f s ls ≡ fold_each act s (decoded loads ls)
  unfolding fold_each decoded
  fold_each-decoded f [] h s = refl
  fold_each-decoded f (l ∷ ls) h s = elim (Option-cases (loads l)) [
    | inl e ↦ rw (h.0 s, e) (fold_each-decoded f ls h.1 s)
    | inr (v, e) ↦ rw (h.0 s, e) (next (fold_each-decoded f ls h.1) (act s v))
  ]
    where
      next :
          ((s' : S) → fold_each f s' ls ≡ fold_each act s' (decoded loads ls))
          → (r : Result S)
          → (r >>= λ s'. fold_each f s' ls) ≡ (r >>= λ s'. fold_each act s' (decoded loads ls))
      next again (raise e) = refl
      next again (ok s') = again s'

-- Reading a file line by line decodes the same values as splitting its stripped text.
pub decoded-strip :
    {F : Type 0} (loads : Decoder F)
    → IgnoresBlanks loads
    → (text : Chars) → HasJsonBlanks text
    → decoded loads (split newline (strip text)) ≡ decoded loads (lines_of text)
unfolding strip
decoded-strip loads law text h =
    let (after, ab, e) = rstrip-parts text h in
    let (before, bb, e') =
      lstrip-parts (rstrip text) (All-of_append _ (rstrip text) after (subst HasJsonBlanks e h)) in
    let part = λ (t : Chars). decoded loads (split newline t) in
    sym (decoded-split_before loads law before (strip text) bb)
    ∙ ap part (sym e')
    ∙ sym (decoded-split_after loads law (rstrip text) after ab)
    ∙ ap part (sym e)
    ∙ sym (
        ap (decoded loads) (lines_of-split text)
        ∙ decoded-terminated loads law (split newline text))

-- The same, for a loop that skips the lines that `strip` empties.
pub fold_each-decoded-strip {ℓ} :
    {F : Type 0} {S : Type ℓ} (loads : Decoder F) (act : S → Json F → Result S)
    (f : S → Chars → Result S)
    → IgnoresBlanks loads
    → ((s : S) (l : Chars)
        → f s l ≡ (if is_empty (strip l) then ok s else act_on loads act s (loads l)))
    → (text : Chars) → HasJsonBlanks text
    → (s : S)
    → fold_each f s (split newline (strip text)) ≡ fold_each act s (decoded loads (lines_of text))
fold_each-decoded-strip {S} loads act f law skips text h s =
    fold_each-decoded loads act f (split newline (strip text))
      (All-weaken HasJsonBlanks _ _ line
        (split-All _ newline (strip text) (strip-HasJsonBlanks text h)))
      s
    ∙ ap (fold_each act s) (decoded-strip loads law text h)
  where
    line : (l : Chars) → HasJsonBlanks l → (s : S) → f s l ≡ act_on loads act s (loads l)
    line l hl s = elim (Bool-cases (is_empty (strip l))) [
      | inl e ↦ skips s l ∙ rw (e, loads-blank loads law l hl e)
      | inr e ↦ skips s l ∙ rw e
    ]
