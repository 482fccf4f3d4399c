-- ===== src/Py/Lines.antt =====
-- The lines of a file and the parts between its newlines.
use laborator_pcd.Base.{
  ℕ, ◌≡◌, refl, ap, ◌∙◌, inl, inr, false, ◌==◌, List, [], ◌∷◌, ◌++◌, arith, Bool-cases, ==_iff,
}
use laborator_pcd.Base.Chars.{Chars, newline, split, onto_first}
use laborator_pcd.Py.Files.{lines_of, start_line}

-- Each line with its newline; an empty last part is no line.
abbrev pub terminated : List Chars → List Chars
terminated [] = []
terminated ([] ∷ []) = []
terminated ((c ∷ l) ∷ []) = (c ∷ l) ∷ []
terminated (l ∷ m ∷ ls) = (l ++ (newline ∷ [])) ∷ terminated (m ∷ ls)

start_line-terminated :
    (c : ℕ) (l : Chars) (ls : List Chars)
    → start_line c (terminated (l ∷ ls)) ≡ terminated ((c ∷ l) ∷ ls)
start_line-terminated c [] [] = refl
start_line-terminated c (d ∷ l) [] = refl
start_line-terminated c l (m ∷ ls) = refl

pub split-ne-nil : (c : ℕ) (cs : Chars) → (l : Chars) × (ls : List Chars) × (split c cs ≡ l ∷ ls)
unfolding split
split-ne-nil c [] = ([], [], refl)
split-ne-nil c (x ∷ xs) =
    let (l, ls, e) = split-ne-nil c xs in
    elim (Bool-cases (x == c)) [ inl s ↦ ([], split c xs, rw s) | inr s ↦ (x ∷ l, ls, rw (s, e)) ]

-- The lines of a file are its parts between newlines, each with its newline.
pub lines_of-split : (cs : Chars) → lines_of cs ≡ terminated (split newline cs)
unfolding lines_of split
lines_of-split [] = refl
lines_of-split (c ∷ cs) =
    let (l, ls, e) = split-ne-nil newline cs in
    let ih = lines_of-split cs ∙ ap terminated e in
    elim (Bool-cases (c == newline)) [
      | inl s ↦ rw (s, e, ih) (ap (λ x. (x ∷ []) ∷ terminated (l ∷ ls)) ((==_iff c newline).0 s))
      | inr s ↦ rw (s, e, ih) (start_line-terminated c l ls)
    ]

abbrev pub on_last : ℕ → List Chars → List Chars
on_last c [] = (c ∷ []) ∷ []
on_last c (l ∷ []) = (l ++ (c ∷ [])) ∷ []
on_last c (l ∷ m ∷ ls) = l ∷ on_last c (m ∷ ls)

onto_first-on_last :
    (x c : ℕ) (l : Chars) (ls : List Chars)
    → onto_first x (on_last c (l ∷ ls)) ≡ on_last c (onto_first x (l ∷ ls))
onto_first-on_last x c l [] = refl
onto_first-on_last x c l (m ∷ ls) = refl

-- One more character goes to the last part, unless it is the separator.
pub split-snoc :
    (sep c : ℕ) (cs : Chars)
    → (c == sep) ≡ false
    → split sep (cs ++ (c ∷ [])) ≡ on_last c (split sep cs)
unfolding split
split-snoc sep c [] other = rw other
split-snoc sep c (x ∷ xs) other =
    let (l, ls, e) = split-ne-nil sep xs in
    let ih = split-snoc sep c xs other ∙ ap (on_last c) e in
    elim (Bool-cases (x == sep)) [
      | inl s ↦ rw (s, ih, e)
      | inr s ↦ rw (s, ih, e) (onto_first-on_last x c l ls)
    ]

pub split-snoc_sep :
    (sep : ℕ) (cs : Chars) → split sep (cs ++ (sep ∷ [])) ≡ split sep cs ++ ([] ∷ [])
unfolding split
split-snoc_sep sep [] = ground arith
split-snoc_sep sep (x ∷ xs) =
    let (l, ls, e) = split-ne-nil sep xs in
    let ih = split-snoc_sep sep xs ∙ ap (λ r. r ++ ([] ∷ [])) e in
    elim (Bool-cases (x == sep)) [ inl s ↦ rw (s, ih, e) | inr s ↦ rw (s, ih, e) ]
