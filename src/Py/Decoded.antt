-- ===== src/Py/Decoded.antt =====
-- The values that the lines of a text decode to, and what white space around a text does to them.
use mathlib.Core.List.{append_assoc, append-nil}
use laborator_pcd.Base.{
  ℕ, ◌≡◌, refl, sym, ap, ◌∙◌, inl, inr, Bool, true, ◌||◌, ◌==◌, Option, none, some, List, [], ◌∷◌,
  ◌++◌, All, Bool-cases, ==_iff,
}
use laborator_pcd.Base.Chars.{Chars, newline, split, onto_first}
use laborator_pcd.Py.Values.{Json}
use laborator_pcd.Py.Convert.{is_space}
use laborator_pcd.Py.Files.{Decoder}
use laborator_pcd.Py.Lines.{terminated, on_last, split-ne-nil, split-snoc, split-snoc_sep}

-- The white space that may stand around a JSON text.
abbrev pub is_json_blank : ℕ → Bool
is_json_blank c = c == 32 || c == 9 || c == 10 || c == 13

abbrev pub AreBlank : Chars → Type 0
AreBlank = All (λ c. is_json_blank c ≡ true)

-- White space around a JSON text changes nothing, and is no JSON text itself.
pub record IgnoresBlanks {F : Type 0} (loads : Decoder F) : Type 0 where
  pub before : (blanks text : Chars) → AreBlank blanks → loads (blanks ++ text) ≡ loads text
  pub after : (text blanks : Chars) → AreBlank blanks → loads (text ++ blanks) ≡ loads text
  pub blank_only : loads [] ≡ none

-- The text holds no other white space than JSON's.
abbrev pub HasJsonBlanks : Chars → Type 0
HasJsonBlanks = All (λ c. is_space c ≡ true → is_json_blank c ≡ true)

-- The values that the lines decode to; other lines are passed over.
module _ {F : Type 0} (loads : Decoder F) where
  abbrev prepend : Option (Json F) → List (Json F) → List (Json F)
  prepend none vs = vs
  prepend (some v) vs = v ∷ vs

  unfoldable pub decoded : List Chars → List (Json F)
  decoded [] = []
  decoded (l ∷ ls) = prepend (loads l) (decoded ls)

module _ {F : Type 0} (loads : Decoder F) (law : IgnoresBlanks loads) where
  decoded-append_nil : (ls : List Chars) → decoded loads (ls ++ ([] ∷ [])) ≡ decoded loads ls
  unfolding decoded
  decoded-append_nil [] = rw law.blank_only
  decoded-append_nil (l ∷ ls) = ap (prepend loads (loads l)) (decoded-append_nil ls)

  decoded-on_last :
      (c : ℕ) (l : Chars) (ls : List Chars)
      → is_json_blank c ≡ true
      → decoded loads (on_last c (l ∷ ls)) ≡ decoded loads (l ∷ ls)
  unfolding decoded
  decoded-on_last c l [] b = rw (law.after l (c ∷ []) (b, tt))
  decoded-on_last c l (m ∷ ls) b = ap (prepend loads (loads l)) (decoded-on_last c m ls b)

  decoded-onto_first :
      (c : ℕ) (l : Chars) (ls : List Chars)
      → is_json_blank c ≡ true
      → decoded loads (onto_first c (l ∷ ls)) ≡ decoded loads (l ∷ ls)
  unfolding decoded
  decoded-onto_first c l ls b =
      ap (λ o. prepend loads o (decoded loads ls)) (law.before (c ∷ []) l (b, tt))

  pub decoded-terminated : (ls : List Chars) → decoded loads (terminated ls) ≡ decoded loads ls
  unfolding decoded
  decoded-terminated [] = refl
  decoded-terminated ([] ∷ []) = rw law.blank_only
  decoded-terminated ((c ∷ l) ∷ []) = refl
  decoded-terminated (l ∷ m ∷ ls) =
      ap (λ o. prepend loads o (decoded loads (terminated (m ∷ ls))))
        (law.after l (newline ∷ []) (refl, tt))
      ∙ ap (prepend loads (loads l)) (decoded-terminated (m ∷ ls))

  pub decoded-split_snoc :
      (cs : Chars) (c : ℕ)
      → is_json_blank c ≡ true
      → decoded loads (split newline (cs ++ (c ∷ []))) ≡ decoded loads (split newline cs)
  decoded-split_snoc cs c b =
      let (l, ls, e) = split-ne-nil newline cs in
      elim (Bool-cases (c == newline)) [
        | inl s ↦
            ap (λ x. decoded loads (split newline (cs ++ (x ∷ [])))) ((==_iff c newline).0 s)
            ∙ ap (decoded loads) (split-snoc_sep newline cs)
            ∙ decoded-append_nil (split newline cs)
        | inr s ↦
            ap (decoded loads) (split-snoc newline c cs s ∙ ap (on_last c) e)
            ∙ decoded-on_last c l ls b
            ∙ ap (decoded loads) (sym e)
      ]

  pub decoded-split_after :
      (cs blanks : Chars)
      → AreBlank blanks
      → decoded loads (split newline (cs ++ blanks)) ≡ decoded loads (split newline cs)
  decoded-split_after cs [] b = rw append-nil
  decoded-split_after cs (c ∷ blanks) b =
      ap (λ x. decoded loads (split newline x)) (sym (append_assoc cs (c ∷ []) blanks))
      ∙ decoded-split_after (cs ++ (c ∷ [])) blanks b.1
      ∙ decoded-split_snoc cs c b.0

  pub decoded-split_before :
      (blanks cs : Chars)
      → AreBlank blanks
      → decoded loads (split newline (blanks ++ cs)) ≡ decoded loads (split newline cs)
  unfolding split
  decoded-split_before [] cs b = refl
  decoded-split_before (c ∷ blanks) cs b =
      let (l, ls, e) = split-ne-nil newline (blanks ++ cs) in
      let ih = ap (decoded loads) (sym e) ∙ decoded-split_before blanks cs b.1 in
      elim (Bool-cases (c == newline)) [
        | inl s ↦
            rw s (blank_first (split newline (blanks ++ cs)) ∙ decoded-split_before blanks cs b.1)
        | inr s ↦ rw (s, e) (decoded-onto_first c l ls b.0 ∙ ih)
      ]
    where
      blank_first : (ls : List Chars) → decoded loads ([] ∷ ls) ≡ decoded loads ls
      blank_first ls = unfold decoded in ap (λ o. prepend loads o (decoded loads ls)) law.blank_only
