-- ===== src/Base/Chars.antt =====
-- Text as a list of code points, where the program builds or takes apart text character by
-- character: Python's `+`, `str.join`, `str.split` and `str.strip`.
use Prim.Native.Nat.{ℕ, ◌+◌}
use Prim.Native.Char.{code}
use Prim.Native.String.{String}
use mathlib.Core.Path.{◌≡◌, refl, ap, ◌∙◌}
use mathlib.Core.Logic.{◌≢◌, inl, inr}
use mathlib.Core.List.{List, [], ◌∷◌, ◌++◌, append_assoc}
use native.Mathlib.Omega.{arith}
use laborator_pcd.Base.Tests.{Bool-cases, ◌==◌, if◌then◌else◌}
use laborator_pcd.Base.Lists.{All, All-append}

abbrev pub Chars : Type 0
Chars = List ℕ

abbrev pub codes : String → Chars
codes String.[] = []
codes (String.◌∷◌ c s) = code c ∷ codes s

abbrev pub newline : ℕ
newline = 10

-- How often a character occurs.
abbrev pub occurrences : ℕ → Chars → ℕ
occurrences c [] = 0
occurrences c (x ∷ xs) = (if x == c then 1 else 0) + occurrences c xs

-- The text does not hold the character.
abbrev pub Lacks : ℕ → Chars → Type 0
Lacks c = All (λ x. x ≢ c)

pub occurrences-append :
    (c : ℕ) (xs ys : Chars) → occurrences c (xs ++ ys) ≡ occurrences c xs + occurrences c ys
occurrences-append c [] ys = omega arith
occurrences-append c (x ∷ xs) ys = omega (arith, occurrences-append c xs ys)

pub occurrences_of_Lacks : (c : ℕ) (xs : Chars) → Lacks c xs → occurrences c xs ≡ 0
occurrences_of_Lacks c [] h = refl
occurrences_of_Lacks c (x ∷ xs) h = ground (arith, occurrences_of_Lacks c xs h.1)

-- `sep.join(parts)`, for a separator of one character.
unfoldable pub join : ℕ → List Chars → Chars
join c [] = []
join c (l ∷ []) = l
join c (l ∷ m ∷ ls) = l ++ (c ∷ join c (m ∷ ls))

abbrev pub onto_first : ℕ → List Chars → List Chars
onto_first x [] = (x ∷ []) ∷ []
onto_first x (l ∷ ls) = (x ∷ l) ∷ ls

-- `text.split(sep)`, for a separator of one character.
unfoldable pub split : ℕ → Chars → List Chars
split c [] = [] ∷ []
split c (x ∷ xs) = if x == c then [] ∷ split c xs else onto_first x (split c xs)

split-append_sep :
    (c : ℕ) (l rest : Chars) → Lacks c l → split c (l ++ (c ∷ rest)) ≡ l ∷ split c rest
unfolding split
split-append_sep c [] rest h = ground arith
split-append_sep c (x ∷ l) rest h = ground (arith, split-append_sep c l rest h.1)

pub split_of_Lacks : (c : ℕ) (l : Chars) → Lacks c l → split c l ≡ l ∷ []
unfolding split
split_of_Lacks c [] h = refl
split_of_Lacks c (x ∷ l) h = ground (arith, split_of_Lacks c l h.1)

-- What was joined is what a split finds, if the separator is in none of the parts.
pub split-join :
    (c : ℕ) (l : Chars) (ls : List Chars)
    → All (Lacks c) (l ∷ ls)
    → split c (join c (l ∷ ls)) ≡ l ∷ ls
unfolding join
split-join c l [] h = split_of_Lacks c l h.0
split-join c l (m ∷ ls) h =
    rw (split-append_sep c l (join c (m ∷ ls)) h.0) (ap (◌∷◌ l) (split-join c m ls h.1))

pub join-Lacks : (d c : ℕ) (ls : List Chars) → c ≢ d → All (Lacks d) ls → Lacks d (join c ls)
unfolding join
join-Lacks d c [] ne h = tt
join-Lacks d c (l ∷ []) ne h = h.0
join-Lacks d c (l ∷ m ∷ ls) ne h = All-append _ l _ h.0 (ne, join-Lacks d c (m ∷ ls) ne h.1)

-- A text of lines that ends with a separator has an empty last part.
pub join-append_sep :
    (c : ℕ) (l : Chars) (ls : List Chars)
    → join c (l ∷ ls) ++ (c ∷ []) ≡ join c ((l ∷ ls) ++ ([] ∷ []))
unfolding join
join-append_sep c l [] = refl
join-append_sep c l (m ∷ ls) =
    append_assoc l (c ∷ join c (m ∷ ls)) (c ∷ []) ∙ ap (λ r. l ++ (c ∷ r)) (join-append_sep c m ls)

-- The parts of a text hold no other characters than the text.
pub split-All {κ} : (P : ℕ → Type κ) (c : ℕ) (cs : Chars) → All P cs → All (All P) (split c cs)
unfolding split
split-All P c [] h = (tt, tt)
split-All P c (x ∷ xs) h = elim (Bool-cases (x == c)) [
  | inl e ↦ rw e (tt, split-All P c xs h.1)
  | inr e ↦ rw e (first (split c xs) (split-All P c xs h.1))
]
  where
    first : (ls : List Chars) → All (All P) ls → All (All P) (onto_first x ls)
    first [] hs = ((h.0, tt), tt)
    first (l ∷ ls) hs = ((h.0, hs.0), hs.1)
