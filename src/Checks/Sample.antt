-- ===== src/Checks/Sample.antt =====
-- A number type that meets the assumptions on floats, and a decoder for chosen texts.
use laborator_pcd.Base.{
  ap, sym, ◌∙◌, length, map, ℕ, zero, suc, ◌+◌, ◌*◌, ◌/◌, ◌%◌, ◌≡◌, refl, ℤ, pos, negsuc, Bool,
  true, false, ◌&&◌, if◌then◌else◌, ◌==◌, ltb, Option, none, some, List, [], ◌∷◌, ◌++◌, arith, All,
  All-append, Bool-cases, inl, inr,
}
use laborator_pcd.Base.Chars.{Chars, codes}
use Prim.Native.Nat.{max}
use mathlib.Core.List.{append-nil}
use laborator_pcd.Numpy.{Numpy, ConvertsFirst}
use laborator_pcd.Py.{
  digits, decimal, ok, ◌>>=◌, bind-of_ok, to_float, for_each, is_json_blank, AreBlank,
  IgnoresBlanks, Json, Floats, Decoder, int_of_text,
}
use laborator_pcd.Summary.Format.{is_fixed_char, FixedIsPlain}

-- Thousandths, for numbers below a million.
abbrev pub Milli : Type 0
Milli = ℕ

unfoldable pub fraction : ℕ → ℕ → Chars
fraction zero x = []
fraction (suc zero) x = b'.' ∷ (x / 100 % 10 + b'0') ∷ []
fraction (suc (suc n)) x =
    b'.' ∷ (x / 100 % 10 + b'0') ∷ (x / 10 % 10 + b'0') ∷ (x % 10 + b'0') ∷ []

abbrev whole : ℤ → Option Milli
whole (pos n) = if ltb n 1_000_000 then some (n * 1000) else none
whole (negsuc n) = none

instance abbrev pub milli : Floats Milli
milli = record {
  nought = 0;
  of_int = whole;
  parse = λ s. elim (int_of_text (codes s)) [ none ↦ none | some n ↦ whole n ];
  trunc = λ x. some (pos (x / 1000));
  is_nan = λ x. false;
  is_zero = λ x. x == 0;
  is_pos = λ x. ltb 0 x;
  is_finite = λ x. true;
  gt = λ x y. ltb y x;
  add = λ x y. x + y;
  mul = λ x y. x * y / 1000;
  scale = λ k x. k * x;
  ratio = λ m n. m * 1000 / n;
  div_by = λ x n. x / n;
  fixed = λ n x. decimal (x / 1000) ++ fraction n x;
  show = λ x. decimal (x / 1000) ++ fraction 3 x;
}

abbrev IsPlain : Chars → Type 0
IsPlain = All (λ c. is_fixed_char c ≡ true)

digit-fixed : (n : ℕ) → is_fixed_char (n % 10 + b'0') ≡ true
digit-fixed n = ground arith

digits-IsPlain : (fuel n : ℕ) (acc : Chars) → IsPlain acc → IsPlain (digits fuel n acc)
unfolding digits
digits-IsPlain zero n acc h = h
digits-IsPlain (suc fuel) n acc h = elim (Bool-cases (n == 0)) [
  | inl e ↦ rw e h
  | inr e ↦ rw e (digits-IsPlain fuel (n / 10) _ (digit-fixed n, h))
]

decimal-IsPlain : (n : ℕ) → IsPlain (decimal n)
unfolding decimal
decimal-IsPlain n = elim (Bool-cases (n == 0)) [
  | inl e ↦ rw e (refl, tt)
  | inr e ↦ rw e (digits-IsPlain n n [] tt)
]

fraction-IsPlain : (n x : ℕ) → IsPlain (fraction n x)
unfolding fraction
fraction-IsPlain zero x = tt
fraction-IsPlain (suc zero) x = (refl, (digit-fixed (x / 100), tt))
fraction-IsPlain (suc (suc n)) x =
    (refl, (digit-fixed (x / 100), (digit-fixed (x / 10), (digit-fixed x, tt))))

pub milli-IsPlain : FixedIsPlain milli
milli-IsPlain n x =
    All-append _ (decimal (x / 1000)) _ (decimal-IsPlain (x / 1000)) (fraction-IsPlain n x)

abbrev same : Chars → Chars → Bool
same [] [] = true
same [] (_ ∷ _) = false
same (_ ∷ _) [] = false
same (x ∷ xs) (y ∷ ys) = (x == y) && same xs ys

-- A decoder that knows some texts.
abbrev pub knows : List (Chars × Json Milli) → Decoder Milli
knows [] text = none
knows ((known, v) ∷ rest) text = if same known text then some v else knows rest text

-- A decoder that knows some texts, whatever white space they hold.
unfoldable pub squeeze : Chars → Chars
squeeze [] = []
squeeze (c ∷ cs) = if is_json_blank c then squeeze cs else c ∷ squeeze cs

abbrev pub knows_squeezed : List (Chars × Json Milli) → Decoder Milli
knows_squeezed known text = knows known (squeeze text)

squeeze-before : (blanks text : Chars) → AreBlank blanks → squeeze (blanks ++ text) ≡ squeeze text
unfolding squeeze
squeeze-before [] text h = refl
squeeze-before (c ∷ cs) text h = rw (h.0, squeeze-before cs text h.1)

squeeze-after : (text blanks : Chars) → AreBlank blanks → squeeze (text ++ blanks) ≡ squeeze text
unfolding squeeze
squeeze-after [] blanks h = ap squeeze (sym (append-nil blanks)) ∙ squeeze-before blanks [] h
squeeze-after (c ∷ cs) blanks h =
    ap (λ rest. if is_json_blank c then rest else c ∷ rest) (squeeze-after cs blanks h)

pub knows_squeezed-IgnoresBlanks :
    (known : List (Chars × Json Milli))
    → knows known [] ≡ none
    → IgnoresBlanks (knows_squeezed known)
knows_squeezed-IgnoresBlanks known empty = record {
  before = λ blanks text h. ap (knows known) (squeeze-before blanks text h);
  after = λ text blanks h. ap (knows known) (squeeze-after text blanks h);
  blank_only = unfold squeeze in empty;
}

-- Percentiles by nearest rank of a list that stands in order.
unfoldable pub element : ℕ → List Milli → Milli
element n [] = 0
element zero (x ∷ xs) = x
element (suc n) (x ∷ xs) = element n xs

unfoldable pub largest : List Milli → Milli
largest [] = 0
largest (x ∷ xs) = max x (largest xs)

abbrev pub nearest : Numpy Milli
nearest = record {
  percentile = λ xs q. element (q * length xs / 100) xs;
  percentile_of = λ vs q. for_each to_float vs >>= λ xs. ok (element (q * length xs / 100) xs);
  max_of = λ rows. largest (map largest rows);
}

pub nearest-ConvertsFirst : ConvertsFirst nearest
nearest-ConvertsFirst values xs q numbers e = bind-of_ok _ _ e
