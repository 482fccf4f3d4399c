-- ===== src/Py/Convert.antt =====
-- Floating-point numbers, and the conversions of `float` and `int`.
use laborator_pcd.Base.{
  ◌++◌, length, ℕ, zero, suc, ◌+◌, ◌-◌, ◌*◌, ◌/◌, ◌%◌, ℤ, pos, negsuc, is_zero_ℤ, ltb_ℤ, String,
  str_eq, Bool, true, false, not, ◌&&◌, ◌||◌, if◌then◌else◌, ◌==◌, leb, Option, none, some, [], ◌∷◌,
}
use laborator_pcd.Base.Chars.{Chars, codes}
use laborator_pcd.Py.Exceptions.{Error, type_error, value_error, overflow_error, Result, ok, raise}
use laborator_pcd.Py.Values.{Json, null, bool, int, float, str, arr, obj, nil, cons, end, field}

-- What the scripts do with a `float`. The theorems hold for every such type, IEEE doubles included.
pub record Floats (F : Type 0) : Type 0 where
  -- `0.0`, which also stands for an `int` 0 that meets a float or is drawn.
  pub nought : F
  -- `float(n)`, or OverflowError
  pub of_int : ℤ → Option F
  -- `float(text)`, or ValueError
  pub parse : String → Option F
  -- `int(x)`, where x is neither NaN nor infinite
  pub trunc : F → Option ℤ
  -- `math.isnan(x)`
  pub is_nan : F → Bool
  -- `x == 0`
  pub is_zero : F → Bool
  -- `x > 0`
  pub is_pos : F → Bool
  -- whether x is neither an infinity nor NaN
  pub is_finite : F → Bool
  -- `x > y`
  pub gt : F → F → Bool
  pub add : F → F → F
  pub mul : F → F → F
  -- `k * x` for an integer constant k
  pub scale : ℕ → F → F
  -- `m / n`, for n not 0
  pub ratio : ℕ → ℕ → F
  -- `x / n`, for n not 0
  pub div_by : F → ℕ → F
  -- `f"{x:.{n}f}"`
  pub fixed : ℕ → F → Chars
  -- `str(x)`
  pub show : F → Chars

abbrev pub is_digit : ℕ → Bool
is_digit c = leb b'0' c && leb c b'9'

-- `str.isspace` of a code point.
unfoldable pub is_space : ℕ → Bool
is_space c =
    (leb 9 c && leb c 13)
    || (leb 28 c && leb c 32)
    || c == 133
    || c == 160
    || c == 5760
    || (leb 8192 c && leb c 8202)
    || c == 8232
    || c == 8233
    || c == 8239
    || c == 8287
    || c == 12288

-- `text.lstrip()`
unfoldable pub lstrip : Chars → Chars
lstrip [] = []
lstrip (c ∷ cs) = if is_space c then lstrip cs else c ∷ cs

abbrev pub keep_unless_blank : ℕ → Chars → Chars
keep_unless_blank c [] = if is_space c then [] else c ∷ []
keep_unless_blank c (d ∷ ds) = c ∷ d ∷ ds

-- `text.rstrip()`
unfoldable pub rstrip : Chars → Chars
rstrip [] = []
rstrip (c ∷ cs) = keep_unless_blank c (rstrip cs)

-- `text.strip()`
unfoldable pub strip : Chars → Chars
unfolding lstrip rstrip is_space
strip cs = lstrip (rstrip cs)

-- `not text`
abbrev pub is_empty : Chars → Bool
is_empty [] = true
is_empty (_ ∷ _) = false

-- `f"{text:<width}"` and `f"{text:>width}"`
unfoldable pub spaces : ℕ → Chars
spaces zero = []
spaces (suc n) = 32 ∷ spaces n

unfoldable pub ljust : ℕ → Chars → Chars
unfolding spaces
ljust width text = text ++ spaces (width - length text)

unfoldable pub rjust : ℕ → Chars → Chars
unfolding spaces
rjust width text = spaces (width - length text) ++ text

-- The digits of an integer literal, after those that make `acc`. An underscore may stand between
-- two digits; the flag says that a digit came last. Decimal digits beyond ASCII are left out.
unfoldable pub int_digits : Chars → ℕ → Bool → Option ℕ
int_digits [] acc after_digit = if after_digit then some acc else none
int_digits (c ∷ cs) acc after_digit =
    if is_digit c || (c == b'_' && after_digit)
    then int_digits cs (if is_digit c then acc * 10 + (c - b'0') else acc) (is_digit c)
    else none

abbrev negate : ℕ → ℤ
negate zero = pos 0
negate (suc n) = negsuc n

abbrev signed : Chars → Option ℤ
signed [] = none
signed (c ∷ cs) =
    if c == b'-'
    then elim (int_digits cs 0 false) [ none ↦ none | some n ↦ some (negate n) ]
    else elim (int_digits (if c == b'+' then cs else c ∷ cs) 0 false) [
      | none ↦ none
      | some n ↦ some (pos n)
    ]

-- `int(text)`, or ValueError
unfoldable pub int_of_text : Chars → Option ℤ
unfolding strip int_digits
int_of_text cs = signed (strip cs)

-- The digits of a number, before those that follow, with at most so many rounds.
unfoldable pub digits : ℕ → ℕ → Chars → Chars
digits zero n after = after
digits (suc rounds) n after =
    let more = digits rounds (n / 10) ((n % 10 + b'0') ∷ after) in if n == 0 then after else more

-- `str(n)` of an integer that is not negative.
unfoldable pub decimal : ℕ → Chars
unfolding digits
decimal n = if n == 0 then b'0' ∷ [] else digits n n []

-- A conversion that raises `e` where it has no value.
abbrev pub or_raise {ℓ} : {A : Type ℓ} → Error → Option A → Result A
or_raise e none = raise e
or_raise e (some a) = ok a

module _ {F : Type 0} ⦃fl : Floats F⦄ where
  -- `float(value)`
  unfoldable pub to_float : Json F → Result F
  to_float null = raise type_error
  to_float (bool b) = or_raise overflow_error (fl.of_int (pos (if b then 1 else 0)))
  to_float (int n) = or_raise overflow_error (fl.of_int n)
  to_float (float x) = ok x
  to_float (str s) = or_raise value_error (fl.parse s)
  to_float (arr _) = raise type_error
  to_float (obj _) = raise type_error

  -- `int(value)`
  unfoldable pub to_int : Json F → Result ℤ
  to_int null = raise type_error
  to_int (bool b) = ok (pos (if b then 1 else 0))
  to_int (int n) = ok n
  to_int (float x) = or_raise (if fl.is_nan x then value_error else overflow_error) (fl.trunc x)
  to_int (str s) = or_raise value_error (int_of_text (codes s))
  to_int (arr _) = raise type_error
  to_int (obj _) = raise type_error

  -- `value == 0`
  unfoldable pub is_nought : Json F → Bool
  is_nought (bool b) = not b
  is_nought (int n) = is_zero_ℤ n
  is_nought (float x) = fl.is_zero x
  is_nought _ = false

  -- `value > 0`, where an order between the two is defined
  unfoldable pub is_above_nought : Json F → Result Bool
  is_above_nought (bool b) = ok b
  is_above_nought (int n) = ok (ltb_ℤ (pos 0) n)
  is_above_nought (float x) = ok (fl.is_pos x)
  is_above_nought _ = raise type_error

  -- `bool(value)`
  unfoldable pub is_truthy : Json F → Bool
  is_truthy null = false
  is_truthy (bool b) = b
  is_truthy (int n) = not (is_zero_ℤ n)
  is_truthy (float x) = not (fl.is_zero x)
  is_truthy (str s) = not (str_eq s "")
  is_truthy (arr nil) = false
  is_truthy (arr (cons _ _)) = true
  is_truthy (obj end) = false
  is_truthy (obj (field _ _ _)) = true

  -- `a or b`
  abbrev pub or_else : Json F → Json F → Json F
  or_else a b = if is_truthy a then a else b

  -- `value * x` for a float x: a number as a float, and an exception for anything else.
  unfoldable pub to_number : Json F → Result F
  to_number (bool b) = or_raise overflow_error (fl.of_int (pos (if b then 1 else 0)))
  to_number (int n) = or_raise overflow_error (fl.of_int n)
  to_number (float x) = ok x
  to_number _ = raise type_error

  -- `str(value)` of a number.
  unfoldable pub show_number : Json F → Chars
  unfolding decimal
  show_number (bool true) = codes "True"
  show_number (bool false) = codes "False"
  show_number (int (pos n)) = decimal n
  show_number (int (negsuc n)) = b'-' ∷ decimal (suc n)
  show_number (float x) = fl.show x
  show_number _ = []
