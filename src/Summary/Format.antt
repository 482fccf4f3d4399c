-- ===== src/Summary/Format.antt =====
-- `fmt` of project/analysis/summary_table.py: when it prints a number, a dash, or raises.
use laborator_pcd.Base.{
  ℕ, ◌≡◌, refl, sym, ◌⊎◌, inl, inr, Bool, true, false, ◌||◌, ◌==◌, arith, All, Bool-cases,
}
use laborator_pcd.Base.Chars.{Chars}
use laborator_pcd.Py.{
  Error, type_error, value_error, overflow_error, Result, ok, raise, ok-injective, Json, is_none,
  is_text, is_nought, Floats, to_float, is_digit,
}
use laborator_pcd.Summary.{fmt, attempt, dash}

-- The characters of a number in the `f` format, infinities and NaN included.
abbrev pub is_fixed_char : ℕ → Bool
is_fixed_char c =
    is_digit c || c == b'.' || c == b'-' || c == b'i' || c == b'n' || c == b'f' || c == b'a'

-- The `f` format prints nothing but the characters of a number.
abbrev pub FixedIsPlain : {F : Type 0} → Floats F → Type 0
FixedIsPlain {F} fl = (n : ℕ) (x : F) → All (λ c. is_fixed_char c ≡ true) (fl.fixed n x)

module _ {F : Type 0} ⦃fl : Floats F⦄ where
  -- The values that `fmt` answers with a dash before it converts them.
  abbrev pub is_blank : Json F → Bool
  is_blank v = is_none v || is_text v "null" || is_nought v

  -- `float` raises one of three exceptions.
  pub to_float-error :
      (v : Json F) {e : Error}
      → to_float v ≡ raise e
      → (e ≡ type_error) ⊎ (e ≡ value_error) ⊎ (e ≡ overflow_error)
  unfolding to_float
  to_float-error v h = ground arith

  attempt-error :
      (decimals : ℕ) (r : Result F) {e : Error}
      → ((f : Error) → r ≡ raise f → (f ≡ type_error) ⊎ (f ≡ value_error) ⊎ (f ≡ overflow_error))
      → attempt decimals r ≡ raise e
      → (e ≡ overflow_error) × (r ≡ raise overflow_error)
  attempt-error decimals (ok x) possible h = cc
  attempt-error decimals (raise f) {e} possible h = ground (arith, possible f refl)

  attempt-ok :
      (decimals : ℕ) (r : Result F) {t : Chars}
      → attempt decimals r ≡ ok t
      → (t ≡ dash) ⊎ ((x : F) × (t ≡ fl.fixed decimals x))
  attempt-ok decimals (ok x) h = inr (x, sym (ok-injective h))
  attempt-ok decimals (raise f) {t} h = inl (ground arith)

  -- fmt lets one exception through, OverflowError, and only where float(v) raises it.
  pub fmt_raises :
      (v : Json F) (decimals : ℕ) {e : Error}
      → fmt v decimals ≡ raise e
      → (e ≡ overflow_error) × (to_float v ≡ raise overflow_error)
  unfolding fmt
  fmt_raises v decimals h = elim (Bool-cases (is_blank v)) [
    | inl blank ↦ absurd (cc (rw blank at h))
    | inr full ↦
        attempt-error decimals (to_float v) (λ f raised. to_float-error v raised) (rw full at h)
  ]

  pub fmt_cases :
      (v : Json F) (decimals : ℕ) {t : Chars}
      → fmt v decimals ≡ ok t
      → (t ≡ dash) ⊎ ((x : F) × (t ≡ fl.fixed decimals x))
  unfolding fmt
  fmt_cases v decimals h = elim (Bool-cases (is_blank v)) [
    | inl blank ↦ inl (sym (ok-injective (rw blank at h)))
    | inr full ↦ attempt-ok decimals (to_float v) (rw full at h)
  ]

  -- A value that converts to a number and is not 0 is printed as that number.
  pub fmt-number :
      (v : Json F) (decimals : ℕ) {x : F}
      → is_blank v ≡ false
      → to_float v ≡ ok x
      → fmt v decimals ≡ ok (fl.fixed decimals x)
  unfolding fmt
  fmt-number v decimals full e = rw (full, e)
