-- ===== src/Py/Exceptions.antt =====
-- Exceptions as values. The classes are those that the scripts raise or catch.
use laborator_pcd.Base.{◌≡◌, refl, ◌⊎◌, inl, inr, Bool, true, false}

pub data Error : Type 0 where
  attribute_error type_error value_error json_decode_error key_error overflow_error : Error

-- What running a piece of the program comes to: an exception, or a value.
pub data Result {ℓ} (A : Type ℓ) : Type ℓ where
  raise : Error → Result A
  ok : A → Result A

infixl 5 ◌>>=◌ ◌>>◌
abbrev pub ◌>>=◌ {ℓ κ} : {A : Type ℓ} {B : Type κ} → Result A → (A → Result B) → Result B
raise e >>= next = raise e
ok a >>= next = next a

abbrev pub ◌>>◌ {ℓ} : {B : Type ℓ} → Result (Unit {0}) → Result B → Result B
first >> rest = first >>= λ _. rest

-- `JSONDecodeError` is a subclass of `ValueError`.
abbrev pub is_value_error : Error → Bool
is_value_error value_error = true
is_value_error json_decode_error = true
is_value_error _ = false

pub Result-cases {ℓ} :
    {A : Type ℓ} (r : Result A) → ((a : A) × (r ≡ ok a)) ⊎ ((e : Error) × (r ≡ raise e))
Result-cases (ok a) = inl (a, refl)
Result-cases (raise e) = inr (e, refl)

pub ok-injective {ℓ} : {A : Type ℓ} {a b : A} → ok a ≡ ok b → a ≡ b
ok-injective e = cc

-- A step that is followed by others: if all of it returns, so did the step, and the rest returned
-- from its value.
module _ {ℓ κ} {A : Type ℓ} {B : Type κ} where
  pub bind-of_ok :
      (step : Result A) (next : A → Result B) {a : A} → step ≡ ok a → (step >>= next) ≡ next a
  bind-of_ok step next e = rw e

  pub bind-eq-ok :
      (step : Result A) (next : A → Result B) {result : B}
      → (step >>= next) ≡ ok result
      → (a : A) × (step ≡ ok a) × (next a ≡ ok result)
  bind-eq-ok (ok a) next returned = (a, refl, returned)
  bind-eq-ok (raise e) next returned = cc
