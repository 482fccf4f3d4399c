-- ===== src/Numpy.antt =====
-- What the scripts take from numpy: percentiles of a list of numbers, a third-party routine.
use laborator_pcd.Base.{ℕ, ◌≡◌, Bool, true, false, List, All}
use laborator_pcd.Py.{Result, ok, Json, int, float, Floats, to_float, for_each}

pub record Numpy (F : Type 0) : Type 0 where
  -- `float(np.percentile(values, q))`, for values that are not empty
  pub percentile : List F → ℕ → F
  -- The same for values of any kind: an exception where they are no array of numbers.
  pub percentile_of : List (Json F) → ℕ → Result F
  -- `np.array(rows).max()`
  pub max_of : List (List F) → F

abbrev pub is_number : {F : Type 0} → Json F → Bool
is_number (int _) = true
is_number (float _) = true
is_number _ = false

-- Percentiles of numbers are those of the numbers as floats.
abbrev pub ConvertsFirst : {F : Type 0} ⦃fl : Floats F⦄ → Numpy F → Type 0
ConvertsFirst {F} np =
    (values : List (Json F)) (xs : List F) (q : ℕ)
    → All (λ v. is_number v ≡ true) values
    → for_each to_float values ≡ ok xs
    → np.percentile_of values q ≡ ok (np.percentile xs q)
