-- ===== src/Py/Values.antt =====
-- The values that `json.loads` gives, and what the scripts do with them. A `dict` is its list of
-- entries; its keys are distinct, as in every decoded object.
use laborator_pcd.Base.{ℤ, String, str_eq, Bool, true, false, if◌then◌else◌}
use laborator_pcd.Py.Exceptions.{attribute_error, type_error, key_error, Result, ok, raise}

mutual
  pub data Json (F : Type 0) : Type 0 where
    null : Json F
    bool : Bool → Json F
    int : ℤ → Json F
    float : F → Json F
    str : String → Json F
    arr : Items F → Json F
    obj : Fields F → Json F

  pub data Items (F : Type 0) : Type 0 where
    nil : Items F
    cons : Json F → Items F → Items F

  pub data Fields (F : Type 0) : Type 0 where
    end : Fields F
    field : String → Json F → Fields F → Fields F

module _ {F : Type 0} where
  -- `fields.get(key, default)`
  unfoldable pub lookup_or : Fields F → String → Json F → Json F
  lookup_or end key default = default
  lookup_or (field k v fs) key default = if str_eq k key then v else lookup_or fs key default

  -- `key in fields`
  unfoldable pub has_key : Fields F → String → Bool
  has_key end key = false
  has_key (field k v fs) key = if str_eq k key then true else has_key fs key

  -- `value.get(key, default)`: of these values only a dict has the method.
  unfoldable pub get : Json F → String → Json F → Result (Json F)
  get (obj fs) key default = ok (lookup_or fs key default)
  get _ key default = raise attribute_error

  -- `value[key]` for a key that is a text: a list wants an integer, and the others no index.
  unfoldable pub index : Json F → String → Result (Json F)
  index (obj fs) key = if has_key fs key then ok (lookup_or fs key null) else raise key_error
  index _ key = raise type_error

  -- `value == text`
  unfoldable pub is_text : Json F → String → Bool
  is_text (str s) t = str_eq s t
  is_text _ t = false

  -- `value is None`
  abbrev pub is_none : Json F → Bool
  is_none null = true
  is_none _ = false

  abbrev pub is_dict : Json F → Bool
  is_dict (obj _) = true
  is_dict _ = false
