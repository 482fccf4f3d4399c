-- ===== src/Drawing/Saving.antt =====
-- The files that a run of the plotting scripts of project/analysis saves.
use mathlib.Core.List.{append_assoc}
use laborator_pcd.Base.{◌≡◌, refl, sym, ap, ◌∙◌, List, [], ◌∷◌, ◌++◌, map, String}
use laborator_pcd.Py.{Result, ok, raise}
use laborator_pcd.Drawing.{Call, save, Run, ◌>>=◌, lift}

abbrev pub saved_by : {F : Type 0} → Call F → List String
saved_by (save name) = name ∷ []
saved_by call = []

unfoldable pub saved : {F : Type 0} → List (Call F) → List String
saved [] = []
saved (call ∷ calls) = saved_by call ++ saved calls

-- If the run ends with a value, it has saved the files that are named for that value, in order.
pub record Saves {F A : Type 0} (names : A → List String) (r : Run F A) : Type 0 where
  pub saves : (a : A) → r.1 ≡ ok a → saved r.0 ≡ names a

module _ {F : Type 0} where
  pub saved-append : (xs ys : List (Call F)) → saved (xs ++ ys) ≡ saved xs ++ saved ys
  unfolding saved
  saved-append [] ys = refl
  saved-append (x ∷ xs) ys =
      ap (λ names. saved_by x ++ names) (saved-append xs ys)
      ∙ sym (append_assoc (saved_by x) (saved xs) (saved ys))

  pub saved-map :
      {A : Type 0} (f : A → Call F) (xs : List A)
      → ((x : A) → saved_by (f x) ≡ [])
      → saved (map f xs) ≡ []
  unfolding saved
  saved-map f [] h = refl
  saved-map f (x ∷ xs) h = rw (h x) (saved-map f xs h)

  pub Saves-emit :
      (calls : List (Call F)) {names : List String}
      → saved calls ≡ names
      → Saves (λ _. names) (calls, ok tt)
  Saves-emit calls h = record { saves = λ _ _. h }

  pub Saves-lift : {A : Type 0} (r : Result A) → Saves {F = F} (λ _. []) ([], r)
  unfolding saved
  Saves-lift r = record { saves = λ _ _. refl }

  pub Saves-bind :
      {A B : Type 0} {names : List String} {more : B → List String} (r : Run F A)
      (next : A → Run F B)
      → Saves (λ _. names) r
      → ((a : A) → Saves more (next a))
      → Saves (λ b. names ++ more b) (r >>= next)
  Saves-bind (calls, raise e) next first rest = record { saves = λ b h. absurd (cc h) }
  Saves-bind {names = names} (calls, ok a) next first rest = record {
    saves = λ b h.
        saved-append calls (next a).0
        ∙ ap (λ found. found ++ saved (next a).0) (first.saves a refl)
        ∙ ap (λ found. names ++ found) ((rest a).saves b h);
  }

  -- A computation that draws nothing, and what follows it.
  pub Saves-after :
      {A B : Type 0} {more : B → List String} (r : Result A) (next : A → Run F B)
      → ((a : A) → r ≡ ok a → Saves more (next a))
      → Saves more (lift r >>= next)
  Saves-after (raise e) next rest = record { saves = λ b h. absurd (cc h) }
  Saves-after (ok a) next rest = record { saves = (rest a refl).saves }
