-- ===== src/Drawing/Figure.antt =====
-- A part of a plotting script of project/analysis that draws in order and saves known files.
use laborator_pcd.Base.{◌≡◌, refl, Bool, true, some, List, [], ◌++◌, map, String}
use laborator_pcd.Py.{Error, Result, ok, raise}
use laborator_pcd.Drawing.{Call, Run, ◌>>=◌, lift}
use laborator_pcd.Drawing.Discipline.{
  after_call, follow, follow-map, Keeps, Keeps-emit, Keeps-lift, Keeps-bind, Keeps-after,
  Keeps-closed,
}
use laborator_pcd.Drawing.Saving.{
  saved_by, saved, saved-map, Saves, Saves-emit, Saves-lift, Saves-bind, Saves-after,
}

pub record Figure {F A : Type 0} (before after : Bool) (names : List String) (r : Run F A)
    : Type 0 where
  pub keeps : Keeps before after r
  pub saves : Saves (λ _. names) r

module _ {F : Type 0} where
  pub Figure-emit :
      (b d : Bool) (calls : List (Call F)) {names : List String}
      → follow b calls ≡ some d
      → saved calls ≡ names
      → Figure b d names (calls, ok tt)
  Figure-emit b d calls h e = record { keeps = Keeps-emit b d calls h; saves = Saves-emit calls e }

  -- Calls that draw on the open figure.
  pub Figure-map :
      {A : Type 0} (f : A → Call F) (xs : List A)
      → ((x : A) → after_call true (f x) ≡ some true)
      → ((x : A) → saved_by (f x) ≡ [])
      → Figure true true [] (map f xs, ok tt)
  Figure-map f xs h e = record {
    keeps = Keeps-emit true true (map f xs) (follow-map f xs h);
    saves = Saves-emit (map f xs) (saved-map f xs e);
  }

  -- Code that draws nothing, and code that ends the script with an exception.
  pub Figure-lift : {A : Type 0} (b : Bool) (r : Result A) → Figure {F = F} b b [] ([], r)
  Figure-lift b r = record { keeps = Keeps-lift b r; saves = Saves-lift r }

  pub Figure-raise :
      {A : Type 0} (b d : Bool) (names : List String) (e : Error)
      → Figure {F = F} {A = A} b d names ([], raise e)
  unfolding follow
  Figure-raise b d names e = record {
    keeps = record { last = b; follows = refl; ends = λ a h. absurd (cc h) };
    saves = record { saves = λ a h. absurd (cc h) };
  }

  pub Figure-bind :
      {A B : Type 0} {b c d : Bool} {names more : List String} (r : Run F A) (next : A → Run F B)
      → Figure b c names r
      → ((a : A) → Figure c d more (next a))
      → Figure b d (names ++ more) (r >>= next)
  Figure-bind {b = b} {c = c} {d = d} r next first rest = record {
    keeps = Keeps-bind b c d r next first.keeps (λ a. (rest a).keeps);
    saves = Saves-bind r next first.saves (λ a. (rest a).saves);
  }

  pub Figure-then :
      {A B : Type 0} {b c d : Bool} {names more : List String} {r : Run F A} {rest : Run F B}
      → Figure b c names r
      → Figure c d more rest
      → Figure b d (names ++ more) (r >>= λ _. rest)
  Figure-then {r = r} {rest = rest} first later = Figure-bind r (λ _. rest) first (λ _. later)

  pub Figure-after :
      {A B : Type 0} {b d : Bool} {names : List String} (r : Result A) (next : A → Run F B)
      → ((a : A) → Figure b d names (next a))
      → Figure b d names (lift r >>= next)
  Figure-after r next rest = record {
    keeps = Keeps-after r next (λ a. (rest a).keeps);
    saves = Saves-after r next (λ a _. (rest a).saves);
  }

  pub Figure-known :
      {A B : Type 0} {b d : Bool} {names : List String} {r : Result A} {a : A} (next : A → Run F B)
      → r ≡ ok a
      → Figure b d names (next a)
      → Figure b d names (lift r >>= next)
  Figure-known next h rest = rw h rest

  pub Figure-saved :
      {A : Type 0} {b d : Bool} {names : List String} {r : Run F A} {a : A}
      → Figure b d names r
      → r.1 ≡ ok a
      → follow b r.0 ≡ some d × saved r.0 ≡ names
  Figure-saved {a = a} figure h = (Keeps-closed figure.keeps h, figure.saves.saves a h)
