-- ===== src/Drawing/Discipline.antt =====
-- The order of calls that the plotting scripts of project/analysis keep: one figure at a time, drawn
-- on and saved only while it is open.
use mathlib.Core.Option.{some-injective}
use laborator_pcd.Base.{
  ◌≡◌, ◌≢◌, refl, ap, ◌∙◌, Bool, true, false, Option, none, some, List, [], ◌∷◌, ◌++◌, map,
}
use laborator_pcd.Py.{Result, ok, raise}
use laborator_pcd.Drawing.{Call, subplots, close, Run, ◌>>=◌, lift}

-- Whether a figure is open after a call; `none` if the call comes at the wrong time.
abbrev pub after_call : {F : Type 0} → Bool → Call F → Option Bool
after_call false (subplots n) = some true
after_call false call = none
after_call true (subplots n) = none
after_call true close = some false
after_call true call = some true

abbrev pub bind_open : Option Bool → (Bool → Option Bool) → Option Bool
bind_open none next = none
bind_open (some b) next = next b

unfoldable pub follow : {F : Type 0} → Bool → List (Call F) → Option Bool
follow b [] = some b
follow b (call ∷ calls) = bind_open (after_call b call) (λ b'. follow b' calls)

-- A run keeps the order from a state on. If it ends without an exception, it leaves the other.
pub record Keeps {F A : Type 0} (before after : Bool) (r : Run F A) : Type 0 where
  pub last : Bool
  pub follows : follow before r.0 ≡ some last
  pub ends : (a : A) → r.1 ≡ ok a → last ≡ after

pub follow-append :
    {F : Type 0} (b : Bool) (xs ys : List (Call F)) {c : Bool}
    → follow b xs ≡ some c
    → follow b (xs ++ ys) ≡ follow c ys
unfolding follow
follow-append b [] ys h = ap (λ b. follow b ys) (some-injective _ _ h)
follow-append b (x ∷ xs) ys {c} h = step (after_call b x) (λ b' h'. follow-append b' xs ys h') h
  where
    step :
        (o : Option Bool)
        → ((b' : Bool) → follow b' xs ≡ some c → follow b' (xs ++ ys) ≡ follow c ys)
        → bind_open o (λ b'. follow b' xs) ≡ some c
        → bind_open o (λ b'. follow b' (xs ++ ys)) ≡ follow c ys
    step none again h = cc
    step (some b') again h = again b' h

-- Calls that draw on an open figure and leave it open.
pub follow-map :
    {F A : Type 0} (f : A → Call F) (xs : List A)
    → ((x : A) → after_call true (f x) ≡ some true)
    → follow true (map f xs) ≡ some true
unfolding follow
follow-map f [] h = refl
follow-map f (x ∷ xs) h = rw (h x) (follow-map f xs h)

module _ {F : Type 0} where
  pub Keeps-emit :
      (b c : Bool) (calls : List (Call F)) → follow b calls ≡ some c → Keeps b c (calls, ok tt)
  Keeps-emit b c calls h = record { last = c; follows = h; ends = λ _ _. refl }

  pub Keeps-lift : {A : Type 0} (b : Bool) (r : Result A) → Keeps {F = F} b b ([], r)
  unfolding follow
  Keeps-lift b r = record { last = b; follows = refl; ends = λ _ _. refl }

  pub Keeps-bind :
      {A B : Type 0} (b c d : Bool) (r : Run F A) (next : A → Run F B)
      → Keeps b c r
      → ((a : A) → Keeps c d (next a))
      → Keeps b d (r >>= next)
  Keeps-bind b c d (calls, raise e) next first rest = record {
    last = first.last;
    follows = first.follows;
    ends = λ a h. absurd (cc h);
  }
  Keeps-bind b c d (calls, ok a) next first rest =
      let more = rest a in
      let here : first.last ≡ c = first.ends a refl in
      record {
        last = more.last;
        follows =
            follow-append b calls (next a).0 first.follows
            ∙ ap (λ x. follow x (next a).0) here
            ∙ more.follows;
        ends = more.ends;
      }

  -- A computation that draws nothing, and what follows it.
  pub Keeps-after :
      {A B : Type 0} {b d : Bool} (r : Result A) (next : A → Run F B)
      → ((a : A) → Keeps b d (next a))
      → Keeps b d (lift r >>= next)
  Keeps-after {b} {d} r next rest = Keeps-bind b b d (lift r) next (Keeps-lift b r) rest

  pub Keeps-then :
      {A B : Type 0} {b c d : Bool} {r : Run F A} {rest : Run F B}
      → Keeps b c r
      → Keeps c d rest
      → Keeps b d (r >>= λ _. rest)
  Keeps-then {b} {c} {d} {r} {rest} first more = Keeps-bind b c d r (λ _. rest) first (λ _. more)

  pub Keeps-closed :
      {A : Type 0} {b c : Bool} {r : Run F A} {a : A}
      → Keeps b c r
      → r.1 ≡ ok a
      → follow b r.0 ≡ some c
  Keeps-closed {a = a} keeps h = keeps.follows ∙ ap some (keeps.ends a h)

  pub Keeps-in_order : {A : Type 0} {b c : Bool} {r : Run F A} → Keeps b c r → follow b r.0 ≢ none
  Keeps-in_order keeps h = cc (keeps.follows, h)
