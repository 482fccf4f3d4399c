-- ===== src/Paper/Scaling/Aligned.antt =====
-- The three lists of `fig_hpa_scaling` in project/analysis/plot_paper_figures.py stay aligned.
use mathlib.Core.Path.{subst}
use mathlib.Core.Option.{some-injective}
use laborator_pcd.Base.{
  String, ◌+◌, ◌≡◌, refl, ◌⊎◌, inl, inr, ℤ, pos, false, if◌then◌else◌, Option, none, some, List, [],
  ◌∷◌, ◌++◌, arith, length, length-append, Bool-cases,
}
use laborator_pcd.Base.Chars.{Chars}
use laborator_pcd.Py.{
  Error, Result, ok, raise, ◌>>=◌, Json, int, get, Floats, to_float, to_int, strip, is_empty,
  Decoder, or_raise, null, bool, float, str, arr, obj, type_error, value_error, overflow_error,
  attribute_error,
}
use laborator_pcd.Paper.Scaling.{
  Timeline, Progress, is_skipped, push_cpu, push_replicas, push_elapsed, try_line, catch, read_line,
  read_timeline, carry_on,
}

pub record IsAligned {F : Type 0} (s : Timeline F) : Type 0 where
  pub as_replicas : length s.elapsed ≡ length s.replicas
  pub as_cpu : length s.elapsed ≡ length s.cpu_pct

raise-injective : (A : Type 0) {e f : Error} → ◌≡◌ {A = Result A} (raise e) (raise f) → e ≡ f
raise-injective A h = cc

-- Neither conversion raises one of the exceptions that the loop catches.
or_raise-uncaught :
    (A : Type 0) (f : Error) (o : Option A) {e : Error}
    → is_skipped f ≡ false
    → or_raise f o ≡ raise e
    → is_skipped e ≡ false
or_raise-uncaught A f none other h = subst (λ x. is_skipped x ≡ false) (raise-injective A h) other
or_raise-uncaught A f (some a) other h = cc

not-caught :
    (A : Type 0) (f : Error) {e : Error}
    → is_skipped f ≡ false
    → ◌≡◌ {A = Result A} (raise f) (raise e)
    → is_skipped e ≡ false
not-caught A f other h = subst (λ x. is_skipped x ≡ false) (raise-injective A h) other

module _ {F : Type 0} ⦃fl : Floats F⦄ where
  to_float-uncaught : (v : Json F) {e : Error} → to_float v ≡ raise e → is_skipped e ≡ false
  unfolding to_float
  to_float-uncaught null h = not-caught _ type_error refl h
  to_float-uncaught (bool b) h = or_raise-uncaught _ overflow_error _ refl h
  to_float-uncaught (int n) h = or_raise-uncaught _ overflow_error _ refl h
  to_float-uncaught (float x) h = cc
  to_float-uncaught (str s) h = or_raise-uncaught _ value_error _ refl h
  to_float-uncaught (arr xs) h = not-caught _ type_error refl h
  to_float-uncaught (obj fs) h = not-caught _ type_error refl h

  to_int-uncaught : (v : Json F) {e : Error} → to_int v ≡ raise e → is_skipped e ≡ false
  unfolding to_int
  to_int-uncaught null h = not-caught _ type_error refl h
  to_int-uncaught (bool b) h = cc
  to_int-uncaught (int n) h = cc
  to_int-uncaught (float x) h =
      or_raise-uncaught _ (if fl.is_nan x then value_error else overflow_error) (fl.trunc x)
        (ground arith) h
  to_int-uncaught (str s) h = or_raise-uncaught _ value_error _ refl h
  to_int-uncaught (arr xs) h = not-caught _ type_error refl h
  to_int-uncaught (obj fs) h = not-caught _ type_error refl h

  -- `convert(v.get(key, d))`, for a conversion that raises none of them.
  get-uncaught :
      {A : Type 0} (convert : Json F → Result A) (v : Json F) (key : String) (d : Json F)
      {e : Error}
      → ((w : Json F) (f : Error) → convert w ≡ raise f → is_skipped f ≡ false)
      → (get v key d >>= convert) ≡ raise e
      → is_skipped e ≡ false
  unfolding get
  get-uncaught convert null key d safe h = not-caught _ attribute_error refl h
  get-uncaught convert (bool b) key d safe h = not-caught _ attribute_error refl h
  get-uncaught convert (int n) key d safe h = not-caught _ attribute_error refl h
  get-uncaught convert (float x) key d safe h = not-caught _ attribute_error refl h
  get-uncaught convert (str s) key d safe h = not-caught _ attribute_error refl h
  get-uncaught convert (arr xs) key d safe h = not-caught _ attribute_error refl h
  get-uncaught convert (obj fs) key d safe h = safe _ _ h

  -- The lists are aligned, or an exception is on its way that the loop does not catch.
  abbrev Keeps : Progress F → Type 0
  Keeps p = IsAligned p.0 ⊎ ((e : Error) × (p.1 ≡ some e) × (is_skipped e ≡ false))

  push_cpu-Keeps :
      (s : Timeline F) (r : Result F)
      → length s.elapsed ≡ length s.replicas
      → length s.elapsed ≡ length s.cpu_pct + 1
      → ((e : Error) → r ≡ raise e → is_skipped e ≡ false)
      → Keeps (push_cpu s r)
  push_cpu-Keeps s (raise e) same one safe = inr (e, refl, safe e refl)
  push_cpu-Keeps s (ok x) same one safe = inl (omega (arith, length-append {0} s.cpu_pct (x ∷ [])))

  push_replicas-Keeps :
      (s : Timeline F) (v : Json F) (r : Result ℤ)
      → length s.elapsed ≡ length s.replicas + 1
      → length s.elapsed ≡ length s.cpu_pct + 1
      → ((e : Error) → r ≡ raise e → is_skipped e ≡ false)
      → Keeps (push_replicas s v r)
  push_replicas-Keeps s v (raise e) same one safe = inr (e, refl, safe e refl)
  push_replicas-Keeps s v (ok n) same one safe =
      push_cpu-Keeps (record s { replicas = s.replicas ++ (n ∷ []) }) _
        (omega (arith, length-append {0} s.replicas (n ∷ []))) one
        (λ e h. get-uncaught to_float v "cpu_pct" (int (pos 0)) (λ w f g. to_float-uncaught w g) h)

  push_elapsed-Keeps :
      (s : Timeline F) (v : Json F) (r : Result F) → IsAligned s → Keeps (push_elapsed s v r)
  push_elapsed-Keeps s v (raise e) a = inl a
  push_elapsed-Keeps s v (ok x) a =
      push_replicas-Keeps (record s { elapsed = s.elapsed ++ (x ∷ []) }) v _
        (omega (arith, length-append {0} s.elapsed (x ∷ [])))
        (omega (arith, length-append {0} s.elapsed (x ∷ [])))
        (λ e h. get-uncaught to_int v "replicas" (int (pos 2)) (λ w f g. to_int-uncaught w g) h)

  -- After the `except` the lists are aligned, or the exception goes on.
  abbrev Aligns : Progress F → Type 0
  Aligns p = p.1 ≡ none → IsAligned p.0

  catch-Aligns : (p : Progress F) → Keeps p → Aligns (catch p)
  catch-Aligns (s, none) (inl a) h = a
  catch-Aligns (s, none) (inr (e, raised, _)) h = cc
  catch-Aligns (s, some e) (inl a) h = ground arith
  catch-Aligns (s, some e) (inr (f, raised, other)) h = ground (arith, some-injective e f raised)

  read_line-Aligns :
      (loads : Decoder F) (s : Timeline F) (line : Chars)
      → IsAligned s
      → Aligns (read_line loads s line)
  unfolding read_line
  read_line-Aligns loads s line a = elim (Bool-cases (is_empty (strip line))) [
    | inl e ↦ rw e (λ _. a)
    | inr e ↦ rw e (catch-Aligns _ (decoded (loads (strip line))))
  ]
    where
      decoded : (o : Option (Json F)) → Keeps (try_line s o)
      decoded none = inl a
      decoded (some v) = push_elapsed-Keeps s v _ a

  -- When the loop over the timeline ends without an exception from lists that are aligned, each
  -- time has its replica count and its utilisation.
  pub read_timeline-IsAligned :
      (loads : Decoder F) (lines : List Chars) (s : Timeline F)
      → IsAligned s
      → (read_timeline loads s lines).1 ≡ none
      → IsAligned (read_timeline loads s lines).0
  unfolding read_timeline
  read_timeline-IsAligned loads [] s a h = a
  read_timeline-IsAligned loads (l ∷ ls) s a h =
      next (read_line loads s l) (read_line-Aligns loads s l a) (read_timeline-IsAligned loads ls) h
    where
      next :
          (p : Progress F)
          → Aligns p
          → ((s' : Timeline F)
              → IsAligned s'
              → (read_timeline loads s' ls).1 ≡ none
              → IsAligned (read_timeline loads s' ls).0)
          → (carry_on p (λ s'. read_timeline loads s' ls)).1 ≡ none
          → IsAligned (carry_on p (λ s'. read_timeline loads s' ls)).0
      next (s', none) aligned again h = again s' (aligned refl) h
      next (s', some e) aligned again h = cc
