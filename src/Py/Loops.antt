-- ===== src/Py/Loops.antt =====
-- Loops that append one result for each element, and stop at the first exception.
use laborator_pcd.Base.{◌≡◌, refl, sym, ap, ◌∙◌, suc, List, [], ◌∷◌, map, length, All, All₂}
use laborator_pcd.Py.Exceptions.{Result, ok, ◌>>=◌, bind-eq-ok, ok-injective}

module _ {ℓ κ} {A : Type ℓ} {B : Type κ} where
  unfoldable pub for_each : (A → Result B) → List A → Result (List B)
  for_each f [] = ok []
  for_each f (x ∷ xs) = do y ← f x; ys ← for_each f xs; ok (y ∷ ys)

  -- A loop that updates a state, and stops at the first exception.
  unfoldable pub fold_each : (B → A → Result B) → B → List A → Result B
  fold_each f s [] = ok s
  fold_each f s (x ∷ xs) = do s' ← f s x; fold_each f s' xs

  -- A body that never raises: the loop is a `map`.
  pub for_each-map :
      (f : A → Result B) (g : A → B) (xs : List A)
      → ((x : A) → f x ≡ ok (g x))
      → for_each f xs ≡ ok (map g xs)
  unfolding for_each
  for_each-map f g [] total = refl
  for_each-map f g (x ∷ xs) total = rw (total x, for_each-map f g xs total)

-- A body that raises nothing on these elements: nor does the loop.
pub for_each-total {ℓ κ} :
    {A : Type ℓ} {B : Type κ} (f : A → Result B) (xs : List A)
    → All (λ x. (y : B) × (f x ≡ ok y)) xs
    → (ys : List B) × (for_each f xs ≡ ok ys)
unfolding for_each
for_each-total f [] h = ([], refl)
for_each-total f (x ∷ xs) ((y, e), h) = let (ys, es) = for_each-total f xs h in (y ∷ ys, rw (e, es))

-- A body that raises nothing: nor does the loop, and its results are the body's, in order.
pub for_each-All₂ {ℓ κ μ} :
    {A : Type ℓ} {B : Type κ} (R : A → B → Type μ) (f : A → Result B)
    → ((x : A) → (y : B) × (f x ≡ ok y) × R x y)
    → (xs : List A) → (ys : List B) × (for_each f xs ≡ ok ys) × All₂ R xs ys
unfolding for_each
for_each-All₂ R f total [] = ([], refl, tt)
for_each-All₂ R f total (x ∷ xs) =
    let (y, e, r) = total x in
    let (ys, es, rs) = for_each-All₂ R f total xs in (y ∷ ys, rw (e, es), (r, rs))

-- Where one loop raises nothing, nor does another whose body succeeds wherever the first one's does.
pub for_each-transfer {ℓ κ μ} :
    {A : Type ℓ} {B : Type κ} {C : Type μ} (f : A → Result B) (g : A → Result C) (xs : List A)
    {ys : List B}
    → ((x : A) (y : B) → f x ≡ ok y → (z : C) × (g x ≡ ok z))
    → for_each f xs ≡ ok ys
    → (zs : List C) × (for_each g xs ≡ ok zs)
unfolding for_each
for_each-transfer f g [] also e = ([], refl)
for_each-transfer f g (x ∷ xs) also e =
    let (y, first, e') = bind-eq-ok (f x) _ e in
    let (ys, rest, _) = bind-eq-ok (for_each f xs) _ e' in
    let (z, ez) = also x y first in
    let (zs, ezs) = for_each-transfer f g xs also rest in (z ∷ zs, rw (ez, ezs))

-- What holds of every result of the body holds of all that the loop collects.
pub for_each-All {ℓ κ μ} :
    {A : Type ℓ} {B : Type κ} (P : A → Type μ) (Q : B → Type μ) (f : A → Result B) (xs : List A)
    {ys : List B}
    → ((x : A) (y : B) → P x → f x ≡ ok y → Q y)
    → All P xs
    → for_each f xs ≡ ok ys
    → All Q ys
unfolding for_each
for_each-All P Q f [] keep p e = rw (← ok-injective e) tt
for_each-All P Q f (x ∷ xs) keep p e =
    let (y, first, e') = bind-eq-ok (f x) _ e in
    let (ys, rest, e'') = bind-eq-ok (for_each f xs) _ e' in
    rw (← ok-injective e'') (keep x y p.0 first, for_each-All P Q f xs keep p.1 rest)

pub length-for_each {ℓ κ} :
    {A : Type ℓ} {B : Type κ} (f : A → Result B) (xs : List A) {ys : List B}
    → for_each f xs ≡ ok ys
    → length ys ≡ length xs
unfolding for_each
length-for_each f [] e = ap length (sym (ok-injective e))
length-for_each f (x ∷ xs) e =
    let (y, first, e') = bind-eq-ok (f x) _ e in
    let (ys, rest, e'') = bind-eq-ok (for_each f xs) _ e' in
    ap length (sym (ok-injective e'')) ∙ ap suc (length-for_each f xs rest)

-- A view of the results that the elements determine.
pub map-for_each {ℓ κ μ} :
    {A : Type ℓ} {B : Type κ} {C : Type μ} (f : A → Result B) (g : B → C) (h : A → C) (xs : List A)
    {ys : List B}
    → ((x : A) (y : B) → f x ≡ ok y → g y ≡ h x)
    → for_each f xs ≡ ok ys
    → map g ys ≡ map h xs
unfolding for_each
map-for_each f g h [] seen e = rw (← ok-injective e)
map-for_each f g h (x ∷ xs) {ys} seen e =
    let (y, first, e') = bind-eq-ok (f x) _ e in
    let (zs, rest, e'') = bind-eq-ok (for_each f xs) _ e' in
    rw (← ok-injective e'') (cc (seen x y first, map-for_each f g h xs seen rest))
