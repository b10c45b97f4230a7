-- ===== src/Prelude/Results.antt =====
-- The result of fallible code. `panic` is a panic that unwinds: a failed index, `expect` or
-- `unwrap` of the source.
use mathlib.Core.Path.{◌≡◌, refl, ap}
use mathlib.Core.Logic.{◌⊎◌, inl, inr}
use mathlib.Core.List.{List, [], ◌∷◌}

pub data Result {ℓ} (E : Type 0) (A : Type ℓ) : Type ℓ where
  ok : A → Result E A
  err : E → Result E A
  panic : Result E A

-- The `?` operator.
infixl 5 ◌>>=◌ ◌>>◌
abbrev pub ◌>>=◌ {ℓ κ} :
    {E : Type 0} {A : Type ℓ} {B : Type κ} → Result E A → (A → Result E B) → Result E B
ok a >>= f = f a
err e >>= f = err e
panic >>= f = panic

abbrev pub ◌>>◌ {ℓ} : {E : Type 0} {B : Type ℓ} → Result E (Unit {0}) → Result E B → Result E B
m >> k = m >>= λ _. k

-- `Result::map_err`.
abbrev pub map_err {ℓ} : {E F : Type 0} {A : Type ℓ} → (E → F) → Result E A → Result F A
map_err f (ok a) = ok a
map_err f (err e) = err (f e)
map_err f panic = panic

-- A `for` loop whose body may return early with an error.
unfoldable pub for_each {ℓ} :
    {E : Type 0} {A : Type ℓ} → (A → Result E (Unit {0})) → List A → Result E (Unit {0})
for_each body [] = ok tt
for_each body (x ∷ xs) = do body x; for_each body xs

abbrev ok_or {ℓ} : {E : Type 0} {A : Type ℓ} → A → Result E A → A
ok_or d (ok a) = a
ok_or d _ = d

pub ok-injective {ℓ} :
    {E : Type 0} {A : Type ℓ} {a b : A} → ◌≡◌ {A = Result E A} (ok a) (ok b) → a ≡ b
ok-injective {a} e = ap (ok_or a) e

pub err≢ok {ℓ} : {E : Type 0} {A : Type ℓ} {e : E} {a : A} → ◌≡◌ {A = Result E A} (err e) (ok a) → ⊥
err≢ok h = cc

pub panic≢err {ℓ} : {E : Type 0} {A : Type ℓ} {e : E} → ◌≡◌ {A = Result E A} panic (err e) → ⊥
panic≢err h = cc

pub panic≢ok {ℓ} : {E : Type 0} {A : Type ℓ} {a : A} → ◌≡◌ {A = Result E A} panic (ok a) → ⊥
panic≢ok h = cc

pub >>=-eq-ok {ℓ κ} :
    {E : Type 0} {A : Type ℓ} {B : Type κ} (r : Result E A) (k : A → Result E B) {out : B}
    → (r >>= k) ≡ ok out
    → (value : A) × (r ≡ ok value) × (k value ≡ ok out)
>>=-eq-ok (ok value) k done = (value, refl, done)
>>=-eq-ok (err e) k done = cc
>>=-eq-ok panic k done = cc

pub Result-cases {ℓ} :
    {E : Type 0} {A : Type ℓ} (r : Result E A)
    → ((a : A) × (r ≡ ok a)) ⊎ ((e : E) × (r ≡ err e)) ⊎ (r ≡ panic)
Result-cases (ok a) = inl (a, refl)
Result-cases (err e) = inr (inl (e, refl))
Result-cases panic = inr (inr refl)

pub map_err-eq-ok {ℓ} :
    {E F : Type 0} {A : Type ℓ} (f : E → F) (r : Result E A) (a : A) → map_err f r ≡ ok a → r ≡ ok a
map_err-eq-ok f (ok b) a h = ap ok (ok-injective h)
map_err-eq-ok f (err e) a h = cc
map_err-eq-ok f panic a h = cc

pub map_err-eq-err {ℓ} :
    {E F : Type 0} {A : Type ℓ} (f : E → F) (r : Result E A) (out : F)
    → map_err f r ≡ err out
    → (e : E) × (r ≡ err e)
map_err-eq-err f (ok a) out h = cc
map_err-eq-err f (err e) out h = (e, refl)
map_err-eq-err f panic out h = cc

pub map_err-eq-panic {ℓ} :
    {E F : Type 0} {A : Type ℓ} (f : E → F) (r : Result E A) → map_err f r ≡ panic → r ≡ panic
map_err-eq-panic f (ok a) h = cc
map_err-eq-panic f (err e) h = cc
map_err-eq-panic f panic h = refl
