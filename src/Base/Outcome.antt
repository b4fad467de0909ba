-- ===== src/Base/Outcome.antt =====
-- Rust's `Result`, and the `?` operator as a monad.
use mathlib.Core.Path.{◌≡◌, refl}
use mathlib.Core.Option.{Option, none, some}
use mathlib.Core.Logic.{◌⊎◌, inl, inr}

pub data Result {ℓ κ} (A : Type ℓ) (E : Type κ) : Type (ℓ ⊔ κ) where
  ok : A → Result A E
  err : E → Result A E

infixl 5 ◌>>=◌ ◌>>◌
abbrev pub ◌>>=◌ {ℓ κ μ} :
    {A : Type ℓ} {B : Type κ} {E : Type μ} → Result A E → (A → Result B E) → Result B E
ok a >>= f = f a
err e >>= f = err e

abbrev pub ◌>>◌ {κ μ} : {B : Type κ} {E : Type μ} → Result (Unit {0}) E → Result B E → Result B E
m >> k = m >>= λ _. k

module _ {ℓ κ} {A : Type ℓ} {E : Type κ} where
  -- `Result::map_err`
  abbrev pub map_err {μ} : {F : Type μ} → (E → F) → Result A E → Result A F
  map_err f (ok a) = ok a
  map_err f (err e) = err (f e)

  -- `Option::ok_or`
  abbrev pub ok_or : Option A → E → Result A E
  ok_or none e = err e
  ok_or (some a) e = ok a

  pub Result-cases : (r : Result A E) → ((a : A) × (r ≡ ok a)) ⊎ ((e : E) × (r ≡ err e))
  Result-cases (ok a) = inl (a, refl)
  Result-cases (err e) = inr (e, refl)

  abbrev pub IsOk : Result A E → Type 0
  IsOk (ok _) = Unit
  IsOk (err _) = ⊥

  -- A bind that succeeds runs both of its parts.
  pub >>=-eq-ok {μ} :
      {B : Type μ} (r : Result A E) (next : A → Result B E) {y : B}
      → (r >>= next) ≡ ok y
      → (x : A) × (r ≡ ok x) × (next x ≡ ok y)
  >>=-eq-ok (err e) next h = cc
  >>=-eq-ok (ok x) next h = (x, refl, h)

module _ {A E : Type 0} where
  pub ok_or-eq-ok : (o : Option A) (e : E) {a : A} → ok_or o e ≡ ok a → o ≡ some a
  ok_or-eq-ok none e h = cc
  ok_or-eq-ok (some b) e h = cc

  pub ok_or-eq-err : (o : Option A) (e : E) {f : E} → ok_or o e ≡ err f → (o ≡ none) × (e ≡ f)
  ok_or-eq-err none e h = (refl, cc)
  ok_or-eq-err (some b) e h = cc

module _ {A E F : Type 0} where
  pub map_err-eq-ok : (f : E → F) (r : Result A E) {a : A} → map_err f r ≡ ok a → r ≡ ok a
  map_err-eq-ok f (ok b) h = cc
  map_err-eq-ok f (err e) h = cc

  pub map_err-eq-err :
      (f : E → F) (r : Result A E) {g : F} → map_err f r ≡ err g → (e : E) × (r ≡ err e) × (f e ≡ g)
  map_err-eq-err f (ok b) h = cc
  map_err-eq-err f (err e) h = (e, refl, cc)
