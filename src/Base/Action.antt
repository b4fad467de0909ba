-- ===== src/Base/Action.antt =====
-- An `async fn` that talks to the outside: state passing with `Result`. The state comes back after
-- an error too, since what was sent stays sent.
use ipmaze.Base.{Result, ok, err, ◌≡◌, refl, ap, ◌⊎◌, inl, inr}

abbrev pub Action {ℓ} : Type ℓ → Type ℓ → Type ℓ → Type ℓ
Action S A E = S → Result A E × S

infixl 5 ◌>>=◌ ◌>>◌
abbrev pub ◌>>=◌ {ℓ} : {S A B E : Type ℓ} → Action S A E → (A → Action S B E) → Action S B E
◌>>=◌ m f s = let (r, s') = m s in elim r [ ok a ↦ f a s' | err e ↦ (err e, s') ]

abbrev pub ◌>>◌ {ℓ} : {S A B E : Type ℓ} → Action S A E → Action S B E → Action S B E
m >> k = m >>= λ _. k

module _ {ℓ} {S A E : Type ℓ} where
  abbrev pub pure : A → Action S A E
  pure a s = (ok a, s)

  abbrev pub throw : E → Action S A E
  throw e s = (err e, s)

  -- A computation without effects, under `?`.
  abbrev pub lift : Result A E → Action S A E
  lift r s = (r, s)

  -- `map_err`, or the conversion of `?` through `From`.
  abbrev pub convert : {F : Type ℓ} → (E → F) → Action S A E → Action S A F
  convert f m s = let (r, s') = m s in elim r [ ok a ↦ (ok a, s') | err e ↦ (err (f e), s') ]

  -- A reading of the state that changes nothing.
  abbrev pub asks : (S → A) → Action S A E
  asks f s = (ok (f s), s)

-- Inversion of a successful bind, and the two ways in which a bind fails.
module _ {ℓ} {S A B E : Type ℓ} where
  invert :
      (p : Result A E × S) (f : A → Action S B E) {b : B} {s' : S}
      → ((λ _. p) >>= f) s' ≡ (ok b, s')
      → (a : A) × (s₁ : S) × (p ≡ (ok a, s₁)) × (f a s₁ ≡ (ok b, s'))
  invert (ok a, s₁) f h = (a, s₁, refl, h)
  invert (err e, s₁) f h = cc

  pub >>=-eq-ok :
      (m : Action S A E) (f : A → Action S B E) (s : S) {b : B} {s' : S}
      → (m >>= f) s ≡ (ok b, s')
      → (a : A) × (s₁ : S) × (m s ≡ (ok a, s₁)) × (f a s₁ ≡ (ok b, s'))
  >>=-eq-ok m f s {s'} h = invert (m s) f h

  invert_err :
      (p : Result A E × S) (f : A → Action S B E) {e : E} {s' : S}
      → ((λ _. p) >>= f) s' ≡ (err e, s')
      → (p ≡ (err e, s')) ⊎ ((a : A) × (s₁ : S) × (p ≡ (ok a, s₁)) × (f a s₁ ≡ (err e, s')))
  invert_err (ok a, s₁) f h = inr (a, s₁, refl, h)
  invert_err (err e, s₁) f h = inl (cc h)

  pub >>=-eq-err :
      (m : Action S A E) (f : A → Action S B E) (s : S) {e : E} {s' : S}
      → (m >>= f) s ≡ (err e, s')
      → (m s ≡ (err e, s')) ⊎ ((a : A) × (s₁ : S) × (m s ≡ (ok a, s₁)) × (f a s₁ ≡ (err e, s')))
  >>=-eq-err m f s h = invert_err (m s) f h

  -- Inversion of `convert`.
  convert_inv :
      (g : E → B) (p : Result A E × S) {a : A} {s' : S}
      → convert g (λ _. p) s' ≡ (ok a, s')
      → p ≡ (ok a, s')
  convert_inv g (ok a, s₁) h = cc h
  convert_inv g (err e, s₁) h = cc h

  pub convert-eq-ok :
      (g : E → B) (m : Action S A E) (s : S) {a : A} {s' : S}
      → convert g m s ≡ (ok a, s')
      → m s ≡ (ok a, s')
  convert-eq-ok g m s h = convert_inv g (m s) h

  convert_inv_err :
      (g : E → B) (p : Result A E × S) {b : B} {s' : S}
      → convert g (λ _. p) s' ≡ (err b, s')
      → (e : E) × (p ≡ (err e, s')) × (g e ≡ b)
  convert_inv_err g (ok a, s₁) h = cc h
  convert_inv_err g (err e, s₁) h = (e, cc h, cc h)

  pub convert-eq-err :
      (g : E → B) (m : Action S A E) (s : S) {b : B} {s' : S}
      → convert g m s ≡ (err b, s')
      → (e : E) × (m s ≡ (err e, s')) × (g e ≡ b)
  convert-eq-err g m s h = convert_inv_err g (m s) h

-- Inversion of the pair that an action returns.
module _ {S A E : Type 0} {s s' : S} where
  pub ok_pair : {a b : A} → ◌≡◌ {A = Result A E × S} (ok a, s) (ok b, s') → (a ≡ b) × (s ≡ s')
  ok_pair h = (cc h, cc h)

  pub result_pair :
      {r q : Result A E} → ◌≡◌ {A = Result A E × S} (r, s) (q, s') → (r ≡ q) × (s ≡ s')
  result_pair h = (ap (λ p. p.0) h, ap (λ p. p.1) h)
