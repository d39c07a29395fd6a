-- ===== src/Base/Action.antt =====
-- Methods that change an object and may fail: what was written before an error stays written, so the
-- object comes back beside the error too.
use mathlib.Core.Path.{◌≡◌, refl}
use embedding_processing_rs.Base.Outcome.{Result, ok, err}

abbrev pub Action {ℓ} : Type ℓ → Type ℓ → Type ℓ → Type ℓ
Action E S A = S → Result E A × S

module _ {ℓ} {E S A : Type ℓ} where
  abbrev pub pure : A → Action E S A
  pure a s = (ok a, s)

  abbrev pub raise : E → Action E S A
  raise e s = (err e, s)

  abbrev pub lift : Result E A → Action E S A
  lift r s = (r, s)

  abbrev pub gets : (S → A) → Action E S A
  gets f s = (ok (f s), s)

abbrev pub modify {ℓ} : {E S : Type ℓ} → (S → S) → Action E S (Unit {ℓ})
modify f s = (ok tt, f s)

-- A method of a part of an object, run on the whole.
abbrev pub within {ℓ} : {E S T A : Type ℓ} → (T → S) → (S → T → T) → Action E S A → Action E T A
within get put m t = let (r, s) = m (get t) in (r, put s t)

module _ {ℓ} {E S A B : Type ℓ} where
  -- What follows a step: its value goes on, and its error stops the method.
  abbrev pub continue : Result E A × S → (A → Action E S B) → Result E B × S
  continue (ok a, s) f = f a s
  continue (err e, s) f = (err e, s)

  infixl 5 ◌>>=◌ ◌>>◌
  unfoldable pub ◌>>=◌ : Action E S A → (A → Action E S B) → Action E S B
  ◌>>=◌ m f s = continue (m s) f

  unfoldable pub ◌>>◌ : Action E S A → Action E S B → Action E S B
  ◌>>◌ m n s = continue (m s) (λ _. n)

  continue-ok :
      (r : Result E A × S) (f : A → Action E S B) {b : B} {t : S}
      → continue r f ≡ (ok b, t)
      → (a : A) × (s' : S) × (r ≡ (ok a, s')) × (f a s' ≡ (ok b, t))
  continue-ok (ok a, s') f h = (a, s', refl, h)
  continue-ok (err x, s') f h = cc

  -- A method that returned: its first step returned, and the rest did from there.
  pub >>=-ok :
      (m : Action E S A) (f : A → Action E S B) (s : S) {b : B} {t : S}
      → (m >>= f) s ≡ (ok b, t)
      → (a : A) × (s' : S) × (m s ≡ (ok a, s')) × (f a s' ≡ (ok b, t))
  unfolding ◌>>=◌
  >>=-ok m f s h = continue-ok (m s) f h

  pub >>-ok :
      (m : Action E S A) (n : Action E S B) (s : S) {b : B} {t : S}
      → (m >> n) s ≡ (ok b, t)
      → (a : A) × (s' : S) × (m s ≡ (ok a, s')) × (n s' ≡ (ok b, t))
  unfolding ◌>>◌
  >>-ok m n s h = continue-ok (m s) (λ _. n) h

module _ {ℓ} {E S A B : Type ℓ} where
  -- A step that changes nothing and returned.
  pub lift-ok :
      (r : Result E A) (f : A → Action E S B) (s : S) {b : B} {t : S}
      → (lift r >>= f) s ≡ (ok b, t)
      → (a : A) × (r ≡ ok a) × (f a s ≡ (ok b, t))
  unfolding ◌>>=◌
  lift-ok (ok a) f s h = (a, refl, h)
  lift-ok (err e) f s h = cc

  last :
      (r : Result E A × S) (g : A → B) {b : B} {t : S}
      → continue r (λ a. pure (g a)) ≡ (ok b, t)
      → (a : A) × (r ≡ (ok a, t)) × (b ≡ g a)
  last (ok a, s) g h = (a, cc h, cc h)
  last (err x, s) g h = cc

  -- A step behind which a value is made.
  pub last-ok :
      (m : Action E S A) (g : A → B) (s : S) {b : B} {t : S}
      → (m >>= λ a. pure (g a)) s ≡ (ok b, t)
      → (a : A) × (m s ≡ (ok a, t)) × (b ≡ g a)
  unfolding ◌>>=◌
  last-ok m g s h = last (m s) g h
