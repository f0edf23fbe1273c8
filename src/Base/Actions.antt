-- ===== src/Base/Actions.antt =====
-- Code that changes a state and may throw: what was written before a throw stays written.
use mathlib.Core.Path.{◌≡◌, refl, ap}
use mathlib.Core.Logic.{◌⊎◌, inl, inr}
use serverless_harness.Base.Results.{Outcome, good, bad}

abbrev pub Action : Type 0 → Type 0 → Type 0 → Type 0
Action E W A = W → W × Outcome E A

abbrev pub pass : {E W A B : Type 0} → (A → Action E W B) → W × Outcome E A → W × Outcome E B
pass f (w, good a) = f a w
pass f (w, bad e) = (w, bad e)

infixl 10 ◌>>=◌
unfoldable pub ◌>>=◌ : {E W A B : Type 0} → Action E W A → (A → Action E W B) → Action E W B
(m >>= f) w = pass f (m w)

infixl 10 ◌>>◌
abbrev pub ◌>>◌ : {E W A B : Type 0} → Action E W A → Action E W B → Action E W B
m >> k = m >>= λ _. k

abbrev pub pure : {E W A : Type 0} → A → Action E W A
pure a w = (w, good a)

abbrev pub throw : {E W A : Type 0} → E → Action E W A
throw e w = (w, bad e)

-- A result that reads no state.
abbrev pub lift : {E W A : Type 0} → Outcome E A → Action E W A
lift r w = (w, r)

module _ {E W A : Type 0} where
  -- How the first step ended, and what the sequence then is.
  pub pass-cases :
      {B : Type 0} (f : A → Action E W B) (r : W × Outcome E A)
      → ((w : W) × (a : A) × (r ≡ (w, good a)) × (pass f r ≡ f a w))
        ⊎ ((w : W) × (e : E) × (r ≡ (w, bad e)) × (pass f r ≡ (w, bad e)))
  pass-cases f (w, good a) = inl (w, a, refl, refl)
  pass-cases f (w, bad e) = inr (w, e, refl, refl)

  pub >>=-cases :
      {B : Type 0} (m : Action E W A) (f : A → Action E W B) (w : W)
      → ((v : W) × (a : A) × (m w ≡ (v, good a)) × ((m >>= f) w ≡ f a v))
        ⊎ ((v : W) × (e : E) × (m w ≡ (v, bad e)) × ((m >>= f) w ≡ (v, bad e)))
  unfolding ◌>>=◌
  >>=-cases m f w = pass-cases f (m w)

  -- A sequence that returns has returned at both of its steps.
  pub pass-good :
      {B : Type 0} (f : A → Action E W B) (r : W × Outcome E A) (u : W) (b : B)
      → pass f r ≡ (u, good b)
      → (v : W) × (a : A) × (r ≡ (v, good a)) × (f a v ≡ (u, good b))
  pass-good f (w, good a) u b h = (w, a, refl, h)
  pass-good f (w, bad e) u b h = absurd (bad_first (ap (λ p. p.1) h))
    where
      bad_first : {C : Type 0} {c : C} → ◌≡◌ {A = Outcome E C} (bad e) (good c) → ⊥
      bad_first q = cc

  pub >>=-good :
      {B : Type 0} (m : Action E W A) (f : A → Action E W B) (w u : W) (b : B)
      → (m >>= f) w ≡ (u, good b)
      → (v : W) × (a : A) × (m w ≡ (v, good a)) × (f a v ≡ (u, good b))
  unfolding ◌>>=◌
  >>=-good m f w u b h = pass-good f (m w) u b h

  pub lift-good :
      (r : Outcome E A) (w v : W) (a : A) → lift r w ≡ (v, good a) → (r ≡ good a) × (w ≡ v)
  lift-good r w v a h = (ap (λ p. p.1) h, ap (λ p. p.0) h)
