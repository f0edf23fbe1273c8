-- ===== src/Base/Results.antt =====
-- Code that throws, as a result: `bad e` where the source throws `e`.
use mathlib.Core.Path.{◌≡◌, refl, subst}
use mathlib.Core.Logic.{◌⊎◌, inl, inr}
use mathlib.Core.Bool.{Bool, true, false}
use mathlib.Core.Option.{Option, none, some}

pub data Outcome {ℓ κ} (E : Type ℓ) (A : Type κ) : Type (ℓ ⊔ κ) where
  good : A → Outcome E A
  bad : E → Outcome E A

infixl 10 ◌>>=◌
unfoldable pub ◌>>=◌ {ℓ κ ι} :
    {E : Type ℓ} {A : Type κ} {B : Type ι} → Outcome E A → (A → Outcome E B) → Outcome E B
good a >>= f = f a
bad e >>= f = bad e

infixl 10 ◌>>◌
abbrev pub ◌>>◌ {ℓ κ ι} :
    {E : Type ℓ} {A : Type κ} {B : Type ι} → Outcome E A → Outcome E B → Outcome E B
m >> k = m >>= λ _. k

-- `if (!test) throw e`
abbrev pub require {ℓ} : {E : Type ℓ} → Bool → E → Outcome E (Unit {0})
require true e = good tt
require false e = bad e

-- `if (value === undefined) throw e`
abbrev pub need {ℓ κ} : {E : Type ℓ} {A : Type κ} → Option A → E → Outcome E A
need none e = bad e
need (some a) e = good a

pub good_inj {ℓ κ} :
    {A : Type κ} (E : Type ℓ) (a b : A) → ◌≡◌ {A = Outcome E A} (good a) (good b) → a ≡ b
good_inj E a b h = cc

pub bad_is_not_good {ℓ κ} :
    {E : Type ℓ} {A : Type κ} (e : E) (a : A) → ◌≡◌ {A = Outcome E A} (bad e) (good a) → ⊥
bad_is_not_good e a h = cc

module _ {ℓ} {E : Type ℓ} where
  -- A sequence that returns has returned at both of its steps.
  pub >>=-good {κ ι} :
      {A : Type κ} {B : Type ι} (m : Outcome E A) (f : A → Outcome E B) (b : B)
      → (m >>= f) ≡ good b
      → (a : A) × (m ≡ good a) × (f a ≡ good b)
  unfolding ◌>>=◌
  >>=-good (good a) f b h = (a, refl, h)
  >>=-good (bad e) f b h = cc

  -- A sequence that throws throws at its first step, or at its second.
  pub >>=-bad {κ ι} :
      {A : Type κ} {B : Type ι} (m : Outcome E A) (f : A → Outcome E B) (e : E)
      → (m >>= f) ≡ bad e
      → (m ≡ bad e) ⊎ ((a : A) × (m ≡ good a) × (f a ≡ bad e))
  unfolding ◌>>=◌
  >>=-bad (good a) f e h = inr (a, refl, h)
  >>=-bad (bad d) f e h = inl cc

  pub require-good : (test : Bool) (e : E) (u : Unit {0}) → require test e ≡ good u → test ≡ true
  require-good true e u h = refl
  require-good false e u h = cc

  pub need-good {κ} : {A : Type κ} (o : Option A) (e : E) (a : A) → need o e ≡ good a → o ≡ some a
  need-good none e a h = cc
  need-good (some b) e a h = cc

-- What a result throws, if it throws, satisfies `P`.
abbrev pub Throws {ℓ κ ι} :
    {E : Type ℓ} {A : Type κ} → (E → Type ι) → Outcome E A → Type (ℓ ⊔ κ ⊔ ι)
Throws {E = E} P m = (e : E) → m ≡ bad e → P e

bad_inj {ℓ κ} : {E : Type ℓ} (A : Type κ) (c d : E) → ◌≡◌ {A = Outcome E A} (bad c) (bad d) → c ≡ d
bad_inj A c d h = cc

module _ {ℓ ι} {E : Type ℓ} (P : E → Type ι) where
  -- The second step is looked at only where the first returned.
  pub >>=-Throws {κ μ} :
      {A : Type κ} {B : Type μ} (m : Outcome E A) (f : A → Outcome E B) (e : E)
      → (m >>= f) ≡ bad e
      → Throws P m
      → ((a : A) → m ≡ good a → f a ≡ bad e → P e)
      → P e
  unfolding ◌>>=◌
  >>=-Throws (good a) f e h first second = second a refl h
  >>=-Throws (bad d) f e h first second = first e cc

  pub need-Throws {κ} : {A : Type κ} (o : Option A) (d : E) → P d → Throws P (need o d)
  need-Throws {A = A} none d h = λ e same. subst P (bad_inj A d e same) h
  need-Throws (some a) d h = λ e same. cc

  pub require-Throws : (b : Bool) (d : E) → P d → Throws P (require b d)
  require-Throws true d h = λ e same. cc
  require-Throws false d h = λ e same. subst P (bad_inj (Unit {0}) d e same) h

  -- A test that throws has failed.
  pub require-if-Throws : (b : Bool) (d : E) → (b ≡ false → P d) → Throws P (require b d)
  require-if-Throws true d h = λ e same. cc
  require-if-Throws false d h = λ e same. subst P (bad_inj (Unit {0}) d e same) (h refl)

  pub good-Throws {κ} : {A : Type κ} (a : A) → Throws P (good a)
  good-Throws a = λ e same. cc

  pub bad-Throws {κ} : {A : Type κ} (d : E) → P d → Throws {A = A} P (bad d)
  bad-Throws {A = A} d h = λ e same. subst P (bad_inj A d e same) h
