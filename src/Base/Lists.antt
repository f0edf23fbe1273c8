-- ===== src/Base/Lists.antt =====
-- Lists measured and indexed by native numbers, under the library's names, and predicates on lists
-- by recursion.
use Prim.Native.Nat.{ℕ, zero, suc, ◌+◌, ◌≤◌, ◌<◌}
use mathlib.Core.Path.{◌≡◌, refl, sym, subst, ap}
use mathlib.Core.Bool.{Bool, true, false, ◌&&◌, ◌||◌}
use mathlib.Core.Logic.{◌⊎◌, inl, inr}
use mathlib.Core.List.{List, [], ◌∷◌, ◌++◌}
use serverless_harness.Base.Tests.{Bool-cases, if◌then◌else◌}
use mathlib.Core.Option.{Option, none, some}
use native.Mathlib.Omega.{arith}

module _ {ℓ} {A : Type ℓ} where
  abbrev pub length : List A → ℕ
  length [] = 0
  length (x ∷ xs) = suc (length xs)

  abbrev pub get_elem? : List A → ℕ → Option A
  get_elem? [] i = none
  get_elem? (x ∷ xs) zero = some x
  get_elem? (x ∷ xs) (suc i) = get_elem? xs i

  -- `xs[i] = v` for `i` up to the length: at the length it appends. Past it, nothing is written.
  abbrev pub put_at : List A → ℕ → A → List A
  put_at [] zero v = v ∷ []
  put_at [] (suc i) v = []
  put_at (x ∷ xs) zero v = v ∷ xs
  put_at (x ∷ xs) (suc i) v = x ∷ put_at xs i v

  -- `Array.prototype.filter`.
  abbrev pub keep_if : (A → Bool) → List A → List A
  keep_if p [] = []
  keep_if p (x ∷ xs) = let rest = keep_if p xs in if p x then x ∷ rest else rest

  -- `Array.prototype.some` and `every`.
  abbrev pub any : (A → Bool) → List A → Bool
  any p [] = false
  any p (x ∷ xs) = p x || any p xs

  abbrev pub all : (A → Bool) → List A → Bool
  all p [] = true
  all p (x ∷ xs) = p x && all p xs

  pub length-append : (xs ys : List A) → length (xs ++ ys) ≡ length xs + length ys
  length-append [] ys = omega arith
  length-append (x ∷ xs) ys = omega (arith, length-append xs ys)

  pub length-keep_if-le : (p : A → Bool) (xs : List A) → length (keep_if p xs) ≤ length xs
  length-keep_if-le p [] = omega arith
  length-keep_if-le p (x ∷ xs) = ground (arith, length-keep_if-le p xs)

-- Every element satisfies `P`.
abbrev pub All {ℓ κ} : {A : Type ℓ} → (A → Type κ) → List A → Type κ
All P [] = Unit
All P (x ∷ xs) = P x × All P xs

-- `a` is an element.
abbrev pub In : {A : Type 0} → A → List A → Type 0
In a [] = ⊥
In a (x ∷ xs) = (a ≡ x) ⊎ In a xs

module _ {A : Type 0} where
  pub any_sound : (p : A → Bool) (xs : List A) → any p xs ≡ true → (a : A) × In a xs × (p a ≡ true)
  any_sound p [] h = cc
  any_sound p (x ∷ xs) h = elim (Bool-cases (p x)) [
    | inl hit ↦ (x, inl refl, hit)
    | inr miss ↦ let (a, m, q) = any_sound p xs (ground arith) in (a, inr m, q)
  ]

  pub any_complete : (p : A → Bool) (xs : List A) (a : A) → In a xs → p a ≡ true → any p xs ≡ true
  any_complete p [] a h q = absurd h
  any_complete p (x ∷ xs) a (inl e) q = ground arith
  any_complete p (x ∷ xs) a (inr m) q = ground (arith, any_complete p xs a m q)

  pub all_of_All : (p : A → Bool) (xs : List A) → all p xs ≡ true → (a : A) → In a xs → p a ≡ true
  all_of_All p [] h a m = absurd m
  all_of_All p (x ∷ xs) h a (inl e) = ground arith
  all_of_All p (x ∷ xs) h a (inr m) = all_of_All p xs (ground arith) a m

  pub length-keep_if_mono :
      (p q : A → Bool) (xs : List A)
      → ((x : A) → q x ≡ true → p x ≡ true)
      → length (keep_if q xs) ≤ length (keep_if p xs)
  length-keep_if_mono p q [] le = omega arith
  length-keep_if_mono p q (x ∷ xs) le = ground (arith, le x, length-keep_if_mono p q xs le)

  -- A stricter test keeps fewer elements, if it drops one that the other keeps.
  pub length-keep_if-lt :
      (p q : A → Bool) (xs : List A) (a : A)
      → ((x : A) → q x ≡ true → p x ≡ true)
      → In a (keep_if p xs)
      → q a ≡ false
      → length (keep_if q xs) < length (keep_if p xs)
  length-keep_if-lt p q [] a le m h = absurd m
  length-keep_if-lt p q (x ∷ xs) a le m h = ground (
    arith,
    le x,
    length-keep_if_mono p q xs le,
    λ (later : In a (keep_if p xs)). length-keep_if-lt p q xs a le later h,
  )

  pub In-keep_if : (p : A → Bool) (xs : List A) (a : A) → In a xs → p a ≡ true → In a (keep_if p xs)
  In-keep_if p [] a m h = absurd m
  In-keep_if p (x ∷ xs) a (inl e) h = ground arith
  In-keep_if p (x ∷ xs) a (inr m) h = ground (arith, In-keep_if p xs a m h)

  pub In-of-keep_if :
      (p : A → Bool) (xs : List A) (a : A) → In a (keep_if p xs) → In a xs × (p a ≡ true)
  In-of-keep_if p [] a m = absurd m
  In-of-keep_if p (x ∷ xs) a m =
      ground (arith, λ (later : In a (keep_if p xs)). In-of-keep_if p xs a later)

  pub All-in {κ} : (P : A → Type κ) (xs : List A) (a : A) → All P xs → In a xs → P a
  All-in P [] a h m = absurd m
  All-in P (x ∷ xs) a h (inl e) = subst P (sym e) h.0
  All-in P (x ∷ xs) a h (inr m) = All-in P xs a h.1 m

module _ {ℓ} {A : Type ℓ} where
  abbrev pub take : ℕ → List A → List A
  take zero xs = []
  take (suc n) [] = []
  take (suc n) (x ∷ xs) = x ∷ take n xs

  abbrev pub drop : ℕ → List A → List A
  drop zero xs = xs
  drop (suc n) [] = []
  drop (suc n) (x ∷ xs) = drop n xs

  pub take-append : (n : ℕ) (xs ys : List A) → n ≤ length xs → take n (xs ++ ys) ≡ take n xs
  take-append zero xs ys h = refl
  take-append (suc n) [] ys h = elim h [ ]
  take-append (suc n) (x ∷ xs) ys h = ap (◌∷◌ x) (take-append n xs ys (omega arith))
