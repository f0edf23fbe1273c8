-- ===== src/Base/Texts.antt =====
-- Texts as lists of character codes: splitting, searching, and white space.
use Prim.Native.Nat.{ℕ, zero, suc, ◌/◌, ◌%◌}
use Prim.Native.String.{String, ◌++◌ as join}
use Prim.Native.Char.{code}
use text.Mathlib.Text.{◌==◌ as text_same}
use text.Mathlib.TextEquality.{eq_iff}
use mathlib.Core.Path.{◌≡◌, refl, sym, ap, ◌∙◌}
use mathlib.Core.Logic.{inl, inr}
use mathlib.Core.Bool.{Bool, true, false, ◌&&◌, ◌||◌}
use mathlib.Core.List.{List, [], ◌∷◌, ◌++◌, reverse}
use mathlib.Core.Option.{Option, none, some}
use native.Mathlib.Omega.{arith}
use serverless_harness.Base.Tests.{
  MapKey, Text, if◌then◌else◌, nat_beq, nat_beq_iff, leb, ltb, Bool-cases,
}
use serverless_harness.Base.Lists.{All}

instance abbrev pub string_key : MapKey String
string_key = record { same = text_same; same_iff = eq_iff }

abbrev pub codes : String → Text
codes String.[] = []
codes (String.◌∷◌ c s) = code c ∷ codes s

-- `slice(0, n)`
abbrev pub slice_to : ℕ → String → String
slice_to zero s = String.[]
slice_to (suc n) String.[] = String.[]
slice_to (suc n) (String.◌∷◌ c s) = String.◌∷◌ c (slice_to n s)

abbrev pub digit : ℕ → String
digit n =
    if nat_beq n 0
    then "0"
    else if nat_beq n 1
    then "1"
    else if nat_beq n 2
    then "2"
    else if nat_beq n 3
    then "3"
    else if nat_beq n 4
    then "4"
    else if nat_beq n 5
    then "5"
    else if nat_beq n 6
    then "6"
    else if nat_beq n 7
    then "7"
    else if nat_beq n 8
    then "8"
    else "9"

-- The digits of `n`, on fuel.
unfoldable pub digits : ℕ → ℕ → String
digits zero n = digit n
digits (suc fuel) n =
    let front = digits fuel (n / 10) in if ltb n 10 then digit n else join front (digit (n % 10))

-- `String(n)`; a number has fewer digits than its value.
abbrev pub decimal : ℕ → String
decimal n = digits n n

-- A piece with a character in front of its first part.
abbrev pub extend_first : ℕ → List Text → List Text
extend_first c [] = (c ∷ []) ∷ []
extend_first c (t ∷ ts) = (c ∷ t) ∷ ts

-- `split` at one character.
unfoldable pub split_on : ℕ → Text → List Text
split_on sep [] = [] ∷ []
split_on sep (c ∷ cs) =
    let rest = split_on sep cs in if nat_beq c sep then [] ∷ rest else extend_first c rest

-- `join` with one character.
abbrev pub join_with : ℕ → List Text → Text
join_with sep [] = []
join_with sep (t ∷ []) = t
join_with sep (t ∷ u ∷ us) = t ++ sep ∷ join_with sep (u ∷ us)

abbrev pub begins : Text → Text → Bool
begins [] t = true
begins (a ∷ s) [] = false
begins (a ∷ s) (b ∷ t) = nat_beq a b && begins s t

-- `t.includes(s)`
abbrev pub includes : Text → Text → Bool
includes s [] = begins s []
includes s (b ∷ t) = begins s (b ∷ t) || includes s t

-- The white space and line terminators that `String.prototype.trim` takes off.
abbrev pub is_white : ℕ → Bool
is_white c =
    ((leb 9 c && leb c 13) || (nat_beq c 32 || nat_beq c 160))
    || (nat_beq c 5760 || (leb 8192 c && leb c 8202))
    || ((leb 8232 c && leb c 8233) || (nat_beq c 8239 || nat_beq c 8287))
    || (nat_beq c 12288 || nat_beq c 65279)

abbrev pub strip_start : Text → Text
strip_start [] = []
strip_start (c ∷ cs) = let rest = strip_start cs in if is_white c then rest else c ∷ cs

abbrev pub strip : Text → Text
strip s = reverse (strip_start (reverse (strip_start s)))

-- The text before the first `c` and the text after it.
abbrev pub cut_at : ℕ → Text → Option (Text × Text)
cut_at c [] = none
cut_at c (a ∷ s) =
    let later = cut_at c s in
    if nat_beq a c
    then some ([], s)
    else elim later [ none ↦ none | some cut ↦ some (a ∷ cut.0, cut.1) ]

-- `c` does not occur.
abbrev pub Lacks : ℕ → Text → Type 0
Lacks c = All (λ a. nat_beq a c ≡ false)

pub split_on-nonempty :
    (sep : ℕ) (t : Text) → (first : Text) × (rest : List Text) × (split_on sep t ≡ first ∷ rest)
unfolding split_on
split_on-nonempty sep [] = ([], [], refl)
split_on-nonempty sep (c ∷ cs) =
    let (first, rest, e) = split_on-nonempty sep cs in
    elim (Bool-cases (nat_beq c sep)) [
      | inl hit ↦ ([], split_on sep cs, rw hit refl)
      | inr miss ↦ (c ∷ first, rest, rw (miss, e) refl)
    ]

join_with-extend_first :
    (sep c : ℕ) (first : Text) (rest : List Text)
    → join_with sep (extend_first c (first ∷ rest)) ≡ c ∷ join_with sep (first ∷ rest)
join_with-extend_first sep c first [] = refl
join_with-extend_first sep c first (t ∷ ts) = refl

-- Joining the pieces of a text gives it back.
pub join_with-split_on : (sep : ℕ) (t : Text) → join_with sep (split_on sep t) ≡ t
unfolding split_on
join_with-split_on sep [] = refl
join_with-split_on sep (c ∷ cs) =
    let (first, rest, e) = split_on-nonempty sep cs in
    let whole = ap (join_with sep) (sym e) ∙ join_with-split_on sep cs in
    let cut = join_with-extend_first sep c first rest in
    elim (Bool-cases (nat_beq c sep)) [
      | inl hit ↦
          rw (hit, e)
            (ap (λ a. a ∷ join_with sep (first ∷ rest)) (sym ((nat_beq_iff c sep).0 hit))
              ∙ ap (◌∷◌ c) whole)
      | inr miss ↦ rw (miss, e) (cut ∙ ap (◌∷◌ c) whole)
    ]

-- A piece without the separator is split off whole.
pub split_on-append :
    (sep : ℕ) (t u : Text) → Lacks sep t → split_on sep (t ++ sep ∷ u) ≡ t ∷ split_on sep u
unfolding split_on
split_on-append sep [] u h = ground arith
split_on-append sep (c ∷ t) u h = rw (h.0, split_on-append sep t u h.1) refl

pub split_on-Lacks : (sep : ℕ) (t : Text) → Lacks sep t → split_on sep t ≡ t ∷ []
unfolding split_on
split_on-Lacks sep [] h = refl
split_on-Lacks sep (c ∷ t) h = rw (h.0, split_on-Lacks sep t h.1) refl

extend_first-All-Lacks :
    (sep c : ℕ) (ts : List Text)
    → nat_beq c sep ≡ false
    → All (Lacks sep) ts
    → All (Lacks sep) (extend_first c ts)
extend_first-All-Lacks sep c [] miss h = ((miss, tt), tt)
extend_first-All-Lacks sep c (t ∷ ts) miss h = ((miss, h.0), h.1)

-- No piece has the separator.
pub split_on-All-Lacks : (sep : ℕ) (t : Text) → All (Lacks sep) (split_on sep t)
unfolding split_on
split_on-All-Lacks sep [] = (tt, tt)
split_on-All-Lacks sep (c ∷ cs) =
    let pieces = split_on-All-Lacks sep cs in
    elim (Bool-cases (nat_beq c sep)) [
      | inl hit ↦ rw hit (tt, pieces)
      | inr miss ↦ rw miss (extend_first-All-Lacks sep c (split_on sep cs) miss pieces)
    ]
