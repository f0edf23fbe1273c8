-- ===== src/KnativeServer/Tenancy/Core.antt =====
-- The loop of `core` in tenancy.ts ends, with nothing left to take off.
use serverless_harness.Base.{
  ℕ, zero, suc, ◌≡◌, refl, sym, ap, ◌∙◌, ◌⊎◌, inl, inr, Bool, true, false, ◌&&◌, none, some, List,
  [], ◌∷◌, ◌<◌, ◌≤◌, length, drop, ltb, Text, begins, Bool-cases, arith, if-true, if-false, All, In,
  ◌++◌, Option-cases, some_inj, subst, nat_beq_iff,
}
use serverless_harness.KnativeServer.Tenancy.{
  leading, take_off, or_same, strip_pass, core_loop, core,
}

length-drop-le : (n : ℕ) (t : Text) → length (drop n t) ≤ length t
length-drop-le zero t = omega arith
length-drop-le (suc n) [] = omega arith
length-drop-le (suc n) (c ∷ t) = omega (arith, length-drop-le n t)

length-drop-lt : (n : ℕ) (t : Text) → 0 < n → n ≤ length t → length (drop n t) < length t
length-drop-lt zero t p h = absurd (omega (arith, p))
length-drop-lt (suc n) [] p h = absurd (omega (arith, h))
length-drop-lt (suc n) (c ∷ t) p h = omega (arith, length-drop-le n t)

none_is_not_some : (t : Text) → none ≡ some t → ⊥
none_is_not_some t h = cc

-- Words in front of a text.
abbrev pub in_front : List Text → Text → Text
in_front [] t = t
in_front (w ∷ ws) t = w ++ in_front ws t

in_front-append :
    (ws vs : List Text) (t : Text) → in_front (ws ++ vs) t ≡ in_front ws (in_front vs t)
in_front-append [] vs t = refl
in_front-append (w ∷ ws) vs t = ap (◌++◌ w) (in_front-append ws vs t)

begins-drop : (p t : Text) → begins p t ≡ true → t ≡ p ++ drop (length p) t
begins-drop [] t h = refl
begins-drop (a ∷ p) [] h = cc
begins-drop (a ∷ p) (b ∷ t) h =
    let same : a ≡ b = ground (arith, nat_beq_iff a b) in
    ap (λ c. c ∷ t) (sym same) ∙ ap (◌∷◌ a) (begins-drop p t (ground arith))

-- A word that is taken off stood in front, and what is left is shorter.
take_off-some :
    (p out shorter : Text)
    → 0 < length p
    → take_off p out ≡ some shorter
    → (out ≡ p ++ shorter) × (length shorter < length out)
take_off-some p out shorter filled h =
    elim (Bool-cases (begins p out && ltb (length p) (length out))) [
      | inl takes ↦
          let same : drop (length p) out ≡ shorter = some_inj _ _ (sym (if-true _ _ _ takes) ∙ h) in
          (
            begins-drop p out (ground arith) ∙ ap (◌++◌ p) same,
            subst (λ t. length t < length out) same
                (length-drop-lt (length p) out filled (ground arith)),
          )
      | inr keeps ↦ absurd (none_is_not_some shorter (sym (if-false _ _ _ keeps) ∙ h))
    ]

-- The words of the list `from` that stand in front of what is left.
abbrev pub IsStripped : List Text → Text → Text → Type 0
IsStripped from out left = (ws : List Text) × All (λ w. In w from) ws × (out ≡ in_front ws left)

abbrev Goes : List Text → Text → Bool → Text × Bool → Type 0
Goes ps out c r =
    ((r ≡ (out, c)) × All (λ p. take_off p out ≡ none) ps)
    ⊎ ((r.1 ≡ true) × (length r.0 < length out) × IsStripped leading out r.0)

-- One word off, and then the words of the rest.
then-IsStripped :
    (p out next left : Text)
    → In p leading
    → out ≡ p ++ next
    → IsStripped leading next left
    → IsStripped leading out left
then-IsStripped p out next left m e (ws, all, f) = (p ∷ ws, (m, all), e ∙ ap (◌++◌ p) f)

strip_pass-Goes :
    (ps : List Text) (out : Text) (c : Bool)
    → All (λ p. (0 < length p) × In p leading) ps
    → Goes ps out c (strip_pass ps (out, c))
strip_pass-Goes [] out c words = inl (refl, tt)
strip_pass-Goes (p ∷ ps) out c (word, words) = elim (Option-cases (take_off p out)) [
  | inl keeps ↦
      let same : strip_pass (p ∷ ps) (out, c) ≡ strip_pass ps (out, c) =
        ap (λ o. strip_pass ps (or_same (out, c) o)) keeps in
      subst (Goes (p ∷ ps) out c) (sym same) (elim (strip_pass-Goes ps out c words) [
        | inl (still, none_of) ↦ inl (still, (keeps, none_of))
        | inr moved ↦ inr moved
      ])
  | inr (next, takes) ↦
      let same : strip_pass (p ∷ ps) (out, c) ≡ strip_pass ps (next, true) =
        ap (λ o. strip_pass ps (or_same (out, c) o)) takes in
      let (front_of, less) = take_off-some p out next word.0 takes in
      subst (Goes (p ∷ ps) out c) (sym same) (elim (strip_pass-Goes ps next true words) [
        | inl (still, none_of) ↦ inr (
          ap (λ r. r.1) still,
          subst (λ r. length r.0 < length out) (sym still) less,
          subst (λ r. IsStripped leading out r.0) (sym still)
              (then-IsStripped p out next next word.1 front_of ([], tt, refl)),
        )
        | inr (changed, lesser, more) ↦ inr (
          changed,
          omega (arith, less, lesser),
          then-IsStripped p out next _ word.1 front_of more,
        )
      ])
]

leading_words : All (λ p. (0 < length p) × In p leading) leading
leading_words = (
  (omega arith, inl refl),
  (
    (omega arith, inr (inl refl)),
    ((omega arith, inr (inr (inl refl))), ((omega arith, inr (inr (inr (inl refl)))), tt)),
  ),
)

-- What is left has no word in front but itself, and the words of the list stood in front of it.
abbrev pub IsCore : Text → Text → Type 0
IsCore out left = IsStripped leading out left × All (λ p. take_off p left ≡ none) leading

joined-IsStripped :
    (out next left : Text)
    → IsStripped leading out next
    → IsStripped leading next left
    → IsStripped leading out left
joined-IsStripped out next left (ws, all, e) (vs, more, f) =
    (ws ++ vs, All-append ws vs all more, e ∙ ap (in_front ws) f ∙ sym (in_front-append ws vs left))
  where
    All-append :
        (ws vs : List Text)
        → All (λ w. In w leading) ws
        → All (λ w. In w leading) vs
        → All (λ w. In w leading) (ws ++ vs)
    All-append [] vs all more = more
    All-append (w ∷ ws) vs all more = (all.0, All-append ws vs all.1 more)

core_loop-IsCore : (fuel : ℕ) (out : Text) → length out < fuel → IsCore out (core_loop fuel out)
unfolding core_loop
core_loop-IsCore zero out h = absurd (omega (arith, h))
core_loop-IsCore (suc fuel) out h = elim (strip_pass-Goes leading out false leading_words) [
  | inl (still, none_of) ↦
      let stops : core_loop (suc fuel) out ≡ out =
        if-false _ _ _ (ap (λ r. r.1) still) ∙ ap (λ r. r.0) still in
      subst (IsCore out) (sym stops) (([], tt, refl), none_of)
  | inr (changed, less, stripped) ↦
      let goes : core_loop (suc fuel) out ≡ core_loop fuel (strip_pass leading (out, false)).0 =
        if-true _ _ _ changed in
      let (more, none_of) =
        core_loop-IsCore fuel (strip_pass leading (out, false)).0 (omega (arith, h, less)) in
      subst (IsCore out) (sym goes)
        (joined-IsStripped out (strip_pass leading (out, false)).0 _ stripped more, none_of)
]

-- The loop of `core` ends, with its result: words of the list stood in front of it, one after another, and none of
-- them can be taken off it any more.
pub core-IsCore : (segment : Text) → IsCore segment (core segment)
unfolding core
core-IsCore segment = core_loop-IsCore (suc (length segment)) segment (omega arith)
