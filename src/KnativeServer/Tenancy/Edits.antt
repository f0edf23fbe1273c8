-- ===== src/KnativeServer/Tenancy/Edits.antt =====
-- `editDistanceAtMostOne` of tenancy.ts is at most one edit.
use serverless_harness.Base.{
  ℕ, suc, ◌+◌, ◌-◌, ◌≡◌, refl, sym, ap, ◌∙◌, ◌↔◌, inl, inr, true, false, Option, none, some, [],
  ◌∷◌, ◌++◌, ◌<◌, length, nat_beq, nat_beq_iff, ltb, Text, text_beq, text_beq_iff, Bool-cases,
  arith, subst, if-false, length-append,
}
use serverless_harness.KnativeServer.Tenancy.{walk, edit_distance_at_most_one}

-- A character, or nothing, in front of a text.
abbrev pub front : Option ℕ → Text → Text
front none s = s
front (some x) s = x ∷ s

-- The two texts agree but for one place, where each has at most one character.
abbrev pub IsEdit : Text → Text → Type 0
IsEdit a b = (p s : Text) × (m n : Option ℕ) × (a ≡ p ++ front m s) × (b ≡ p ++ front n s)

walk-spent : (la lb : ℕ) (a b : Text) → length a ≡ length b → walk la lb 1 a b ≡ text_beq a b
unfolding walk text_beq
walk-spent la lb [] [] h = refl
walk-spent la lb [] (y ∷ b) h = absurd (omega (arith, h))
walk-spent la lb (x ∷ a) [] h = absurd (omega (arith, h))
walk-spent la lb (x ∷ a) (y ∷ b) h = ground (arith, walk-spent la lb a b (omega (arith, h)))

extend-IsEdit : (x : ℕ) (a b : Text) → IsEdit a b → IsEdit (x ∷ a) (x ∷ b)
extend-IsEdit x a b (p, s, m, n, e, f) = (x ∷ p, s, m, n, ap (◌∷◌ x) e, ap (◌∷◌ x) f)

walk-hit :
    (la lb x y : ℕ) (a b : Text)
    → nat_beq x y ≡ true
    → walk la lb 0 (x ∷ a) (y ∷ b) ≡ walk la lb 0 a b
unfolding walk
walk-hit la lb x y a b h = ground arith

-- The step on a difference.
walk-change :
    (l : ℕ) (x y : ℕ) (a b : Text)
    → nat_beq x y ≡ false
    → walk l l 0 (x ∷ a) (y ∷ b) ≡ walk l l 1 a b
unfolding walk
walk-change l x y a b h = ground arith

walk-skip_a :
    (la lb : ℕ) (x y : ℕ) (a b : Text)
    → lb < la
    → nat_beq x y ≡ false
    → walk la lb 0 (x ∷ a) (y ∷ b) ≡ walk la lb 1 a (y ∷ b)
unfolding walk
walk-skip_a la lb x y a b l h = ground arith

walk-skip_b :
    (la lb : ℕ) (x y : ℕ) (a b : Text)
    → la < lb
    → nat_beq x y ≡ false
    → walk la lb 0 (x ∷ a) (y ∷ b) ≡ walk la lb 1 (x ∷ a) b
unfolding walk
walk-skip_b la lb x y a b l h = ground arith

walk_self : (l : ℕ) (s : Text) → walk l l 0 s s ≡ true
unfolding walk
walk_self l [] = refl
walk_self l (x ∷ s) = walk-hit l l x x s s ((nat_beq_iff x x).1 refl) ∙ walk_self l s

walk-equal_sound : (l : ℕ) (a b : Text) → length a ≡ length b → walk l l 0 a b ≡ true → IsEdit a b
walk-equal_sound l [] [] h w = ([], [], none, none, refl, refl)
walk-equal_sound l [] (y ∷ b) h w = absurd (omega (arith, h))
walk-equal_sound l (x ∷ a) [] h w = absurd (omega (arith, h))
walk-equal_sound l (x ∷ a) (y ∷ b) h w = elim (Bool-cases (nat_beq x y)) [
  | inl hit ↦
      let same = (nat_beq_iff x y).0 hit in
      let rest = walk-equal_sound l a b (omega (arith, h)) (sym (walk-hit l l x y a b hit) ∙ w) in
      subst (λ z. IsEdit (x ∷ a) (z ∷ b)) same (extend-IsEdit x a b rest)
  | inr miss ↦
      let rest =
        sym (walk-spent l l a b (omega (arith, h))) ∙ sym (walk-change l x y a b miss) ∙ w in
      ([], a, some x, some y, refl, ap (◌∷◌ y) (sym ((text_beq_iff a b).0 rest)))
]

walk-longer_sound :
    (la lb : ℕ) (a b : Text)
    → lb < la
    → length a ≡ suc (length b)
    → walk la lb 0 a b ≡ true
    → IsEdit a b
walk-longer_sound la lb [] b l h w = absurd (omega (arith, h))
walk-longer_sound la lb (x ∷ []) [] l h w = ([], [], some x, none, refl, refl)
walk-longer_sound la lb (x ∷ z ∷ a) [] l h w = absurd (omega (arith, h))
walk-longer_sound la lb (x ∷ a) (y ∷ b) l h w = elim (Bool-cases (nat_beq x y)) [
  | inl hit ↦
      let same = (nat_beq_iff x y).0 hit in
      let rest =
        walk-longer_sound la lb a b l (omega (arith, h)) (sym (walk-hit la lb x y a b hit) ∙ w) in
      subst (λ z. IsEdit (x ∷ a) (z ∷ b)) same (extend-IsEdit x a b rest)
  | inr miss ↦
      let rest =
        sym (walk-spent la lb a (y ∷ b) (omega (arith, h)))
        ∙ sym (walk-skip_a la lb x y a b l miss)
        ∙ w in
      ([], a, some x, none, refl, sym ((text_beq_iff a (y ∷ b)).0 rest))
]

walk-shorter_sound :
    (la lb : ℕ) (a b : Text)
    → la < lb
    → suc (length a) ≡ length b
    → walk la lb 0 a b ≡ true
    → IsEdit a b
walk-shorter_sound la lb a [] l h w = absurd (omega (arith, h))
walk-shorter_sound la lb [] (y ∷ []) l h w = ([], [], none, some y, refl, refl)
walk-shorter_sound la lb [] (y ∷ z ∷ b) l h w = absurd (omega (arith, h))
walk-shorter_sound la lb (x ∷ a) (y ∷ b) l h w = elim (Bool-cases (nat_beq x y)) [
  | inl hit ↦
      let same = (nat_beq_iff x y).0 hit in
      let rest =
        walk-shorter_sound la lb a b l (omega (arith, h)) (sym (walk-hit la lb x y a b hit) ∙ w) in
      subst (λ z. IsEdit (x ∷ a) (z ∷ b)) same (extend-IsEdit x a b rest)
  | inr miss ↦
      let rest =
        sym (walk-spent la lb (x ∷ a) b (omega (arith, h)))
        ∙ sym (walk-skip_b la lb x y a b l miss)
        ∙ w in
      ([], x ∷ a, none, some y, refl, ap (◌∷◌ y) (sym ((text_beq_iff (x ∷ a) b).0 rest)))
]

beq_self : (x : ℕ) → nat_beq x x ≡ true
beq_self x = (nat_beq_iff x x).1 refl

text_beq_self : (s : Text) → text_beq s s ≡ true
text_beq_self s = (text_beq_iff s s).1 refl

-- The common beginning is passed.
walk-append : (la lb : ℕ) (p a b : Text) → walk la lb 0 (p ++ a) (p ++ b) ≡ walk la lb 0 a b
walk-append la lb [] a b = refl
walk-append la lb (x ∷ p) a b =
    walk-hit la lb x x (p ++ a) (p ++ b) (beq_self x) ∙ walk-append la lb p a b

walk-front_longer : (la lb : ℕ) (x : ℕ) (s : Text) → lb < la → walk la lb 0 (x ∷ s) s ≡ true
unfolding walk
walk-front_longer la lb x [] l = refl
walk-front_longer la lb x (y ∷ s) l = elim (Bool-cases (nat_beq x y)) [
  | inl hit ↦ walk-hit la lb x y (y ∷ s) s hit ∙ walk-front_longer la lb y s l
  | inr miss ↦
      walk-skip_a la lb x y (y ∷ s) s l miss
      ∙ walk-spent la lb (y ∷ s) (y ∷ s) refl
      ∙ text_beq_self (y ∷ s)
]

walk-front_shorter : (la lb : ℕ) (y : ℕ) (s : Text) → la < lb → walk la lb 0 s (y ∷ s) ≡ true
unfolding walk
walk-front_shorter la lb y [] l = refl
walk-front_shorter la lb y (x ∷ s) l = elim (Bool-cases (nat_beq x y)) [
  | inl hit ↦ walk-hit la lb x y s (x ∷ s) hit ∙ walk-front_shorter la lb x s l
  | inr miss ↦
      walk-skip_b la lb x y s (x ∷ s) l miss
      ∙ walk-spent la lb (x ∷ s) (x ∷ s) refl
      ∙ text_beq_self (x ∷ s)
]

walk-front_same : (l : ℕ) (x y : ℕ) (s : Text) → walk l l 0 (x ∷ s) (y ∷ s) ≡ true
walk-front_same l x y s = elim (Bool-cases (nat_beq x y)) [
  | inl hit ↦ walk-hit l l x y s s hit ∙ walk_self l s
  | inr miss ↦ walk-change l x y s s miss ∙ walk-spent l l s s refl ∙ text_beq_self s
]

edit_distance_at_most_one_near :
    (a b : Text)
    → ltb 1 ((length a - length b) + (length b - length a)) ≡ false
    → edit_distance_at_most_one a b ≡ walk (length a) (length b) 0 a b
unfolding edit_distance_at_most_one
edit_distance_at_most_one_near a b h = if-false _ _ _ h

edit_distance_at_most_one_far :
    (a b : Text)
    → edit_distance_at_most_one a b ≡ true
    → ltb 1 ((length a - length b) + (length b - length a)) ≡ false
unfolding edit_distance_at_most_one
edit_distance_at_most_one_far a b h = ground arith

edit_distance_at_most_one-IsEdit : (a b : Text) → edit_distance_at_most_one a b ≡ true → IsEdit a b
edit_distance_at_most_one-IsEdit a b h =
    let near = edit_distance_at_most_one_far a b h in
    let walked = sym (edit_distance_at_most_one_near a b near) ∙ h in
    elim (Bool-cases (ltb (length b) (length a))) [
      | inl longer ↦
          walk-longer_sound (length a) (length b) a b (ground arith) (ground arith) walked
      | inr not_longer ↦ elim (Bool-cases (ltb (length a) (length b))) [
        | inl shorter ↦
            walk-shorter_sound (length a) (length b) a b (ground arith) (ground arith) walked
        | inr not_shorter ↦
            let same : length a ≡ length b = ground arith in
            walk-equal_sound (length a) a b same (ap (λ l. walk (length a) l 0 a b) same ∙ walked)
      ]
    ]

IsEdit-edit_distance_at_most_one :
    (p s : Text) (m n : Option ℕ)
    → edit_distance_at_most_one (p ++ front m s) (p ++ front n s) ≡ true
IsEdit-edit_distance_at_most_one p s none none =
    edit_distance_at_most_one_near (p ++ s) (p ++ s) (ground arith) ∙ walk_self _ (p ++ s)
IsEdit-edit_distance_at_most_one p s (some x) none =
    let la = length-append p (x ∷ s) in
    let lb = length-append p s in
    edit_distance_at_most_one_near (p ++ x ∷ s) (p ++ s) (ground (arith, la, lb))
    ∙ walk-append _ _ p (x ∷ s) s
    ∙ walk-front_longer _ _ x s (omega (arith, la, lb))
IsEdit-edit_distance_at_most_one p s none (some y) =
    let la = length-append p s in
    let lb = length-append p (y ∷ s) in
    edit_distance_at_most_one_near (p ++ s) (p ++ y ∷ s) (ground (arith, la, lb))
    ∙ walk-append _ _ p s (y ∷ s)
    ∙ walk-front_shorter _ _ y s (omega (arith, la, lb))
IsEdit-edit_distance_at_most_one p s (some x) (some y) =
    let la = length-append p (x ∷ s) in
    let lb = length-append p (y ∷ s) in
    let same : length (p ++ x ∷ s) ≡ length (p ++ y ∷ s) = omega (arith, la, lb) in
    edit_distance_at_most_one_near (p ++ x ∷ s) (p ++ y ∷ s) (ground (arith, same))
    ∙ ap (λ l. walk l (length (p ++ y ∷ s)) 0 (p ++ x ∷ s) (p ++ y ∷ s)) same
    ∙ walk-append _ _ p (x ∷ s) (y ∷ s)
    ∙ walk-front_same _ x y s

-- `editDistanceAtMostOne` is true exactly of two texts that agree but for one place, where each has at most one
-- character: equal texts, and those that differ by one character replaced, added or taken away.
pub edit_distance_at_most_one_iff :
    (a b : Text) → (edit_distance_at_most_one a b ≡ true) ↔ IsEdit a b
edit_distance_at_most_one_iff a b = (
  edit_distance_at_most_one-IsEdit a b,
  λ (p, s, m, n, e, f).
      ap (λ t. edit_distance_at_most_one t b) e
      ∙ ap (edit_distance_at_most_one (p ++ front m s)) f
      ∙ IsEdit-edit_distance_at_most_one p s m n,
)
