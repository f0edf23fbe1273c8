-- ===== src/Harness/Budget/Turn.antt =====
-- What a turn may spend under the voter.
use serverless_harness.Base.{
  ℕ, ◌+◌, ◌<◌, ◌≡◌, ◌↔◌, inl, inr, ap, ◌∙◌, true, Option, none, some, List, [], ◌∷◌, ◌++◌, ltb, leb,
  le→leb, if-true, if-false, arith, Bool-cases,
}
use serverless_harness.Harness.Budget.{
  Amount, not_finite, below_zero, tokens, Balance, above, balance, decide_budget, Usage, Entry,
  usage_of, add_usage, spend_from, branch_spend, proceeds, blocked, or_zero, positive, vote,
  tool_call, budget_voter, call_of_turn,
}

-- The tokens of a run of entries, entry by entry.
abbrev pub tokens_of : List Entry → ℕ
tokens_of [] = 0
tokens_of (entry ∷ rest) = add_usage 0 (usage_of entry) + tokens_of rest

add_usage_from : (total : ℕ) (u : Option Usage) → add_usage total u ≡ total + add_usage 0 u
add_usage_from total none = omega arith
add_usage_from total (some u) = omega arith

pub spend_from_lem :
    (total : ℕ) (entries : List Entry) → spend_from total entries ≡ total + tokens_of entries
spend_from_lem total [] = omega arith
spend_from_lem total (e ∷ rest) =
    let h = spend_from_lem (add_usage total (usage_of e)) rest in
    let k = add_usage_from total (usage_of e) in h ∙ omega arith

pub tokens_of-append : (a b : List Entry) → tokens_of (a ++ b) ≡ tokens_of a + tokens_of b
tokens_of-append [] b = omega arith
tokens_of-append (e ∷ a) b = let h = tokens_of-append a b in omega arith

balance-added : (loaded added : ℕ) → balance (loaded + added) loaded ≡ above added
balance-added loaded added =
    let e : leb loaded (loaded + added) ≡ true = le→leb loaded (loaded + added) (omega arith) in
    if-true _ _ _ e ∙ ap above (omega arith)

-- The amount is a positive limit, and the tokens are more.
abbrev pub IsOver : Amount → ℕ → Type 0
IsOver (tokens n) spent = (0 < n) × (n < spent)
IsOver _ spent = ⊥

decide_iff :
    (limit : Amount) (margin added : ℕ)
    → ((vote
          (decide_budget (record { spent = above added; estimated = margin; limit = limit }))
          (above added)
          limit).reply
        ≡ blocked)
      ↔ IsOver limit (added + margin)
unfolding decide_budget
decide_iff not_finite margin added =
    ((λ h. absurd (let k : proceeds ≡ blocked = h in cc k)), λ h. absurd h)
decide_iff (below_zero n) margin added =
    ((λ h. absurd (let k : proceeds ≡ blocked = h in cc k)), λ h. absurd h)
decide_iff (tokens n) margin added = ground arith

-- The balance of a turn is what its own entries spent.
balance-spend :
    (loaded added : List Entry)
    → balance (spend_from 0 (loaded ++ added)) (spend_from 0 loaded) ≡ above (tokens_of added)
balance-spend loaded added =
    let l = spend_from_lem 0 loaded in
    let all = spend_from_lem 0 (loaded ++ added) in
    let both = tokens_of-append loaded added in
    let e : spend_from 0 (loaded ++ added) ≡ spend_from 0 loaded + tokens_of added = omega arith in
    ap (λ t. balance t (spend_from 0 loaded)) e
    ∙ balance-added (spend_from 0 loaded) (tokens_of added)

vote_iff :
    (limit : Amount) (margin added : ℕ) (spent : Balance)
    → spent ≡ above added
    → ((vote
          (decide_budget (record { spent = spent; estimated = margin; limit = limit }))
          spent
          limit).reply
        ≡ blocked)
      ↔ IsOver limit (added + margin)
vote_iff limit margin added spent h = rw h (decide_iff limit margin added)

-- For a turn on a loaded session, a tool call made once the turn has added entries is blocked exactly
-- when the limit is finite and positive and the tokens that the added entries spent, with the margin
-- where that is finite and positive, are more than the limit. What the session had spent before does
-- not count.
pub tool_call-blocked_iff :
    (limit margin : Amount) (loaded added : List Entry)
    → ((call_of_turn (budget_voter limit margin (some loaded)) (some (loaded ++ added))).reply
        ≡ blocked)
      ↔ IsOver limit (tokens_of added + or_zero (positive margin))
unfolding call_of_turn tool_call budget_voter branch_spend
tool_call-blocked_iff not_finite margin loaded added =
    ((λ h. absurd (let k : proceeds ≡ blocked = h in cc k)), λ h. absurd h)
tool_call-blocked_iff (below_zero n) margin loaded added =
    ((λ h. absurd (let k : proceeds ≡ blocked = h in cc k)), λ h. absurd h)
tool_call-blocked_iff (tokens n) margin loaded added = elim (Bool-cases (ltb 0 n)) [
  | inl on ↦
      let e : budget_voter (tokens n) margin (some loaded)
          ≡ some (record {
            limit = tokens n;
            margin = positive margin;
            baseline = some (spend_from 0 loaded);
          }) =
        if-true _ _ _ on in
      rw e (
        vote_iff (tokens n) (or_zero (positive margin)) (tokens_of added) _
          (balance-spend loaded added))
  | inr off ↦
      let e : budget_voter (tokens n) margin (some loaded) ≡ none = if-false _ _ _ off in
      (
        (λ h. absurd (let k : proceeds ≡ blocked = rw e at h in cc k)),
        λ h. absurd (let p = h.0 in ground arith),
      )
]
