-- ===== src/Harness/Budget/Tests.antt =====
-- A resumed session with tokens of its own, and a turn that spends eleven under a limit of ten.
use serverless_harness.Base.{◌≡◌, refl, ◌↔◌, none, some, List, [], ◌∷◌, ◌++◌}
use serverless_harness.Harness.Budget.{
  not_finite, below_zero, tokens, above, decide_budget, Usage, assistant, another, Entry, message,
  abort, other_entry, branch_spend, proceeds, blocked, tool_call, budget_voter, call_of_turn,
}
use serverless_harness.Harness.Budget.Turn.{IsOver, tool_call-blocked_iff}

abbrev used : Usage
used = record { input = 4; output = 3; cache_read = 2; cache_write = 2 }

abbrev loaded : List Entry
loaded = message assistant (some used) ∷ other_entry "model_change" ∷ []

abbrev added : List Entry
added = message another none ∷ message assistant (some used) ∷ []

stops_the_turn :
    call_of_turn (budget_voter (tokens 10) not_finite (some loaded)) (some (loaded ++ added))
    ≡ (record { reply = blocked; appended = abort (above 11) (tokens 10) ∷ [] })
unfolding decide_budget branch_spend tool_call budget_voter call_of_turn
stops_the_turn = refl

lets_the_turn_go :
    call_of_turn (budget_voter (tokens 11) (below_zero 3) (some loaded)) (some (loaded ++ added))
    ≡ (record { reply = proceeds; appended = [] })
unfolding decide_budget branch_spend tool_call budget_voter call_of_turn
lets_the_turn_go = refl

tool_call-blocked_iff_example :
    ((call_of_turn
        (budget_voter (tokens 10) (tokens 2) (some loaded))
        (some (loaded ++ added))).reply
      ≡ blocked)
    ↔ IsOver (tokens 10) 13
tool_call-blocked_iff_example = tool_call-blocked_iff (tokens 10) (tokens 2) loaded added
