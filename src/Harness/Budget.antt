-- ===== src/Harness/Budget.antt =====
-- harness/src/budget-voter.ts: the vote on a tool call that keeps a turn within its tokens, and how
-- harness/src/run-turn.ts sets the voter up. Token counts are natural; an amount read from the
-- environment is an integer or not finite, and the spend of a turn may be below zero, where a branch was cut.
pub mod Turn
mod Tests
use Prim.Native.String.{String}
use serverless_harness.Base.{
  ℕ, ◌+◌, ◌-◌, Bool, true, false, Option, none, some, List, [], ◌∷◌, ◌++◌, if◌then◌else◌, ltb, leb,
}

-- `Number(process.env.X)`: NaN and the infinities are not finite.
pub data Amount : Type 0 where
  not_finite : Amount
  below_zero : ℕ → Amount
  tokens : ℕ → Amount

pub data Balance : Type 0 where
  above : ℕ → Balance
  below : ℕ → Balance

abbrev pub balance : ℕ → ℕ → Balance
balance total baseline =
    if leb baseline total then above (total - baseline) else below (baseline - total)

pub record BudgetState : Type 0 where
  pub spent : Balance
  pub estimated : ℕ
  pub limit : Amount

pub data BudgetDecision : Type 0 where
  commit budget_exceeded : BudgetDecision

-- `spent + estimated > limit`
abbrev pub exceeds : Balance → ℕ → ℕ → Bool
exceeds (above spent) estimated limit = ltb limit (spent + estimated)
exceeds (below short) estimated limit = ltb (limit + short) estimated

abbrev pub is_on : Amount → Bool
is_on (tokens n) = ltb 0 n
is_on _ = false

abbrev pub over : Balance → ℕ → Amount → Bool
over spent estimated (tokens n) = exceeds spent estimated n
over _ _ _ = false

unfoldable pub decide_budget : BudgetState → BudgetDecision
decide_budget s =
    if is_on s.limit
    then (if over s.spent s.estimated s.limit then budget_exceeded else commit)
    else commit

pub record Usage : Type 0 where
  pub input : ℕ
  pub output : ℕ
  pub cache_read : ℕ
  pub cache_write : ℕ

pub data Role : Type 0 where
  assistant another : Role

-- What a branch of a session holds: messages, the entry of a vote, and all else.
pub data Entry : Type 0 where
  message : Role → Option Usage → Entry
  abort : Balance → Amount → Entry
  other_entry : String → Entry

abbrev pub usage_of : Entry → Option Usage
usage_of (message assistant usage) = usage
usage_of _ = none

abbrev pub add_usage : ℕ → Option Usage → ℕ
add_usage total none = total
add_usage total (some u) = total + (u.input + u.output + u.cache_read + u.cache_write)

abbrev pub spend_from : ℕ → List Entry → ℕ
spend_from total [] = total
spend_from total (entry ∷ rest) = spend_from (add_usage total (usage_of entry)) rest

-- `none` where `getBranch` is unavailable.
unfoldable pub branch_spend : Option (List Entry) → Option ℕ
branch_spend none = none
branch_spend (some branch) = some (spend_from 0 branch)

pub record BudgetOptions : Type 0 where
  pub limit : Amount
  pub margin : Option ℕ
  pub baseline : Option ℕ

pub data Reply : Type 0 where
  proceeds blocked : Reply

-- The reply to a tool call, and the entries that the vote appends to the session.
pub record Voted : Type 0 where
  pub reply : Reply
  pub appended : List Entry

abbrev pub or_zero : Option ℕ → ℕ
or_zero none = 0
or_zero (some n) = n

abbrev pub vote : BudgetDecision → Balance → Amount → Voted
vote commit spent limit = record { reply = proceeds; appended = [] }
vote budget_exceeded spent limit = record { reply = blocked; appended = abort spent limit ∷ [] }

abbrev pub vote_on : BudgetOptions → Option ℕ → Voted
vote_on opts none = record { reply = proceeds; appended = [] }
vote_on opts (some total) =
    let spent = balance total (or_zero opts.baseline) in
    vote
      (decide_budget
        (record { spent = spent; estimated = or_zero opts.margin; limit = opts.limit }))
      spent opts.limit

-- The handler of `tool_call`, on the branch that its context holds.
unfoldable pub tool_call : BudgetOptions → Option (List Entry) → Voted
tool_call opts branch = vote_on opts (branch_spend branch)

-- runTurn: the voter is set up where the limit is finite and positive, with the spend of the
-- session as it was loaded.
abbrev pub positive : Amount → Option ℕ
positive (tokens n) = if ltb 0 n then some n else none
positive _ = none

unfoldable pub budget_voter : Amount → Amount → Option (List Entry) → Option BudgetOptions
budget_voter limit margin loaded =
    if is_on limit
    then some (record {
      limit = limit;
      margin = positive margin;
      baseline = some (or_zero (branch_spend loaded));
    })
    else none

-- A tool call of a turn: without a voter nothing handles it.
unfoldable pub call_of_turn : Option BudgetOptions → Option (List Entry) → Voted
call_of_turn none branch = record { reply = proceeds; appended = [] }
call_of_turn (some opts) branch = tool_call opts branch
