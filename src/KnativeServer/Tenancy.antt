-- ===== src/KnativeServer/Tenancy.antt =====
-- packages/knative-server/src/tenancy.ts: the switch MOCA_TENANCY, and the variables that look like it but are not. The
-- regular expression of Kubernetes' service links and `toUpperCase` are parameters.
pub mod Edits
pub mod Core
mod Tests
use Prim.Native.Nat.{max}
use serverless_harness.Base.{
  ℕ, zero, suc, ◌+◌, ◌-◌, String, Bool, true, false, not, ◌&&◌, ◌||◌, Option, none, some, List, [],
  ◌∷◌, ◌==◌, if◌then◌else◌, any, length, drop, nat_beq, ltb, leb, Text, text_beq, text_key, codes,
  begins, Outcome, good, bad, keep_if,
}
use serverless_harness.ControlPlane.Errors.{Thrown, unrecognised}

pub data Tenancy : Type 0 where
  single multi : Tenancy

abbrev pub core_word : Text
core_word = codes "TENANCY"

abbrev pub leading : List Text
leading = codes "MOCA" ∷ codes "KAGENTI" ∷ codes "SH" ∷ codes "MULTI" ∷ []

abbrev pub tenan : Text
tenan = codes "TENAN"

-- The loop over `i` and `j`, on what is left of both, with the edits so far; what stands after it is its last line.
-- Which index moves on a difference is said by the lengths of the whole texts.
unfoldable pub walk : ℕ → ℕ → ℕ → Text → Text → Bool
walk la lb edits [] b = leb (edits + length b) 1
walk la lb edits (x ∷ a) [] = leb (edits + length (x ∷ a)) 1
walk la lb edits (x ∷ a) (y ∷ b) =
    let same = walk la lb edits a b in
    let skip_a = walk la lb (edits + 1) a (y ∷ b) in
    let skip_b = walk la lb (edits + 1) (x ∷ a) b in
    let skip_both = walk la lb (edits + 1) a b in
    if nat_beq x y
    then same
    else if ltb 1 (edits + 1)
    then false
    else if ltb lb la
    then skip_a
    else if ltb la lb
    then skip_b
    else skip_both

unfoldable pub edit_distance_at_most_one : Text → Text → Bool
unfolding walk
edit_distance_at_most_one a b =
    if ltb 1 ((length a - length b) + (length b - length a))
    then false
    else walk (length a) (length b) 0 a b

-- One word of the list: taken off the front, unless nothing would be left.
abbrev pub take_off : Text → Text → Option Text
take_off p out =
    if begins p out && ltb (length p) (length out) then some (drop (length p) out) else none

abbrev pub or_same : Text × Bool → Option Text → Text × Bool
or_same (out, changed) none = (out, changed)
or_same (out, changed) (some shorter) = (shorter, true)

-- The body of `do`: each word in turn, and whether one was taken off.
abbrev pub strip_pass : List Text → Text × Bool → Text × Bool
strip_pass [] r = r
strip_pass (p ∷ ps) r = strip_pass ps (or_same r (take_off p r.0))

-- The loop, on fuel.
unfoldable pub core_loop : ℕ → Text → Text
core_loop zero out = out
core_loop (suc fuel) out =
    let again = core_loop fuel (strip_pass leading (out, false)).0 in
    if (strip_pass leading (out, false)).1 then again else (strip_pass leading (out, false)).0

-- Every pass but the last shortens the text.
unfoldable pub core : Text → Text
unfolding core_loop
core segment = core_loop (suc (length segment)) segment

unfoldable pub tenancy_like : Text → Bool
unfolding edit_distance_at_most_one
tenancy_like c = begins core_word c || edit_distance_at_most_one c core_word

-- The segments, in order; `led` says whether a leading word was seen.
unfoldable pub near_miss_from : Bool → List Text → Bool
unfolding core tenancy_like text_beq
near_miss_from led [] = false
near_miss_from led (segment ∷ segments) =
    let later = near_miss_from true segments in
    let c = core segment in
    let seen = led || not (c == segment) in
    if tenancy_like c || (seen && begins tenan c)
    then true
    else if not (any (λ p. p == segment) leading)
    then false
    else later

-- `split(/[^A-Z0-9]+/).filter(Boolean)`
abbrev pub is_word_char : ℕ → Bool
is_word_char c = (leb 65 c && leb c 90) || (leb 48 c && leb c 57)

abbrev pub add_char : ℕ → List Text → List Text
add_char c [] = (c ∷ []) ∷ []
add_char c (t ∷ ts) = (c ∷ t) ∷ ts

unfoldable pub split_words : Text → List Text
split_words [] = [] ∷ []
split_words (c ∷ cs) =
    let rest = split_words cs in if is_word_char c then add_char c rest else [] ∷ rest

abbrev pub is_filled : Text → Bool
is_filled [] = false
is_filled (c ∷ t) = true

-- `service_link` is the test of the regular expression on the name, trimmed, in upper case.
module _ (upper : Text → Text) (service_link : Text → Bool) where
  unfoldable pub is_tenancy_near_miss : Text → Bool
  unfolding near_miss_from split_words
  is_tenancy_near_miss name =
      if name == codes "MOCA_TENANCY"
      then false
      else if service_link (upper name)
      then false
      else near_miss_from false (keep_if is_filled (split_words (upper name)))

  abbrev pub tenancy_of : Option String → Outcome Thrown Tenancy
  tenancy_of none = good single
  tenancy_of (some raw) =
      if codes raw == codes "single"
      then good single
      else if codes raw == codes "multi"
      then good multi
      else bad unrecognised

  -- `names` are the keys of the environment, and `raw` the value of MOCA_TENANCY in it.
  unfoldable pub read_tenancy : List Text → Option String → Outcome Thrown Tenancy
  unfolding is_tenancy_near_miss
  read_tenancy names raw =
      if any is_tenancy_near_miss names then bad unrecognised else tenancy_of raw
