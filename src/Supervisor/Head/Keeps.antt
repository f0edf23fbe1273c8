-- ===== src/Supervisor/Head/Keeps.antt =====
-- Every byte that is taken from the socket before the hand-off is kept for the worker.
use mathlib.Core.List.{append-nil, append_assoc}
use serverless_harness.Base.{
  ℕ, zero, suc, ◌<◌, ◌≡◌, ◌≢◌, refl, sym, ◌∙◌, ap, subst, inl, inr, Option, none, some, List, [],
  ◌∷◌, ◌++◌, arith, length, take, Option-cases,
}
use serverless_harness.Supervisor.Head.{
  Bytes, HeadOutcome, Reader, start, SocketEvent, chunk, on_event, live_event, read_head,
}

abbrev pub bytes_of : SocketEvent → Bytes
bytes_of (chunk c) = c
bytes_of e = []

-- The bytes of the chunks.
abbrev pub joined : List SocketEvent → Bytes
joined [] = []
joined (e ∷ es) = bytes_of e ++ joined es

on_event-bytes :
    (max_bytes : ℕ) (e : SocketEvent) (r : Reader)
    → (on_event max_bytes e r).bytes ≡ r.bytes ++ bytes_of e
unfolding on_event
on_event-bytes max_bytes (chunk c) r = ground arith
on_event-bytes max_bytes e r = sym (append-nil r.bytes)

live_event-none :
    (o : Option HeadOutcome) (max_bytes : ℕ) (e : SocketEvent) (r : Reader)
    → o ≡ none
    → live_event o max_bytes e r ≡ on_event max_bytes e r
unfolding live_event
live_event-none none max_bytes e r h = refl
live_event-none (some o) max_bytes e r h = absurd (cc)

live_event-some :
    (o : Option HeadOutcome) (max_bytes : ℕ) (e : SocketEvent) (r : Reader)
    → o ≢ none
    → live_event o max_bytes e r ≡ r
unfolding live_event
live_event-some none max_bytes e r h = absurd (h refl)
live_event-some (some o) max_bytes e r h = refl

settled_stays :
    (max_bytes : ℕ) (es : List SocketEvent) (r : Reader)
    → r.outcome ≢ none
    → read_head max_bytes es r ≡ r
unfolding read_head
settled_stays max_bytes [] r h = refl
settled_stays max_bytes (e ∷ es) r h =
    ap (read_head max_bytes es) (live_event-some r.outcome max_bytes e r h)
    ∙ settled_stays max_bytes es r h

abbrev Keeps : ℕ → List SocketEvent → Reader → Reader → Type 0
Keeps max_bytes es r after =
    (k : ℕ) × (after.bytes ≡ r.bytes ++ joined (take k es))
    × (after.outcome ≡ none → k ≡ length es)
    × (read_head max_bytes (take k es) r ≡ after)
    × ((j : ℕ) → j < k → (read_head max_bytes (take j es) r).outcome ≡ none)

read_head-Keeps :
    (max_bytes : ℕ) (es : List SocketEvent) (r : Reader)
    → Keeps max_bytes es r (read_head max_bytes es r)
unfolding read_head
read_head-Keeps max_bytes [] r =
    (0, sym (append-nil r.bytes), λ _. refl, refl, λ j below. absurd (omega (arith, below)))
read_head-Keeps max_bytes (e ∷ es) r = elim (Option-cases r.outcome) [
  | inl waiting ↦
      let (k, same, all_of, stops, before) =
        read_head-Keeps max_bytes es (live_event r.outcome max_bytes e r) in
      let step = live_event-none r.outcome max_bytes e r waiting in
      (
        suc k,
        same
            ∙ ap (λ (u : Reader). u.bytes ++ joined (take k es)) step
            ∙ ap (λ b. b ++ joined (take k es)) (on_event-bytes max_bytes e r)
            ∙ append_assoc r.bytes (bytes_of e) (joined (take k es)),
        λ h. ap suc (all_of h),
        stops,
        λ j. earlier max_bytes e es r k waiting before j,
      )
  | inr (o, settled) ↦
      let stays = settled_stays max_bytes (e ∷ es) r (λ h. cc) in
      subst (Keeps max_bytes (e ∷ es) r) (sym stays) (
        0,
        sym (append-nil r.bytes),
        λ h. absurd (cc),
        refl,
        λ j below. absurd (omega (arith, below)),
      )
]
  where
    earlier :
        (max_bytes : ℕ) (e : SocketEvent) (es : List SocketEvent) (r : Reader) (k : ℕ)
        → r.outcome ≡ none
        → ((j : ℕ)
            → j < k
            → (read_head max_bytes (take j es) (live_event r.outcome max_bytes e r)).outcome ≡ none)
        → (j : ℕ) → j < suc k
        → (read_head max_bytes (take j (e ∷ es)) r).outcome ≡ none
    earlier max_bytes e es r k waiting before zero below = waiting
    earlier max_bytes e es r k waiting before (suc j) below = before j (omega (arith, below))

-- Every byte that the reader took from the socket is in its result, in order, and nothing else is: they
-- are the chunks of the first `k` events, at the last of which the read settled and before none of which it
-- had; and of all of the events while the read goes on.
pub read_head_keeps :
    (max_bytes : ℕ) (es : List SocketEvent)
    → let after = read_head max_bytes es start in
      (k : ℕ) × (after.bytes ≡ joined (take k es))
      × (after.outcome ≡ none → k ≡ length es)
      × (read_head max_bytes (take k es) start ≡ after)
      × ((j : ℕ) → j < k → (read_head max_bytes (take j es) start).outcome ≡ none)
read_head_keeps max_bytes es = read_head-Keeps max_bytes es start
