-- ===== src/Supervisor/Head/Scan.antt =====
-- The scan of each chunk with a carry of three bytes finds the terminator exactly where a scan of all
-- the bytes would.
use serverless_harness.Base.{
  ℕ, suc, ◌+◌, ◌-◌, ◌≤◌, ◌<◌, ◌≡◌, ◌≢◌, refl, sym, ◌∙◌, ap, ◌⊎◌, inl, inr, true, false, ◌||◌,
  Option, none, some, List, [], ◌∷◌, ◌++◌, arith, leb, length, length-append, drop, ◌↔◌, Bool-cases,
}
use serverless_harness.Supervisor.Head.{
  Bytes, at_terminator, has_terminator, HeadOutcome, complete, cap, timeout, closed, Reader, start,
  SocketEvent, chunk, end, error, timer, on_data, on_event, live_event, read_head,
}

has_terminator-cons :
    (b : ℕ) (bs : Bytes) → has_terminator (b ∷ bs) ≡ (at_terminator (b ∷ bs) || has_terminator bs)
unfolding has_terminator
has_terminator-cons b bs = ground arith

-- Four bytes decide.
pub at_terminator-append :
    (bs ys : Bytes) → 4 ≤ length bs → at_terminator (bs ++ ys) ≡ at_terminator bs
unfolding at_terminator
at_terminator-append (a ∷ b ∷ c ∷ d ∷ rest) ys h = refl
at_terminator-append bs ys h = absurd (omega arith)

abbrev last_three : Bytes → Bytes
last_three bs = drop (length bs - 3) bs

last_three-short : (bs : Bytes) → length bs ≤ 3 → last_three bs ≡ bs
last_three-short bs h = let e : length bs - 3 ≡ 0 = omega arith in rw e

last_three-cons : (b : ℕ) (bs : Bytes) → 3 ≤ length bs → last_three (b ∷ bs) ≡ last_three bs
last_three-cons b bs h = let e : length (b ∷ bs) - 3 ≡ suc (length bs - 3) = omega arith in rw e

scan-split :
    (x : ℕ) (xs : Bytes)
    → has_terminator (x ∷ xs) ≡ false
    → (at_terminator (x ∷ xs) ≡ false) × (has_terminator xs ≡ false)
scan-split x xs h = ground (arith, has_terminator-cons x xs)

scan-skip :
    (x : ℕ) (xs : Bytes)
    → at_terminator (x ∷ xs) ≡ false
    → has_terminator (x ∷ xs) ≡ has_terminator xs
scan-skip x xs h = has_terminator-cons x xs ∙ rw h

-- A carry of the last three bytes loses nothing of a scan that has found nothing so far.
scan_carry :
    (xs ys : Bytes)
    → has_terminator xs ≡ false
    → has_terminator (xs ++ ys) ≡ has_terminator (last_three xs ++ ys)
scan_carry [] ys h = refl
scan_carry (x ∷ xs) ys h = elim (Bool-cases (leb 3 (length xs))) [
  | inl long ↦
      let (here, later) = scan-split x xs h in
      let far : 4 ≤ length (x ∷ xs) = ground arith in
      rw (last_three-cons x xs (ground arith)) (
        scan-skip x (xs ++ ys) (at_terminator-append (x ∷ xs) ys far ∙ here)
        ∙ scan_carry xs ys later)
  | inr short ↦ rw (last_three-short (x ∷ xs) (ground arith))
]

last_three-append : (xs ys : Bytes) → last_three (last_three xs ++ ys) ≡ last_three (xs ++ ys)
last_three-append [] ys = refl
last_three-append (x ∷ xs) ys = elim (Bool-cases (leb 3 (length xs))) [
  | inl long ↦ rw (last_three-cons x xs (ground arith)) (
      last_three-append xs ys
      ∙ sym (last_three-cons x (xs ++ ys) (ground (arith, length-append xs ys))))
  | inr short ↦ rw (last_three-short (x ∷ xs) (ground arith))
]

-- What holds of the reader between events.
record IsScanned (max_bytes : ℕ) (r : Reader) : Type 0 where
  total : r.total ≡ length r.bytes
  carried : r.outcome ≡ none → r.carry ≡ last_three r.bytes
  below : r.outcome ≡ none → (r.bytes ≡ []) ⊎ (length r.bytes < max_bytes)
  found : (r.outcome ≡ some complete) → has_terminator r.bytes ≡ true
  missed : (r.outcome ≢ some complete) → has_terminator r.bytes ≡ false
  capped : r.outcome ≡ some cap → max_bytes ≤ length r.bytes

on_data-IsScanned :
    (max_bytes : ℕ) (c : Bytes) (r : Reader)
    → r.outcome ≡ none
    → IsScanned max_bytes r
    → IsScanned max_bytes (on_data max_bytes c r)
unfolding on_data
on_data-IsScanned max_bytes c r waiting s =
    let clear = s.missed (λ e. cc) in
    let same =
      scan_carry r.bytes c clear ∙ ap (λ b. has_terminator (b ++ c)) (sym (s.carried waiting)) in
    let size : r.total + length c ≡ length (r.bytes ++ c) =
      omega (arith, s.total, length-append r.bytes c) in
    elim (Bool-cases (has_terminator (r.carry ++ c))) [
      | inl hit ↦ rw hit (record {
        total = size;
        carried = λ e. cc;
        below = λ e. cc;
        found = λ e. same ∙ hit;
        missed = λ ne. absurd (ne refl);
        capped = λ e. cc;
      })
      | inr miss ↦ rw miss (record {
        total = size;
        carried =
            λ e. ap (λ b. last_three (b ++ c)) (s.carried waiting) ∙ last_three-append r.bytes c;
        below = λ e. inr (ground (arith, size));
        found = λ e. ground arith;
        missed = λ ne. same ∙ miss;
        capped = λ e. ground (arith, size);
      })
    ]

settle-IsScanned :
    (max_bytes : ℕ) (o : HeadOutcome) (r : Reader)
    → o ≢ complete
    → o ≢ cap
    → r.outcome ≡ none
    → IsScanned max_bytes r
    → IsScanned max_bytes (record r { outcome = some o })
settle-IsScanned max_bytes o r ne ne' waiting s = record {
  total = s.total;
  carried = λ e. cc;
  below = λ e. cc;
  found = λ e. absurd (ne (let q : o ≡ complete = cc in q));
  missed = λ _. s.missed (λ e. cc);
  capped = λ e. absurd (ne' (let q : o ≡ cap = cc in q));
}

on_event-IsScanned :
    (max_bytes : ℕ) (e : SocketEvent) (r : Reader)
    → r.outcome ≡ none
    → IsScanned max_bytes r
    → IsScanned max_bytes (on_event max_bytes e r)
unfolding on_event
on_event-IsScanned max_bytes (chunk c) r waiting s = on_data-IsScanned max_bytes c r waiting s
on_event-IsScanned max_bytes end r waiting s =
    settle-IsScanned max_bytes closed r (λ e. cc) (λ e. cc) waiting s
on_event-IsScanned max_bytes error r waiting s =
    settle-IsScanned max_bytes closed r (λ e. cc) (λ e. cc) waiting s
on_event-IsScanned max_bytes timer r waiting s =
    settle-IsScanned max_bytes timeout r (λ e. cc) (λ e. cc) waiting s

live_event-IsScanned :
    (o : Option HeadOutcome) (max_bytes : ℕ) (e : SocketEvent) (r : Reader)
    → r.outcome ≡ o
    → IsScanned max_bytes r
    → IsScanned max_bytes (live_event o max_bytes e r)
unfolding live_event
live_event-IsScanned none max_bytes e r h s = on_event-IsScanned max_bytes e r h s
live_event-IsScanned (some o) max_bytes e r h s = s

run-IsScanned :
    (max_bytes : ℕ) (es : List SocketEvent) (r : Reader)
    → IsScanned max_bytes r
    → IsScanned max_bytes (read_head max_bytes es r)
unfolding read_head
run-IsScanned max_bytes [] r s = s
run-IsScanned max_bytes (e ∷ es) r s =
    run-IsScanned max_bytes es _ (live_event-IsScanned r.outcome max_bytes e r refl s)

start-IsScanned : (max_bytes : ℕ) → IsScanned max_bytes start
unfolding has_terminator
start-IsScanned max_bytes = record {
  total = refl;
  carried = λ _. refl;
  below = λ _. inl refl;
  found = λ e. cc;
  missed = λ _. refl;
  capped = λ e. cc;
}

-- However the peer cuts its bytes into chunks: the read is `complete` exactly if the bytes consumed
-- hold a terminator, it ends at the cap only with that many bytes consumed, and while it goes on fewer
-- than that have been, or none.
pub read_head_scans :
    (max_bytes : ℕ) (es : List SocketEvent)
    → let r = read_head max_bytes es start in
      ((r.outcome ≡ some complete) ↔ (has_terminator r.bytes ≡ true))
      × (r.outcome ≡ some cap → max_bytes ≤ length r.bytes)
      × (r.outcome ≡ none → (r.bytes ≡ []) ⊎ (length r.bytes < max_bytes))
read_head_scans max_bytes es =
    let s = run-IsScanned max_bytes es start (start-IsScanned max_bytes) in
    let r = read_head max_bytes es start in
    ((s.found, λ h. holds r.outcome (λ ne. cc (s.missed ne, h))), s.capped, s.below)
  where
    holds : (o : Option HeadOutcome) → ¬ (o ≢ some complete) → o ≡ some complete
    holds none h = absurd (h (λ e. cc))
    holds (some complete) h = refl
    holds (some cap) h = absurd (h (λ e. cc))
    holds (some timeout) h = absurd (h (λ e. cc))
    holds (some closed) h = absurd (h (λ e. cc))
