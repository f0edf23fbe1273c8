-- ===== src/Supervisor/Head/SessionId.antt =====
-- The session id is read from the header block only.
use serverless_harness.Base.{
  ℕ, suc, ◌≤◌, ◌≡◌, sym, ◌∙◌, ap, true, false, some, [], ◌∷◌, ◌++◌, arith, length, take-append,
  Option-cases, Bool-cases, drop, ◌⊎◌, inl, inr,
}
use serverless_harness.Supervisor.Head.Scan.{at_terminator-append}
use serverless_harness.Supervisor.Head.{
  Bytes, at_terminator, header_block_end, session_id_in, split_lines, session_id_from_head,
}

at_terminator-length : (bs : Bytes) → at_terminator bs ≡ true → 4 ≤ length bs
unfolding at_terminator
at_terminator-length (a ∷ b ∷ c ∷ d ∷ rest) h = omega arith
at_terminator-length bs h = cc

end_cases :
    (b : ℕ) (bs : Bytes) (n : ℕ)
    → header_block_end (b ∷ bs) ≡ some n
    → ((at_terminator (b ∷ bs) ≡ true) × (n ≡ 4))
      ⊎ ((at_terminator (b ∷ bs) ≡ false)
          × ((m : ℕ) × (header_block_end bs ≡ some m) × (n ≡ suc m)))
unfolding header_block_end
end_cases b bs n h = elim (Bool-cases (at_terminator (b ∷ bs))) [
  | inl here ↦ inl (here, ground arith)
  | inr later ↦ elim (Option-cases (header_block_end bs)) [
    | inl e ↦ absurd (ground arith)
    | inr (m, e) ↦ inr (later, (m, e, ground arith))
  ]
]

-- The end of the block lies in the buffer.
header_block_end_bounds :
    (bs : Bytes) (n : ℕ) → header_block_end bs ≡ some n → (4 ≤ n) × (n ≤ length bs)
unfolding header_block_end
header_block_end_bounds [] n h = cc
header_block_end_bounds (b ∷ bs) n h = elim (end_cases b bs n h) [
  | inl (here, e) ↦ omega (arith, at_terminator-length (b ∷ bs) here)
  | inr (_, (m, e, f)) ↦ let i = header_block_end_bounds bs m e in omega (arith, i.0, i.1)
]

end_here : (b : ℕ) (bs : Bytes) → at_terminator (b ∷ bs) ≡ true → header_block_end (b ∷ bs) ≡ some 4
unfolding header_block_end
end_here b bs h = ground arith

end_later :
    (b : ℕ) (bs : Bytes) (m : ℕ)
    → at_terminator (b ∷ bs) ≡ false
    → header_block_end bs ≡ some m
    → header_block_end (b ∷ bs) ≡ some (suc m)
unfolding header_block_end
end_later b bs m h e = ground arith

header_block_end-append :
    (bs rest : Bytes) (n : ℕ)
    → header_block_end bs ≡ some n
    → header_block_end (bs ++ rest) ≡ some n
unfolding header_block_end
header_block_end-append [] rest n h = cc
header_block_end-append (b ∷ bs) rest n h =
    let same : at_terminator ((b ∷ bs) ++ rest) ≡ at_terminator (b ∷ bs) =
      at_terminator-append (b ∷ bs) rest
        (let i = header_block_end_bounds (b ∷ bs) n h in omega (arith, i.0, i.1)) in
    elim (end_cases b bs n h) [
      | inl (here, e) ↦ end_here b (bs ++ rest) (same ∙ here) ∙ ap some (sym e)
      | inr (miss, (m, e, f)) ↦
          end_later b (bs ++ rest) m (same ∙ miss) (header_block_end-append bs rest m e)
          ∙ ap some (sym f)
    ]

-- What follows the terminator has no part in the session id: a client cannot steer the routing of a
-- connection from the body of its request.
pub session_id_from_head_append :
    (head body : Bytes) (n : ℕ)
    → header_block_end head ≡ some n
    → session_id_from_head (head ++ body) ≡ session_id_from_head head
unfolding session_id_from_head
session_id_from_head_append head body n h =
    rw (h, header_block_end-append head body n h)
      (ap (λ block. session_id_in (drop 1 (split_lines block)))
        (take-append n head body (header_block_end_bounds head n h).1))
