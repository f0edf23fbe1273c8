-- ===== src/Harness/Select/Order.antt =====
-- The order in which candidates are tried.
use serverless_harness.Base.{
  ℕ, suc, ◌<◌, ◌≡◌, refl, ◌∙◌, ◌↔◌, ◌⊎◌, inl, inr, true, false, List, [], ◌∷◌, map, arith, All, In,
  ltb, nat_beq, nat_beq_iff, Bool-cases,
}
use serverless_harness.Harness.Select.{
  Load, numbered, comes_before, insert_row, sort_rows, order_by_load,
}

abbrev pub Row : Type 0
Row = Load × ℕ

-- The row has fewer leases, or as many and an earlier place in the list of candidates.
abbrev pub Precedes : Row → Row → Type 0
Precedes (a, i) (b, j) = (a.active < b.active) ⊎ ((a.active ≡ b.active) × (i < j))

-- Each row precedes all that follow it.
abbrev pub Ascending : List Row → Type 0
Ascending [] = Unit
Ascending (r ∷ rows) = All (Precedes r) rows × Ascending rows

comes_before_cases :
    (r s : Row)
    → r.1 < s.1
    → ((comes_before r s ≡ true) × Precedes r s) ⊎ ((comes_before r s ≡ false) × Precedes s r)
comes_before_cases (a, i) (b, j) h = elim (Bool-cases (ltb a.active b.active)) [
  | inl less ↦ inl (ground arith, inl (ground arith))
  | inr more ↦ elim (Bool-cases (nat_beq a.active b.active)) [
    | inl even ↦ inl (ground arith, inr ((nat_beq_iff a.active b.active).0 even, h))
    | inr uneven ↦ inr (ground arith, inl (ground (arith, nat_beq_iff a.active b.active)))
  ]
]

Precedes-trans : (r s t : Row) → Precedes r s → Precedes s t → Precedes r t
Precedes-trans (a, i) (b, j) (c, k) (inl l) (inl m) = inl (omega arith)
Precedes-trans (a, i) (b, j) (c, k) (inl l) (inr (e, m)) = inl (omega (arith, e))
Precedes-trans (a, i) (b, j) (c, k) (inr (e, l)) (inl m) = inl (omega (arith, e))
Precedes-trans (a, i) (b, j) (c, k) (inr (e, l)) (inr (f, m)) = inr (e ∙ f, omega arith)

All-Precedes :
    (r s : Row) (rows : List Row) → Precedes r s → All (Precedes s) rows → All (Precedes r) rows
All-Precedes r s [] h all = tt
All-Precedes r s (t ∷ rows) h all = (Precedes-trans r s t h all.0, All-Precedes r s rows h all.1)

All-insert_row :
    (P : Row → Type 0) (r : Row) (rows : List Row) → P r → All P rows → All P (insert_row r rows)
All-insert_row P r [] p all = (p, tt)
All-insert_row P r (s ∷ rows) p all = elim (Bool-cases (comes_before r s)) [
  | inl first ↦ rw first (p, all)
  | inr later ↦ rw later (all.0, All-insert_row P r rows p all.1)
]

insert_row-Ascending :
    (r : Row) (rows : List Row)
    → All (λ s. r.1 < s.1) rows
    → Ascending rows
    → Ascending (insert_row r rows)
insert_row-Ascending r [] fresh asc = (tt, tt)
insert_row-Ascending r (s ∷ rows) fresh asc = elim (comes_before_cases r s fresh.0) [
  | inl (e, p) ↦ rw e ((p, All-Precedes r s rows p asc.0), asc)
  | inr (e, p) ↦
      rw e (All-insert_row (Precedes s) r rows p asc.0, insert_row-Ascending r rows fresh.1 asc.1)
]

In-insert_row : (x r : Row) (rows : List Row) → In x (insert_row r rows) ↔ In x (r ∷ rows)
In-insert_row x r [] = (λ m. m, λ m. m)
In-insert_row x r (s ∷ rows) = elim (Bool-cases (comes_before r s)) [
  | inl first ↦ rw first (λ m. m, λ m. m)
  | inr later ↦
      let (to, from) = In-insert_row x r rows in
      rw later (
        λ m. elim m [
          | inl e ↦ inr (inl e)
          | inr n ↦ elim (to n) [ inl e ↦ inl e | inr o ↦ inr (inr o) ]
        ],
        λ m. elim m [
          | inl e ↦ inr (from (inl e))
          | inr n ↦ elim n [ inl e ↦ inl e | inr o ↦ inr (from (inr o)) ]
        ],
      )
]

numbered-above : (i k : ℕ) (loads : List Load) → k < i → All (λ s. k < s.1) (numbered i loads)
numbered-above i k [] h = tt
numbered-above i k (l ∷ ls) h = (h, numbered-above (suc i) k ls (omega arith))

All-sort_rows : (P : Row → Type 0) (rows : List Row) → All P rows → All P (sort_rows rows)
All-sort_rows P [] all = tt
All-sort_rows P (r ∷ rows) all =
    All-insert_row P r (sort_rows rows) all.0 (All-sort_rows P rows all.1)

sort_rows-Ascending : (i : ℕ) (loads : List Load) → Ascending (sort_rows (numbered i loads))
sort_rows-Ascending i [] = tt
sort_rows-Ascending i (l ∷ ls) =
    insert_row-Ascending (l, i) (sort_rows (numbered (suc i) ls))
      (All-sort_rows (λ s. i < s.1) (numbered (suc i) ls)
        (numbered-above (suc i) i ls (omega arith)))
      (sort_rows-Ascending (suc i) ls)

In-sort_rows : (x : Row) (rows : List Row) → In x (sort_rows rows) ↔ In x rows
In-sort_rows x [] = (λ m. m, λ m. m)
In-sort_rows x (r ∷ rows) =
    let (to, from) = In-insert_row x r (sort_rows rows) in
    let (to', from') = In-sort_rows x rows in
    (
      λ m. elim (to m) [ inl e ↦ inl e | inr n ↦ inr (to' n) ],
      λ m. elim m [ inl e ↦ from (inl e) | inr n ↦ from (inr (from' n)) ],
    )

-- The candidates are tried in the order of their loads, those with as many leases in the order in which
-- they were listed, and each of them is tried.
pub order_by_load_sorts :
    (loads : List Load)
    → (rows : List Row) × (order_by_load loads ≡ map (λ r. r.0.pod) rows)
      × Ascending rows
      × ((x : Row) → In x rows ↔ In x (numbered 0 loads))
unfolding order_by_load
order_by_load_sorts loads = (
  sort_rows (numbered 0 loads),
  refl,
  sort_rows-Ascending 0 loads,
  λ x. In-sort_rows x (numbered 0 loads),
)
