-- ===== src/Collector/Backfill/Settled.antt =====
-- What becomes of the gaps when the newest chunk of one has been tried.
use mathlib.Core.Path.{subst}
use arcagentx.Prelude.{
  ℕ, ◌+◌, ◌-◌, ◌≤◌, ◌<◌, ◌≡◌, refl, ap, sym, ◌∙◌, ◌⊎◌, inl, inr, ◌&&◌, none, some, List, [], ◌∷◌,
  arith, Bool-cases, ltb, ◌==◌, ==_iff, length,
}
use arcagentx.Collector.Backfill.{Row, Table, set_row, with_to, settle_gap}
use arcagentx.Collector.Backfill.Gaps.{
  Has, InGap, IsValid, some-eq, set_row-IsValid, delete_row-IsValid, other-InGap, new-InGap,
  insert_gaps-keeps, insert_gaps-IsValid, insert_gaps-covers,
}

-- A gap that ends before `start` keeps the blocks before it.
shrunk-InGap :
    (start from n : ℕ) (row : Row) (t : Table)
    → t from ≡ some row
    → from < start
    → InGap t n
    → InGap (set_row from (some (with_to (start - 1) row)) t) n ⊎ ((start ≤ n) × (n ≤ row.to_block))
shrunk-InGap start from n row t there lt g = elim (Bool-cases (g.key == from)) [
  | inr other ↦ inl (other-InGap from n _ t g other)
  | inl same ↦
      let key = (==_iff g.key from).0 same in
      let rows : g.row ≡ row = some-eq (sym g.there ∙ ap t key ∙ there) in
      let below = subst (λ (r : Row). n ≤ r.to_block) rows g.below in
      elim (Bool-cases (ltb n start)) [
        | inl left ↦ inl (
            new-InGap from n (with_to (start - 1) row) t (omega (arith, key, g.above))
              (ground arith))
        | inr right ↦ inr (ground arith, below)
      ]
]

deleted-InGap :
    (start from n : ℕ) (row : Row) (t : Table)
    → t from ≡ some row
    → start ≡ from
    → InGap t n
    → InGap (set_row from none t) n ⊎ ((start ≤ n) × (n ≤ row.to_block))
deleted-InGap start from n row t there whole g = elim (Bool-cases (g.key == from)) [
  | inr other ↦ inl (other-InGap from n none t g other)
  | inl same ↦
      let key = (==_iff g.key from).0 same in
      let rows : g.row ≡ row = some-eq (sym g.there ∙ ap t key ∙ there) in
      inr (omega (arith, key, whole, g.above), subst (λ (r : Row). n ≤ r.to_block) rows g.below)
]

bumped-InGap :
    (from n : ℕ) (bumped row : Row) (t : Table)
    → t from ≡ some row
    → bumped.to_block ≡ row.to_block
    → InGap t n
    → InGap (set_row from (some bumped) t) n
bumped-InGap from n bumped row t there same_to g = elim (Bool-cases (g.key == from)) [
  | inr other ↦ other-InGap from n (some bumped) t g other
  | inl same ↦
      let key = (==_iff g.key from).0 same in
      let rows : g.row ≡ row = some-eq (sym g.there ∙ ap t key ∙ there) in
      let below = subst (λ (r : Row). n ≤ r.to_block) rows g.below in
      new-InGap from n bumped t (omega (arith, key, g.above)) (omega (arith, below, same_to))
]

-- After a gap's newest chunk was tried, each block that stood in a gap stands in one, or is of the
-- chunk.
pub settle_gap-keeps :
    (start from tried n : ℕ) (row : Row) (failed : List ℕ) (t : Table)
    → t from ≡ some row
    → from ≤ start
    → InGap t n
    → InGap (settle_gap start from row tried failed t) n ⊎ ((start ≤ n) × (n ≤ row.to_block))
unfolding settle_gap
settle_gap-keeps start from tried n row [] t there le g = elim (Bool-cases (start == from)) [
  | inl whole ↦
      rw (whole, settle_gap)
        (deleted-InGap start from n row t there ((==_iff start from).0 whole) g)
  | inr part ↦ rw (part, settle_gap) (shrunk-InGap start from n row t there (ground arith) g)
]
settle_gap-keeps start from tried n row (f ∷ failed) t there le g =
    elim (Bool-cases (ltb (length (f ∷ failed)) tried && ltb from start)) [
      | inl split ↦
          rw (split, settle_gap)
            (elim (shrunk-InGap start from n row t there (ground arith) g) [
              | inl stays ↦ inl (insert_gaps-keeps (row.attempts + 1) (f ∷ failed) n _ stays)
              | inr chunk ↦ inr chunk
            ])
      | inr whole ↦
          rw (whole, settle_gap)
            (inl
              (bumped-InGap from n (record row { attempts = row.attempts + 1 }) row t there refl g))
    ]

-- What failed of the chunk stands in a gap.
pub settle_gap-failed :
    (start from tried n : ℕ) (row : Row) (failed : List ℕ) (t : Table)
    → IsValid t
    → from ≤ start
    → start ≤ n
    → n ≤ row.to_block
    → Has n failed
    → InGap (settle_gap start from row tried failed t) n
unfolding settle_gap
settle_gap-failed start from tried n row [] t v le above below h = absurd h
settle_gap-failed start from tried n row (f ∷ failed) t v le above below h =
    elim (Bool-cases (ltb (length (f ∷ failed)) tried && ltb from start)) [
      | inl split ↦
          rw (split, settle_gap)
            (insert_gaps-covers (row.attempts + 1) (f ∷ failed) n _
              (set_row-IsValid from (with_to (start - 1) row) t (ground arith) v) h)
      | inr whole ↦
          rw (whole, settle_gap)
            (new-InGap from n (record row { attempts = row.attempts + 1 }) t (omega arith) below)
    ]

pub settle_gap-IsValid :
    (start from tried : ℕ) (row : Row) (failed : List ℕ) (t : Table)
    → IsValid t
    → t from ≡ some row
    → from ≤ start
    → IsValid (settle_gap start from row tried failed t)
unfolding settle_gap
settle_gap-IsValid start from tried row [] t v there le = elim (Bool-cases (start == from)) [
  | inl whole ↦ rw (whole, settle_gap) (delete_row-IsValid from t v)
  | inr part ↦
      rw (part, settle_gap) (set_row-IsValid from (with_to (start - 1) row) t (ground arith) v)
]
settle_gap-IsValid start from tried row (f ∷ failed) t v there le =
    elim (Bool-cases (ltb (length (f ∷ failed)) tried && ltb from start)) [
      | inl split ↦
          rw (split, settle_gap)
            (insert_gaps-IsValid (row.attempts + 1) (f ∷ failed) _
              (set_row-IsValid from (with_to (start - 1) row) t (ground arith) v))
      | inr whole ↦
          rw (whole, settle_gap)
            (set_row-IsValid from (record row { attempts = row.attempts + 1 }) t (v from row there)
              v)
    ]
