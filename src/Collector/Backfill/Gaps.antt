-- ===== src/Collector/Backfill/Gaps.antt =====
-- What a fetch and a change of the table of gaps do to the blocks: each that was in a gap stays in one,
-- or was asked for.
use mathlib.Core.Path.{subst}
use arcagentx.Prelude.{
  ℕ, zero, suc, ◌+◌, ◌≤◌, ◌<◌, ◌≡◌, refl, ap, sym, ◌∙◌, ◌⊎◌, inl, inr, false, Option, none, some,
  List, [], ◌∷◌, ◌++◌, arith, Any, Bool-cases, ◌==◌, ==_iff,
}
use arcagentx.Collector.Backfill.{
  Row, Table, Fetch, numbers_from, ingest_from, set_row, insert_gap, insert_gaps,
}

abbrev pub Has : ℕ → List ℕ → Type 0
Has n ns = Any (λ m. m ≡ n) ns

-- The block stands in a gap of the table.
pub record InGap (t : Table) (n : ℕ) : Type 0 where
  pub key : ℕ
  pub row : Row
  pub there : t key ≡ some row
  pub above : key ≤ n
  pub below : n ≤ row.to_block

-- Gaps are not empty.
abbrev pub IsValid : Table → Type 0
IsValid t = (k : ℕ) (row : Row) → t k ≡ some row → k ≤ row.to_block

-- A fetch that answers says of each number that it was asked for that it came, or that it failed.
abbrev pub Splits : Fetch → Type 0
Splits fetch =
    (attempt : ℕ) (pending came failed : List ℕ) (n : ℕ)
    → fetch attempt pending ≡ some (came, failed)
    → Has n pending
    → Has n came ⊎ Has n failed

pub Option-cases : {A : Type 0} (o : Option A) → (o ≡ none) ⊎ ((a : A) × (o ≡ some a))
Option-cases none = inl refl
Option-cases (some a) = inr (a, refl)

pub Has-append : (n : ℕ) (ms ns : List ℕ) → Has n ms → Has n (ms ++ ns)
Has-append n [] ns h = absurd h
Has-append n (m ∷ ms) ns (inl p) = inl p
Has-append n (m ∷ ms) ns (inr h) = inr (Has-append n ms ns h)

pub Has-append_right : (n : ℕ) (ms ns : List ℕ) → Has n ns → Has n (ms ++ ns)
Has-append_right n [] ns h = h
Has-append_right n (m ∷ ms) ns h = inr (Has-append_right n ms ns h)

pub some-eq : {A : Type 0} {a b : A} → some a ≡ some b → a ≡ b
some-eq h = cc

pub numbers_from-Has :
    (n start count : ℕ) → start ≤ n → n < start + count → Has n (numbers_from start count)
unfolding numbers_from
numbers_from-Has n start zero le lt = absurd (omega arith)
numbers_from-Has n start (suc count) le lt = elim (Bool-cases (start == n)) [
  | inl same ↦ inl ((==_iff start n).0 same)
  | inr other ↦ inr (numbers_from-Has n (suc start) count (ground arith) (omega arith))
]

pub ingest_from-keeps :
    (left attempt : ℕ) (fetch : Fetch) (blocks pending : List ℕ) (n : ℕ)
    → Has n blocks
    → Has n (ingest_from left attempt fetch blocks pending).0
unfolding ingest_from
ingest_from-keeps zero attempt fetch blocks [] n h = h
ingest_from-keeps (suc left) attempt fetch blocks [] n h = h
ingest_from-keeps zero attempt fetch blocks (m ∷ pending) n h = h
ingest_from-keeps (suc left) attempt fetch blocks (m ∷ pending) n h =
    elim (Option-cases (fetch attempt (m ∷ pending))) [
      | inl thrown ↦
          rw (thrown, ingest_from)
            (ingest_from-keeps left (suc attempt) fetch blocks (m ∷ pending) n h)
      | inr (answer, e) ↦
          rw (e, ingest_from)
            (ingest_from-keeps left (suc attempt) fetch (answer.0 ++ blocks) answer.1 n
              (Has-append_right n answer.0 blocks h))
    ]

pub ingest_from-covers :
    (left attempt : ℕ) (fetch : Fetch) (blocks pending : List ℕ) (n : ℕ)
    → Splits fetch
    → Has n pending
    → Has n (ingest_from left attempt fetch blocks pending).0
      ⊎ Has n (ingest_from left attempt fetch blocks pending).1
unfolding ingest_from
ingest_from-covers zero attempt fetch blocks [] n splits h = absurd h
ingest_from-covers (suc left) attempt fetch blocks [] n splits h = absurd h
ingest_from-covers zero attempt fetch blocks (m ∷ pending) n splits h = inr h
ingest_from-covers (suc left) attempt fetch blocks (m ∷ pending) n splits h =
    elim (Option-cases (fetch attempt (m ∷ pending))) [
      | inl thrown ↦
          rw (thrown, ingest_from)
            (ingest_from-covers left (suc attempt) fetch blocks (m ∷ pending) n splits h)
      | inr (answer, e) ↦
          rw (e, ingest_from)
            (elim (splits attempt (m ∷ pending) answer.0 answer.1 n e h) [
              | inl came ↦ inl (
                  ingest_from-keeps left (suc attempt) fetch (answer.0 ++ blocks) answer.1 n
                    (Has-append n answer.0 blocks came))
              | inr failed ↦
                  ingest_from-covers left (suc attempt) fetch (answer.0 ++ blocks) answer.1 n splits
                    failed
            ])
    ]

set_row_self : (key : ℕ) (r : Option Row) (t : Table) → set_row key r t key ≡ r
unfolding set_row
set_row_self key r t = ground arith

set_row-other :
    (key j : ℕ) (r : Option Row) (t : Table) → (j == key) ≡ false → set_row key r t j ≡ t j
unfolding set_row
set_row-other key j r t h = rw h refl

set_row-cases :
    (key j : ℕ) (r : Option Row) (t : Table) (row : Row)
    → set_row key r t j ≡ some row
    → ((j ≡ key) × (r ≡ some row)) ⊎ (t j ≡ some row)
unfolding set_row
set_row-cases key j r t row h = elim (Bool-cases (j == key)) [
  | inl same ↦ inl ((==_iff j key).0 same, let k = rw same at h in k)
  | inr other ↦ inr (let k = rw other at h in k)
]

pub set_row-IsValid :
    (key : ℕ) (row : Row) (t : Table)
    → key ≤ row.to_block
    → IsValid t
    → IsValid (set_row key (some row) t)
set_row-IsValid key row t le v = λ k r h. elim (set_row-cases key k (some row) t r h) [
  | inl (same, e) ↦
      let rows : row ≡ r = some-eq e in
      subst (λ (q : Row). k ≤ q.to_block) rows (omega (arith, same, le))
  | inr e ↦ v k r e
]

pub delete_row-IsValid : (key : ℕ) (t : Table) → IsValid t → IsValid (set_row key none t)
delete_row-IsValid key t v =
    λ k r h. elim (set_row-cases key k none t r h) [ inl (same, e) ↦ cc | inr e ↦ v k r e ]

-- A gap of another row is still there.
pub other-InGap :
    (key n : ℕ) (r : Option Row) (t : Table) (g : InGap t n)
    → (g.key == key) ≡ false
    → InGap (set_row key r t) n
other-InGap key n r t g other = record {
  key = g.key;
  row = g.row;
  there = set_row-other key g.key r t other ∙ g.there;
  above = g.above;
  below = g.below;
}

pub new-InGap :
    (key n : ℕ) (row : Row) (t : Table)
    → key ≤ n
    → n ≤ row.to_block
    → InGap (set_row key (some row) t) n
new-InGap key n row t above below = record {
  key = key;
  row = row;
  there = set_row_self key (some row) t;
  above = above;
  below = below;
}

insert_gap-keeps : (attempts m n : ℕ) (t : Table) → InGap t n → InGap (insert_gap attempts m t) n
unfolding insert_gap
insert_gap-keeps attempts m n t g = elim (Option-cases (t m)) [
  | inl free ↦
      rw (free, insert_gap)
        (elim (Bool-cases (g.key == m)) [
          | inl same ↦
              let taken = sym (ap t ((==_iff g.key m).0 same)) ∙ g.there in
              let clash = sym free ∙ taken in cc
          | inr other ↦ other-InGap m n _ t g other
        ])
  | inr (row, taken) ↦ rw (taken, insert_gap) g
]

insert_gap-IsValid : (attempts m : ℕ) (t : Table) → IsValid t → IsValid (insert_gap attempts m t)
unfolding insert_gap
insert_gap-IsValid attempts m t v = elim (Option-cases (t m)) [
  | inl free ↦
      rw (free, insert_gap)
        (set_row-IsValid m (record { to_block = m; attempts = attempts }) t (omega arith) v)
  | inr (row, taken) ↦ rw (taken, insert_gap) v
]

insert_gap-new : (attempts n : ℕ) (t : Table) → IsValid t → InGap (insert_gap attempts n t) n
unfolding insert_gap
insert_gap-new attempts n t v = elim (Option-cases (t n)) [
  | inl free ↦
      rw (free, insert_gap)
        (new-InGap n n (record { to_block = n; attempts = attempts }) t (omega arith) (omega arith))
  | inr (row, taken) ↦
      rw (taken, insert_gap)
        (record { key = n; row = row; there = taken; above = omega arith; below = v n row taken })
]

pub insert_gaps-keeps :
    (attempts : ℕ) (ns : List ℕ) (n : ℕ) (t : Table)
    → InGap t n
    → InGap (insert_gaps attempts ns t) n
unfolding insert_gaps
insert_gaps-keeps attempts [] n t g = g
insert_gaps-keeps attempts (m ∷ ns) n t g =
    insert_gaps-keeps attempts ns n (insert_gap attempts m t) (insert_gap-keeps attempts m n t g)

pub insert_gaps-IsValid :
    (attempts : ℕ) (ns : List ℕ) (t : Table) → IsValid t → IsValid (insert_gaps attempts ns t)
unfolding insert_gaps
insert_gaps-IsValid attempts [] t v = v
insert_gaps-IsValid attempts (m ∷ ns) t v =
    insert_gaps-IsValid attempts ns (insert_gap attempts m t) (insert_gap-IsValid attempts m t v)

pub insert_gaps-covers :
    (attempts : ℕ) (ns : List ℕ) (n : ℕ) (t : Table)
    → IsValid t
    → Has n ns
    → InGap (insert_gaps attempts ns t) n
unfolding insert_gaps
insert_gaps-covers attempts [] n t v h = absurd h
insert_gaps-covers attempts (m ∷ ns) n t v (inl same) =
    insert_gaps-keeps attempts ns n (insert_gap attempts m t)
      (subst (λ k. InGap (insert_gap attempts m t) k) same (insert_gap-new attempts m t v))
insert_gaps-covers attempts (m ∷ ns) n t v (inr h) =
    insert_gaps-covers attempts ns n (insert_gap attempts m t) (insert_gap-IsValid attempts m t v) h
