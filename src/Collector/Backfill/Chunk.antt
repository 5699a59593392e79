-- ===== src/Collector/Backfill/Chunk.antt =====
-- What a chunk of blocks that is fetched leaves: its blocks came or failed, and what failed is written
-- down as gaps.
use arcagentx.Prelude.{
  ℕ, ◌+◌, ◌-◌, ◌≤◌, ◌<◌, min, ◌⊎◌, inl, inr, List, [], ◌++◌, arith, Bool-cases, ltb,
}
use arcagentx.Collector.Backfill.{Table, Fetch, numbers_from, ingest_from, insert_gaps}
use arcagentx.Collector.Backfill.Gaps.{
  Has, InGap, IsValid, Splits, Has-append, Has-append_right, numbers_from-Has, ingest_from-keeps,
  ingest_from-covers, insert_gaps-keeps, insert_gaps-covers,
}

-- One chunk of a turn, in so many tries.
pub chunk-covers :
    (tries size : ℕ) (fetch : Fetch) (past n m : ℕ) (blocks failed : List ℕ) (k : ℕ)
    → Splits fetch
    → (Has k blocks ⊎ Has k failed) ⊎ ((n ≤ k) × (k < m))
    → (Has k (ingest_from tries 0 fetch blocks (numbers_from n (min (n + size) past - n))).0
        ⊎ Has k (
            failed
            ++ (ingest_from tries 0 fetch blocks (numbers_from n (min (n + size) past - n))).1))
      ⊎ ((min (n + size) past ≤ k) × (k < m))
chunk-covers tries size fetch past n m blocks failed k splits (inl (inl here)) =
    inl (inl (ingest_from-keeps tries 0 fetch blocks _ k here))
chunk-covers tries size fetch past n m blocks failed k splits (inl (inr lost)) =
    inl (inr (Has-append k failed _ lost))
chunk-covers tries size fetch past n m blocks failed k splits (inr (above, below)) =
    let stop = min (n + size) past in
    elim (Bool-cases (ltb k stop)) [
      | inl inside ↦
          elim (ingest_from-covers tries 0 fetch blocks (numbers_from n (stop - n)) k splits
            (numbers_from-Has k n (stop - n) above (ground arith))) [
              | inl came ↦ inl (inl came)
              | inr lost ↦ inl (inr (Has-append_right k failed _ lost))
            ]
      | inr outside ↦ inr (ground arith, below)
    ]

-- A block before the new cursor is there or in a gap, if those before the old one were, and those
-- between came or failed.
pub written_down :
    (cursor n k : ℕ) (before blocks failed : List ℕ) (gaps : Table)
    → IsValid gaps
    → (k < cursor → Has k before ⊎ InGap gaps k)
    → ((Has k before ⊎ Has k []) ⊎ ((cursor ≤ k) × (k < n)) → Has k blocks ⊎ Has k failed)
    → k < n
    → Has k blocks ⊎ InGap (insert_gaps 0 failed gaps) k
written_down cursor n k before blocks failed gaps valid behind covers below =
    let noted : Has k blocks ⊎ Has k failed → Has k blocks ⊎ InGap (insert_gaps 0 failed gaps) k =
      λ c. elim c [
        | inl there ↦ inl there
        | inr lost ↦ inr (insert_gaps-covers 0 failed k gaps valid lost)
      ] in
    elim (Bool-cases (ltb k cursor)) [
      | inl inside ↦ elim (behind (ground arith)) [
        | inl here ↦ noted (covers (inl (inl here)))
        | inr g ↦ inr (insert_gaps-keeps 0 failed k gaps g)
      ]
      | inr ahead ↦ noted (covers (inr (ground arith, below)))
    ]
