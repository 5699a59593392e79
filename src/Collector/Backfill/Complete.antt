-- ===== src/Collector/Backfill/Complete.antt =====
-- No block of the history is lost: each one behind the cursor is there, or stands in a gap.
use mathlib.Core.Path.{subst}
use arcagentx.Prelude.{
  ℕ, zero, suc, ◌+◌, ◌-◌, ◌≤◌, ◌<◌, max, ◌≡◌, refl, ap, sym, ◌∙◌, ◌⊎◌, inl, inr, Bool, true, false,
  not, Option, none, some, List, [], arith, Bool-cases, ltb, leb,
}
use arcagentx.Collector.Backfill.{
  CollectorConfig, Row, Table, Worker, Fetch, numbers_from, ingest_from, ingest, insert_gaps,
  chunk_start, fill_gap, run_chunks, backfill_chunk, floor, prune_history, fill_picked,
  fill_one_gap, turn,
}
use arcagentx.Collector.Backfill.Gaps.{
  Has, InGap, IsValid, Splits, numbers_from-Has, ingest_from-keeps, ingest_from-covers,
  insert_gaps-IsValid,
}
use arcagentx.Collector.Backfill.Chunk.{chunk-covers, written_down}
use arcagentx.Collector.Backfill.Settled.{settle_gap-keeps, settle_gap-failed, settle_gap-IsValid}

-- The block is there, or stands in a gap.
abbrev pub Accounted : Worker → ℕ → Type 0
Accounted s n = Has n s.blocks ⊎ InGap s.gaps n

-- The worker has lost nothing: gaps are not empty, and each block behind the cursor is accounted for.
pub record Sound (s : Worker) : Type 0 where
  pub valid : IsValid s.gaps
  pub complete : (n : ℕ) → n < s.backfill.cursor → Accounted s n

-- Filling a gap loses no block: what was there or in a gap is there or in a gap.
pub fill_gap-Accounted :
    (cfg : CollectorConfig) (fetch : Fetch) (from : ℕ) (row : Row) (s : Worker) (n : ℕ)
    → Splits fetch
    → IsValid s.gaps
    → s.gaps from ≡ some row
    → Accounted s n
    → Accounted (fill_gap cfg fetch from row s) n
unfolding fill_gap ingest chunk_start
fill_gap-Accounted cfg fetch from row s n splits v there (inl here) =
    inl (ingest_from-keeps 3 0 fetch s.blocks _ n here)
fill_gap-Accounted cfg fetch from row s n splits v there (inr g) =
    let start = max from (row.to_block + 1 - cfg.batch_blocks) in
    let tried = row.to_block + 1 - start in
    let got = ingest_from 3 0 fetch s.blocks (numbers_from start tried) in
    let le : from ≤ start = omega arith in
    elim (settle_gap-keeps start from tried n row got.1 s.gaps there le g) [
      | inl stays ↦ inr stays
      | inr (above, below) ↦
          elim (ingest_from-covers 3 0 fetch s.blocks (numbers_from start tried) n splits
            (numbers_from-Has n start tried above (omega arith))) [
              | inl came ↦ inl came
              | inr failed ↦
                  inr
                    (settle_gap-failed start from tried n row got.1 s.gaps v le above below failed)
            ]
    ]

-- What a turn over the history leaves: each block before the new cursor came or failed.
run_chunks-covers :
    (left : ℕ) (cfg : CollectorConfig) (fetch : ℕ → Fetch) (past n : ℕ) (blocks failed : List ℕ)
    (k : ℕ)
    → ((i : ℕ) → Splits (fetch i))
    → (Has k blocks ⊎ Has k failed)
      ⊎ ((n ≤ k) × (k < (run_chunks left cfg fetch past n blocks failed).2))
    → Has k (run_chunks left cfg fetch past n blocks failed).0
      ⊎ Has k (run_chunks left cfg fetch past n blocks failed).1
unfolding run_chunks ingest
run_chunks-covers zero cfg fetch past n blocks failed k splits (inl h) = h
run_chunks-covers zero cfg fetch past n blocks failed k splits (inr (above, below)) =
    absurd (omega arith)
run_chunks-covers (suc left) cfg fetch past n blocks failed k splits h =
    elim (Bool-cases (ltb n past)) [
      | inl more ↦
          let now = rw (more, run_chunks) at h in
          rw (more, run_chunks)
            (run_chunks-covers left cfg fetch past _ _ _ k splits (
              chunk-covers 3 cfg.batch_blocks (fetch left) past n _ blocks failed k (splits left)
                now))
      | inr over ↦
          let now = rw (over, run_chunks) at h in
          rw (over, run_chunks) (elim now [ inl p ↦ p | inr (above, below) ↦ absurd (omega arith) ])
    ]

chunked-Sound :
    (s : Worker) (blocks failed : List ℕ) (n : ℕ)
    → Sound s
    → ((k : ℕ)
        → (Has k s.blocks ⊎ Has k []) ⊎ ((s.backfill.cursor ≤ k) × (k < n))
        → Has k blocks ⊎ Has k failed)
    → Sound (record s {
      blocks = blocks;
      gaps = insert_gaps 0 failed s.gaps;
      backfill = record s.backfill { cursor = n };
    })
chunked-Sound s blocks failed n sound covers = record {
  valid = insert_gaps-IsValid 0 failed s.gaps sound.valid;
  complete = λ k below.
      written_down s.backfill.cursor n k s.blocks blocks failed s.gaps sound.valid
        (sound.complete k) (covers k) below;
}

backfill_chunk-Sound :
    (cfg : CollectorConfig) (fetch : ℕ → Fetch) (s : Worker)
    → ((i : ℕ) → Splits (fetch i))
    → Sound s
    → Sound (backfill_chunk cfg fetch s).0
unfolding backfill_chunk
backfill_chunk-Sound cfg fetch s splits sound =
    let out =
      run_chunks cfg.backfill_concurrency cfg fetch s.backfill.past s.backfill.cursor s.blocks [] in
    let next = chunked-Sound s out.0 out.1 out.2 sound (λ k h.
      run_chunks-covers cfg.backfill_concurrency cfg fetch s.backfill.past s.backfill.cursor
        s.blocks [] k splits h) in
    elim (Bool-cases (not s.backfill.active)) [
      | inl idle ↦ rw (idle, backfill_chunk) sound
      | inr busy ↦ elim (Bool-cases (leb s.backfill.past s.backfill.cursor)) [
        | inl over ↦
            rw (busy, over, backfill_chunk)
              (record { valid = sound.valid; complete = sound.complete })
        | inr more ↦ rw (busy, more, backfill_chunk) next
      ]
    ]

fill_gap-Sound :
    (cfg : CollectorConfig) (fetch : Fetch) (from : ℕ) (row : Row) (s : Worker)
    → Splits fetch
    → s.gaps from ≡ some row
    → Sound s
    → Sound (fill_gap cfg fetch from row s)
unfolding fill_gap chunk_start
fill_gap-Sound cfg fetch from row s splits there sound = record {
  valid = settle_gap-IsValid _ from _ row _ s.gaps sound.valid there (omega arith);
  complete = λ n below.
      unfold fill_gap in
      fill_gap-Accounted cfg fetch from row s n splits sound.valid there (sound.complete n below);
}

-- The query gives rows of the table.
abbrev pub Queries : (Table → Option (ℕ × Row)) → Type 0
Queries query = (t : Table) (from : ℕ) (row : Row) → query t ≡ some (from, row) → t from ≡ some row

fill_picked-Sound :
    (cfg : CollectorConfig) (fetch : Fetch) (picked : Option (ℕ × Row)) (s : Worker)
    → Splits fetch
    → ((from : ℕ) (row : Row) → picked ≡ some (from, row) → s.gaps from ≡ some row)
    → Sound s
    → Sound (fill_picked cfg fetch picked s).0
unfolding fill_picked
fill_picked-Sound cfg fetch none s splits rows sound = sound
fill_picked-Sound cfg fetch (some (from, row)) s splits rows sound =
    fill_gap-Sound cfg fetch from row s splits (rows from row refl) sound

-- With the history on, no gap is below the floor.
floor-history :
    (cfg : CollectorConfig) (head_start : Option ℕ)
    → cfg.backfill_history ≡ true
    → floor cfg head_start ≡ 0
unfolding floor
floor-history cfg head_start history = rw history refl

prune_history-zero : (s : Worker) → prune_history 0 s ≡ s
unfolding prune_history
prune_history-zero s = refl

fill_one_gap-Sound :
    (cfg : CollectorConfig) (head_start : Option ℕ) (fetch : Fetch)
    (query : Table → Option (ℕ × Row)) (s : Worker)
    → cfg.backfill_history ≡ true
    → Splits fetch
    → Queries query
    → Sound s
    → Sound (fill_one_gap cfg head_start fetch query s).0
unfolding fill_one_gap
fill_one_gap-Sound cfg head_start fetch query s history splits rows sound =
    let same =
      ap (λ n. prune_history n s) (floor-history cfg head_start history) ∙ prune_history-zero s in
    subst (λ (t : Worker). Sound (fill_picked cfg fetch (query t.gaps) t).0) (sym same)
      (fill_picked-Sound cfg fetch (query s.gaps) s splits (rows s.gaps) sound)

-- The turns of the loop, whatever is fetched and picked.
pub data Reach (cfg : CollectorConfig) (head_start : Option ℕ) (s : Worker) : Worker → Type 0 where
  here : Reach cfg head_start s s
  next :
      {t : Worker}
      → Reach cfg head_start s t
      → (behind : Bool) (fetch : Fetch) (query : Table → Option (ℕ × Row)) (fetches : ℕ → Fetch)
      → Splits fetch
      → Queries query
      → ((i : ℕ) → Splits (fetches i))
      → Reach cfg head_start s (turn cfg behind head_start fetch query fetches t)

turn-Sound :
    (cfg : CollectorConfig) (head_start : Option ℕ) (behind : Bool) (fetch : Fetch)
    (query : Table → Option (ℕ × Row)) (fetches : ℕ → Fetch) (s : Worker)
    → cfg.backfill_history ≡ true
    → Splits fetch
    → Queries query
    → ((i : ℕ) → Splits (fetches i))
    → Sound s
    → Sound (turn cfg behind head_start fetch query fetches s)
unfolding turn
turn-Sound cfg head_start true fetch query fetches s history splits rows all_split sound = sound
turn-Sound cfg head_start false fetch query fetches s history splits rows all_split sound =
    backfill_chunk-Sound cfg fetches _ all_split
      (fill_one_gap-Sound cfg head_start fetch query s history splits rows sound)

-- With the history on, no turn of the loop loses a block: from a worker that has lost nothing, every
-- worker that its turns lead to has each block behind its cursor, or keeps it in a gap, and has no
-- empty gap, whichever rows the table's queries give and whichever fetches throw, if a fetch that does
-- not throw gives each block that it was asked for or says that it failed.
pub Reach-Sound :
    (cfg : CollectorConfig) (head_start : Option ℕ) (s t : Worker)
    → cfg.backfill_history ≡ true
    → Sound s
    → Reach cfg head_start s t
    → Sound t
Reach-Sound cfg head_start s _ history sound here = sound
Reach-Sound cfg head_start s _ history sound
      (next {t = t} r behind fetch query fetches splits rows all_split) =
    turn-Sound cfg head_start behind fetch query fetches t history splits rows all_split
      (Reach-Sound cfg head_start s t history sound r)
