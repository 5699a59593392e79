-- ===== src/Collector/Backfill.antt =====
-- packages/collector/src/workers/backfill.ts: the history behind the live range, and the gaps in it.
-- The table block_gaps is a function from its primary key, from_block. What a fetch of blocks answers
-- and which row a query of the table gives are arguments; waits, logs and counters are left out.
pub mod Gaps
pub mod Settled
pub mod Chunk
pub mod Complete
pub mod Progress
use arcagentx.Prelude.{
  ℕ, zero, suc, ◌+◌, ◌-◌, max, min, Bool, true, false, not, ◌&&◌, ◌||◌, Option, none, some, List,
  [], ◌∷◌, ◌++◌, ltb, leb, ◌==◌, if◌then◌else◌, length,
}

pub record CollectorConfig : Type 0 where
  pub backfill_history : Bool
  pub start_block : ℕ
  pub batch_blocks : ℕ
  pub backfill_concurrency : ℕ

-- `past` is one more than the source's target, which is -1 where there is no history.
pub record BackfillState : Type 0 where
  pub cursor : ℕ
  pub past : ℕ
  pub active : Bool

pub record Row : Type 0 where
  pub to_block : ℕ
  pub attempts : ℕ

abbrev pub Table : Type 0
Table = ℕ → Option Row

pub record Worker : Type 0 where
  pub blocks : List ℕ
  pub gaps : Table
  pub backfill : BackfillState
  pub pruned_history : Bool

-- What a fetch answers in its attempts: the blocks that came and those that failed; none where it
-- throws.
abbrev pub Fetch : Type 0
Fetch = ℕ → List ℕ → Option (List ℕ × List ℕ)

-- `init`, for the saved cursor and target and the start of the live range. The second part is what
-- is written to the saved state.
unfoldable pub resumed : CollectorConfig → ℕ × ℕ → BackfillState
resumed cfg (cursor, past) = record {
  cursor = cursor;
  past = past;
  active = cfg.backfill_history && ltb cursor past;
}

unfoldable pub start_of : CollectorConfig → Option ℕ → ℕ
start_of cfg none = cfg.start_block
start_of cfg (some head_start) = head_start

unfoldable pub init_backfill :
    CollectorConfig
    → (saved : Option (ℕ × ℕ)) → (head_start : Option ℕ) → BackfillState × Option (ℕ × ℕ)
init_backfill cfg (some saved) head_start = (resumed cfg saved, none)
init_backfill cfg none head_start =
    let start = start_of cfg head_start in
    if ltb 0 start && cfg.backfill_history
    then (record { cursor = 0; past = start; active = true }, some (0, start))
    else (record { cursor = 0; past = 0; active = false }, none)

unfoldable pub floor : CollectorConfig → Option ℕ → ℕ
floor cfg head_start = if cfg.backfill_history then 0 else start_of cfg head_start

-- `Array.from({ length }, (_, i) => from + i)`.
unfoldable pub numbers_from : ℕ → ℕ → List ℕ
numbers_from from zero = []
numbers_from from (suc n) = from ∷ numbers_from (suc from) n

-- The loop of `ingest`, with the attempts that are left.
unfoldable pub ingest_from : ℕ → ℕ → Fetch → List ℕ → List ℕ → List ℕ × List ℕ
ingest_from left attempt fetch blocks [] = (blocks, [])
ingest_from zero attempt fetch blocks (n ∷ pending) = (blocks, n ∷ pending)
ingest_from (suc left) attempt fetch blocks (n ∷ pending) = elim (fetch attempt (n ∷ pending)) [
  | none ↦ ingest_from left (suc attempt) fetch blocks (n ∷ pending)
  | some (came, failed) ↦ ingest_from left (suc attempt) fetch (came ++ blocks) failed
]

-- The blocks that are there then, and the numbers that failed.
unfoldable pub ingest : Fetch → List ℕ → List ℕ → List ℕ × List ℕ
ingest fetch blocks numbers = ingest_from 3 0 fetch blocks numbers

-- A statement about the row of a key.
unfoldable pub set_row : ℕ → Option Row → Table → Table
set_row key row t = λ k. if k == key then row else t k

-- `DELETE FROM block_gaps WHERE from_block < $1`.
unfoldable pub prune : ℕ → Table → Table
prune floor t = λ k. if ltb k floor then none else t k

-- `INSERT ... ON CONFLICT (from_block) DO NOTHING`, of a gap of one block.
unfoldable pub insert_gap : ℕ → ℕ → Table → Table
insert_gap attempts n t = elim (t n) [
  | some row ↦ t
  | none ↦ set_row n (some (record { to_block = n; attempts = attempts })) t
]

unfoldable pub insert_gaps : ℕ → List ℕ → Table → Table
insert_gaps attempts [] t = t
insert_gaps attempts (n ∷ ns) t = insert_gaps attempts ns (insert_gap attempts n t)

unfoldable pub chunk_start : CollectorConfig → ℕ → ℕ → ℕ
chunk_start cfg from to = max from (to + 1 - cfg.batch_blocks)

abbrev pub with_to : ℕ → Row → Row
with_to to row = record row { to_block = to }

-- What becomes of a gap's row, once its newest chunk has been tried.
unfoldable pub settle_gap : (start from : ℕ) → Row → (tried : ℕ) → (failed : List ℕ) → Table → Table
settle_gap start from row tried [] t =
    if start == from then set_row from none t else set_row from (some (with_to (start - 1) row)) t
settle_gap start from row tried (f ∷ failed) t =
    if ltb (length (f ∷ failed)) tried && ltb from start
    then insert_gaps (row.attempts + 1) (f ∷ failed)
        (set_row from (some (with_to (start - 1) row)) t)
    else set_row from (some (record row { attempts = row.attempts + 1 })) t

-- `fillOneGap`, for the row that the query gives.
unfoldable pub fill_gap : CollectorConfig → Fetch → ℕ → Row → Worker → Worker
fill_gap cfg fetch from row s =
    let start = chunk_start cfg from row.to_block in
    let tried = row.to_block + 1 - start in
    let (blocks, failed) = ingest fetch s.blocks (numbers_from start tried) in
    record s { blocks = blocks; gaps = settle_gap start from row tried failed s.gaps }

unfoldable pub prune_history : ℕ → Worker → Worker
prune_history floor s =
    if ltb 0 floor && not s.pruned_history
    then record s { gaps = prune floor s.gaps; pruned_history = true }
    else s

unfoldable pub fill_picked : CollectorConfig → Fetch → Option (ℕ × Row) → Worker → Worker × Bool
fill_picked cfg fetch none s = (s, false)
fill_picked cfg fetch (some (from, row)) s = (fill_gap cfg fetch from row s, true)

unfoldable pub fill_one_gap :
    CollectorConfig → Option ℕ → Fetch → (Table → Option (ℕ × Row)) → Worker → Worker × Bool
fill_one_gap cfg head_start fetch query s =
    let pruned = prune_history (floor cfg head_start) s in
    fill_picked cfg fetch (query pruned.gaps) pruned

-- The chunks of a turn, one after the other, and the cursor behind them.
unfoldable pub run_chunks :
    ℕ → CollectorConfig → (ℕ → Fetch) → ℕ → (n : ℕ) → List ℕ → List ℕ → List ℕ × List ℕ × ℕ
run_chunks zero cfg fetch past n blocks failed = (blocks, failed, n)
run_chunks (suc left) cfg fetch past n blocks failed =
    let stop = min (n + cfg.batch_blocks) past in
    let (blocks', failed') = ingest (fetch left) blocks (numbers_from n (stop - n)) in
    let more = run_chunks left cfg fetch past stop blocks' (failed ++ failed') in
    if ltb n past then more else (blocks, failed, n)

unfoldable pub backfill_chunk : CollectorConfig → (ℕ → Fetch) → Worker → Worker × Bool
backfill_chunk cfg fetch s =
    let bf = s.backfill in
    let (blocks, failed, n) =
      run_chunks cfg.backfill_concurrency cfg fetch bf.past bf.cursor s.blocks [] in
    if not bf.active
    then (s, false)
    else if leb bf.past bf.cursor
    then (record s { backfill = record bf { active = false } }, false)
    else (
      record s {
        blocks = blocks;
        gaps = insert_gaps 0 failed s.gaps;
        backfill = record bf { cursor = n };
      },
      true,
    )

-- A turn of the loop: nothing while the live range is behind, else a gap and then a chunk.
unfoldable pub turn :
    CollectorConfig
    → (behind : Bool) → Option ℕ
    → Fetch
    → (Table → Option (ℕ × Row))
    → (ℕ → Fetch)
    → Worker
    → Worker
turn cfg behind head_start fetch query fetches s =
    if behind
    then s
    else (backfill_chunk cfg fetches (fill_one_gap cfg head_start fetch query s).0).0
