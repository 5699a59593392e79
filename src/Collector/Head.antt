-- ===== src/Collector/Head.antt =====
-- packages/collector/src/workers/head.ts: the live range, up to the head of the chain. What a fetch of
-- blocks answers, and the head that a poll gives, are arguments; waits, logs, counters and throws of
-- the database are left out.
pub mod Kept
use arcagentx.Prelude.{
  ℕ, zero, suc, ◌+◌, ◌-◌, max, min, Bool, ◌&&◌, Option, none, some, List, [], ◌∷◌, ◌++◌, ltb, leb,
  if◌then◌else◌,
}
use arcagentx.Collector.Backfill.{
  Row, Table, Fetch, numbers_from, ingest_from, set_row, insert_gaps, with_to,
}

pub record HeadConfig : Type 0 where
  pub start_block : ℕ
  pub batch_blocks : ℕ
  pub concurrency : ℕ
  pub max_catchup_blocks : ℕ

-- `next` is one more than the source's headCursor, which is -1 before the first block.
pub record HeadWorker : Type 0 where
  pub blocks : List ℕ
  pub gaps : Table
  pub next : ℕ
  pub start : ℕ

-- `init`, for the saved cursor and start, and the highest block that is there.
unfoldable pub init_head :
    HeadConfig → (saved : Option (ℕ × ℕ)) → (highest : Option ℕ) → List ℕ → Table → HeadWorker
init_head cfg (some (next, start)) highest blocks gaps = record {
  blocks = blocks;
  gaps = gaps;
  next = next;
  start = start;
}
init_head cfg none (some highest) blocks gaps = record {
  blocks = blocks;
  gaps = gaps;
  next = highest + 1;
  start = highest + 1;
}
init_head cfg none none blocks gaps = record {
  blocks = blocks;
  gaps = gaps;
  next = cfg.start_block;
  start = cfg.start_block;
}

-- `INSERT ... ON CONFLICT (from_block) DO UPDATE SET to_block = GREATEST(...)`.
unfoldable pub put_gap : (from to : ℕ) → Table → Table
put_gap from to t = elim (t from) [
  | some row ↦ set_row from (some (with_to (max row.to_block to) row)) t
  | none ↦ set_row from (some (record { to_block = to; attempts = 0 })) t
]

-- The missed range becomes a gap. A head below 51 is left out: there the source's numbers go below 0.
unfoldable pub jump_to_head : (head : ℕ) → HeadWorker → HeadWorker
jump_to_head head s = record s { gaps = put_gap s.next (head - 51) s.gaps; next = head - 50 }

-- The inline retries: five attempts. Which endpoints are left out is up to the fetch.
unfoldable pub ingest_numbers : Fetch → List ℕ → List ℕ → List ℕ × List ℕ
ingest_numbers fetch blocks numbers = ingest_from 5 0 fetch blocks numbers

-- The batches of a turn up to `past`, one after the other, and the block behind them.
unfoldable pub ingest_batches :
    ℕ → (size : ℕ) → (ℕ → Fetch) → ℕ → (n : ℕ) → List ℕ → List ℕ → List ℕ × List ℕ × ℕ
ingest_batches zero size fetch past n blocks failed = (blocks, failed, n)
ingest_batches (suc left) size fetch past n blocks failed =
    let stop = min (n + size) past in
    let (blocks', failed') = ingest_numbers (fetch left) blocks (numbers_from n (stop - n)) in
    let more = ingest_batches left size fetch past stop blocks' (failed ++ failed') in
    if ltb n past then more else (blocks, failed, n)

-- A turn of the loop of `catchUp`: the head as it is known then, and what is fetched.
pub record Round : Type 0 where
  pub head_now : ℕ
  pub fetch : ℕ → Fetch

unfoldable pub catch_up_once : HeadConfig → Round → (to : ℕ) → HeadWorker → HeadWorker
catch_up_once cfg r to s =
    let (blocks, failed, n) =
      ingest_batches cfg.concurrency cfg.batch_blocks r.fetch (max to r.head_now + 1) s.next
        s.blocks [] in
    record s { blocks = blocks; gaps = insert_gaps 0 failed s.gaps; next = n }

-- The loop of `catchUp`, over the turns that it has before it is stopped.
unfoldable pub catch_up : HeadConfig → List Round → (to : ℕ) → HeadWorker → HeadWorker
catch_up cfg [] to s = s
catch_up cfg (r ∷ rs) to s =
    let more = catch_up cfg rs (max to r.head_now) (catch_up_once cfg r to s) in
    if leb s.next to then more else s

-- A turn of the worker's loop, for the head that was polled.
unfoldable pub head_turn : HeadConfig → (head : ℕ) → List Round → HeadWorker → HeadWorker
head_turn cfg head rs s =
    if ltb head s.next
    then s
    else if ltb 0 cfg.max_catchup_blocks && ltb cfg.max_catchup_blocks (head + 1 - s.next)
    then jump_to_head head s
    else catch_up cfg rs head s

-- The worker's loop, over the heads that are polled before it is stopped.
unfoldable pub head_loop : HeadConfig → List (ℕ × List Round) → HeadWorker → HeadWorker
head_loop cfg [] s = s
head_loop cfg ((head, rs) ∷ polls) s = head_loop cfg polls (head_turn cfg head rs s)
