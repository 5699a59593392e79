-- ===== src/Collector/Head/Kept.antt =====
-- The head worker loses no block: each one from its start up to its cursor is there, or in a gap.
use arcagentx.Prelude.{
  ℕ, zero, suc, ◌+◌, ◌-◌, ◌≤◌, ◌<◌, max, ◌≡◌, ◌≢◌, ap, sym, ◌∙◌, ◌⊎◌, inl, inr, some, List, [], ◌∷◌,
  arith, Bool-cases, ltb, leb, ◌&&◌, ◌==◌, ==_iff, All,
}
use arcagentx.Collector.Backfill.{Table, Fetch, with_to}
use arcagentx.Collector.Backfill.Gaps.{
  Has, InGap, IsValid, Splits, Option-cases, set_row-IsValid, other-InGap, new-InGap,
  insert_gaps-IsValid,
}
use arcagentx.Collector.Backfill.Chunk.{chunk-covers, written_down}
use arcagentx.Collector.Head.{
  HeadConfig, HeadWorker, Round, put_gap, jump_to_head, ingest_numbers, ingest_batches,
  catch_up_once, catch_up, head_turn, head_loop,
}

-- No gap is empty, and each block from the start up to the cursor is there or in a gap.
pub record Kept (s : HeadWorker) : Type 0 where
  pub valid : IsValid s.gaps
  pub complete : (n : ℕ) → s.start ≤ n → n < s.next → Has n s.blocks ⊎ InGap s.gaps n

put_gap-keeps : (from to n : ℕ) (t : Table) → InGap t n → InGap (put_gap from to t) n
unfolding put_gap
put_gap-keeps from to n t g = elim (Bool-cases (g.key == from)) [
  | inl same ↦
      let here : t from ≡ some g.row = sym (ap t ((==_iff g.key from).0 same)) ∙ g.there in
      rw (here, put_gap)
        (new-InGap from n (with_to (max g.row.to_block to) g.row) t
          (omega (arith, (==_iff g.key from).0 same, g.above)) (omega (arith, g.below)))
  | inr other ↦ elim (Option-cases (t from)) [
    | inl free ↦ rw (free, put_gap) (other-InGap from n _ t g other)
    | inr (row, taken) ↦ rw (taken, put_gap) (other-InGap from n _ t g other)
  ]
]

put_gap-covers : (from to n : ℕ) (t : Table) → from ≤ n → n ≤ to → InGap (put_gap from to t) n
unfolding put_gap
put_gap-covers from to n t above below = elim (Option-cases (t from)) [
  | inl free ↦
      rw (free, put_gap) (new-InGap from n (record { to_block = to; attempts = 0 }) t above below)
  | inr (row, taken) ↦
      rw (taken, put_gap)
        (new-InGap from n (with_to (max row.to_block to) row) t above (omega arith))
]

put_gap-IsValid : (from to : ℕ) (t : Table) → from ≤ to → IsValid t → IsValid (put_gap from to t)
unfolding put_gap
put_gap-IsValid from to t le v = elim (Option-cases (t from)) [
  | inl free ↦
      rw (free, put_gap) (set_row-IsValid from (record { to_block = to; attempts = 0 }) t le v)
  | inr (row, taken) ↦
      rw (taken, put_gap)
        (set_row-IsValid from (with_to (max row.to_block to) row) t (omega arith) v)
]

jump_to_head-Kept :
    (head : ℕ) (s : HeadWorker) → s.next + 51 ≤ head → Kept s → Kept (jump_to_head head s)
unfolding jump_to_head
jump_to_head-Kept head s room k = record {
  valid = put_gap-IsValid s.next (head - 51) s.gaps (omega arith) k.valid;
  complete = λ n from_start below. elim (Bool-cases (ltb n s.next)) [
    | inl behind ↦ elim (k.complete n from_start (ground arith)) [
      | inl here ↦ inl here
      | inr g ↦ inr (put_gap-keeps s.next (head - 51) n s.gaps g)
    ]
    | inr ahead ↦ inr (put_gap-covers s.next (head - 51) n s.gaps (ground arith) (omega arith))
  ];
}

ingest_batches-covers :
    (left size : ℕ) (fetch : ℕ → Fetch) (past n : ℕ) (blocks failed : List ℕ) (k : ℕ)
    → ((i : ℕ) → Splits (fetch i))
    → (Has k blocks ⊎ Has k failed)
      ⊎ ((n ≤ k) × (k < (ingest_batches left size fetch past n blocks failed).2))
    → Has k (ingest_batches left size fetch past n blocks failed).0
      ⊎ Has k (ingest_batches left size fetch past n blocks failed).1
unfolding ingest_batches ingest_numbers
ingest_batches-covers zero size fetch past n blocks failed k splits (inl h) = h
ingest_batches-covers zero size fetch past n blocks failed k splits (inr (above, below)) =
    absurd (omega arith)
ingest_batches-covers (suc left) size fetch past n blocks failed k splits h =
    elim (Bool-cases (ltb n past)) [
      | inl more ↦
          let now = rw (more, ingest_batches) at h in
          rw (more, ingest_batches)
            (ingest_batches-covers left size fetch past _ _ _ k splits
              (chunk-covers 5 size (fetch left) past n _ blocks failed k (splits left) now))
      | inr over ↦
          let now = rw (over, ingest_batches) at h in
          rw (over, ingest_batches)
            (elim now [ inl p ↦ p | inr (above, below) ↦ absurd (omega arith) ])
    ]

catch_up_once-Kept :
    (cfg : HeadConfig) (r : Round) (to : ℕ) (s : HeadWorker)
    → ((i : ℕ) → Splits (r.fetch i))
    → Kept s
    → Kept (catch_up_once cfg r to s)
unfolding catch_up_once
catch_up_once-Kept cfg r to s splits kept =
    let past = max to r.head_now + 1 in
    let out = ingest_batches cfg.concurrency cfg.batch_blocks r.fetch past s.next s.blocks [] in
    record {
      valid = insert_gaps-IsValid 0 out.1 s.gaps kept.valid;
      complete = λ n from_start below.
          written_down s.next out.2 n s.blocks out.0 out.1 s.gaps kept.valid
            (kept.complete n from_start)
            (ingest_batches-covers cfg.concurrency cfg.batch_blocks r.fetch past s.next s.blocks []
              n splits)
            below;
    }

-- What is fetched in a round splits into what came and what failed.
abbrev pub Answers : Round → Type 0
Answers r = (i : ℕ) → Splits (r.fetch i)

catch_up-Kept :
    (cfg : HeadConfig) (rs : List Round) (to : ℕ) (s : HeadWorker)
    → All Answers rs
    → Kept s
    → Kept (catch_up cfg rs to s)
unfolding catch_up
catch_up-Kept cfg [] to s all_split kept = kept
catch_up-Kept cfg (r ∷ rs) to s (splits, all_split) kept = elim (Bool-cases (leb s.next to)) [
  | inl more ↦
      rw (more, catch_up)
        (catch_up-Kept cfg rs (max to r.head_now) (catch_up_once cfg r to s) all_split
          (catch_up_once-Kept cfg r to s splits kept))
  | inr over ↦ rw (over, catch_up) kept
]

head_turn-Kept :
    (cfg : HeadConfig) (head : ℕ) (rs : List Round) (s : HeadWorker)
    → (cfg.max_catchup_blocks ≢ 0 → 51 ≤ cfg.max_catchup_blocks)
    → All Answers rs
    → Kept s
    → Kept (head_turn cfg head rs s)
unfolding head_turn
head_turn-Kept cfg head rs s far all_split kept = elim (Bool-cases (ltb head s.next)) [
  | inl there ↦ rw (there, head_turn) kept
  | inr behind ↦
      let jumps = ltb 0 cfg.max_catchup_blocks && ltb cfg.max_catchup_blocks (head + 1 - s.next) in
      elim (Bool-cases jumps) [
        | inl jump ↦
            rw (behind, jump, head_turn)
              (jump_to_head-Kept head s (let f = far (ground arith) in ground arith) kept)
        | inr walk ↦ rw (behind, walk, head_turn) (catch_up-Kept cfg rs head s all_split kept)
      ]
]

-- The head worker loses no block, whatever it waits for, catches up with and jumps over: if no gap was
-- empty, and each block from its start up to its cursor was there or in a gap, so it is after any
-- turns of its loop, whichever fetches throw, if a fetch that does not throw gives each block that it
-- was asked for or says that it failed, and the limit behind which it jumps is 0, which is never, or
-- at least 51.
pub head_loop-Kept :
    (cfg : HeadConfig) (polls : List (ℕ × List Round)) (s : HeadWorker)
    → (cfg.max_catchup_blocks ≢ 0 → 51 ≤ cfg.max_catchup_blocks)
    → All (λ poll. All Answers poll.1) polls
    → Kept s
    → Kept (head_loop cfg polls s)
unfolding head_loop
head_loop-Kept cfg [] s far all_split kept = kept
head_loop-Kept cfg ((head, rs) ∷ polls) s far (splits, all_split) kept =
    head_loop-Kept cfg polls (head_turn cfg head rs s) far all_split
      (head_turn-Kept cfg head rs s far splits kept)
