-- ===== src/Collector/Backfill/Progress.antt =====
-- The history ends: each turn moves the cursor on.
use arcagentx.Prelude.{
  ℕ, zero, suc, ◌+◌, ◌-◌, ◌≤◌, ◌<◌, min, ◌≡◌, refl, ap, sym, ◌∙◌, inl, inr, true, false, not, List,
  [], arith, Bool-cases, ltb, leb,
}
use arcagentx.Collector.Backfill.{CollectorConfig, Worker, Fetch, run_chunks, backfill_chunk}

run_chunks-within :
    (left : ℕ) (cfg : CollectorConfig) (fetch : ℕ → Fetch) (past n : ℕ) (blocks failed : List ℕ)
    → n ≤ past
    → (n ≤ (run_chunks left cfg fetch past n blocks failed).2)
      × ((run_chunks left cfg fetch past n blocks failed).2 ≤ past)
unfolding run_chunks
run_chunks-within zero cfg fetch past n blocks failed le = (omega arith, le)
run_chunks-within (suc left) cfg fetch past n blocks failed le = elim (Bool-cases (ltb n past)) [
  | inl more ↦
      rw (more, run_chunks)
        (let (up, down) =
            run_chunks-within left cfg fetch past (min (n + cfg.batch_blocks) past) _ _
              (omega arith) in
          (omega (arith, up, le), down))
  | inr over ↦ rw (over, run_chunks) (omega arith, le)
]

run_chunks-advances :
    (left : ℕ) (cfg : CollectorConfig) (fetch : ℕ → Fetch) (past n : ℕ) (blocks failed : List ℕ)
    → 0 < left
    → 0 < cfg.batch_blocks
    → n < past
    → n < (run_chunks left cfg fetch past n blocks failed).2
unfolding run_chunks
run_chunks-advances zero cfg fetch past n blocks failed some_chunks some_room more =
    absurd (omega arith)
run_chunks-advances (suc left) cfg fetch past n blocks failed some_chunks some_room more =
    let here : ltb n past ≡ true = ground arith in
    rw (here, run_chunks)
      (omega (
        arith,
        (run_chunks-within left cfg fetch past (min (n + cfg.batch_blocks) past) _ _
            (omega arith)).0,
        more,
        some_room,
      ))

-- A turn over the history: the cursor moves on, and not past the end, which stays where it is.
record Advances (s t : Worker) : Type 0 where
  onward : s.backfill.cursor < t.backfill.cursor
  within : t.backfill.cursor ≤ s.backfill.past
  active : t.backfill.active ≡ s.backfill.active
  past : t.backfill.past ≡ s.backfill.past

backfill_chunk-Advances :
    (cfg : CollectorConfig) (fetch : ℕ → Fetch) (s : Worker)
    → 0 < cfg.batch_blocks
    → 0 < cfg.backfill_concurrency
    → s.backfill.active ≡ true
    → s.backfill.cursor < s.backfill.past
    → Advances s (backfill_chunk cfg fetch s).0
unfolding backfill_chunk
backfill_chunk-Advances cfg fetch s some_room some_chunks active more =
    let busy : not s.backfill.active ≡ false = ap not active in
    let unfinished : leb s.backfill.past s.backfill.cursor ≡ false = ground arith in
    let le : s.backfill.cursor ≤ s.backfill.past = omega arith in
    rw (busy, unfinished, backfill_chunk)
      (record {
        onward =
            run_chunks-advances cfg.backfill_concurrency cfg fetch s.backfill.past s.backfill.cursor
              s.blocks [] some_chunks some_room more;
        within =
            (run_chunks-within cfg.backfill_concurrency cfg fetch s.backfill.past s.backfill.cursor
              s.blocks [] le).1;
        active = refl;
        past = refl;
      })

-- At the end the cursor stays.
backfill_chunk-over :
    (cfg : CollectorConfig) (fetch : ℕ → Fetch) (s : Worker)
    → s.backfill.cursor ≡ s.backfill.past
    → ((backfill_chunk cfg fetch s).0.backfill.cursor ≡ s.backfill.past)
      × ((backfill_chunk cfg fetch s).0.backfill.past ≡ s.backfill.past)
unfolding backfill_chunk
backfill_chunk-over cfg fetch s end =
    let over : leb s.backfill.past s.backfill.cursor ≡ true = ground arith in
    elim (Bool-cases (not s.backfill.active)) [
      | inl idle ↦ rw (idle, backfill_chunk) (end, refl)
      | inr busy ↦ rw (busy, over, backfill_chunk) (end, refl)
    ]

-- Some turns over the history, each with its fetches.
abbrev pub chunk_turns : ℕ → CollectorConfig → (ℕ → ℕ → Fetch) → Worker → Worker
chunk_turns zero cfg fetches s = s
chunk_turns (suc n) cfg fetches s = chunk_turns n cfg fetches (backfill_chunk cfg (fetches n) s).0

over-stays :
    (n : ℕ) (cfg : CollectorConfig) (fetches : ℕ → ℕ → Fetch) (s : Worker) (past : ℕ)
    → s.backfill.cursor ≡ past
    → s.backfill.past ≡ past
    → (chunk_turns n cfg fetches s).backfill.cursor ≡ past
over-stays zero cfg fetches s past end same = end
over-stays (suc n) cfg fetches s past end same =
    let (cursor, last) = backfill_chunk-over cfg (fetches n) s (end ∙ sym same) in
    over-stays n cfg fetches (backfill_chunk cfg (fetches n) s).0 past (cursor ∙ same) (last ∙ same)

turns-end :
    (n : ℕ) (cfg : CollectorConfig) (fetches : ℕ → ℕ → Fetch) (s : Worker) (past : ℕ)
    → 0 < cfg.batch_blocks
    → 0 < cfg.backfill_concurrency
    → s.backfill.active ≡ true
    → s.backfill.past ≡ past
    → s.backfill.cursor ≤ past
    → past ≤ s.backfill.cursor + n
    → (chunk_turns n cfg fetches s).backfill.cursor ≡ past
turns-end zero cfg fetches s past some_room some_chunks active same le enough = omega arith
turns-end (suc n) cfg fetches s past some_room some_chunks active same le enough =
    elim (Bool-cases (ltb s.backfill.cursor past)) [
      | inr end ↦ over-stays (suc n) cfg fetches s past (ground arith) same
      | inl more ↦
          let a =
            backfill_chunk-Advances cfg (fetches n) s some_room some_chunks active (ground arith) in
          turns-end n cfg fetches (backfill_chunk cfg (fetches n) s).0 past some_room some_chunks
            (a.active ∙ active) (a.past ∙ same) (omega (arith, a.within, same))
            (omega (arith, a.onward, enough))
    ]

-- The history is walked to its end: with positive sizes of a batch and a turn, an active backfill
-- whose cursor is not past the end has its cursor at the end after as many turns as blocks were left
-- at most, whatever the fetches answer.
pub chunk_turns-end :
    (cfg : CollectorConfig) (fetches : ℕ → ℕ → Fetch) (s : Worker)
    → 0 < cfg.batch_blocks
    → 0 < cfg.backfill_concurrency
    → s.backfill.active ≡ true
    → s.backfill.cursor ≤ s.backfill.past
    → (chunk_turns (s.backfill.past - s.backfill.cursor) cfg fetches s).backfill.cursor
      ≡ s.backfill.past
chunk_turns-end cfg fetches s some_room some_chunks active le =
    turns-end (s.backfill.past - s.backfill.cursor) cfg fetches s s.backfill.past some_room
      some_chunks active refl le (omega arith)
