-- ===== src/Collector/Tests.antt =====
-- Two endpoints, of which the first throws and the second answers; a history of ten blocks, of which
-- the odd ones fail.
use mathlib.Core.Path.{subst}
use arcagentx.Prelude.{
  ℕ, ◌-◌, ◌≤◌, ◌≡◌, refl, inr, Bool, true, false, Option, none, some, List, [], ◌∷◌, map, Result,
  ok, err, arith, any, length,
}
use arcagentx.Prelude.Text.{Text, codes, text_eq}
use arcagentx.Lightning.Json.{null}
use arcagentx.Collector.Client.{RpcError, JsonRpcCall, RpcOutcome, rpc_result}
use arcagentx.Collector.Pool.{EndpointState, usable, is_enabled}
use arcagentx.Collector.Pool.Batch.{
  World, PoolOptions, RequestOptions, RoutedOutcome, execute, endpoint_problem, retryable_failure,
  all_fail, attempts_of, call,
}
use arcagentx.Collector.Pool.Chunks.{execute-map}
use arcagentx.Collector.Pool.Picks.{Answers, ThrowsRetryable}
use arcagentx.Collector.Pool.Failover.{call-succeeds}
use arcagentx.Collector.Head.{
  HeadConfig, HeadWorker, Round, head_loop, head_turn, catch_up, catch_up_once, ingest_batches,
  ingest_numbers, jump_to_head,
}
use arcagentx.Collector.Head.Kept.{Kept, head_loop-Kept}
use arcagentx.Collector.Backfill.{
  CollectorConfig, Row, Table, Worker, Fetch, turn, ingest_from, numbers_from,
}
use arcagentx.Collector.Backfill.Gaps.{Has, Splits}
use arcagentx.Collector.Backfill.Complete.{Sound, Queries, Reach, Reach-Sound}
use arcagentx.Collector.Backfill.Progress.{chunk_turns, chunk_turns-end}

abbrev down : RpcError
down = record {
  message = codes "timeout";
  endpoint = codes "a";
  method = codes "http";
  code = none;
  retryable = true;
}

abbrev answer_to : JsonRpcCall → RpcOutcome
answer_to c = rpc_result null

abbrev send : Bool → List JsonRpcCall → Result RpcError (List RpcOutcome)
send true calls = ok (map answer_to calls)
send false calls = err down

abbrev world : World
world = record {
  send = λ attempt url calls. send (text_eq url (codes "b")) calls;
  picked_at = λ attempt. attempt;
  answered_at = λ attempt. attempt;
  took = λ attempt. 5;
  average = λ old new. new;
}

abbrev endpoint : Text → ℕ → EndpointState
endpoint url priority = record {
  url = url;
  name = url;
  priority = priority;
  consecutive_failures = 0;
  cooldown_until = 0;
  latency = 0;
  last_head = none;
  last_head_at = none;
  total_calls = 0;
  total_failures = 0;
  disabled_reason = none;
  max_batch = 2;
}

abbrev pool : List EndpointState
pool = endpoint (codes "a") 0 ∷ endpoint (codes "b") 1 ∷ []

abbrev block_number : JsonRpcCall
block_number = record { method = codes "eth_blockNumber"; params = null }

abbrev calls : List JsonRpcCall
calls = block_number ∷ block_number ∷ block_number ∷ []

execute-map_example : execute world 0 (endpoint (codes "b") 1) calls ≡ ok (map answer_to calls)
execute-map_example =
    execute-map world 0 (endpoint (codes "b") 1) calls answer_to (λ cs. refl) (omega arith)

abbrev options : PoolOptions
options = record { lag_tolerance = 10; max_attempts = none }

abbrev request : RequestOptions
request = record { exclude = []; only = none; max_attempts = none }

b-Answers : Answers world block_number (codes "b")
unfolding endpoint_problem all_fail retryable_failure
b-Answers attempt = (rpc_result null ∷ [], refl, refl)

send-retryable :
    (yes_or_no : Bool) (cs : List JsonRpcCall) (e : RpcError)
    → send yes_or_no cs ≡ err e
    → e.retryable ≡ true
send-retryable true cs e h = cc
send-retryable false cs e h = cc

world-ThrowsRetryable : ThrowsRetryable world block_number
world-ThrowsRetryable attempt u e h = send-retryable (text_eq u (codes "b")) (block_number ∷ []) e h

b-usable : any (λ e. text_eq e.url (codes "b")) (usable [] pool) ≡ true
unfolding usable is_enabled
b-usable = refl

pool-length : length (usable [] pool) ≤ attempts_of none none
unfolding usable is_enabled attempts_of
pool-length = omega arith

call-succeeds_example :
    (r : RoutedOutcome) × ((call world options request block_number pool).1 ≡ ok r)
call-succeeds_example =
    call-succeeds world options request block_number (codes "b") pool refl b-Answers
      world-ThrowsRetryable b-usable pool-length

abbrev config : CollectorConfig
config = record {
  backfill_history = true;
  start_block = 10;
  batch_blocks = 4;
  backfill_concurrency = 2;
}

-- All that is asked for fails.
abbrev nothing_comes : Fetch
nothing_comes attempt pending = some ([], pending)

nothing_comes-Splits : Splits nothing_comes
nothing_comes-Splits attempt pending came failed n e h =
    let same : pending ≡ failed = cc in inr (subst (λ ms. Has n ms) same h)

abbrev fresh : Worker
fresh = record {
  blocks = [];
  gaps = λ k. none;
  backfill = record { cursor = 0; past = 10; active = true };
  pruned_history = false;
}

fresh-Sound : Sound fresh
fresh-Sound = record { valid = λ k row h. cc; complete = λ n h. absurd (omega arith) }

no_row : Table → Option (ℕ × Row)
no_row t = none

no_row-Queries : Queries no_row
unfolding no_row
no_row-Queries t from row h = cc

Reach-Sound_example : Sound (turn config false none nothing_comes no_row (λ i. nothing_comes) fresh)
Reach-Sound_example =
    Reach-Sound config none fresh
      (turn config false none nothing_comes no_row (λ i. nothing_comes) fresh) refl fresh-Sound
      (Reach.next Reach.here false nothing_comes no_row (λ i. nothing_comes) nothing_comes-Splits
        no_row-Queries (λ i. nothing_comes-Splits))

chunk_turns-end_example :
    (chunk_turns (10 - 0) config (λ turn i. nothing_comes) fresh).backfill.cursor
    ≡ fresh.backfill.past
chunk_turns-end_example =
    chunk_turns-end config (λ turn i. nothing_comes) fresh (omega arith) (omega arith) refl
      (omega arith)

abbrev head_config : HeadConfig
head_config = record {
  start_block = 100;
  batch_blocks = 4;
  concurrency = 2;
  max_catchup_blocks = 60;
}

abbrev started : HeadWorker
started = record { blocks = []; gaps = λ k. none; next = 100; start = 100 }

started-Kept : Kept started
started-Kept = record { valid = λ k row h. cc; complete = λ n above below. absurd (omega arith) }

abbrev failing : Round
failing = record { head_now = 104; fetch = λ i. nothing_comes }

-- It catches up with block 104, waits, and jumps over what is far behind 300.
head_loop-Kept_example :
    Kept (head_loop head_config ((104, failing ∷ []) ∷ (104, []) ∷ (300, []) ∷ []) started)
head_loop-Kept_example =
    head_loop-Kept head_config ((104, failing ∷ []) ∷ (104, []) ∷ (300, []) ∷ []) started
      (λ on. omega arith) (((λ i. nothing_comes-Splits), tt), (tt, (tt, tt))) started-Kept

head_loop_jumps :
    (head_loop head_config ((104, failing ∷ []) ∷ (104, []) ∷ (300, []) ∷ []) started).next ≡ 250
unfolding head_loop head_turn catch_up catch_up_once ingest_batches ingest_numbers jump_to_head
    ingest_from numbers_from
head_loop_jumps = refl
