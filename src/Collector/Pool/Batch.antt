-- ===== src/Collector/Pool/Batch.antt =====
-- packages/collector/src/rpc/pool.ts: `execute`, `batch` and the calls over them.
use arcagentx.Prelude.{
  ℕ, zero, suc, min, max, Bool, true, false, not, ◌&&◌, ◌||◌, Option, none, some, List, [], ◌∷◌,
  ◌++◌, Result, ok, err, ◌>>=◌, ltb, leb, ◌==◌, if◌then◌else◌, length, take, drop, filter,
}
use arcagentx.Prelude.Text.{Text, codes, text_eq}
use arcagentx.Lightning.Json.{Json}
use arcagentx.Collector.Client.{
  JsonRpcErrorShape, RpcError, JsonRpcCall, RpcOutcome, rpc_result, rpc_failure,
  is_retryable_rpc_code,
}
use arcagentx.Collector.Pool.{
  EndpointState, change, is_enabled, has_url, candidates, on_success, on_failure,
  detect_batch_limit,
}

-- What the endpoints answer to the calls of an attempt, and the clock of the attempt: when an
-- endpoint is picked, and when the answer is in, with the time that it took.
pub record World : Type 0 where
  pub send : ℕ → Text → List JsonRpcCall → Result RpcError (List RpcOutcome)
  pub picked_at : ℕ → ℕ
  pub answered_at : ℕ → ℕ
  pub took : ℕ → ℕ
  pub average : ℕ → ℕ → ℕ

pub record PoolOptions : Type 0 where
  pub lag_tolerance : ℕ
  pub max_attempts : Option ℕ

pub record RequestOptions : Type 0 where
  pub exclude : List Text
  pub only : Option Text
  pub max_attempts : Option ℕ

pub record RoutedOutcome : Type 0 where
  pub endpoint : Text
  pub outcomes : List RpcOutcome
  pub duration_ms : ℕ

unfoldable pub pool_error : Text → Text → Bool → RpcError
pool_error message method retryable = record {
  message = message;
  endpoint = codes "pool";
  method = method;
  code = none;
  retryable = retryable;
}

-- The loop over the chunks, with as much fuel as there are calls.
unfoldable pub run_chunks :
    ℕ
    → ℕ
    → (List JsonRpcCall → Result RpcError (List RpcOutcome))
    → List JsonRpcCall
    → Result RpcError (List RpcOutcome)
run_chunks fuel size go [] = ok []
run_chunks zero size go (c ∷ cs) = err (pool_error (codes "no fuel") c.method false)
run_chunks (suc fuel) size go (c ∷ cs) = go (take size (c ∷ cs)) >>= λ out.
    run_chunks fuel size go (drop size (c ∷ cs)) >>= λ rest. ok (out ++ rest)

unfoldable pub execute :
    World → ℕ → EndpointState → List JsonRpcCall → Result RpcError (List RpcOutcome)
execute w attempt e calls =
    let chunked = run_chunks (length calls) e.max_batch (w.send attempt e.url) calls in
    if length calls == 1 || leb (length calls) e.max_batch
    then w.send attempt e.url calls
    else chunked

unfoldable pub retryable_failure : RpcOutcome → Option JsonRpcErrorShape
retryable_failure (rpc_result v) = none
retryable_failure (rpc_failure e) = if is_retryable_rpc_code e.code then some e else none

unfoldable pub all_fail : List RpcOutcome → Bool
all_fail [] = true
all_fail (o ∷ os) = elim (retryable_failure o) [ none ↦ false | some e ↦ all_fail os ]

-- The first error, where there is one and each outcome is an error that may be tried again.
unfoldable pub endpoint_problem : List RpcOutcome → Option JsonRpcErrorShape
endpoint_problem [] = none
endpoint_problem (o ∷ os) = if all_fail os then retryable_failure o else none

-- The limit that a throw teaches, for more than one call.
unfoldable pub learned_limit : ℕ → RpcError → Option ℕ
learned_limit calls e = if ltb 1 calls then detect_batch_limit e.message else none

unfoldable pub with_limit : ℕ → EndpointState → EndpointState
with_limit limit e = record e { max_batch = min e.max_batch (max 1 limit) }

abbrev Out : Type 0
Out = List EndpointState × Result RpcError RoutedOutcome

-- What goes on after an attempt: with the tried urls, the last error and the endpoints.
abbrev Rest : Type 0
Rest = List Text → Option RpcError → List EndpointState → Out

unfoldable pub error_of : Text → Text → JsonRpcErrorShape → RpcError
error_of url method e = record {
  message = e.message;
  endpoint = url;
  method = method;
  code = some e.code;
  retryable = true;
}

abbrev method_of : List JsonRpcCall → Text
method_of [] = codes "batch"
method_of (c ∷ cs) = c.method

-- The answer to an attempt.
unfoldable pub after_answer :
    World
    → ℕ
    → List JsonRpcCall
    → List Text
    → Option RpcError
    → List EndpointState
    → EndpointState
    → Rest
    → Result RpcError (List RpcOutcome)
    → Out
after_answer w attempt calls tried last es e rest (ok outcomes) = elim (endpoint_problem outcomes) [
  | some first ↦
      rest (e.url ∷ tried) (some (error_of e.url (method_of calls) first))
        (change e.url (on_failure (w.answered_at attempt)) es)
  | none ↦ (
    change e.url (on_success w.average (w.took attempt)) es,
    ok (record { endpoint = e.url; outcomes = outcomes; duration_ms = w.took attempt }),
  )
]
after_answer w attempt calls tried last es e rest (err re) =
    let failed = change e.url (on_failure (w.answered_at attempt)) es in
    elim (learned_limit (length calls) re) [
      | some limit ↦ rest tried last (change e.url (with_limit limit) es)
      | none ↦ (if re.retryable then rest (e.url ∷ tried) (some re) failed else (failed, err re))
    ]

abbrev pub is_fresh : List Text → EndpointState → Bool
is_fresh tried e = not (has_url e.url tried)

-- The endpoint of an attempt, and the tried ones, which are forgotten when all have been.
unfoldable pub pick : List Text → EndpointState → List EndpointState → EndpointState × List Text
pick tried c cs = elim (filter (is_fresh tried) (c ∷ cs)) [ [] ↦ (c, []) | f ∷ fs ↦ (f, tried) ]

unfoldable pub candidates_among :
    World
    → PoolOptions
    → RequestOptions
    → ℕ
    → ℕ
    → List EndpointState
    → (only : Option Text) → List EndpointState
candidates_among w opts ro attempt calls es (some url) =
    filter (λ e. text_eq e.url url && is_enabled e) es
candidates_among w opts ro attempt calls es none =
    candidates (w.picked_at attempt) opts.lag_tolerance calls ro.exclude es

unfoldable pub candidates_for :
    World → PoolOptions → RequestOptions → ℕ → ℕ → List EndpointState → List EndpointState
candidates_for w opts ro attempt calls es = candidates_among w opts ro attempt calls es ro.only

unfoldable pub or_exhausted : Text → Option RpcError → RpcError
or_exhausted method none = pool_error (codes "exhausted attempts") method true
or_exhausted method (some e) = e

-- One turn of the loop, on the candidates.
unfoldable pub try_one :
    World
    → ℕ
    → List JsonRpcCall
    → List Text
    → Option RpcError
    → List EndpointState
    → Rest
    → List EndpointState
    → Out
try_one w attempt calls tried last es rest [] =
    (es, err (pool_error (codes "no usable rpc endpoints") (method_of calls) false))
try_one w attempt calls tried last es rest (c ∷ cs) =
    let (e, tried') = pick tried c cs in
    after_answer w attempt calls tried' last es e rest (execute w attempt e calls)

-- The loop: the attempts that are left, and the number of this one.
unfoldable pub attempts : ℕ → ℕ → World → PoolOptions → RequestOptions → List JsonRpcCall → Rest
attempts zero attempt w opts ro calls tried last es =
    (es, err (or_exhausted (method_of calls) last))
attempts (suc left) attempt w opts ro calls tried last es =
    try_one w attempt calls tried last es (attempts left (suc attempt) w opts ro calls)
      (candidates_for w opts ro attempt (length calls) es)

unfoldable pub attempts_of : Option ℕ → Option ℕ → ℕ
attempts_of (some n) pool = n
attempts_of none (some n) = n
attempts_of none none = 6

unfoldable pub batch :
    World → PoolOptions → RequestOptions → List JsonRpcCall → List EndpointState → Out
batch w opts ro calls es =
    attempts (attempts_of ro.max_attempts opts.max_attempts) 0 w opts ro calls [] none es

unfoldable pub call : World → PoolOptions → RequestOptions → JsonRpcCall → List EndpointState → Out
call w opts ro c es = batch w opts ro (c ∷ []) es

unfoldable pub unwrap : Text → RoutedOutcome → Result RpcError Json
unwrap method r = elim r.outcomes [
  | rpc_result v ∷ os ↦ ok v
  | rpc_failure e ∷ os ↦ err (record {
    message = e.message;
    endpoint = r.endpoint;
    method = method;
    code = some e.code;
    retryable = false;
  })
  | [] ↦ err (pool_error (codes "no outcome") method false)
]

unfoldable pub call_result :
    World → PoolOptions → RequestOptions → JsonRpcCall → List EndpointState → Result RpcError Json
call_result w opts ro c es = (call w opts ro c es).1 >>= unwrap c.method
