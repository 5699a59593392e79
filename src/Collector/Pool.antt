-- ===== src/Collector/Pool.antt =====
-- packages/collector/src/rpc/pool.ts: the pool of endpoints. What an endpoint answers to the calls of
-- an attempt, and the clock, are arguments; waits change no state. Latencies are averaged in floating
-- point, by an argument.
pub mod Batch
pub mod Chunks
pub mod Picks
pub mod Failover
use arcagentx.Prelude.{
  ℕ, zero, suc, ◌+◌, ◌-◌, ◌*◌, ◌^◌, min, max, Bool, true, false, not, ◌&&◌, ◌||◌, Option, none,
  some, List, [], ◌∷◌, ◌++◌, map, Result, ok, err, ◌>>=◌, ltb, leb, ◌==◌, if◌then◌else◌, length,
  take, drop, filter, any, all,
}
use arcagentx.Prelude.Int.{ℤ}
use arcagentx.Prelude.Text.{Text, codes, text_eq, is_digit, span_digits, to_lower}
use arcagentx.Accounting.Decimal.{value}
use arcagentx.Collector.Client.{
  JsonRpcErrorShape, RpcError, JsonRpcCall, RpcOutcome, rpc_result, rpc_failure,
  is_retryable_rpc_code,
}

pub record EndpointState : Type 0 where
  pub url : Text
  pub name : Text
  pub priority : ℕ
  pub consecutive_failures : ℕ
  pub cooldown_until : ℕ
  pub latency : ℕ
  pub last_head : Option ℕ
  pub last_head_at : Option ℕ
  pub total_calls : ℕ
  pub total_failures : ℕ
  pub disabled_reason : Option Text
  pub max_batch : ℕ

-- `maxBatch` of an endpoint whose limit is not known, 2 ^ 53 - 1.
abbrev pub max_safe_integer : ℕ
max_safe_integer = 9_007_199_254_740_991

abbrev pub base_backoff_ms : ℕ
base_backoff_ms = 200

abbrev pub max_cooldown_ms : ℕ
max_cooldown_ms = 60_000

-- The constructor, for the urls with their redacted names, from a priority on.
unfoldable pub endpoints_from : ℕ → List (Text × Text) → List EndpointState
endpoints_from priority [] = []
endpoints_from priority (u ∷ us) =
    record {
      url = u.0;
      name = u.1;
      priority = priority;
      consecutive_failures = 0;
      cooldown_until = 0;
      latency = 0;
      last_head = none;
      last_head_at = none;
      total_calls = 0;
      total_failures = 0;
      disabled_reason = none;
      max_batch = max_safe_integer;
    }
    ∷ endpoints_from (suc priority) us

-- `detectBatchLimit`: the text behind a prefix.
unfoldable pub behind : Text → Text → Option Text
behind [] s = some s
behind (c ∷ p) [] = none
behind (c ∷ p) (d ∷ s) = if c == d then behind p s else none

-- `[^\d]{0,20}(\d+)`.
unfoldable pub number_within : ℕ → Text → Option ℕ
number_within n [] = none
number_within zero (c ∷ s) = if is_digit c then some (value (span_digits (c ∷ s)).0) else none
number_within (suc n) (c ∷ s) =
    let rest = number_within n s in
    if is_digit c then some (value (span_digits (c ∷ s)).0) else rest

-- The prefixes of the pattern's alternatives, and how far behind each the number may stand.
abbrev pub limit_prefixes : List (Text × ℕ)
limit_prefixes =
    (codes "batch of more than ", 0)
    ∷ (codes "batches of more than ", 0)
    ∷ (codes "max batch size", 20)
    ∷ (codes "max batch length", 20)
    ∷ (codes "maximum batch size", 20)
    ∷ (codes "maximum batch length", 20)
    ∷ (codes "batch limit", 20)
    ∷ (codes "batch size limit", 20)
    ∷ []

unfoldable pub limit_behind : ℕ → Option Text → Option ℕ
limit_behind room none = none
limit_behind room (some s) = number_within room s

unfoldable pub limit_here : List (Text × ℕ) → Text → Option ℕ
limit_here [] s = none
limit_here (p ∷ ps) s = elim (limit_behind p.1 (behind p.0 s)) [
  | some n ↦ some n
  | none ↦ limit_here ps s
]

-- The first place where the pattern fits.
unfoldable pub limit_in : Text → Option ℕ
limit_in [] = none
limit_in (c ∷ s) = elim (limit_here limit_prefixes (c ∷ s)) [ some n ↦ some n | none ↦ limit_in s ]

abbrev starts : Text → Text → Bool
starts p s = elim (behind p s) [ none ↦ false | some rest ↦ true ]

unfoldable pub says_too_large : Text → Bool
says_too_large [] = false
says_too_large (c ∷ s) =
    starts (codes "batch too large") (c ∷ s)
    || starts (codes "batch limit exceeded") (c ∷ s)
    || starts (codes "batch not allowed") (c ∷ s)
    || says_too_large s

unfoldable pub detect_batch_limit : Text → Option ℕ
detect_batch_limit message = elim (limit_in (to_lower message)) [
  | some n ↦ some n
  | none ↦ (if says_too_large (to_lower message) then some 1 else none)
]

unfoldable pub best_of : Option ℕ → Option ℕ → Option ℕ
best_of best none = best
best_of none (some h) = some h
best_of (some b) (some h) = if ltb b h then some h else some b

-- The loop of `bestKnownHead`.
unfoldable pub best_from : Option ℕ → List EndpointState → Option ℕ
best_from best [] = best
best_from best (e ∷ es) = best_from (best_of best e.last_head) es

unfoldable pub best_known_head : List EndpointState → Option ℕ
best_known_head es = best_from none es

-- A change of the endpoint that `find` gives for the url.
unfoldable pub change :
    Text → (EndpointState → EndpointState) → List EndpointState → List EndpointState
change url f [] = []
change url f (e ∷ es) = if text_eq e.url url then f e ∷ es else e ∷ change url f es

unfoldable pub disable : Text → Text → List EndpointState → List EndpointState
disable url reason es = change url (λ e. record e { disabled_reason = some reason }) es

unfoldable pub record_head : ℕ → Text → ℕ → List EndpointState → List EndpointState
record_head now url head es =
    change url (λ e. record e { last_head = some head; last_head_at = some now }) es

-- `!e.disabledReason`: an empty reason is none.
unfoldable pub is_enabled : EndpointState → Bool
is_enabled e = elim e.disabled_reason [ none ↦ true | some r ↦ text_eq r [] ]

unfoldable pub is_lagging : Option ℕ → Option ℕ → ℕ → Bool
is_lagging (some best) (some head) tolerance = ltb tolerance (best - head)
is_lagging best head tolerance = false

unfoldable pub score : (now : ℕ) → Option ℕ → (tolerance batch_size : ℕ) → EndpointState → ℕ
score now best tolerance batch_size e =
    e.priority
    + (if ltb now e.cooldown_until then 1000 else 0)
    + (if is_lagging best e.last_head tolerance then 100 else 0)
    + (if ltb e.max_batch batch_size then 50 else 0)

-- The sort by score, which keeps the order of equal ones.
unfoldable pub insert_by :
    (EndpointState → ℕ) → EndpointState → List EndpointState → List EndpointState
insert_by rank e [] = e ∷ []
insert_by rank e (x ∷ xs) =
    let later = insert_by rank e xs in if leb (rank e) (rank x) then e ∷ x ∷ xs else x ∷ later

unfoldable pub sort_by : (EndpointState → ℕ) → List EndpointState → List EndpointState
sort_by rank [] = []
sort_by rank (e ∷ es) = insert_by rank e (sort_by rank es)

abbrev pub has_url : Text → List Text → Bool
has_url url urls = any (λ u. text_eq u url) urls

unfoldable pub usable : List Text → List EndpointState → List EndpointState
usable exclude es = filter (λ e. is_enabled e && not (has_url e.url exclude)) es

unfoldable pub candidates :
    (now tolerance batch_size : ℕ) → List Text → List EndpointState → List EndpointState
candidates now tolerance batch_size exclude es =
    sort_by (score now (best_known_head es) tolerance batch_size) (usable exclude es)

unfoldable pub healthy : ℕ → List EndpointState → Bool
healthy now es = any (λ e. is_enabled e && leb e.cooldown_until now) es

unfoldable pub on_success : (average : ℕ → ℕ → ℕ) → ℕ → EndpointState → EndpointState
on_success average duration e = record e {
  consecutive_failures = 0;
  cooldown_until = 0;
  total_calls = e.total_calls + 1;
  latency = (if e.latency == 0 then duration else average e.latency duration);
}

unfoldable pub cooldown : ℕ → ℕ
cooldown failures = min max_cooldown_ms (base_backoff_ms * 2 ^ min failures 8)

unfoldable pub on_failure : ℕ → EndpointState → EndpointState
on_failure now e = record e {
  consecutive_failures = e.consecutive_failures + 1;
  total_calls = e.total_calls + 1;
  total_failures = e.total_failures + 1;
  cooldown_until = now + cooldown (e.consecutive_failures + 1);
}

-- Each endpoint without its url, and whether it is in its cooldown.
unfoldable pub snapshot : ℕ → List EndpointState → List (EndpointState × Bool)
snapshot now es = map (λ e. (record e { url = [] }, ltb now e.cooldown_until)) es
