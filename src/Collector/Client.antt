-- ===== src/Collector/Client.antt =====
-- packages/collector/src/rpc/client.ts: what an endpoint's reply to one call or to a batch says. The
-- reply itself, or the throw of `post`, is an argument.
use arcagentx.Prelude.{
  ℕ, suc, Bool, true, ◌||◌, Option, none, some, List, [], ◌∷◌, ◌++◌, Result, ok, err, ◌>>=◌, ◌==◌,
  if◌then◌else◌,
}
use arcagentx.Prelude.Int.{ℤ, pos, negsuc}
use arcagentx.Prelude.Text.{Text, codes}
use arcagentx.Lightning.Json.{Json}

pub record JsonRpcErrorShape : Type 0 where
  pub code : ℤ
  pub message : Text

pub record RpcError : Type 0 where
  pub message : Text
  pub endpoint : Text
  pub method : Text
  pub code : Option ℤ
  pub retryable : Bool

pub record JsonRpcCall : Type 0 where
  pub method : Text
  pub params : Json

pub data RpcOutcome : Type 0 where
  rpc_result : Json → RpcOutcome
  rpc_failure : JsonRpcErrorShape → RpcOutcome

-- A message that a reply holds.
pub data Envelope : Type 0 where
  malformed : Envelope
  with_error : JsonRpcErrorShape → Envelope
  with_result : Json → Envelope

-- The reply to a batch: messages with the ids that are numbers, or no array.
pub data Reply : Type 0 where
  messages : List (Option ℕ × Envelope) → Reply
  rejected : JsonRpcErrorShape → Reply
  no_array : Reply

unfoldable pub is_retryable_rpc_code : ℤ → Bool
is_retryable_rpc_code (pos n) = n == 429
is_retryable_rpc_code (negsuc n) = n == 32004 || n == 32602 || n == 31999 || n == 32015

unfoldable pub to_outcome : Text → Text → Envelope → Result RpcError RpcOutcome
to_outcome endpoint method malformed = err (record {
  message = codes "malformed JSON-RPC envelope";
  endpoint = endpoint;
  method = method;
  code = none;
  retryable = true;
})
to_outcome endpoint method (with_error e) = ok (rpc_failure e)
to_outcome endpoint method (with_result v) = ok (rpc_result v)

unfoldable pub rpc_call : Text → JsonRpcCall → Result RpcError Envelope → Result RpcError RpcOutcome
rpc_call endpoint call posted = posted >>= to_outcome endpoint call.method

-- `byId.get(id)`: a later message with the same id takes the place of an earlier one.
unfoldable pub by_id : ℕ → List (Option ℕ × Envelope) → Option Envelope
by_id id [] = none
by_id id ((none, m) ∷ ms) = by_id id ms
by_id id ((some i, m) ∷ ms) = elim (by_id id ms) [
  | some later ↦ some later
  | none ↦ (if i == id then some m else none)
]

unfoldable pub missing : Text → Text → RpcError
missing endpoint method = record {
  message = codes "batch response missing id for " ++ method;
  endpoint = endpoint;
  method = method;
  code = none;
  retryable = true;
}

unfoldable pub outcome_of : Text → Text → Option Envelope → Result RpcError RpcOutcome
outcome_of endpoint method none = err (missing endpoint method)
outcome_of endpoint method (some m) = to_outcome endpoint method m

-- The map over the calls, from the id of the first.
unfoldable pub outcomes_from :
    Text → ℕ → List (Option ℕ × Envelope) → List JsonRpcCall → Result RpcError (List RpcOutcome)
outcomes_from endpoint id ms [] = ok []
outcomes_from endpoint id ms (c ∷ cs) = outcome_of endpoint c.method (by_id id ms) >>= λ o.
    outcomes_from endpoint (suc id) ms cs >>= λ os. ok (o ∷ os)

-- Throws of a batch as a whole; each may be tried again.
unfoldable pub batch_error : Text → Text → Option ℤ → RpcError
batch_error message endpoint code = record {
  message = message;
  endpoint = endpoint;
  method = codes "batch";
  code = code;
  retryable = true;
}

unfoldable pub read_reply : Text → ℕ → List JsonRpcCall → Reply → Result RpcError (List RpcOutcome)
read_reply endpoint base calls (messages ms) = outcomes_from endpoint base ms calls
read_reply endpoint base calls (rejected e) =
    err (batch_error (codes "batch rejected: " ++ e.message) endpoint (some e.code))
read_reply endpoint base calls no_array =
    err (batch_error (codes "batch response is not an array") endpoint none)

unfoldable pub rpc_batch :
    Text → ℕ → List JsonRpcCall → Result RpcError Reply → Result RpcError (List RpcOutcome)
rpc_batch endpoint base [] posted = ok []
rpc_batch endpoint base (c ∷ cs) posted = posted >>= read_reply endpoint base (c ∷ cs)
