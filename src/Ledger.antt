-- ===== src/Ledger.antt =====
-- packages/ledger/src/index.ts: payment records and `MemoryLedger`. Times are milliseconds; `meta`
-- is kept as its JSON text.
mod Tests
pub mod Spent
pub mod Rows
pub mod Exposure
pub mod Counted
pub mod Patched
use arcagentx.Prelude.{
  ℕ, ◌+◌, ◌-◌, Bool, true, false, ◌&&◌, Option, none, some, List, [], ◌∷◌, ◌++◌, map, reverse, leb,
  ◌==◌, if◌then◌else◌, filter, length, drop,
}
use arcagentx.Prelude.Int.{pos, ◌+ℤ◌}
use arcagentx.Prelude.Text.{Text, text_eq, to_lower}
use arcagentx.Accounting.{Usdc6, sum_usdc6}

pub data PaymentStatus : Type 0 where
  quoted rejected signed settled failed : PaymentStatus

pub data RailKind : Type 0 where
  nanopayment escrow lightning : RailKind

pub record PaymentRecord : Type 0 where
  pub id : ℕ
  pub at : ℕ
  pub agent_id : Text
  pub rail : RailKind
  pub url : Text
  pub host : Text
  pub method : Text
  pub network : Text
  pub scheme : Text
  pub asset : Text
  pub pay_to : Text
  pub amount : Usdc6
  pub status : PaymentStatus
  pub reason : Option Text
  pub http_status : Option ℕ
  pub latency_ms : Option ℕ
  pub tx_hash : Option Text
  pub payer : Option Text
  pub settled_at : Option ℕ
  pub meta : Option Text
  pub settlement_tx : Option Text
  pub settled_onchain_at : Option ℕ

-- What a caller gives; an optional field left out is `null` in the record.
pub record NewPayment : Type 0 where
  pub agent_id : Text
  pub rail : RailKind
  pub url : Text
  pub host : Text
  pub method : Text
  pub network : Text
  pub scheme : Text
  pub asset : Text
  pub pay_to : Text
  pub amount : Usdc6
  pub status : PaymentStatus
  pub reason : Option Text
  pub http_status : Option ℕ
  pub latency_ms : Option ℕ
  pub tx_hash : Option Text
  pub payer : Option Text
  pub meta : Option Text

-- `none` leaves the field as it is.
pub record PaymentPatch : Type 0 where
  pub amount : Option Usdc6
  pub status : Option PaymentStatus
  pub reason : Option (Option Text)
  pub http_status : Option (Option ℕ)
  pub latency_ms : Option (Option ℕ)
  pub tx_hash : Option (Option Text)
  pub payer : Option (Option Text)
  pub settled_at : Option (Option ℕ)
  pub meta : Option (Option Text)
  pub settlement_tx : Option (Option Text)
  pub settled_onchain_at : Option (Option ℕ)

abbrev pub no_patch : PaymentPatch
no_patch = record {
  amount = none;
  status = none;
  reason = none;
  http_status = none;
  latency_ms = none;
  tx_hash = none;
  payer = none;
  settled_at = none;
  meta = none;
  settlement_tx = none;
  settled_onchain_at = none;
}

-- `SPENT.has(status)`.
abbrev pub is_spent : PaymentStatus → Bool
is_spent signed = true
is_spent settled = true
is_spent _ = false

abbrev pub is_settled : PaymentStatus → Bool
is_settled settled = true
is_settled _ = false

abbrev pub is_signed : PaymentStatus → Bool
is_signed signed = true
is_signed _ = false

-- The rows, oldest first, and the next id.
pub record MemoryLedger : Type 0 where
  pub rows : List PaymentRecord
  pub next_id : ℕ

abbrev pub empty_ledger : MemoryLedger
empty_ledger = record { rows = []; next_id = 1 }

-- The row that `record` appends at the time `now`.
unfoldable pub new_row : ℕ → ℕ → NewPayment → PaymentRecord
new_row id now p = record {
  id = id;
  at = now;
  agent_id = p.agent_id;
  rail = p.rail;
  url = p.url;
  host = p.host;
  method = p.method;
  network = p.network;
  scheme = p.scheme;
  asset = p.asset;
  pay_to = to_lower p.pay_to;
  amount = p.amount;
  status = p.status;
  reason = p.reason;
  http_status = p.http_status;
  latency_ms = p.latency_ms;
  tx_hash = p.tx_hash;
  payer = p.payer;
  settled_at = none;
  meta = p.meta;
  settlement_tx = none;
  settled_onchain_at = none;
}

-- `MemoryLedger.record`.
unfoldable pub record_payment : ℕ → NewPayment → MemoryLedger → MemoryLedger × PaymentRecord
record_payment now p l =
    let rec = new_row l.next_id now p in
    (record { rows = l.rows ++ rec ∷ []; next_id = l.next_id + 1 }, rec)

-- The patch's value, or the old one where the patch has none.
abbrev pub either {ℓ} : {A : Type ℓ} → Option A → A → A
either none a = a
either (some b) _ = b

-- `Object.assign(r, patch)`.
unfoldable pub assign : PaymentPatch → PaymentRecord → PaymentRecord
assign p r = record r {
  amount = either p.amount r.amount;
  status = either p.status r.status;
  reason = either p.reason r.reason;
  http_status = either p.http_status r.http_status;
  latency_ms = either p.latency_ms r.latency_ms;
  tx_hash = either p.tx_hash r.tx_hash;
  payer = either p.payer r.payer;
  settled_at = either p.settled_at r.settled_at;
  meta = either p.meta r.meta;
  settlement_tx = either p.settlement_tx r.settlement_tx;
  settled_onchain_at = either p.settled_onchain_at r.settled_onchain_at;
}

-- `rows.find((x) => x.id === id)`.
unfoldable pub find_row : ℕ → List PaymentRecord → Option PaymentRecord
find_row id [] = none
find_row id (r ∷ rs) = if r.id == id then some r else find_row id rs

-- The patch of the first row with the id.
unfoldable pub assign_first : ℕ → PaymentPatch → List PaymentRecord → List PaymentRecord
assign_first id p [] = []
assign_first id p (r ∷ rs) = if r.id == id then assign p r ∷ rs else r ∷ assign_first id p rs

unfoldable pub update : ℕ → PaymentPatch → MemoryLedger → MemoryLedger
update id p l = record l { rows = assign_first id p l.rows }

-- `pt === undefined || r.payTo === pt`, with `pt` in lower case.
abbrev pub to_payee : Option Text → Text → Bool
to_payee none pay_to = true
to_payee (some pt) pay_to = text_eq pay_to (to_lower pt)

-- Whether a row counts in `spentSince`.
unfoldable pub counts : Text → ℕ → Option Text → PaymentRecord → Bool
counts agent since pay_to r =
    text_eq r.agent_id agent && leb since r.at && is_spent r.status && to_payee pay_to r.pay_to

unfoldable pub spent_since : Text → ℕ → Option Text → MemoryLedger → Usdc6
spent_since agent since pay_to l =
    sum_usdc6 (map (λ r. r.amount) (filter (counts agent since pay_to) l.rows))

unfoldable pub count_since : Text → ℕ → MemoryLedger → ℕ
count_since agent since l = length (filter (counts agent since none) l.rows)

-- `xs.slice(-n)`: the last n elements; since -0 is 0, all of them for n = 0.
unfoldable pub slice_last {ℓ} : {A : Type ℓ} → ℕ → List A → List A
slice_last n xs = if n == 0 then xs else drop (length xs - n) xs

unfoldable pub recent : Text → ℕ → MemoryLedger → List PaymentRecord
recent agent limit l = reverse (slice_last limit (filter (λ r. text_eq r.agent_id agent) l.rows))

abbrev pub is_null {ℓ} : {A : Type ℓ} → Option A → Bool
is_null none = true
is_null (some _) = false

unfoldable pub awaits_proof : Text → PaymentRecord → Bool
awaits_proof agent r = text_eq r.agent_id agent && is_settled r.status && is_null r.settlement_tx

unfoldable pub awaiting_proof : Text → ℕ → MemoryLedger → List PaymentRecord
awaiting_proof agent limit l = reverse (slice_last limit (filter (awaits_proof agent) l.rows))

pub record Exposed : Type 0 where
  pub pay_to : Text
  pub open_amount : Usdc6
  pub count : ℕ

-- `m.get(payTo) ?? { open: 0n, count: 0 }`, raised by one row and put back: a new key goes last.
unfoldable pub add_exposure : Text → Usdc6 → List Exposed → List Exposed
add_exposure pt a [] = record { pay_to = pt; open_amount = pos 0 +ℤ a; count = 1 } ∷ []
add_exposure pt a (e ∷ es) =
    if text_eq e.pay_to pt
    then record e { open_amount = e.open_amount +ℤ a; count = e.count + 1 } ∷ es
    else e ∷ add_exposure pt a es

unfoldable pub exposure_from : List Exposed → List PaymentRecord → List Exposed
exposure_from m [] = m
exposure_from m (r ∷ rs) =
    exposure_from (if is_signed r.status then add_exposure r.pay_to r.amount m else m) rs

unfoldable pub exposure : MemoryLedger → List Exposed
exposure l = exposure_from [] l.rows
