-- ===== src/Ledger/Patched.antt =====
-- What a patch makes of the rows.
use arcagentx.Prelude.{ℕ, ◌≡◌, ◌≢◌, refl, ◌∙◌, true, false, Option, none, some, arith, ◌==◌, ==_iff}
use arcagentx.Ledger.{PaymentRecord, PaymentPatch, MemoryLedger, assign, find_row, update, either}
use arcagentx.Ledger.Rows.{find_row-update}

-- The new value is the patch's, or else the old one.
abbrev pub Takes : {A : Type 0} → Option A → A → A → Type 0
Takes none old new = new ≡ old
Takes (some given) old new = new ≡ given

-- The patch's fields are set, and all others are as they were.
pub record IsPatched (p : PaymentPatch) (r r' : PaymentRecord) : Type 0 where
  pub amount : Takes p.amount r.amount r'.amount
  pub status : Takes p.status r.status r'.status
  pub reason : Takes p.reason r.reason r'.reason
  pub http_status : Takes p.http_status r.http_status r'.http_status
  pub latency_ms : Takes p.latency_ms r.latency_ms r'.latency_ms
  pub tx_hash : Takes p.tx_hash r.tx_hash r'.tx_hash
  pub payer : Takes p.payer r.payer r'.payer
  pub settled_at : Takes p.settled_at r.settled_at r'.settled_at
  pub meta : Takes p.meta r.meta r'.meta
  pub settlement_tx : Takes p.settlement_tx r.settlement_tx r'.settlement_tx
  pub settled_onchain_at : Takes p.settled_onchain_at r.settled_onchain_at r'.settled_onchain_at
  pub id : r'.id ≡ r.id
  pub at : r'.at ≡ r.at
  pub agent_id : r'.agent_id ≡ r.agent_id
  pub rail : r'.rail ≡ r.rail
  pub url : r'.url ≡ r.url
  pub host : r'.host ≡ r.host
  pub method : r'.method ≡ r.method
  pub network : r'.network ≡ r.network
  pub scheme : r'.scheme ≡ r.scheme
  pub asset : r'.asset ≡ r.asset
  pub pay_to : r'.pay_to ≡ r.pay_to

set : {A : Type 0} (o : Option A) (old : A) → Takes o old (either o old)
set none old = refl
set (some given) old = refl

assign-IsPatched : (p : PaymentPatch) (r : PaymentRecord) → IsPatched p r (assign p r)
unfolding assign
assign-IsPatched p r = record {
  amount = set p.amount r.amount;
  status = set p.status r.status;
  reason = set p.reason r.reason;
  http_status = set p.http_status r.http_status;
  latency_ms = set p.latency_ms r.latency_ms;
  tx_hash = set p.tx_hash r.tx_hash;
  payer = set p.payer r.payer;
  settled_at = set p.settled_at r.settled_at;
  meta = set p.meta r.meta;
  settlement_tx = set p.settlement_tx r.settlement_tx;
  settled_onchain_at = set p.settled_onchain_at r.settled_onchain_at;
  id = refl;
  at = refl;
  agent_id = refl;
  rail = refl;
  url = refl;
  host = refl;
  method = refl;
  network = refl;
  scheme = refl;
  asset = refl;
  pay_to = refl;
}

-- After an update, the row of its id is found with the patch's fields set and all its others as they
-- were, no row is found where there was none, and every other row is found as before.
pub find_row-IsPatched :
    (id : ℕ) (p : PaymentPatch) (l : MemoryLedger)
    → ((r : PaymentRecord)
        → find_row id l.rows ≡ some r
        → (r' : PaymentRecord) × (find_row id (update id p l).rows ≡ some r') × IsPatched p r r')
      × (find_row id l.rows ≡ none → find_row id (update id p l).rows ≡ none)
      × ((j : ℕ) → j ≢ id → find_row j (update id p l).rows ≡ find_row j l.rows)
find_row-IsPatched id p l =
    let here : (id == id) ≡ true = (==_iff id id).1 refl in
    let self = find_row-update id id p l in
    (
      λ r found. (assign p r, self ∙ rw (here, found) refl, assign-IsPatched p r),
      λ nothing. self ∙ rw (here, nothing) refl,
      λ j other.
          let apart : (j == id) ≡ false = ground arith in find_row-update id j p l ∙ rw apart refl,
    )
