-- ===== src/Collector/Payments.antt =====
-- packages/collector/src/ingest/payments.ts: the payments by signed authorization in the logs of a
-- transaction. A Buffer is the list of its bytes.
mod Tests
pub mod Pairs
use arcagentx.Prelude.{
  ℕ, zero, suc, ◌+◌, ◌-◌, ◌*◌, Bool, true, false, not, ◌&&◌, Option, none, some, List, [], ◌∷◌,
  ◌++◌, ltb, leb, ◌==◌, if◌then◌else◌, length, any, map, drop,
}
use arcagentx.Prelude.Text.{Text, codes, text_eq}

abbrev pub Bytes : Type 0
Bytes = List ℕ

pub record StoredLog : Type 0 where
  pub block_number : ℕ
  pub log_index : ℕ
  pub tx_index : ℕ
  pub tx_hash : Bytes
  pub address : Bytes
  pub topic0 : Option Bytes
  pub topic1 : Option Bytes
  pub topic2 : Option Bytes
  pub log_data : Bytes

pub record AuthorizedTransfer : Type 0 where
  pub block_number : ℕ
  pub log_index : ℕ
  pub tx_index : ℕ
  pub tx_hash : Bytes
  pub token : Bytes
  pub payer : Bytes
  pub payee : Bytes
  pub amount : ℕ
  pub nonce : Bytes

abbrev digit_value : ℕ → ℕ
digit_value c = if leb c 57 then c - 48 else c - 87

-- `Buffer.from(text, "hex")`, of small letters.
unfoldable pub hex_bytes : Text → Bytes
hex_bytes [] = []
hex_bytes (c ∷ []) = []
hex_bytes (c ∷ d ∷ cs) = (16 * digit_value c + digit_value d) ∷ hex_bytes cs

unfoldable pub auth_topic : Bytes
auth_topic = hex_bytes (codes "98de503528ee59b575ef0c0a2576a82497bfc029a5685b209e9ec333479b10a5")

unfoldable pub transfer_topic : Bytes
transfer_topic =
    hex_bytes (codes "ddf252ad1be2c89b69c2b068fc378daa952ba7f163c4a11628f55a4df523b3ef")

-- `topic?.equals(bytes)`.
unfoldable pub is_topic : Option Bytes → Bytes → Bool
is_topic none bytes = false
is_topic (some topic) bytes = text_eq topic bytes

-- `topic?.length === 32`.
unfoldable pub is_word : Option Bytes → Bool
is_word none = false
is_word (some topic) = length topic == 32

abbrev pub bytes_in : Option Bytes → Bytes
bytes_in none = []
bytes_in (some topic) = topic

unfoldable pub is_authorization : StoredLog → Bool
is_authorization l = is_topic l.topic0 auth_topic && is_word l.topic1 && is_word l.topic2

-- Whether `t` is a transfer of the token, from the authorizer, behind the authorization, that no
-- earlier one took.
unfoldable pub pays_for : List ℕ → StoredLog → StoredLog → Bool
pays_for taken auth t =
    ltb auth.log_index t.log_index
    && not (any (λ i. i == t.log_index) taken)
    && is_topic t.topic0 transfer_topic
    && text_eq t.address auth.address
    && is_topic t.topic1 (bytes_in auth.topic1)
    && is_word t.topic2
    && length t.log_data == 32

unfoldable pub find_first : (StoredLog → Bool) → List StoredLog → Option StoredLog
find_first p [] = none
find_first p (l ∷ ls) = let rest = find_first p ls in if p l then some l else rest

unfoldable pub transfer_for : List StoredLog → List ℕ → StoredLog → Option StoredLog
transfer_for logs taken auth =
    if is_authorization auth then find_first (pays_for taken auth) logs else none

abbrev pub Pair : Type 0
Pair = StoredLog × StoredLog

unfoldable pub taking : StoredLog → List ℕ → (List ℕ → List Pair) → Option StoredLog → List Pair
taking auth taken more none = more taken
taking auth taken more (some t) = (auth, t) ∷ more (t.log_index ∷ taken)

-- The loop over the logs of a transaction, with the transfers that are taken.
unfoldable pub pairs_from : List StoredLog → List ℕ → List StoredLog → List Pair
pairs_from logs taken [] = []
pairs_from logs taken (auth ∷ rest) =
    taking auth taken (λ now. pairs_from logs now rest) (transfer_for logs taken auth)

unfoldable pub pairs_in : List StoredLog → List Pair
pairs_in logs = pairs_from logs [] logs

unfoldable pub number_from : ℕ → Bytes → ℕ
number_from n [] = n
number_from n (b ∷ bs) = number_from (256 * n + b) bs

unfoldable pub transfer_of : Pair → AuthorizedTransfer
transfer_of (auth, t) = record {
  block_number = auth.block_number;
  log_index = auth.log_index;
  tx_index = auth.tx_index;
  tx_hash = auth.tx_hash;
  token = auth.address;
  payer = drop 12 (bytes_in auth.topic1);
  payee = drop 12 (bytes_in t.topic2);
  amount = number_from 0 t.log_data;
  nonce = bytes_in auth.topic2;
}

-- The logs by transaction, in the order in which the transactions come.
unfoldable pub same_tx : StoredLog → StoredLog → Bool
same_tx a b = a.block_number == b.block_number && a.tx_index == b.tx_index

unfoldable pub add_log :
    StoredLog → List (StoredLog × List StoredLog) → List (StoredLog × List StoredLog)
add_log l [] = (l, l ∷ []) ∷ []
add_log l ((k, ls) ∷ groups) =
    let rest = add_log l groups in
    if same_tx k l then (k, ls ++ (l ∷ [])) ∷ groups else (k, ls) ∷ rest

unfoldable pub by_tx :
    List (StoredLog × List StoredLog) → List StoredLog → List (StoredLog × List StoredLog)
by_tx groups [] = groups
by_tx groups (l ∷ ls) = by_tx (add_log l groups) ls

unfoldable pub insert_log : StoredLog → List StoredLog → List StoredLog
insert_log l [] = l ∷ []
insert_log l (m ∷ ms) =
    let rest = insert_log l ms in if ltb m.log_index l.log_index then m ∷ rest else l ∷ m ∷ ms

unfoldable pub sort_logs : List StoredLog → List StoredLog
sort_logs [] = []
sort_logs (l ∷ ls) = insert_log l (sort_logs ls)

unfoldable pub pairs_of : List (StoredLog × List StoredLog) → List Pair
pairs_of [] = []
pairs_of ((k, ls) ∷ groups) = pairs_in (sort_logs ls) ++ pairs_of groups

-- `a.blockNumber - b.blockNumber || a.logIndex - b.logIndex`, below 0.
unfoldable pub is_before : AuthorizedTransfer → AuthorizedTransfer → Bool
is_before a b =
    if a.block_number == b.block_number
    then ltb a.log_index b.log_index
    else ltb a.block_number b.block_number

unfoldable pub insert_transfer :
    AuthorizedTransfer → List AuthorizedTransfer → List AuthorizedTransfer
insert_transfer a [] = a ∷ []
insert_transfer a (b ∷ bs) =
    let rest = insert_transfer a bs in if is_before b a then b ∷ rest else a ∷ b ∷ bs

unfoldable pub sort_transfers : List AuthorizedTransfer → List AuthorizedTransfer
sort_transfers [] = []
sort_transfers (a ∷ rest) = insert_transfer a (sort_transfers rest)

unfoldable pub pair_authorizations : List StoredLog → List AuthorizedTransfer
pair_authorizations logs = sort_transfers (map transfer_of (pairs_of (by_tx [] logs)))
