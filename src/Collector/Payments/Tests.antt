-- ===== src/Collector/Payments/Tests.antt =====
-- packages/collector/src/ingest/payments.ts: examples.
use arcagentx.Prelude.{ℕ, ◌≡◌, refl, some, List, [], ◌∷◌, ◌++◌, replicate, map, All}
use arcagentx.Collector.Payments.{
  StoredLog, auth_topic, transfer_topic, hex_bytes, is_topic, is_word, is_authorization, pays_for,
  find_first, transfer_for, taking, pairs_from, pairs_in, number_from, transfer_of, same_tx,
  add_log, by_tx, insert_log, sort_logs, pairs_of, is_before, insert_transfer, sort_transfers,
  pair_authorizations, AuthorizedTransfer,
}
use arcagentx.Collector.Payments.Pairs.{OnceEach, Settles, pairs_in-OnceEach}

-- Two authorizations of one payer, and then their transfers, of 5 and of 7.
abbrev authorized : ℕ → StoredLog
authorized index = record {
  block_number = 9;
  log_index = index;
  tx_index = 0;
  tx_hash = 1 ∷ [];
  address = 2 ∷ [];
  topic0 = some auth_topic;
  topic1 = some (replicate 32 3);
  topic2 = some (replicate 32 index);
  log_data = [];
}

abbrev moved : ℕ → ℕ → StoredLog
moved index amount = record {
  block_number = 9;
  log_index = index;
  tx_index = 0;
  tx_hash = 1 ∷ [];
  address = 2 ∷ [];
  topic0 = some transfer_topic;
  topic1 = some (replicate 32 3);
  topic2 = some (replicate 32 4);
  log_data = replicate 31 0 ++ (amount ∷ []);
}

abbrev tx_logs : List StoredLog
tx_logs = authorized 0 ∷ authorized 1 ∷ moved 2 5 ∷ moved 3 7 ∷ []

pairs_in_paid : pairs_in tx_logs ≡ (authorized 0, moved 2 5) ∷ (authorized 1, moved 3 7) ∷ []
unfolding pairs_in pairs_from taking transfer_for find_first pays_for is_authorization is_topic
    is_word auth_topic transfer_topic hex_bytes
pairs_in_paid = refl

pair_authorizations_paid :
    map (λ (a : AuthorizedTransfer). a.amount) (pair_authorizations tx_logs) ≡ 5 ∷ 7 ∷ []
unfolding pair_authorizations sort_transfers insert_transfer is_before pairs_of by_tx add_log
    same_tx sort_logs insert_log transfer_of number_from pairs_in pairs_from taking transfer_for
    find_first pays_for is_authorization is_topic is_word auth_topic transfer_topic hex_bytes
pair_authorizations_paid = refl

pairs_in-OnceEach_example : OnceEach (pairs_in tx_logs) × All (Settles tx_logs) (pairs_in tx_logs)
pairs_in-OnceEach_example = pairs_in-OnceEach tx_logs
