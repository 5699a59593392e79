-- ===== src/Lightning/Tests.antt =====
-- A price of a cent at 60,000.5 dollars per bitcoin, a replay store, and a run of two calls.
use arcagentx.Prelude.{
  ℕ, ◌+◌, ◌*◌, ◌^◌, ◌≤◌, ◌<◌, ◌≡◌, ◌⊎◌, refl, ok, true, false, none, some, List, [], ◌∷◌, All,
  length, arith,
}
use arcagentx.Prelude.Text.{codes, text_eq, span_digits}
use arcagentx.Accounting.Decimal.{value, fraction_of}
use arcagentx.Lightning.Replay.{
  FileReplayStore, claim, knows, compact, unexpired, load, keep, open_store,
}
use arcagentx.Lightning.Replay.Once.{Step, Reach, claim-once}
use arcagentx.Lightning.Invoice.{words_to_int, int_to_words}
use arcagentx.Lightning.Invoice.Words.{IsWord, words_to_int-int_to_words}
use arcagentx.Lightning.Limiter.{new_limiter}
use arcagentx.Lightning.Limiter.Grants.{Call, Forward, grants, grants-limits}
use arcagentx.Lightning.Amounts.{
  Decimal, decimal_parts, decimal_with, quote_msat, ceil_div, is_whole, step_up, decimal_of,
  usd_to_msat, msat_to_usd6, today_msat,
}
use arcagentx.Lightning.Amounts.Bounds.{usd_to_msat-covers, msat_to_usd6-covers, today_msat-covers}

abbrev cent : Decimal
cent = record { digits = 1; scale = 2 }

abbrev per_bitcoin : Decimal
per_bitcoin = record { digits = 600_005; scale = 1 }

abbrev quoted : ℕ
quoted = 16_667

abbrev today : ℕ
today = 17_000

cent-decimal_of : decimal_of (codes "0.01") ≡ some cent
unfolding decimal_of decimal_parts span_digits decimal_with fraction_of value
cent-decimal_of = refl

rate-decimal_of : decimal_of (codes "60000.5") ≡ some per_bitcoin
unfolding decimal_of decimal_parts span_digits decimal_with fraction_of value
rate-decimal_of = refl

cent-usd_to_msat : usd_to_msat (codes "0.01") (codes "60000.5") 1_000 ≡ ok 16_667
unfolding usd_to_msat decimal_of decimal_parts span_digits decimal_with fraction_of value quote_msat
    ceil_div
cent-usd_to_msat = refl

usd_to_msat-covers_example :
    (1 * 100_000_000_000 * 10 ^ 1 ≤ 16_667 * (600_005 * 10 ^ 2))
    × (1_000 ≤ 16_667)
    × ((quoted ≡ 1_000)
        ⊎ (quoted * (600_005 * 10 ^ 2) < 1 * 100_000_000_000 * 10 ^ 1 + 600_005 * 10 ^ 2))
usd_to_msat-covers_example =
    usd_to_msat-covers (codes "0.01") (codes "60000.5") 1_000 16_667 cent per_bitcoin
      cent-decimal_of rate-decimal_of cent-usd_to_msat

msat-usd6 : msat_to_usd6 (codes "17000") (codes "60000.5") ≡ ok 10_201
unfolding msat_to_usd6 decimal_of decimal_parts span_digits decimal_with fraction_of value is_whole
    ceil_div
msat-usd6 = refl

msat_to_usd6-covers_example :
    (value (codes "17000") * 600_005 ≤ 10_201 * (100_000 * 10 ^ 1))
    × (10_201 * (100_000 * 10 ^ 1) < value (codes "17000") * 600_005 + 100_000 * 10 ^ 1)
msat_to_usd6-covers_example =
    msat_to_usd6-covers (codes "17000") (codes "60000.5") 10_201 per_bitcoin rate-decimal_of
      msat-usd6

cent-today : today_msat (codes "0.01") (codes "60000.5") 1_000 1_000 ≡ ok 17_000
unfolding today_msat usd_to_msat decimal_of decimal_parts span_digits decimal_with fraction_of value
    step_up quote_msat ceil_div
cent-today = refl

today_msat-covers_example :
    ((k : ℕ) × (today ≡ k * 1_000))
    × (1_000 ≤ 17_000)
    × (1 * 100_000_000_000 * 10 ^ 1 ≤ 17_000 * (600_005 * 10 ^ 2))
today_msat-covers_example =
    today_msat-covers (codes "0.01") (codes "60000.5") 1_000 1_000 17_000 cent per_bitcoin
      (omega arith) cent-decimal_of rate-decimal_of cent-today

-- One proof is remembered until 50 already, and the file has a line that was cut short.
abbrev store : FileReplayStore
store = open_store 5 (none ∷ some (codes "k1", 50) ∷ [])

k2-accepted : (claim 6 (codes "k2") 90 store).1 ≡ true
unfolding claim knows open_store compact unexpired load keep
k2-accepted = refl

claim-once_example :
    claim 20 (codes "k2") 99 (open_store 10 (claim 6 (codes "k2") 90 store).0.file)
    ≡ (open_store 10 (claim 6 (codes "k2") 90 store).0.file, false)
claim-once_example =
    claim-once (codes "k2") 90 6 20 99 store (open_store 10 (claim 6 (codes "k2") 90 store).0.file)
      (omega arith) k2-accepted
      (Reach.next Reach.here (Step.restarting (claim 6 (codes "k2") 90 store).0 10 (omega arith)))

abbrev calls : List Call
calls = (1, codes "a") ∷ (70_000, codes "a") ∷ []

calls-Forward : Forward 0 calls
calls-Forward = (omega arith, (omega arith, tt))

grants-limits_example :
    (grants 1 2 (λ c. true) 0 calls new_limiter ≤ 2)
    × (grants 1 2 (λ c. text_eq c (codes "a")) 0 calls new_limiter ≤ 1)
grants-limits_example = grants-limits 1 2 0 (codes "a") calls calls-Forward

words_to_int-int_to_words_example :
    (words_to_int (int_to_words 3_600 4) ≡ 3_600)
    × All IsWord (int_to_words 3_600 4)
    × (4 ≤ length (int_to_words 3_600 4))
words_to_int-int_to_words_example = words_to_int-int_to_words 3_600 4
