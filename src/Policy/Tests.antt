-- ===== src/Policy/Tests.antt =====
-- A payment that the default policy allows, one that it denies, and a policy string.
use arcagentx.Prelude.{◌<◌, ◌≡◌, ◌≢◌, ◌↔◌, refl, ok, false, none, some, ◌∷◌, ◌++◌, ◌>>=◌, All}
use arcagentx.Prelude.Int.{pos}
use arcagentx.Prelude.Text.{Text, codes, trim, text_eq, text_eq_iff}
use arcagentx.Accounting.{add_usdc6, compare_usdc6}
use arcagentx.Policy.{
  SpendPolicy, PolicyContext, PolicyRule, allow, deny, daily_reached, default_policy, arc_mainnet,
  evaluate_policy, names, shut_out,
}
use arcagentx.Policy.Decision.{
  Holds, rank, evaluate_policy-allow_iff, evaluate_policy-first_failure,
}
use arcagentx.Policy.Parse.{
  Setting, parts_of, parse_policy_string, apply_parts, apply_part, setting_of, apply, amount_of,
  rate_of,
}
use arcagentx.Accounting.Decimal.{parse_usdc6, parse_decimal_to_units}
use arcagentx.Policy.Parse.Settings.{
  Agree, Silent, IsKnown, parse_policy_string-Agree, parse_policy_string-append,
  parse_policy_string-IsKnown,
}

-- A payment of 0.002 dollars by an agent that has spent all of its 5 dollars today but 0.001.
abbrev late : PolicyContext
late = record {
  amount = pos 2_000;
  network = arc_mainnet;
  pay_to = codes "0xab";
  host = codes "api.test";
  spent_in_window = pos 4_999_000;
  spent_in_window_with_counterparty = pos 0;
  payments_in_rate_window = 3;
  identity_verified = none;
  seller_bond = none;
}

abbrev early : PolicyContext
early = record late { spent_in_window = pos 0 }

evaluate_policy-allow_iff_example :
    (evaluate_policy default_policy early ≡ allow)
    ↔ ((r : PolicyRule) → Holds default_policy early r)
evaluate_policy-allow_iff_example = evaluate_policy-allow_iff default_policy early

late_denied :
    evaluate_policy default_policy late
    ≡ deny PolicyRule.daily (daily_reached (pos 5_001_000) (pos 5_000_000))
unfolding evaluate_policy names shut_out compare_usdc6 add_usdc6
late_denied = refl

evaluate_policy-first_failure_example :
    (¬ Holds default_policy late PolicyRule.daily)
    × ((s : PolicyRule) → rank s < rank PolicyRule.daily → Holds default_policy late s)
evaluate_policy-first_failure_example =
    evaluate_policy-first_failure default_policy late PolicyRule.daily
      (daily_reached (pos 5_001_000) (pos 5_000_000)) late_denied

abbrev setting_text : Text
setting_text = codes "daily=10, rate=2/1m"

abbrev parsed : SpendPolicy
parsed = record default_policy {
  daily_cap = pos 10_000_000;
  rate_limit = record { max_payments = 2; window_ms = 60_000 };
}

setting_text-parsed : parse_policy_string setting_text default_policy ≡ ok parsed
unfolding parse_policy_string apply_parts parts_of trim apply_part setting_of apply amount_of
    parse_usdc6 parse_decimal_to_units rate_of
setting_text-parsed = refl

differ : (s t : Text) → text_eq s t ≡ false → some s ≢ some t
differ s t f e = let g : s ≡ t = cc in cc (f, (text_eq_iff s t).1 g)

setting_text-Silent : Silent Setting.per_payment (parts_of setting_text)
unfolding parts_of trim
setting_text-Silent = (
  differ (codes "daily") (codes "per_payment") refl,
  (differ (codes "rate") (codes "per_payment") refl, tt),
)

parse_policy_string-Agree_example : Agree Setting.per_payment default_policy parsed
parse_policy_string-Agree_example =
    parse_policy_string-Agree Setting.per_payment setting_text default_policy parsed
      setting_text-parsed setting_text-Silent

parse_policy_string-IsKnown_example : All IsKnown (parts_of setting_text)
parse_policy_string-IsKnown_example =
    parse_policy_string-IsKnown setting_text default_policy parsed setting_text-parsed

parse_policy_string-append_example :
    parse_policy_string (codes "daily=10" ++ b',' ∷ codes " rate=2/1m") default_policy ≡ (
      parse_policy_string (codes "daily=10") default_policy
      >>= parse_policy_string (codes " rate=2/1m"))
parse_policy_string-append_example =
    parse_policy_string-append (codes "daily=10") (codes " rate=2/1m") default_policy
