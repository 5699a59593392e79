-- ===== src/Accounting/Tests.antt =====
-- Amounts with and without dust.
use arcagentx.Prelude.{◌+◌, ◌<◌, ◌≤◌, ◌≡◌, ◌↔◌, refl, ok, none, some, arith}
use arcagentx.Prelude.Int.{pos, negsuc, pos_part, neg_part, ◌+ℤ◌}
use arcagentx.Accounting.{Usdc18, scale_6_to_18, to_usdc18, split_usdc18, to_usdc6_exact}
use arcagentx.Accounting.Conversion.{split_usdc18-exact, to_usdc6_exact_iff}
use arcagentx.Accounting.Decimal.{FormatOptions, parse_decimal_to_units, format_units_to_decimal}
use arcagentx.Accounting.Decimal.RoundTrip.{parse-format}

-- -1.000000000000000001 dollars.
abbrev debt : Usdc18
debt = negsuc 1_000_000_000_000_000_000

abbrev two_digits : FormatOptions
two_digits = record { min_fraction_digits = some 2; max_fraction_digits = none }

parse-format_example :
    parse_decimal_to_units (format_units_to_decimal (negsuc 1_200_499) 6 two_digits) 6
    ≡ ok (negsuc 1_200_499)
parse-format_example = parse-format (negsuc 1_200_499) 6 two_digits (omega arith) refl (omega arith)

split_usdc18-exact_example :
    let s = split_usdc18 debt in
    (to_usdc18 s.usdc6 +ℤ s.dust18 ≡ debt)
    × (pos_part s.dust18 + neg_part s.dust18 < scale_6_to_18)
    × (pos_part s.dust18 ≤ pos_part debt)
    × (neg_part s.dust18 ≤ neg_part debt)
split_usdc18-exact_example = split_usdc18-exact debt

to_usdc6_exact_iff_example :
    (to_usdc6_exact (pos 3_000_000_000_000) ≡ ok (pos 3))
    ↔ (pos 3_000_000_000_000 ≡ to_usdc18 (pos 3))
to_usdc6_exact_iff_example = to_usdc6_exact_iff (pos 3_000_000_000_000) (pos 3)
