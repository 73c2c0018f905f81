-- ===== src/Tests/Api.antt =====
-- Values and overviews on a small waveform.
use auto_waveform_debugger.Base.{
  ℕ, ◌≡◌, ◌≤◌, ◌+◌, ◌-◌, refl, true, some, List, Str, codes, length, arith,
}
use auto_waveform_debugger.Api.Values.{binary_bits_to_decimal, normalize_multibit_bits}
use auto_waveform_debugger.Api.Values.Bits.{AreDigits, dec_value, bits_value}
use auto_waveform_debugger.Api.Values.Decimal.{binary_bits_to_decimal_value}
use auto_waveform_debugger.Api.Values.Halving.{Parsed, decimal_string_to_bits_value}
use auto_waveform_debugger.Api.Format.{format_multibit_value}
use auto_waveform_debugger.Api.Query.{normalize_query_value_to_bits, value_matches_query}
use auto_waveform_debugger.Api.Query.RoundTrip.{format-query}
use auto_waveform_debugger.Api.Overview.{
  OverviewSegment, build_signal_overview_segments, choose_auto_resolution, target_segments,
}
use auto_waveform_debugger.Api.Overview.Tiling.{Within, Covers, build-Covers}
use auto_waveform_debugger.Api.Overview.Auto.{auto_overview_short}
use auto_waveform_debugger.Tests.{clk, bus, clk_changes}

binary_bits_to_decimal_value_example :
    AreDigits (binary_bits_to_decimal (codes "1101"))
    × (dec_value 0 (binary_bits_to_decimal (codes "1101")) ≡ bits_value 0 (codes "1101"))
binary_bits_to_decimal_value_example = binary_bits_to_decimal_value (codes "1101") (
  (omega arith, omega arith),
  ((omega arith, omega arith), ((omega arith, omega arith), ((omega arith, omega arith), tt))),
)

decimal_string_to_bits_value_example : (bits : Str) × Parsed (codes "13") bits
decimal_string_to_bits_value_example = decimal_string_to_bits_value (codes "13") (λ e. cc) refl

format-query_example :
    (bits : Str) × (normalize_query_value_to_bits
        (format_multibit_value (codes "b101") 4 (codes "dec"))
        4
        (codes "hex")
      ≡ some bits)
    × (value_matches_query bus (codes "b101") bits ≡ true)
unfolding normalize_multibit_bits
format-query_example =
    format-query bus (codes "b101") (codes "dec") (codes "hex") (omega arith)
      (
        (omega arith, omega arith),
        (
          (omega arith, omega arith),
          ((omega arith, omega arith), ((omega arith, omega arith), tt)),
        ),
      )
      refl

clk_changes-Within : Within 0 12 clk_changes
clk_changes-Within = (
  omega arith,
  omega arith,
  (omega arith, omega arith, (omega arith, omega arith, (omega arith, omega arith, tt))),
)

build-Covers_example :
    (segments : List OverviewSegment) × (build_signal_overview_segments clk
        (codes "hex")
        clk_changes
        0
        12
        2
        (codes "0")
      ≡ some segments)
    × Covers 0 (12 + 1) segments
build-Covers_example =
    build-Covers clk (codes "hex") clk_changes 0 12 2 (codes "0") (omega arith) (omega arith)
      (omega arith) clk_changes-Within

auto_overview_short_example :
    (resolution : ℕ) × (segments : List OverviewSegment) × (choose_auto_resolution clk_changes 0 12
      ≡ some resolution)
    × (1 ≤ resolution)
    × (resolution ≤ 12 - 0 + 1)
    × (build_signal_overview_segments clk (codes "hex") clk_changes 0 12 resolution (codes "0")
        ≡ some segments)
    × (length segments ≤ target_segments)
auto_overview_short_example =
    auto_overview_short clk (codes "hex") clk_changes 0 12 (codes "0") (omega arith) (omega arith)
      clk_changes-Within
