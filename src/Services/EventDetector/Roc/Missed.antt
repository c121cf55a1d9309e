-- ===== src/Services/EventDetector/Roc/Missed.antt =====
-- What the comparison of adjacent samples sees of a climb, and what it cannot see of a slow fall.
use megaraid_dashboard.Prelude.{◌≡◌, refl, Option, some, [], ◌++◌, arith}
use megaraid_dashboard.Prelude.Int.{ℤ, ◌≤ℤ◌, ◌<ℤ◌, ◌-ℤ◌, -ℤ_parts}
use megaraid_dashboard.Services.EventDetector.Thresholds.{Thresholds, IsConfigured}
use megaraid_dashboard.Services.EventDetector.Roc.{roc_next, detect_roc_temperature}

-- With checked thresholds a sample equal to the one before it reports nothing.
pub detect_roc_temperature-quiet :
    (c : Thresholds) → IsConfigured c → (r : Option ℤ) → detect_roc_temperature c r r ≡ []
unfolding detect_roc_temperature roc_next
detect_roc_temperature-quiet c v Option.none = refl
detect_roc_temperature-quiet c v (some t) = ground (
  arith,
  -ℤ_parts c.roc_temp_warning c.roc_temp_hysteresis,
  -ℤ_parts c.roc_temp_critical c.roc_temp_hysteresis,
)

-- With checked thresholds, a controller between its two thresholds that first falls into the
-- hysteresis band (below the warning threshold, above the threshold less the hysteresis) and in the
-- next cycle to the clear boundary or below it gets no recovery event in either cycle.
pub slow_clear_missed :
    (c : Thresholds)
    → IsConfigured c
    → (high middle low : ℤ) → c.roc_temp_warning ≤ℤ high
    → high <ℤ c.roc_temp_critical
    → c.roc_temp_warning -ℤ c.roc_temp_hysteresis <ℤ middle
    → middle <ℤ c.roc_temp_warning
    → low ≤ℤ (c.roc_temp_warning -ℤ c.roc_temp_hysteresis)
    → detect_roc_temperature c (some high) (some middle)
        ++ detect_roc_temperature c (some middle) (some low)
      ≡ []
unfolding detect_roc_temperature roc_next
slow_clear_missed c v high middle low h1 h2 h3 h4 h5 = ground (
  arith,
  -ℤ_parts c.roc_temp_warning c.roc_temp_hysteresis,
  -ℤ_parts c.roc_temp_critical c.roc_temp_hysteresis,
)
