-- ===== src/Services/EventDetector/Thresholds.antt =====
-- The configured thresholds of `EventDetector`, and the checks of config.py on them.
use megaraid_dashboard.Prelude.{ℕ}
use megaraid_dashboard.Prelude.Int.{ℤ, pos, ◌≤ℤ◌, ◌<ℤ◌}

pub record Thresholds : Type 0 where
  pub temp_warning : ℤ
  pub temp_critical : ℤ
  pub temp_hysteresis : ℤ
  pub roc_temp_warning : ℤ
  pub roc_temp_critical : ℤ
  pub roc_temp_hysteresis : ℤ
  pub cv_capacitance_warning_percent : ℕ

-- The part of `Settings.validate_runtime_values` that concerns the detector.
pub record IsConfigured (c : Thresholds) : Type 0 where
  pub critical_above : c.temp_warning <ℤ c.temp_critical
  pub hysteresis_positive : pos 1 ≤ℤ c.temp_hysteresis
  pub hysteresis_below : c.temp_hysteresis <ℤ c.temp_warning
  pub roc_critical_above : c.roc_temp_warning <ℤ c.roc_temp_critical
  pub roc_hysteresis_positive : pos 1 ≤ℤ c.roc_temp_hysteresis
  pub roc_hysteresis_below : c.roc_temp_hysteresis <ℤ c.roc_temp_warning
