-- ===== src/Db/Retention/Daily.antt =====
-- `downsample_to_daily` and `prune_hourly_metrics`.
use megaraid_dashboard.Prelude.{
  ℕ, ◌+◌, ◌-◌, ◌*◌, max, Bool, not, List, [], length, keep, leb, ltb, if◌then◌else◌, String,
}
use megaraid_dashboard.Prelude.Int.{ℤ, pos}
use megaraid_dashboard.Db.Retention.{
  day_bucket, BucketKey, bucket_key_eq, Metrics, Table, and_reading, minimum, maximum, plus,
}
use megaraid_dashboard.Db.Retention.Grouping.{group, store_all}

-- `_HourlyMetricsAccumulator`, without its key; the weighted sum of the averages is the total.
pub record HourlyMetrics : Type 0 where
  pub serial_number : String
  pub media_errors_max : ℕ
  pub other_errors_max : ℕ
  pub predictive_failures_max : ℕ
  pub sample_count : ℕ
  pub temperature_weighted_sum : ℤ
  pub temperature_sample_count : ℕ
  pub latest_seen_at : ℕ
  pub temperature_mins : List ℤ
  pub temperature_maxes : List ℤ

abbrev pub HourlyRow : Type 0
HourlyRow = BucketKey × Metrics

abbrev pub hourly_key : HourlyRow → BucketKey
hourly_key (k, m) = record k { bucket_start = day_bucket k.bucket_start }

abbrev pub new_hourly : BucketKey → HourlyMetrics
new_hourly k = record {
  serial_number = k.serial_number;
  media_errors_max = 0;
  other_errors_max = 0;
  predictive_failures_max = 0;
  sample_count = 0;
  temperature_weighted_sum = pos 0;
  temperature_sample_count = 0;
  latest_seen_at = 0;
  temperature_mins = [];
  temperature_maxes = [];
}

unfoldable pub add_hourly : HourlyRow → HourlyMetrics → HourlyMetrics
add_hourly (k, m) a =
    let is_latest = leb a.latest_seen_at k.bucket_start in
    record {
      serial_number = if is_latest then k.serial_number else a.serial_number;
      media_errors_max = max a.media_errors_max m.media_errors_max;
      other_errors_max = max a.other_errors_max m.other_errors_max;
      predictive_failures_max = max a.predictive_failures_max m.predictive_failures_max;
      sample_count = a.sample_count + m.sample_count;
      temperature_weighted_sum =
          if ltb 0 m.temperature_sample_count
          then plus a.temperature_weighted_sum m.temperature_total
          else a.temperature_weighted_sum;
      temperature_sample_count = a.temperature_sample_count + m.temperature_sample_count;
      latest_seen_at = if is_latest then k.bucket_start else a.latest_seen_at;
      temperature_mins = and_reading a.temperature_mins m.temperature_celsius_min;
      temperature_maxes = and_reading a.temperature_maxes m.temperature_celsius_max;
    }

-- The values that `_upsert_daily` writes.
unfoldable pub daily_metrics : HourlyMetrics → Metrics
daily_metrics a = record {
  serial_number = a.serial_number;
  temperature_celsius_min = minimum a.temperature_mins;
  temperature_celsius_max = maximum a.temperature_maxes;
  temperature_total = a.temperature_weighted_sum;
  temperature_sample_count = a.temperature_sample_count;
  media_errors_max = a.media_errors_max;
  other_errors_max = a.other_errors_max;
  predictive_failures_max = a.predictive_failures_max;
  sample_count = a.sample_count;
}

abbrev pub hourly_window_end : ℕ → ℕ → ℕ
hourly_window_end now retention_days = day_bucket (now - retention_days * 86_400)

abbrev pub is_old : ℕ → HourlyRow → Bool
is_old cutoff r = ltb r.0.bucket_start cutoff

unfoldable pub downsample_to_daily : ℕ → ℕ → Table → Table → Table × ℕ
downsample_to_daily now retention_days hourly daily =
    let buckets =
      group bucket_key_eq hourly_key new_hourly add_hourly
        (keep (is_old (hourly_window_end now retention_days)) hourly) [] in
    (store_all bucket_key_eq daily_metrics buckets daily, length buckets)

unfoldable pub prune_hourly_metrics : ℕ → ℕ → Table → Table × ℕ
prune_hourly_metrics now retention_days hourly =
    let cutoff = hourly_window_end now retention_days in
    (keep (λ (r : HourlyRow). not (is_old cutoff r)) hourly, length (keep (is_old cutoff) hourly))
