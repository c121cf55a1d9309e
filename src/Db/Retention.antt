-- ===== src/Db/Retention.antt =====
-- src/megaraid_dashboard/db/retention.py: hourly and daily metrics, and what is deleted. Times are
-- seconds from 1970 in UTC. An average is stored as its total and its count.
pub mod Grouping
pub mod Pruned
pub mod Daily
use megaraid_dashboard.Prelude.{
  ℕ, ◌+◌, ◌-◌, ◌*◌, ◌/◌, max, String, Bool, true, false, not, ◌&&◌, Option, none, some, List, [],
  ◌∷◌, ◌++◌, map, length, keep, leb, ltb, ◌==◌, str_eq, if◌then◌else◌,
}
use megaraid_dashboard.Prelude.Int.{ℤ, pos, leb_ℤ, pos_part, neg_part, sub_ℕ}
use megaraid_dashboard.Storcli.Models.{PhysicalDrive}
use megaraid_dashboard.Services.Telegram.Relevance.{Captured}
use megaraid_dashboard.Db.Retention.Grouping.{group, store_all}

abbrev pub hour_bucket : ℕ → ℕ
hour_bucket t = t / 3600 * 3600

abbrev pub day_bucket : ℕ → ℕ
day_bucket t = t / 86_400 * 86_400

-- The unique key of a row: its bucket and the drive.
pub record BucketKey : Type 0 where
  pub bucket_start : ℕ
  pub enclosure_id : ℕ
  pub slot_id : ℕ
  pub serial_number : String

abbrev pub bucket_key_eq : BucketKey → BucketKey → Bool
bucket_key_eq a b =
    a.bucket_start == b.bucket_start
    && (a.enclosure_id == b.enclosure_id
        && (a.slot_id == b.slot_id && str_eq a.serial_number b.serial_number))

-- `_RawMetricsAccumulator`, without its key.
pub record RawMetrics : Type 0 where
  pub serial_number : String
  pub media_errors_max : ℕ
  pub other_errors_max : ℕ
  pub predictive_failures_max : ℕ
  pub sample_count : ℕ
  pub latest_seen_at : ℕ
  pub temperatures : List ℤ

-- A row of `PhysicalDriveMetricsHourly` or `PhysicalDriveMetricsDaily`, without its key.
pub record Metrics : Type 0 where
  pub serial_number : String
  pub temperature_celsius_min : Option ℤ
  pub temperature_celsius_max : Option ℤ
  pub temperature_total : ℤ
  pub temperature_sample_count : ℕ
  pub media_errors_max : ℕ
  pub other_errors_max : ℕ
  pub predictive_failures_max : ℕ
  pub sample_count : ℕ

abbrev pub Table : Type 0
Table = List (BucketKey × Metrics)

-- A row of the join of the drives and their snapshots.
abbrev pub RawRow : Type 0
RawRow = ℕ × PhysicalDrive

abbrev pub raw_key : RawRow → BucketKey
raw_key (captured_at, d) = record {
  bucket_start = hour_bucket captured_at;
  enclosure_id = d.enclosure_id;
  slot_id = d.slot_id;
  serial_number = d.serial_number;
}

abbrev pub new_raw : BucketKey → RawMetrics
new_raw k = record {
  serial_number = k.serial_number;
  media_errors_max = 0;
  other_errors_max = 0;
  predictive_failures_max = 0;
  sample_count = 0;
  latest_seen_at = 0;
  temperatures = [];
}

abbrev pub and_reading : List ℤ → Option ℤ → List ℤ
and_reading ts none = ts
and_reading ts (some t) = ts ++ t ∷ []

unfoldable pub add_raw : RawRow → RawMetrics → RawMetrics
add_raw (captured_at, d) a =
    let is_latest = leb a.latest_seen_at captured_at in
    record {
      serial_number = if is_latest then d.serial_number else a.serial_number;
      media_errors_max = max a.media_errors_max d.media_errors;
      other_errors_max = max a.other_errors_max d.other_errors;
      predictive_failures_max = max a.predictive_failures_max d.predictive_failures;
      sample_count = a.sample_count + 1;
      latest_seen_at = if is_latest then captured_at else a.latest_seen_at;
      temperatures = and_reading a.temperatures d.temperature_celsius;
    }

abbrev lesser : ℤ → Option ℤ → Option ℤ
lesser t none = some t
lesser t (some u) = if leb_ℤ t u then some t else some u

abbrev greater : ℤ → Option ℤ → Option ℤ
greater t none = some t
greater t (some u) = if leb_ℤ u t then some t else some u

unfoldable pub minimum : List ℤ → Option ℤ
minimum [] = none
minimum (t ∷ ts) = lesser t (minimum ts)

unfoldable pub maximum : List ℤ → Option ℤ
maximum [] = none
maximum (t ∷ ts) = greater t (maximum ts)

abbrev pub plus : ℤ → ℤ → ℤ
plus a b = sub_ℕ (pos_part a + pos_part b) (neg_part a + neg_part b)

unfoldable pub total : List ℤ → ℤ
total [] = pos 0
total (t ∷ ts) = plus t (total ts)

-- The values that `_upsert_hourly` writes, in a new row and in an old one.
unfoldable pub hourly_metrics : RawMetrics → Metrics
hourly_metrics a = record {
  serial_number = a.serial_number;
  temperature_celsius_min = minimum a.temperatures;
  temperature_celsius_max = maximum a.temperatures;
  temperature_total = total a.temperatures;
  temperature_sample_count = length a.temperatures;
  media_errors_max = a.media_errors_max;
  other_errors_max = a.other_errors_max;
  predictive_failures_max = a.predictive_failures_max;
  sample_count = a.sample_count;
}

abbrev pub rows_of : Captured → List RawRow
rows_of s = map (λ (d : PhysicalDrive). (s.captured_at, d)) s.row.physical_drives

-- The query: the drives of the snapshots before the end of the window.
unfoldable pub raw_rows : ℕ → List Captured → List RawRow
raw_rows window_end [] = []
raw_rows window_end (s ∷ ss) =
    let rest = raw_rows window_end ss in
    if ltb s.captured_at window_end then rows_of s ++ rest else rest

-- The start of time is never reached: the retention is shorter than the time since 1970.
abbrev pub raw_window_end : ℕ → ℕ → ℕ
raw_window_end now retention_days = hour_bucket (now - retention_days * 86_400)

-- The new table, and the number of buckets.
unfoldable pub downsample_to_hourly : ℕ → ℕ → List Captured → Table → Table × ℕ
downsample_to_hourly now retention_days snapshots table =
    let buckets =
      group bucket_key_eq raw_key new_raw add_raw
        (raw_rows (raw_window_end now retention_days) snapshots) [] in
    (store_all bucket_key_eq hourly_metrics buckets table, length buckets)

abbrev pub is_expired : ℕ → Captured → Bool
is_expired cutoff s = ltb s.captured_at cutoff

-- The snapshots that stay, and the number of those that are deleted with their drives.
unfoldable pub prune_raw_snapshots : ℕ → ℕ → List Captured → List Captured × ℕ
prune_raw_snapshots now retention_days snapshots =
    let cutoff = raw_window_end now retention_days in
    (
      keep (λ (s : Captured). not (is_expired cutoff s)) snapshots,
      length (keep (is_expired cutoff) snapshots),
    )
