-- ===== src/Tests/Retention.antt =====
-- Runs of db/retention.py.
use mathlib.Core.List.{Memᴰ}
use megaraid_dashboard.Prelude.{
  ℕ, ◌≡◌, refl, false, none, some, List, [], ◌∷◌, keep, ap, subst, arith,
}
use megaraid_dashboard.Prelude.Int.{pos}
use megaraid_dashboard.Prelude.Dict.{get}
use megaraid_dashboard.Storcli.Models.{PhysicalDrive}
use megaraid_dashboard.Services.Telegram.Relevance.{Captured}
use megaraid_dashboard.Db.Retention.{
  bucket_key_eq, Metrics, RawRow, raw_key, raw_rows, raw_window_end, downsample_to_hourly,
  prune_raw_snapshots,
}
use megaraid_dashboard.Db.Retention.Pruned.{Summarises, pruned_is_summarised}

abbrev worn : ℕ → PhysicalDrive
worn media_errors = record {
  enclosure_id = 252;
  slot_id = 3;
  serial_number = "S3";
  state = "Onln";
  temperature_celsius = some (pos 41);
  media_errors = media_errors;
  other_errors = 1;
  predictive_failures = 0;
  smart_alert = false;
}

abbrev taken : ℕ → ℕ → Captured
taken captured_at media_errors = record {
  id = captured_at;
  captured_at = captured_at;
  row = record {
    alarm_state = "On";
    cv_present = false;
    roc_temperature_celsius = none;
    virtual_drives = [];
    physical_drives = worn media_errors ∷ [];
    cachevault = none;
  };
}

-- Two samples of one hour, and a recent one; the retention is a day.
abbrev history : List Captured
history = taken 7200 4 ∷ taken 7300 9 ∷ taken 200_000 9 ∷ []

recent_kept : (prune_raw_snapshots 200_100 1 history).0 ≡ taken 200_000 9 ∷ []
unfolding prune_raw_snapshots
recent_kept = refl

recent_time : (s : Captured) → Memᴰ s (taken 200_000 9 ∷ []) → s.captured_at ≡ 200_000
recent_time s (Memᴰ.head e) = ap (λ (t : Captured). t.captured_at) e
recent_time s (Memᴰ.tail m) = elim m [ ]

first_pruned : ¬ Memᴰ (taken 7200 4) (prune_raw_snapshots 200_100 1 history).0
first_pruned m =
    let late = recent_time (taken 7200 4) (subst (Memᴰ (taken 7200 4)) recent_kept m) in
    absurd (omega (arith, late))

pruned_is_summarised_example :
    (m : Metrics) × (get bucket_key_eq
        (raw_key (7200, worn 4))
        (downsample_to_hourly 200_100 1 history []).0
      ≡ some m)
    × Summarises m
        (7200, worn 4)
        (keep
          (λ (r : RawRow). bucket_key_eq (raw_key r) (raw_key (7200, worn 4)))
          (raw_rows (raw_window_end 200_100 1) history))
pruned_is_summarised_example =
    pruned_is_summarised 200_100 1 history [] (taken 7200 4) (worn 4) (Memᴰ.head refl)
      (Memᴰ.head refl) first_pruned
