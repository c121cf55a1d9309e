-- ===== src/Db/Retention/Pruned.antt =====
-- What is left of a deleted snapshot: the hourly rows of its drives.
use mathlib.Core.List.{Memᴰ}
use megaraid_dashboard.Prelude.{
  ℕ, ◌+◌, ◌≤◌, ◌≡◌, ◌↔◌, refl, sym, subst, ap, ◌∙◌, inl, inr, Bool, true, none, some, List, [], ◌∷◌,
  ◌++◌, map, arith, length, keep, ltb, All, Bool-cases, str_eq_iff,
}
use megaraid_dashboard.Prelude.Dict.{get}
use megaraid_dashboard.Storcli.Models.{PhysicalDrive}
use megaraid_dashboard.Services.Telegram.Relevance.{Captured}
use megaraid_dashboard.Db.Retention.{
  BucketKey, bucket_key_eq, RawMetrics, Metrics, Table, RawRow, raw_key, new_raw, add_raw,
  hourly_metrics, rows_of, raw_rows, raw_window_end, downsample_to_hourly, is_expired,
  prune_raw_snapshots,
}
use megaraid_dashboard.Db.Retention.Grouping.{
  gather, get-group, get-store_all, group-HasDistinctKeys,
}

bucket_key_eq_iff : (a b : BucketKey) → (bucket_key_eq a b ≡ true) ↔ (a ≡ b)
bucket_key_eq_iff a b = ground (arith, str_eq_iff a.serial_number b.serial_number)

abbrev IsBounded : RawMetrics → RawRow → Type 0
IsBounded a r =
    (r.1.media_errors ≤ a.media_errors_max)
    × (r.1.other_errors ≤ a.other_errors_max)
    × (r.1.predictive_failures ≤ a.predictive_failures_max)

-- From one accumulator to a later one, the rows between are counted and bounded.
record Covers (rs : List RawRow) (a a' : RawMetrics) : Type 0 where
  counted : a'.sample_count ≡ a.sample_count + length rs
  media_kept : a.media_errors_max ≤ a'.media_errors_max
  other_kept : a.other_errors_max ≤ a'.other_errors_max
  predictive_kept : a.predictive_failures_max ≤ a'.predictive_failures_max
  bounds : All (IsBounded a') rs

gather-Covers :
    (j : BucketKey) (rs : List RawRow) (a : RawMetrics)
    → (a' : RawMetrics) × (gather new_raw add_raw j rs (some a) ≡ some a') × Covers rs a a'
unfolding gather add_raw
gather-Covers j [] a = (
  a,
  refl,
  record {
    counted = omega arith;
    media_kept = omega arith;
    other_kept = omega arith;
    predictive_kept = omega arith;
    bounds = tt;
  },
)
gather-Covers j (r ∷ rs) a =
    let (a', e, c) = gather-Covers j rs (add_raw r a) in
    (
      a',
      e,
      record {
        counted = omega (arith, c.counted);
        media_kept = omega (arith, c.media_kept);
        other_kept = omega (arith, c.other_kept);
        predictive_kept = omega (arith, c.predictive_kept);
        bounds = (
          (
            omega (arith, c.media_kept),
            omega (arith, c.other_kept),
            omega (arith, c.predictive_kept),
          ),
          c.bounds,
        );
      },
    )

Mem-keep :
    {A : Type 0} (p : A → Bool) (x : A) (xs : List A) → Memᴰ x xs → p x ≡ true → Memᴰ x (keep p xs)
Mem-keep p x [] m h = elim m [ ]
Mem-keep p x (y ∷ ys) (Memᴰ.head e) h =
    let hit : p y ≡ true = subst (λ z. p z ≡ true) e h in rw hit (Memᴰ.head e)
Mem-keep p x (y ∷ ys) (Memᴰ.tail m) h = elim (Bool-cases (p y)) [
  | inl hit ↦ rw hit (Memᴰ.tail (Mem-keep p x ys m h))
  | inr miss ↦ rw miss (Mem-keep p x ys m h)
]

Mem-All : {A : Type 0} (P : A → Type 0) (x : A) (xs : List A) → Memᴰ x xs → All P xs → P x
Mem-All P x [] m h = elim m [ ]
Mem-All P x (y ∷ ys) (Memᴰ.head e) h = subst P (sym e) h.0
Mem-All P x (y ∷ ys) (Memᴰ.tail m) h = Mem-All P x ys m h.1

-- What a row of the table says of a raw row and of the rows that share its key.
pub record Summarises (m : Metrics) (r : RawRow) (same_key : List RawRow) : Type 0 where
  pub counted : m.sample_count ≡ length same_key
  pub media : r.1.media_errors ≤ m.media_errors_max
  pub other : r.1.other_errors ≤ m.other_errors_max
  pub predictive : r.1.predictive_failures ≤ m.predictive_failures_max

summary_of :
    (r : RawRow) (rs : List RawRow)
    → Memᴰ r rs
    → (a : RawMetrics) × (gather new_raw add_raw (raw_key r) rs none ≡ some a)
      × Summarises (hourly_metrics a) r rs
unfolding gather hourly_metrics add_raw
summary_of r [] m = elim m [ ]
summary_of r (q ∷ rs) m =
    let (a, e, c) = gather-Covers (raw_key r) rs (add_raw q (new_raw (raw_key r))) in
    let (media, other, predictive) = Mem-All (IsBounded a) r (q ∷ rs) m (
      (omega (arith, c.media_kept), omega (arith, c.other_kept), omega (arith, c.predictive_kept)),
      c.bounds,
    ) in
    (
      a,
      e,
      record {
        counted = omega (arith, c.counted);
        media = media;
        other = other;
        predictive = predictive;
      },
    )

Mem-append_left : {A : Type 0} (x : A) (xs ys : List A) → Memᴰ x xs → Memᴰ x (xs ++ ys)
Mem-append_left x [] ys m = elim m [ ]
Mem-append_left x (z ∷ xs) ys (Memᴰ.head e) = Memᴰ.head e
Mem-append_left x (z ∷ xs) ys (Memᴰ.tail m) = Memᴰ.tail (Mem-append_left x xs ys m)

Mem-append_right : {A : Type 0} (x : A) (xs ys : List A) → Memᴰ x ys → Memᴰ x (xs ++ ys)
Mem-append_right x [] ys m = m
Mem-append_right x (z ∷ xs) ys m = Memᴰ.tail (Mem-append_right x xs ys m)

Mem-map : {A B : Type 0} (f : A → B) (x : A) (xs : List A) → Memᴰ x xs → Memᴰ (f x) (map f xs)
Mem-map f x [] m = elim m [ ]
Mem-map f x (y ∷ xs) (Memᴰ.head e) = Memᴰ.head (ap f e)
Mem-map f x (y ∷ xs) (Memᴰ.tail m) = Memᴰ.tail (Mem-map f x xs m)

Mem-raw_rows :
    (window_end : ℕ) (s : Captured) (d : PhysicalDrive) (ss : List Captured)
    → Memᴰ s ss
    → Memᴰ d s.row.physical_drives
    → ltb s.captured_at window_end ≡ true
    → Memᴰ (s.captured_at, d) (raw_rows window_end ss)
unfolding raw_rows
Mem-raw_rows w s d [] m k h = elim m [ ]
Mem-raw_rows w s d (t ∷ ss) (Memᴰ.head e) k h =
    let early : ltb t.captured_at w ≡ true =
      subst (λ (u : Captured). ltb u.captured_at w ≡ true) e h in
    let here : Memᴰ (s.captured_at, d) (rows_of t) =
      subst (λ (u : Captured). Memᴰ (s.captured_at, d) (rows_of u)) e
        (Mem-map (λ (x : PhysicalDrive). (s.captured_at, x)) d s.row.physical_drives k) in
    rw early (Mem-append_left _ (rows_of t) _ here)
Mem-raw_rows w s d (t ∷ ss) (Memᴰ.tail m) k h = elim (Bool-cases (ltb t.captured_at w)) [
  | inl early ↦ rw early (Mem-append_right _ (rows_of t) _ (Mem-raw_rows w s d ss m k h))
  | inr late ↦ rw late (Mem-raw_rows w s d ss m k h)
]

-- Downsampling and then pruning with the same time and retention loses no error of a drive: for
-- every drive of a snapshot that the pruning does not keep, the hourly table has the row of its
-- hour, slot and serial number, which counts all the samples of the window with that key, and whose
-- three error counters are at least those of the drive.
pub pruned_is_summarised :
    (now retention_days : ℕ) (snapshots : List Captured) (table : Table) (s : Captured)
    (d : PhysicalDrive)
    → Memᴰ s snapshots
    → Memᴰ d s.row.physical_drives
    → ¬ Memᴰ s (prune_raw_snapshots now retention_days snapshots).0
    → (m : Metrics) × (get bucket_key_eq
          (raw_key (s.captured_at, d))
          (downsample_to_hourly now retention_days snapshots table).0
        ≡ some m)
      × Summarises m
          (s.captured_at, d)
          (keep
            (λ (r : RawRow). bucket_key_eq (raw_key r) (raw_key (s.captured_at, d)))
            (raw_rows (raw_window_end now retention_days) snapshots))
unfolding prune_raw_snapshots downsample_to_hourly
pruned_is_summarised now days snapshots table s d m k gone =
    elim (Bool-cases (is_expired (raw_window_end now days) s)) [
      | inr stays ↦ absurd (gone (Mem-keep _ s snapshots m (rw stays refl)))
      | inl old ↦
          let j = raw_key (s.captured_at, d) in
          let rows = raw_rows (raw_window_end now days) snapshots in
          let mine = keep (λ (r : RawRow). bucket_key_eq (raw_key r) j) rows in
          let (a, e, sum) =
            summary_of (s.captured_at, d) mine
              (Mem-keep _ (s.captured_at, d) rows (Mem-raw_rows _ s d snapshots m k old)
                ((bucket_key_eq_iff j j).1 refl)) in
          let found =
            get-group bucket_key_eq bucket_key_eq_iff raw_key new_raw add_raw j rows [] ∙ e in
          (
            hourly_metrics a,
            get-store_all bucket_key_eq bucket_key_eq_iff hourly_metrics j _ table (
                  group-HasDistinctKeys bucket_key_eq bucket_key_eq_iff raw_key new_raw add_raw rows
                    [] tt)
                ∙ rw found refl,
            sum,
          )
    ]
