-- ===== src/Transport/Selection.antt =====
-- Which sample `measure` of desktop/src/ClockSyncTransport.cpp returns.
use sync_bluetooth_devices.Common.{
  ◌+◌, ◌/◌, ◌%◌, ◌^◌, ◌<◌, ◌≤◌, ◌≡◌, refl, ap, false, List, [], ◌∷◌, length, take, drop, get_or,
  min, ok, All, Bool, arith, ◌∙◌,
}
use sync_bluetooth_devices.Common.Int.{◌≤ℤ◌, ltb_ℤ}
use sync_bluetooth_devices.Sync.{ClockSyncEstimate}
use sync_bluetooth_devices.Transport.{
  Sort, IsOrdered, count, by_round_trip, by_offset, pick, select_sample,
}
use sync_bluetooth_devices.Transport.Rank.{
  Any, All-map, All-Any, All-get_or, length-take, count_parts, drop_behind_take, count_less,
  count_greater,
}

-- What a measurement promises of its samples: their number; the smallest of the round trips; and,
-- for three samples of the lowest round trips (all of them, if there are fewer), the offset and the
-- time of one of these, whose offset is their median, the greater one of two.
pub record IsMeasured (samples : List ClockSyncEstimate) (e : ClockSyncEstimate) : Type 0 where
  pub count_is : e.samples ≡ length samples % 2 ^ 32
  pub least : All (λ s. e.round_trip_time ≤ℤ s.round_trip_time) samples
  pub attained : Any (λ s. e.round_trip_time ≡ s.round_trip_time) samples
  pub lowest : List ClockSyncEstimate
  pub others : List ClockSyncEstimate
  pub parted :
      (test : ClockSyncEstimate → Bool) → count test lowest + count test others ≡ count test samples
  pub size : length lowest ≡ min 3 (length samples)
  pub lower : All (λ a. All (λ b. a.round_trip_time ≤ℤ b.round_trip_time) others) lowest
  pub chosen :
      Any
        (λ s.
          (e.host_minus_client_offset ≡ s.host_minus_client_offset)
          × (e.client_sample_timestamp_nanoseconds ≡ s.client_sample_timestamp_nanoseconds))
        lowest
  pub above :
      count (λ s. ltb_ℤ s.host_minus_client_offset e.host_minus_client_offset) lowest
      ≤ length lowest / 2
  pub below :
      count (λ s. ltb_ℤ e.host_minus_client_offset s.host_minus_client_offset) lowest
        + length lowest / 2
        + 1
      ≤ length lowest

not_after :
    (x : ClockSyncEstimate) (xs : List ClockSyncEstimate)
    → All (λ y. by_round_trip y x ≡ false) xs
    → All (λ s. x.round_trip_time ≤ℤ s.round_trip_time) xs
not_after x xs = All-map _ _ xs (λ y e. ground arith)

module _ (S : Sort) where
  open S use {sort, length-sort, All-sort, count-sort, IsOrdered-sort}

  sorted_offsets : (xs : List ClockSyncEstimate) → IsOrdered by_offset (sort by_offset xs)
  sorted_offsets xs =
      IsOrdered-sort by_offset xs (λ a b h. ground arith) (λ a b c h k. ground arith)

  pick-IsMeasured :
      (samples sorted : List ClockSyncEstimate)
      → length sorted ≡ length samples
      → 1 ≤ length samples
      → IsOrdered by_round_trip sorted
      → ((test : ClockSyncEstimate → Bool) → count test sorted ≡ count test samples)
      → ((P : ClockSyncEstimate → Type 0) → All P samples → All P sorted)
      → ((P : ClockSyncEstimate → Type 0) → All P sorted → All P samples)
      → (e : ClockSyncEstimate) × (pick S sorted ≡ ok e) × IsMeasured samples e
  unfolding pick
  pick-IsMeasured samples [] len some_sample o same there back = absurd (omega arith)
  pick-IsMeasured samples (x ∷ xs) len some_sample o same there back =
      let n = min 3 (length (x ∷ xs)) in
      let lowest = take n (x ∷ xs) in
      let m = sort by_offset lowest in
      let size : length lowest ≡ n = length-take n (x ∷ xs) ∙ omega arith in
      let sizes : length m ≡ length lowest = length-sort by_offset lowest in
      let inside : n / 2 < length m = omega (arith, size, sizes) in
      let o' = sorted_offsets lowest in
      let c = get_or m (n / 2) x in
      let among =
        there (λ s. Any (λ t. s.round_trip_time ≡ t.round_trip_time) samples)
          (All-Any (λ s t. s.round_trip_time ≡ t.round_trip_time) samples (λ s. refl)) in
      let like = λ (s t : ClockSyncEstimate).
        (s.host_minus_client_offset ≡ t.host_minus_client_offset)
        × (s.client_sample_timestamp_nanoseconds ≡ t.client_sample_timestamp_nanoseconds) in
      let fewer = count_less by_offset (λ a. ground arith) m (n / 2) x inside o' in
      let more = count_greater by_offset (λ a. ground arith) m (n / 2) x inside o' in
      (
        _,
        refl,
        record {
          count_is = ap (λ k. k % 2 ^ 32) len;
          least = back _ (omega arith, not_after x xs o.0);
          attained = among.0;
          lowest = lowest;
          others = drop n (x ∷ xs);
          parted = λ test. count_parts test n (x ∷ xs) ∙ same test;
          size = omega (arith, size, len);
          lower =
              All-map _ _ lowest (λ a h. All-map _ _ (drop n (x ∷ xs)) (λ b e. ground arith) h)
                (drop_behind_take by_round_trip (λ a. ground arith) n (x ∷ xs) o);
          chosen =
              All-get_or (λ s. Any (like s) lowest) m (n / 2) x inside
                ((All-sort by_offset (λ s. Any (like s) lowest) lowest).0
                  (All-Any like lowest (λ s. (refl, refl))));
          above = omega (arith, fewer, size, count-sort by_offset (λ s. by_offset s c) lowest);
          below =
              omega (arith, more, size, sizes, count-sort by_offset (λ s. by_offset c s) lowest);
        },
      )

  -- From any samples at all, at least one, `measure` returns their number and the smallest round trip
  -- among them; the samples part into three with the lowest round trips (all, if there are fewer)
  -- and the others, and it returns the offset and the time of one of the three, whose offset is their
  -- median: of three, at most one is less and at most one greater; of two, it is the greater one.
  pub select_sample-IsMeasured :
      (s : ClockSyncEstimate) (ss : List ClockSyncEstimate)
      → (e : ClockSyncEstimate) × (select_sample S (s ∷ ss) ≡ ok e) × IsMeasured (s ∷ ss) e
  unfolding select_sample
  select_sample-IsMeasured s ss =
      pick-IsMeasured (s ∷ ss) (sort by_round_trip (s ∷ ss)) (length-sort by_round_trip (s ∷ ss))
        (omega arith)
        (IsOrdered-sort by_round_trip (s ∷ ss) (λ a b h. ground arith) (λ a b c h k. ground arith))
        (λ test. count-sort by_round_trip test (s ∷ ss))
        (λ P. (All-sort by_round_trip P (s ∷ ss)).0) (λ P. (All-sort by_round_trip P (s ∷ ss)).1)
