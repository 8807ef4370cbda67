-- ===== src/Runs/Impaired.antt =====
-- An impairment of 40 ms and jitter, with two datagrams held back.
use sync_bluetooth_devices.Common.{ℕ, ◌+◌, ◌%◌, ◌≡◌, true, false, [], ◌∷◌, min, All, arith}
use sync_bluetooth_devices.Common.Int.{pos, leb_ℤ}
use sync_bluetooth_devices.Impairment.{NetworkImpairment, Random, drain, submit}
use sync_bluetooth_devices.Impairment.Delivery.{InOrder, count, drain-IsOrdered}
use sync_bluetooth_devices.Impairment.Draws.{IsWithin, Added, submit-IsCopy}
use sync_bluetooth_devices.Runs.Buffers.{naturals}

-- A generator that counts.
abbrev counting : Random ℕ
counting = record {
  Generator = ℕ;
  seeded = λ seed. seed;
  real_below_hundred = λ g. (g % 100, g + 1);
  int_up_to = λ m g. (min m g, g + 1);
}

abbrev holding : NetworkImpairment ℕ ℕ
holding = record {
  config = record {
    packet_loss_percent = 10;
    base_delay_ms = 40;
    jitter_ms = 8;
    duplicate_percent = 50;
    reorder_percent = 20;
    blackout_duration_ms = 0;
    seed = 1;
  };
  random = 30;
  pending =
      record { delivery_time = pos 70; bytes = 1 ∷ []; sequence = 0 }
      ∷ record { delivery_time = pos 60; bytes = 2 ∷ []; sequence = 1 }
      ∷ [];
  next_sequence = 2;
  started = true;
  start_time = pos 0;
}

drain-IsOrdered_example :
    InOrder (drain naturals counting holding (pos 80)).0
    × All (λ d. leb_ℤ d.delivery_time (pos 80) ≡ true) (drain naturals counting holding (pos 80)).0
    × All
        (λ d. leb_ℤ d.delivery_time (pos 80) ≡ false)
        (drain naturals counting holding (pos 80)).1.pending
    × (count (λ d. true) (drain naturals counting holding (pos 80)).0
          + count (λ d. true) (drain naturals counting holding (pos 80)).1.pending
        ≡ count (λ d. true) holding.pending)
drain-IsOrdered_example = drain-IsOrdered naturals counting holding (pos 80) (λ d. true)

holding-IsWithin : IsWithin naturals counting holding
holding-IsWithin = record { draws = λ m g. omega arith; base = omega arith; jitter = omega arith }

submit-IsCopy_example :
    Added naturals counting holding
      (submit naturals counting holding (7 ∷ []) (pos 90))
      (7 ∷ [])
      (pos 90)
      2
submit-IsCopy_example = submit-IsCopy naturals counting holding (7 ∷ []) (pos 90) holding-IsWithin
