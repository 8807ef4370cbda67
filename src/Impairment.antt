-- ===== src/Impairment.antt =====
-- desktop/include/NetworkImpairment.hpp and desktop/src/NetworkImpairment.cpp: datagrams held back,
-- dropped and repeated. The generator and the two distributions are the standard library's, and are
-- parameters: a state, and draws that return a value and the next state. Times are counts of
-- milliseconds, as ℤ.
pub mod Delivery
pub mod Draws
use sync_bluetooth_devices.Common.{
  ℕ, zero, suc, ◌+◌, ◌%◌, ◌^◌, Bool, true, false, ◌||◌, ◌&&◌, not, List, [], ◌∷◌, ◌++◌, ltb, leb,
  ◌==◌, if◌then◌else◌, Result, ok, err, ◌>>=◌, ◌>>◌, throw_if,
}
use sync_bluetooth_devices.Common.Int.{ℤ, pos, ◌+ℤ◌, ◌-ℤ◌, ltb_ℤ, leb_ℤ}
use sync_bluetooth_devices.Common.Floats.{Floats}

pub data ImpairmentError : Type 0 where
  bad_percent bad_duration : ImpairmentError

pub record NetworkImpairmentConfig (D : Type 0) : Type 0 where
  pub packet_loss_percent : D
  pub base_delay_ms : ℕ
  pub jitter_ms : ℕ
  pub duplicate_percent : D
  pub reorder_percent : D
  pub blackout_duration_ms : ℕ
  pub seed : ℕ

pub record ImpairedDatagram : Type 0 where
  pub delivery_time : ℤ
  pub bytes : List ℕ
  pub sequence : ℕ

pub record NetworkImpairment (D R : Type 0) : Type 0 where
  pub config : NetworkImpairmentConfig D
  pub random : R
  pub pending : List ImpairedDatagram
  pub next_sequence : ℕ
  pub started : Bool
  pub start_time : ℤ

-- What the code takes from <random>: the seeded generator, a draw from 0 to 100 and a draw from 0 to
-- a number, both included.
pub record Random (D : Type 0) : Type 1 where
  pub Generator : Type 0
  pub seeded : ℕ → Generator
  pub real_below_hundred : Generator → D × Generator
  pub int_up_to : ℕ → Generator → ℕ × Generator

-- The comparison of `drain`.
abbrev pub is_before : ImpairedDatagram → ImpairedDatagram → Bool
is_before left right =
    if leb_ℤ left.delivery_time right.delivery_time && leb_ℤ right.delivery_time left.delivery_time
    then ltb left.sequence right.sequence
    else ltb_ℤ left.delivery_time right.delivery_time

-- `std::stable_sort`
unfoldable pub insert_sorted : ImpairedDatagram → List ImpairedDatagram → List ImpairedDatagram
insert_sorted d [] = d ∷ []
insert_sorted d (x ∷ xs) =
    let rest = insert_sorted d xs in if is_before x d then x ∷ rest else d ∷ x ∷ xs

unfoldable pub stable_sort : List ImpairedDatagram → List ImpairedDatagram
stable_sort [] = []
stable_sort (d ∷ ds) = insert_sorted d (stable_sort ds)

-- The loop of `drain`: the datagrams that are due, and those that stay.
unfoldable pub partition_due :
    ℤ → List ImpairedDatagram → List ImpairedDatagram × List ImpairedDatagram
partition_due now [] = ([], [])
partition_due now (d ∷ ds) =
    let (ready, rest) = partition_due now ds in
    if leb_ℤ d.delivery_time now then (d ∷ ready, rest) else (ready, d ∷ rest)

module _ (F : Floats) (S : Random F.Double) where
  open F use {Double, lit, ltb as fltb, leb as fleb}
  open S use {Generator, seeded, real_below_hundred, int_up_to}

  unfoldable pub check_percent : Double → Result ImpairmentError (Unit {0})
  check_percent value = throw_if (not (fleb (lit 0 1) value && fleb value (lit 100 1))) bad_percent

  unfoldable pub network_impairment :
      NetworkImpairmentConfig Double → Result ImpairmentError (NetworkImpairment Double Generator)
  network_impairment config = do
    check_percent config.packet_loss_percent
    check_percent config.duplicate_percent
    check_percent config.reorder_percent
    throw_if
        (ltb 10_000 config.base_delay_ms
          || ltb 10_000 config.jitter_ms
          || ltb 60_000 config.blackout_duration_ms)
        bad_duration
    ok (record {
      config = config;
      random = seeded config.seed;
      pending = [];
      next_sequence = 0;
      started = false;
      start_time = pos 0;
    })

  unfoldable pub chance : Double → Generator → Bool × Generator
  chance percent g =
      if fleb percent (lit 0 1)
      then (false, g)
      else if fleb (lit 100 1) percent
      then (true, g)
      else (let (value, g') = real_below_hundred g in (fltb value percent, g'))

  -- One turn of the loop over the copies.
  unfoldable pub add_copy :
      NetworkImpairment Double Generator → List ℕ → ℤ → NetworkImpairment Double Generator
  add_copy n datagram now =
      let (jitter, g₁) =
        if n.config.jitter_ms == 0 then (0, n.random) else int_up_to n.config.jitter_ms n.random in
      let (reordered, g₂) = chance n.config.reorder_percent g₁ in
      let extra = if reordered then 30 else 0 in
      record n {
        random = g₂;
        pending =
            n.pending
            ++ record {
              delivery_time = now +ℤ pos ((n.config.base_delay_ms + jitter + extra) % 2 ^ 32);
              bytes = datagram;
              sequence = n.next_sequence;
            }
              ∷ [];
        next_sequence = (n.next_sequence + 1) % 2 ^ 64;
      }

  unfoldable pub add_copies :
      ℕ → NetworkImpairment Double Generator → List ℕ → ℤ → NetworkImpairment Double Generator
  add_copies zero n datagram now = n
  add_copies (suc count) n datagram now = add_copies count (add_copy n datagram now) datagram now

  -- `submit` from the test of the loss on.
  unfoldable pub submit_started :
      NetworkImpairment Double Generator → List ℕ → ℤ → NetworkImpairment Double Generator
  submit_started n datagram now =
      if ltb_ℤ (now -ℤ n.start_time) (pos n.config.blackout_duration_ms)
      then n
      else (let (lost, g₁) = chance n.config.packet_loss_percent n.random in
          let (twice, g₂) = chance n.config.duplicate_percent g₁ in
          if lost
          then record n { random = g₁ }
          else add_copies (if twice then 2 else 1) (record n { random = g₂ }) datagram now)

  unfoldable pub submit :
      NetworkImpairment Double Generator → List ℕ → ℤ → NetworkImpairment Double Generator
  submit n datagram now =
      submit_started (if n.started then n else record n { started = true; start_time = now })
        datagram now

  unfoldable pub drain :
      NetworkImpairment Double Generator
      → ℤ
      → List ImpairedDatagram × NetworkImpairment Double Generator
  drain n now =
      let (ready, rest) = partition_due now n.pending in
      (stable_sort ready, record n { pending = rest })
