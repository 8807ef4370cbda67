-- ===== src/Receiver.antt =====
-- The receiving thread of desktop/src/DesktopAudioClient.cpp, `PacketReceiverWorker`: which packets
-- it takes and what it counts. The set of missing sequence numbers is a list without repetition,
-- an atomic counter its value, and each turn of the loop is one step on what `receive` returned.
pub mod Missing
pub mod Losses
use sync_bluetooth_devices.Common.{
  ℕ, zero, suc, ◌+◌, ◌-◌, ◌%◌, ◌^◌, Bool, true, false, ◌||◌, ◌&&◌, not, List, [], ◌∷◌, Option, none,
  some, ltb, leb, ◌==◌, if◌then◌else◌, Result, ok, err, length,
}
use sync_bluetooth_devices.Common.Int.{ℤ, pos}
use sync_bluetooth_devices.Common.Floats.{Floats}
use sync_bluetooth_devices.Packet.{AudioPacket, deserialize}
use sync_bluetooth_devices.Packet.Words.{PacketError}
use sync_bluetooth_devices.Jitter.{JitterBuffer, push}

pub record SequenceStatistics : Type 0 where
  pub highest_sequence : Option ℕ
  pub missing_sequences : List ℕ
  pub packets_lost : ℕ
  pub out_of_order_packets : ℕ

-- `contains`, `insert` and `erase` of the set, the last with the number of elements it removed.
unfoldable pub contains : ℕ → List ℕ → Bool
contains s [] = false
contains s (x ∷ xs) = (s == x) || contains s xs

unfoldable pub insert : ℕ → List ℕ → List ℕ
insert s xs = if contains s xs then xs else s ∷ xs

unfoldable pub erase : ℕ → List ℕ → List ℕ
erase s [] = []
erase s (x ∷ xs) = let rest = erase s xs in if s == x then xs else x ∷ rest

-- The loop from `missing` on, of `n` turns.
unfoldable pub insert_range : ℕ → ℕ → List ℕ → List ℕ
insert_range missing zero xs = xs
insert_range missing (suc n) xs = insert_range (missing + 1) n (insert missing xs)

unfoldable pub update_sequence_statistics : SequenceStatistics → ℕ → SequenceStatistics
update_sequence_statistics s sequence = elim s.highest_sequence [
  | none ↦ record s { highest_sequence = some sequence }
  | some highest ↦
      if ltb highest sequence
      then (let gap = sequence - highest - 1 in
          record s {
            packets_lost = (s.packets_lost + gap) % 2 ^ 64;
            missing_sequences =
                if leb gap 100_000
                then insert_range (highest + 1) gap s.missing_sequences
                else s.missing_sequences;
            highest_sequence = some sequence;
          })
      else record s {
        out_of_order_packets = (s.out_of_order_packets + 1) % 2 ^ 64;
        missing_sequences = erase sequence s.missing_sequences;
        packets_lost =
            if contains sequence s.missing_sequences
            then (s.packets_lost + 2 ^ 64 - 1) % 2 ^ 64
            else s.packets_lost;
      }
]

-- The statistics at the start of the thread.
unfoldable pub statistics : SequenceStatistics
statistics = record {
  highest_sequence = none;
  missing_sequences = [];
  packets_lost = 0;
  out_of_order_packets = 0;
}

pub record PacketReceiverWorker (D : Type 0) : Type 0 where
  pub jitter_buffer : JitterBuffer D
  pub session_id : Option ℕ
  pub stream_id : Option ℕ
  pub statistics : SequenceStatistics
  pub packets_received : ℕ
  pub last_packet_nanoseconds : ℤ

abbrev expected : ℕ → Option ℕ
expected id = if id == 0 then none else some id

abbrev is_other : Option ℕ → ℕ → Bool
is_other none id = false
is_other (some x) id = not (id == x)

module _ (F : Floats) where
  open F use {Double}

  unfoldable pub packet_receiver_worker : JitterBuffer Double → ℕ → ℕ → PacketReceiverWorker Double
  packet_receiver_worker buffer expected_session_id expected_stream_id = record {
    jitter_buffer = buffer;
    session_id = expected expected_session_id;
    stream_id = expected expected_stream_id;
    statistics = statistics;
    packets_received = 0;
    last_packet_nanoseconds = pos 0;
  }

  -- The loop's body from the statistics on.
  unfoldable pub take_packet :
      PacketReceiverWorker Double → AudioPacket → ℤ → ℤ → PacketReceiverWorker Double
  take_packet w packet arrival now =
      let counted = record w {
        statistics = update_sequence_statistics w.statistics packet.sequence_number;
      } in
      let (buffer, pushed) = push F w.jitter_buffer packet arrival in
      elim pushed [
        | err e ↦ record counted { jitter_buffer = buffer }
        | ok false ↦ record counted { jitter_buffer = buffer }
        | ok true ↦ record counted {
          jitter_buffer = buffer;
          packets_received = (w.packets_received + 1) % 2 ^ 64;
          last_packet_nanoseconds = now;
        }
      ]

  -- The loop's body from the session's test on.
  unfoldable pub select_packet :
      PacketReceiverWorker Double → AudioPacket → ℤ → ℤ → PacketReceiverWorker Double
  select_packet w packet arrival now = elim w.session_id [
    | none ↦
        take_packet
          (record w { session_id = some packet.session_id; stream_id = some packet.stream_id })
          packet arrival now
    | some session ↦
        if not (packet.session_id == session) || is_other w.stream_id packet.stream_id
        then w
        else take_packet w packet arrival now
  ]

  -- One turn: the datagram, if one arrived in time, and the two clock readings it may take.
  unfoldable pub receive_one :
      PacketReceiverWorker Double → Option (List ℕ) → ℤ → ℤ → PacketReceiverWorker Double
  receive_one w none arrival now = w
  receive_one w (some datagram) arrival now = elim (deserialize datagram) [
    | err e ↦ w
    | ok packet ↦ select_packet w packet arrival now
  ]
