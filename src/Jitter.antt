-- ===== src/Jitter.antt =====
-- core/include/JitterBuffer.hpp and core/src/JitterBuffer.cpp: received packets in frame order.
-- The map is the list of its packets in the order of their keys, which are their start frames. A
-- 16-bit sample is its bit pattern. The clock reading of `push` and the outcome of `try_to_lock` are
-- arguments; each call, under its lock, is one step. A call returns the state it leaves, also where
-- it throws.
pub mod Store
pub mod Read
pub mod Push
pub mod Invariant
pub mod Overlay
pub mod Copy
use sync_bluetooth_devices.Common.{
  ℕ, zero, suc, ◌+◌, ◌-◌, ◌*◌, ◌/◌, ◌%◌, ◌^◌, Bool, true, false, ◌||◌, ◌&&◌, not, List, [], ◌∷◌,
  Option, none, some, ltb, leb, ◌==◌, if◌then◌else◌, min, max, length, replicate, Result, ok, err,
}
use sync_bluetooth_devices.Common.Int.{ℤ, pos, ◌-ℤ◌}
use sync_bluetooth_devices.Common.Floats.{Floats, fmin, fmax, clamp}
use sync_bluetooth_devices.Packet.{AudioPacket, pcm_s16_little_endian}
use Store.{BufferedPacket, decode_pcm, end_frame, prune, try_emplace, contains}
use Copy.{copy_packets}

-- One constructor for each message of `std::invalid_argument`.
pub data JitterError : Type 0 where
  bad_format bad_size format_changed unaligned_output : JitterError

pub record BufferedPacketTiming : Type 0 where
  pub start_frame : ℕ
  pub presentation_timestamp_nanoseconds : ℕ

pub record JitterBufferFormat : Type 0 where
  pub sample_rate : ℕ
  pub channel_count : ℕ

pub record JitterBufferMetrics (D : Type 0) : Type 0 where
  pub network_jitter_milliseconds : D
  pub target_buffer_milliseconds : D
  pub actual_buffer_milliseconds : D
  pub late_packets : ℕ
  pub duplicate_packets : ℕ
  pub overflow_packets : ℕ

pub record JitterBuffer (D : Type 0) : Type 0 where
  pub packets : List BufferedPacket
  pub format : Option JitterBufferFormat
  pub latest_end_frame : ℕ
  pub latest_end_frame_atomic : ℕ
  pub latest_read_frame : ℕ
  pub last_presentation_nanoseconds : ℕ
  pub last_arrival : ℤ
  pub metrics : JitterBufferMetrics D

abbrev pub capacity : ℕ
capacity = 1024

-- The packet as it is stored.
abbrev pub buffered_packet : AudioPacket → BufferedPacket
buffered_packet packet = record {
  start_frame = packet.start_frame;
  presentation_timestamp_nanoseconds = packet.presentation_timestamp_nanoseconds;
  frame_count = packet.frame_count;
  samples = decode_pcm packet.pcm_payload;
}

-- The checks that `push` makes before it takes the lock.
abbrev pub is_bad_format : AudioPacket → Bool
is_bad_format packet =
    not (packet.sample_format == pcm_s16_little_endian)
    || ltb packet.sample_rate 8000
    || ltb 192000 packet.sample_rate
    || packet.channel_count == 0
    || ltb 2 packet.channel_count
    || packet.frame_count == 0
    || ltb (2 ^ 64 - 1 - packet.frame_count) packet.start_frame

-- `format_ && *format_ != incoming`
abbrev pub is_other_format : Option JitterBufferFormat → JitterBufferFormat → Bool
is_other_format none incoming = false
is_other_format (some f) incoming =
    not (f.sample_rate == incoming.sample_rate) || not (f.channel_count == incoming.channel_count)

-- The map gives up its first packet where it has grown too large.
unfoldable pub shrink : List BufferedPacket → List BufferedPacket × ℕ
shrink [] = ([], 0)
shrink (p ∷ ps) = if ltb capacity (length (p ∷ ps)) then (ps, 1) else (p ∷ ps, 0)

module _ (F : Floats) where
  open F use {Double, lit, of_int, add, sub, mul, div, abs, ltb as fltb}

  unfoldable pub jitter_buffer : JitterBuffer Double
  jitter_buffer = record {
    packets = [];
    format = none;
    latest_end_frame = 0;
    latest_end_frame_atomic = 0;
    latest_read_frame = 0;
    last_presentation_nanoseconds = 0;
    last_arrival = pos 0;
    metrics = record {
      network_jitter_milliseconds = lit 0 1;
      target_buffer_milliseconds = lit 180 1;
      actual_buffer_milliseconds = lit 0 1;
      late_packets = 0;
      duplicate_packets = 0;
      overflow_packets = 0;
    };
  }

  -- The jitter estimate and the target that follows it.
  unfoldable pub update_metrics : JitterBufferMetrics Double → ℤ → ℕ → JitterBufferMetrics Double
  update_metrics m arrival_gap_nanoseconds stream_gap_nanoseconds =
      let arrival_gap = div (of_int arrival_gap_nanoseconds) (lit 1_000_000 1) in
      let stream_gap = div (of_int (pos stream_gap_nanoseconds)) (lit 1_000_000 1) in
      let deviation = abs (sub arrival_gap stream_gap) in
      let jitter =
        add m.network_jitter_milliseconds
          (div (sub deviation m.network_jitter_milliseconds) (lit 16 1)) in
      let desired = clamp F (add (lit 150 1) (mul (lit 4 1) jitter)) (lit 120 1) (lit 350 1) in
      record m {
        network_jitter_milliseconds = jitter;
        target_buffer_milliseconds =
            if fltb m.target_buffer_milliseconds desired
            then fmin F desired (add m.target_buffer_milliseconds (lit 10 1))
            else fmax F desired (sub m.target_buffer_milliseconds (lit 1 4));
      }

  -- `push` from the successful insertion on.
  unfoldable pub record_arrival : JitterBuffer Double → AudioPacket → ℤ → JitterBuffer Double
  record_arrival b packet arrival =
      let timestamp = packet.presentation_timestamp_nanoseconds in
      let metrics =
        if not (b.last_presentation_nanoseconds == 0)
          && ltb b.last_presentation_nanoseconds timestamp
        then update_metrics b.metrics (arrival -ℤ b.last_arrival)
            (timestamp - b.last_presentation_nanoseconds)
        else b.metrics in
      let latest = max b.latest_end_frame ((packet.start_frame + packet.frame_count) % 2 ^ 64) in
      let (kept, dropped) = shrink b.packets in
      record b {
        packets = kept;
        latest_end_frame = latest;
        latest_end_frame_atomic = latest;
        last_presentation_nanoseconds = timestamp;
        last_arrival = arrival;
        metrics = record metrics {
          overflow_packets = (metrics.overflow_packets + dropped) % 2 ^ 64;
        };
      }

  -- `push` under the lock.
  unfoldable pub store :
      JitterBuffer Double → AudioPacket → ℤ → JitterBuffer Double × Result JitterError Bool
  store b₀ packet arrival =
      let b = record b₀ { packets = prune b₀.latest_read_frame b₀.packets } in
      let incoming : JitterBufferFormat = record {
        sample_rate = packet.sample_rate;
        channel_count = packet.channel_count;
      } in
      if leb ((packet.start_frame + packet.frame_count) % 2 ^ 64) b.latest_read_frame
      then (
        record b {
          metrics = record (b.metrics) { late_packets = (b.metrics.late_packets + 1) % 2 ^ 64 };
        },
        ok false,
      )
      else if is_other_format b.format incoming
      then (b, err format_changed)
      else if contains packet.start_frame b.packets
      then (
        record b {
          format = some incoming;
          metrics = record (b.metrics) {
            duplicate_packets = (b.metrics.duplicate_packets + 1) % 2 ^ 64;
          };
        },
        ok false,
      )
      else (
        record_arrival
            (record b {
              format = some incoming;
              packets = try_emplace (buffered_packet packet) b.packets;
            })
            packet arrival,
        ok true,
      )

  unfoldable pub push :
      JitterBuffer Double → AudioPacket → ℤ → JitterBuffer Double × Result JitterError Bool
  push b packet arrival =
      if is_bad_format packet
      then (b, err bad_format)
      else if not (length packet.pcm_payload == packet.frame_count * packet.channel_count * 2)
      then (b, err bad_size)
      else store b packet arrival

  -- The output, the number of frames copied, and the state. `locked` is whether `try_to_lock` got
  -- the mutex; `size` is the number of samples in the output.
  unfoldable pub read_frames :
      JitterBuffer Double
      → Bool
      → ℕ
      → ℕ
      → Bool
      → JitterBuffer Double × List ℕ × Result JitterError ℕ
  read_frames b locked start_frame size retain_lookahead =
      let silence = replicate size 0 in
      if not locked then (b, silence, ok 0) else elim b.format [
        | none ↦ (b, silence, ok 0)
        | some f ↦
            if not (size % f.channel_count == 0)
            then (b, silence, err unaligned_output)
            else let requested_frames = size / f.channel_count in
              let requested_end = (start_frame + requested_frames) % 2 ^ 64 in
              let lookahead = if retain_lookahead then min 2 requested_frames else 0 in
              let read = (requested_end + 2 ^ 64 - lookahead) % 2 ^ 64 in
              let (output, copied) =
                copy_packets f.channel_count start_frame requested_end b.packets silence 0 in
              (record b { latest_read_frame = max b.latest_read_frame read }, output, ok copied)
      ]

  unfoldable pub first_in : ℕ → ℕ → List BufferedPacket → Option BufferedPacketTiming
  first_in read timestamp [] = none
  first_in read timestamp (p ∷ ps) =
      let rest = first_in read timestamp ps in
      if leb (end_frame p) read
      then rest
      else if leb timestamp p.presentation_timestamp_nanoseconds
      then some (record {
        start_frame = p.start_frame;
        presentation_timestamp_nanoseconds = p.presentation_timestamp_nanoseconds;
      })
      else rest

  unfoldable pub first_packet_at_or_after : JitterBuffer Double → ℕ → Option BufferedPacketTiming
  unfolding first_in
  first_packet_at_or_after b timestamp = first_in b.latest_read_frame timestamp b.packets

  unfoldable pub latest_end_frame : JitterBuffer Double → ℕ
  latest_end_frame b = b.latest_end_frame_atomic

  unfoldable pub depth_frames : JitterBuffer Double → ℕ → ℕ
  depth_frames b playback_frame =
      if ltb playback_frame b.latest_end_frame then b.latest_end_frame - playback_frame else 0

  unfoldable pub count_unread : ℕ → List BufferedPacket → ℕ
  count_unread read [] = 0
  count_unread read (p ∷ ps) = (if ltb read (end_frame p) then 1 else 0) + count_unread read ps

  unfoldable pub packet_count : JitterBuffer Double → ℕ
  unfolding count_unread
  packet_count b = count_unread b.latest_read_frame b.packets

  unfoldable pub metrics : JitterBuffer Double → ℕ → JitterBufferMetrics Double
  metrics b playback_frame = elim b.format [
    | none ↦ b.metrics
    | some f ↦
        if ltb playback_frame b.latest_end_frame
        then record (b.metrics) {
          actual_buffer_milliseconds =
              div (mul (lit 1000 1) (of_int (pos (b.latest_end_frame - playback_frame))))
                (of_int (pos f.sample_rate));
        }
        else b.metrics
  ]
