-- ===== src/Host.antt =====
-- desktop/include/DesktopNetworkHost.hpp and desktop/src/DesktopNetworkHost.cpp: the stream of datagrams
-- that the host sends. What the decoder, the room and the sockets answer in a round of the loop is
-- an argument (`HostRound`); of the doubles only what decides the packets is here. The datagrams go out as
-- without `NDEBUG`'s network impairment (Impairment has that). A 16-bit sample is its bit pattern.
pub mod Frames
pub mod Stream
pub mod Rounds
pub mod Carried
use sync_bluetooth_devices.Common.{
  ℕ, suc, ◌+◌, ◌-◌, ◌*◌, ◌/◌, ◌%◌, ◌^◌, min, max, Bool, true, false, ◌&&◌, ◌||◌, not, List, [], ◌∷◌,
  ◌++◌, take, length, Option, none, some, ltb, ◌==◌, if◌then◌else◌, Result, ok, err, ◌>>=◌, ◌>>◌,
  throw_if,
}
use sync_bluetooth_devices.Common.Int.{ℤ, pos, negsuc, pos_part, ◌+ℤ◌, ◌-ℤ◌, ltb_ℤ, leb_ℤ}
use sync_bluetooth_devices.Common.Floats.{Floats}
use sync_bluetooth_devices.Playback.{PlaybackClock, ClockError, playback_clock, frame_to_timestamp}
use sync_bluetooth_devices.Packet.{
  AudioPacket, current_protocol_version, pcm_s16_little_endian, maximum_payload_size, serialize,
}
use sync_bluetooth_devices.Packet.Words.{PacketError}
use sync_bluetooth_devices.Room.{RoomAction, seek, ScheduledRoomAction}

pub data HostError : Type 0 where
  zero_port bad_packet_duration negative_send_ahead bad_output_latency unsupported_channel_count :
      HostError
  seek_failed format_mismatch packet_too_large route_changed decode_failed negative_timestamp
        send_failed :
      HostError
  clock_error : ClockError → HostError
  packet_error : PacketError → HostError

-- Durations are counts of milliseconds.
pub record DesktopNetworkHostConfig : Type 0 where
  pub port : ℕ
  pub desired_packet_duration : ℤ
  pub send_ahead : ℤ
  pub host_output_latency : ℤ
  pub session_id : ℕ
  pub stream_id : ℕ

pub record DesktopNetworkHostStats : Type 0 where
  pub session_id : ℕ
  pub packets_sent : ℕ
  pub frames_sent : ℕ
  pub audio_datagram_bytes_sent : ℕ
  pub datagrams_sent : ℕ
  pub client_send_failures : ℕ
  pub frames_per_packet : ℕ
  pub last_frame : ℕ
  pub ended_for_command : Bool
  pub source_exhausted : Bool

abbrev pub nanoseconds_of : ℤ → ℤ
nanoseconds_of (pos ms) = pos (ms * 1_000_000)
nanoseconds_of (negsuc ms) = pos 0 -ℤ pos (suc ms * 1_000_000)

-- The checks of the constructor.
unfoldable pub desktop_network_host :
    DesktopNetworkHostConfig → Result HostError DesktopNetworkHostConfig
desktop_network_host config = do
  throw_if (config.port == 0 || config.stream_id == 0) zero_port
  throw_if (leb_ℤ config.desired_packet_duration (pos 0)) bad_packet_duration
  throw_if (ltb_ℤ config.send_ahead (pos 0)) negative_send_ahead
  throw_if
      (ltb_ℤ config.host_output_latency (negsuc 999) || ltb_ℤ (pos 1000) config.host_output_latency)
      bad_output_latency
  ok config

-- `Decoder::channels`
unfoldable pub decoder_channels : ℕ → Result HostError ℕ
decoder_channels output_channels = do
  throw_if (ltb (2 ^ 16 - 1) output_channels) unsupported_channel_count
  ok output_channels

unfoldable pub to_little_endian_pcm : List ℕ → List ℕ
to_little_endian_pcm [] = []
to_little_endian_pcm (bits ∷ rest) = bits % 256 ∷ bits / 2 ^ 8 ∷ to_little_endian_pcm rest

-- The frames of a packet, for a duration that is not negative and at least one channel (for none, the
-- code divides by zero).
unfoldable pub frames_per_packet : ℕ → ℕ → ℤ → Result HostError ℕ
frames_per_packet sample_rate channel_count desired_packet_duration = do
  let bytes_per_frame = channel_count * 2
  let maximum_frames = maximum_payload_size / bytes_per_frame
  let desired_frames =
      max 1 ((sample_rate * pos_part desired_packet_duration + 999) % 2 ^ 64 / 1000)
  let frames = min desired_frames maximum_frames
  throw_if (frames == 0 || ltb (2 ^ 16 - 1) frames) packet_too_large
  ok frames

-- `deliver` to the members of the room, of whom each send succeeds or not.
unfoldable pub deliver_members : List Bool → ℕ → DesktopNetworkHostStats → DesktopNetworkHostStats
deliver_members [] size stats = stats
deliver_members (true ∷ rest) size stats = deliver_members rest size (record stats {
  audio_datagram_bytes_sent = (stats.audio_datagram_bytes_sent + size) % 2 ^ 64;
  datagrams_sent = (stats.datagrams_sent + 1) % 2 ^ 64;
})
deliver_members (false ∷ rest) size stats =
    deliver_members rest size
      (record stats { client_send_failures = (stats.client_send_failures + 1) % 2 ^ 64 })

-- Where a datagram goes: to each member of the room, or to the destination address.
pub data Recipients : Type 0 where
  members : List Bool → Recipients
  destination : Bool → Recipients

unfoldable pub deliver :
    Recipients → ℕ → DesktopNetworkHostStats → Result HostError DesktopNetworkHostStats
deliver (members sends) size stats = ok (deliver_members sends size stats)
deliver (destination sends) size stats = do
  throw_if (not sends) send_failed
  ok (record stats {
    audio_datagram_bytes_sent = (stats.audio_datagram_bytes_sent + size) % 2 ^ 64;
    datagrams_sent = (stats.datagrams_sent + 1) % 2 ^ 64;
  })

-- The locals of the loop, the datagrams that were handed to `deliver` and, for the theorems, the samples
-- that went into each.
pub record HostStream : Type 0 where
  pub stats : DesktopNetworkHostStats
  pub start_frame : ℕ
  pub sequence_number : ℕ
  pub datagrams : List (List ℕ)
  pub chunks : List (List ℕ)

-- What a round of the loop finds: the flag of the output route, the room's pending action, how many frames
-- the decoder reads into `samples` (none if it fails), and what becomes of the sends.
pub record HostRound : Type 0 where
  pub output_route_changed : Bool
  pub pending_action : Option ScheduledRoomAction
  pub frames_read : ℕ → Option ℕ
  pub samples : List ℕ
  pub recipients : Recipients

-- The members of the stream that stay the same.
pub record HostFormat : Type 0 where
  pub clock : PlaybackClock
  pub sample_rate : ℕ
  pub channel_count : ℕ
  pub stream_id : ℕ
  pub send_ahead : ℤ
  pub initial_frame : ℕ

abbrev pub or_clock_error : {A : Type 0} → Result ClockError A → Result HostError A
or_clock_error (ok value) = ok value
or_clock_error (err e) = err (clock_error e)

abbrev pub or_packet_error : {A : Type 0} → Result PacketError A → Result HostError A
or_packet_error (ok value) = ok value
or_packet_error (err e) = err (packet_error e)

abbrev pub or_decode_failed : Option ℕ → Result HostError ℕ
or_decode_failed none = err decode_failed
or_decode_failed (some frames) = ok frames

abbrev pub timestamp_count : ℤ → Result HostError ℕ
timestamp_count (pos n) = ok n
timestamp_count (negsuc n) = err negative_timestamp

-- The packet of a round.
unfoldable pub make_packet : HostFormat → HostStream → ℕ → ℕ → List ℕ → AudioPacket
make_packet f s timestamp frames_read samples = record {
  protocol_version = current_protocol_version;
  flags = 0;
  session_id = s.stats.session_id;
  stream_id = f.stream_id;
  sequence_number = s.sequence_number;
  sample_rate = f.sample_rate;
  channel_count = f.channel_count;
  sample_format = pcm_s16_little_endian;
  start_frame = s.start_frame;
  presentation_timestamp_nanoseconds = timestamp;
  frame_count = frames_read % 2 ^ 16;
  pcm_payload = to_little_endian_pcm samples;
}

-- The rest of a round that has frames to send.
unfoldable pub send_frames :
    HostFormat → HostStream → ℤ → ℕ → HostRound → Result HostError HostStream
send_frames f s presentation frames_read r = do
  let samples = take (frames_read * f.channel_count) r.samples
  timestamp ← timestamp_count presentation
  datagram ← or_packet_error (serialize (make_packet f s timestamp frames_read samples))
  stats ← deliver r.recipients (length datagram) s.stats
  ok (record {
    stats = record stats {
      packets_sent = (stats.packets_sent + 1) % 2 ^ 64;
      frames_sent = (stats.frames_sent + frames_read) % 2 ^ 64;
    };
    start_frame = (s.start_frame + frames_read) % 2 ^ 64;
    sequence_number = (s.sequence_number + 1) % 2 ^ 32;
    datagrams = s.datagrams ++ (datagram ∷ []);
    chunks = s.chunks ++ (samples ∷ []);
  })

-- Whether the loop goes on.
pub data RoundResult : Type 0 where
  goes_on : HostStream → RoundResult
  ends : HostStream → RoundResult

unfoldable pub send_or_end :
    HostFormat → HostStream → ℤ → ℕ → HostRound → Result HostError RoundResult
send_or_end f s presentation frames_read r =
    if frames_read == 0
    then ok (ends (record s { stats = record s.stats { source_exhausted = true } }))
    else (send_frames f s presentation frames_read r >>= λ next. ok (goes_on next))

unfoldable pub after_round :
    RoundResult
    → (HostStream → Result HostError (HostStream × Bool))
    → Result HostError (HostStream × Bool)
after_round (goes_on s) rest = rest s
after_round (ends s) rest =
    ok (record s { stats = record s.stats { last_frame = s.start_frame } }, true)

abbrev pub new_stats : ℕ → ℕ → DesktopNetworkHostStats
new_stats session_id per_packet = record {
  session_id = session_id;
  packets_sent = 0;
  frames_sent = 0;
  audio_datagram_bytes_sent = 0;
  datagrams_sent = 0;
  client_send_failures = 0;
  frames_per_packet = per_packet;
  last_frame = 0;
  ended_for_command = false;
  source_exhausted = false;
}

unfoldable pub is_seek : RoomAction → Bool
is_seek seek = true
is_seek other = false

-- The doubles, and `static_cast<std::uint64_t>` of one.
module _ (F : Floats) (truncate : F.Double → ℕ) where
  open F use {Double, lit, of_int, mul, div}

  -- The frames to ask for, unless the pending action's time has come.
  unfoldable pub requested_frames : HostFormat → ℕ → ℤ → Option ScheduledRoomAction → Option ℕ
  unfolding is_seek
  requested_frames f per_packet presentation none = some per_packet
  requested_frames f per_packet presentation (some pending) =
      let cutoff =
        pending.effective_host_nanoseconds
        -ℤ (if is_seek pending.action then nanoseconds_of f.send_ahead else pos 0) in
      let frames_until_cutoff =
        mul (div (of_int (cutoff -ℤ presentation)) (lit 1_000_000_000 1))
          (of_int (pos f.sample_rate)) in
      if leb_ℤ cutoff presentation
      then none
      else if F.ltb frames_until_cutoff (of_int (pos per_packet))
      then some (max 1 (truncate frames_until_cutoff))
      else some per_packet

  unfoldable pub read_and_send :
      HostFormat → HostStream → ℤ → Option ℕ → HostRound → Result HostError RoundResult
  read_and_send f s presentation none r =
      ok (ends (record s { stats = record s.stats { ended_for_command = true } }))
  read_and_send f s presentation (some requested) r = do
    frames_read ← or_decode_failed (r.frames_read requested)
    send_or_end f s presentation frames_read r

  unfoldable pub host_round : HostFormat → HostRound → HostStream → Result HostError RoundResult
  host_round f r s = do
    throw_if r.output_route_changed route_changed
    presentation ←
        or_clock_error
          (frame_to_timestamp f.clock ((s.start_frame + 2 ^ 64 - f.initial_frame) % 2 ^ 64))
    read_and_send f s presentation
        (requested_frames f s.stats.frames_per_packet presentation r.pending_action) r

  -- The loop over these rounds; the flag says that it has ended.
  unfoldable pub stream :
      HostFormat → List HostRound → HostStream → Result HostError (HostStream × Bool)
  stream f [] s = ok (s, false)
  stream f (r ∷ rest) s = host_round f r s >>= λ result. after_round result (stream f rest)

  -- `streamFile` of a decoder that is open, with its format, whether it can seek, and a session that was
  -- drawn in case the configuration has none.
  unfoldable pub stream_file :
      DesktopNetworkHostConfig
      → ℕ
      → ℕ
      → Bool
      → ℕ
      → ℤ
      → ℕ
      → ℕ
      → ℕ
      → List HostRound
      → Result HostError (HostStream × Bool)
  stream_file config sample_rate output_channels seeks drawn start_time expected_rate
        expected_channels initial_frame rounds =
      do
        throw_if (not (initial_frame == 0) && not seeks) seek_failed
        channel_count ← decoder_channels output_channels
        throw_if (not (sample_rate == expected_rate) || not (channel_count == expected_channels))
            format_mismatch
        per_packet ← frames_per_packet sample_rate channel_count config.desired_packet_duration
        clock ←
            or_clock_error
              (playback_clock sample_rate (start_time +ℤ nanoseconds_of config.host_output_latency))
        let session_id = if config.session_id == 0 then drawn else config.session_id
        stream
            (record {
              clock = clock;
              sample_rate = sample_rate;
              channel_count = channel_count;
              stream_id = config.stream_id;
              send_ahead = config.send_ahead;
              initial_frame = initial_frame;
            })
            rounds
            (record {
              stats = new_stats session_id per_packet;
              start_frame = initial_frame;
              sequence_number = 0;
              datagrams = [];
              chunks = [];
            })
