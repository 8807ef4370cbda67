-- ===== src/Runs/Streams.antt =====
-- A host that streams two frames of a mono file in one packet, until the file is at its end.
use sync_bluetooth_devices.Common.{
  ℕ, ◌+◌, ◌*◌, ◌^◌, ◌/◌, ◌%◌, ◌≡◌, ◌≤◌, ◌<◌, ◌⊎◌, refl, true, false, [], ◌∷◌, max, Option, some,
  none, ok, arith,
}
use sync_bluetooth_devices.Common.Int.{pos, ◌+ℤ◌, ◌-ℤ◌}
use sync_bluetooth_devices.Playback.{playback_clock, frame_to_timestamp, frame_to_duration}
use sync_bluetooth_devices.Packet.{
  AudioPacket, serialize, write_packet, validate, bytes_per_sample, maximum_payload_size,
}
use sync_bluetooth_devices.Packet.Words.{append_u32, append_u64}
use sync_bluetooth_devices.Jitter.Store.{decode_pcm}
use sync_bluetooth_devices.Host.{
  DesktopNetworkHostConfig, HostFormat, HostStream, HostRound, members, stream_file,
  decoder_channels, frames_per_packet, stream, after_round, host_round, read_and_send,
  requested_frames, send_or_end, send_frames, make_packet, deliver, deliver_members,
  to_little_endian_pcm, nanoseconds_of, new_stats,
}
use sync_bluetooth_devices.Host.Frames.{decode_pcm-to_little_endian_pcm, frames_per_packet_lem}
use sync_bluetooth_devices.Host.Stream.{Contiguous, Reads}
use sync_bluetooth_devices.Host.Carried.{stream_file_carries}
use sync_bluetooth_devices.Runs.Buffers.{naturals}

decode_pcm-to_little_endian_pcm_example :
    decode_pcm (to_little_endian_pcm (1 ∷ 65535 ∷ [])) ≡ 1 ∷ 65535 ∷ []
decode_pcm-to_little_endian_pcm_example =
    decode_pcm-to_little_endian_pcm (1 ∷ 65535 ∷ []) (omega arith, (omega arith, tt))

frames_per_packet_lem_example :
    (1 ≤ 240)
    × (240 < 2 ^ 16)
    × (240 * (2 * 2) ≤ maximum_payload_size)
    × ((◌≡◌ {A = ℕ} 240 (max 1 ((48000 * 5 + 999) % 2 ^ 64 / 1000)))
        ⊎ (maximum_payload_size < (240 + 1) * (2 * 2)))
unfolding frames_per_packet
frames_per_packet_lem_example = frames_per_packet_lem 48000 2 (pos 5) 240 (omega arith) refl

abbrev host_config : DesktopNetworkHostConfig
host_config = record {
  port = 40100;
  desired_packet_duration = pos 10;
  send_ahead = pos 500;
  host_output_latency = pos 0;
  session_id = 7;
  stream_id = 1;
}

abbrev reads_two : ℕ → Option ℕ
reads_two requested = some 2

abbrev reads_none : ℕ → Option ℕ
reads_none requested = some 0

abbrev first_round : HostRound
first_round = record {
  output_route_changed = false;
  pending_action = none;
  frames_read = reads_two;
  samples = 258 ∷ 3 ∷ [];
  recipients = members (true ∷ false ∷ []);
}

abbrev last_round : HostRound
last_round = record first_round { frames_read = reads_none }

abbrev only_packet : AudioPacket
only_packet = record {
  protocol_version = 2;
  flags = 0;
  session_id = 7;
  stream_id = 1;
  sequence_number = 0;
  sample_rate = 8000;
  channel_count = 1;
  sample_format = 1;
  start_frame = 0;
  presentation_timestamp_nanoseconds = 1000;
  frame_count = 2;
  pcm_payload = 2 ∷ 1 ∷ 3 ∷ 0 ∷ [];
}

abbrev streamed : HostStream
unfolding write_packet
streamed = record {
  stats = record (new_stats 7 80) {
    packets_sent = 1;
    frames_sent = 2;
    audio_datagram_bytes_sent = 56;
    datagrams_sent = 1;
    client_send_failures = 1;
    last_frame = 2;
    source_exhausted = true;
  };
  start_frame = 2;
  sequence_number = 1;
  datagrams = write_packet only_packet ∷ [];
  chunks = (258 ∷ 3 ∷ []) ∷ [];
}

abbrev truncated : ℕ → ℕ
truncated n = n

stream_file_returns :
    stream_file naturals truncated host_config 8000 1 true 9
      (pos 1000)
      8000
      1
      0
      (first_round ∷ last_round ∷ [])
    ≡ ok (streamed, true)
unfolding stream_file decoder_channels frames_per_packet stream after_round host_round read_and_send
    requested_frames send_or_end send_frames make_packet deliver deliver_members
    to_little_endian_pcm playback_clock frame_to_timestamp frame_to_duration serialize validate
    bytes_per_sample write_packet ◌+ℤ◌ ◌-ℤ◌ append_u32 append_u64
stream_file_returns = refl

first_round-Reads : Reads 1 first_round
first_round-Reads = record {
  filled = λ requested frames e. ground (arith, e);
  bits = (omega arith, (omega arith, tt));
}

last_round-Reads : Reads 1 last_round
last_round-Reads = record {
  filled = λ requested frames e. ground (arith, e);
  bits = (omega arith, (omega arith, tt));
}

stream_file_carries_example :
    (f : HostFormat) × (playback_clock 8000 (pos 1000 +ℤ nanoseconds_of (pos 0)) ≡ ok f.clock)
    × (f.stream_id ≡ 1)
    × (f.initial_frame ≡ 0)
    × Contiguous f streamed.stats.session_id 0 0 streamed.datagrams streamed.chunks
        streamed.start_frame
stream_file_carries_example =
    stream_file_carries naturals truncated host_config 8000 1 true 9 (pos 1000) 8000 1 0
      (first_round ∷ last_round ∷ []) streamed true (omega arith) (omega arith) (omega arith)
      (omega arith) (omega arith) (first_round-Reads, (last_round-Reads, tt)) stream_file_returns
