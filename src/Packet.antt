-- ===== src/Packet.antt =====
-- core/include/AudioPacket.hpp and core/src/PacketSerializer.cpp: the audio datagram.
-- A byte vector is a list of numbers; a field of w bits is a number below 2 ^ w (`Fits`).
pub mod Words
pub mod Layout
pub mod RoundTrip
pub mod Parse
pub mod Validity
use sync_bluetooth_devices.Common.{
  ℕ, ◌+◌, ◌*◌, ◌-◌, ◌/◌, ◌%◌, ◌^◌, ◌<◌, Bool, ◌||◌, not, List, [], ◌∷◌, ◌++◌, ltb, ◌==◌, Text,
  text_eq, length, All, Result, ok, err, ◌>>=◌, ◌>>◌, throw_if,
}
use Words.{
  PacketError, short_header, oversized_datagram, bad_magic, bad_header_size, inconsistent_payload,
  unsupported_format, unsupported_version, unsupported_rate, unsupported_channels, bad_timing,
  empty_payload, oversized_payload, partial_frame, frame_count_mismatch, unrepresentable_payload,
  Reader, read_u8, read_u16, read_u32, read_u64, read_bytes, remaining, append_u8, append_u16,
  append_u32, append_u64,
}

-- The fields in the order of the struct. An enum value is its underlying number, since
-- `static_cast` can make any.
pub record AudioPacket : Type 0 where
  pub protocol_version : ℕ
  pub flags : ℕ
  pub session_id : ℕ
  pub stream_id : ℕ
  pub sequence_number : ℕ
  pub sample_rate : ℕ
  pub channel_count : ℕ
  pub sample_format : ℕ
  pub start_frame : ℕ
  pub presentation_timestamp_nanoseconds : ℕ
  pub frame_count : ℕ
  pub pcm_payload : List ℕ

abbrev pub current_protocol_version : ℕ
current_protocol_version = 2

abbrev pub pcm_s16_little_endian : ℕ
pcm_s16_little_endian = 1

abbrev pub header_size : ℕ
header_size = 52

abbrev pub maximum_datagram_size : ℕ
maximum_datagram_size = 1200

abbrev pub maximum_payload_size : ℕ
maximum_payload_size = maximum_datagram_size - header_size

-- "SAUD"
abbrev pub magic : List ℕ
magic = b'S' ∷ b'A' ∷ b'U' ∷ b'D' ∷ []

-- What the C++ types of the fields guarantee.
pub record Fits (p : AudioPacket) : Type 0 where
  pub version_u8 : p.protocol_version < 2 ^ 8
  pub flags_u16 : p.flags < 2 ^ 16
  pub session_u64 : p.session_id < 2 ^ 64
  pub stream_u32 : p.stream_id < 2 ^ 32
  pub sequence_u32 : p.sequence_number < 2 ^ 32
  pub rate_u32 : p.sample_rate < 2 ^ 32
  pub channels_u16 : p.channel_count < 2 ^ 16
  pub format_u8 : p.sample_format < 2 ^ 8
  pub start_u64 : p.start_frame < 2 ^ 64
  pub timestamp_u64 : p.presentation_timestamp_nanoseconds < 2 ^ 64
  pub frames_u16 : p.frame_count < 2 ^ 16
  pub bytes : All (λ b. b < 2 ^ 8) p.pcm_payload

unfoldable pub bytes_per_sample : ℕ → Result PacketError ℕ
bytes_per_sample format = do
  throw_if (not (format == pcm_s16_little_endian)) unsupported_format
  ok 2

unfoldable pub validate : AudioPacket → Result PacketError (Unit {0})
unfolding bytes_per_sample
validate packet = do
  throw_if (not (packet.protocol_version == current_protocol_version)) unsupported_version
  throw_if (ltb packet.sample_rate 8000 || ltb 192000 packet.sample_rate) unsupported_rate
  throw_if (packet.channel_count == 0 || ltb 2 packet.channel_count) unsupported_channels
  throw_if
      (packet.stream_id == 0
        || packet.frame_count == 0
        || ltb (2 ^ 64 - 1 - packet.frame_count) packet.start_frame
        || ltb (2 ^ 63 - 1) packet.presentation_timestamp_nanoseconds)
      bad_timing
  throw_if (length packet.pcm_payload == 0) empty_payload
  throw_if (ltb maximum_payload_size (length packet.pcm_payload)) oversized_payload
  sample_bytes ← bytes_per_sample packet.sample_format
  let bytes_per_frame = sample_bytes * packet.channel_count
  throw_if (not (length packet.pcm_payload % bytes_per_frame == 0)) partial_frame
  throw_if (not (length packet.pcm_payload / bytes_per_frame == packet.frame_count))
      frame_count_mismatch

-- The appends of `serialize`, in their order.
unfoldable pub write_packet : AudioPacket → List ℕ
write_packet packet =
    let o₁ = append_u8 magic packet.protocol_version in
    let o₂ = append_u8 o₁ (header_size % 2 ^ 8) in
    let o₃ = append_u16 o₂ packet.flags in
    let o₄ = append_u64 o₃ packet.session_id in
    let o₅ = append_u32 o₄ packet.sequence_number in
    let o₆ = append_u32 o₅ packet.sample_rate in
    let o₇ = append_u16 o₆ packet.channel_count in
    let o₈ = append_u8 o₇ packet.sample_format in
    let o₉ = append_u8 o₈ 0 in
    let o₁₀ = append_u64 o₉ packet.start_frame in
    let o₁₁ = append_u64 o₁₀ packet.presentation_timestamp_nanoseconds in
    let o₁₂ = append_u16 o₁₁ (length packet.pcm_payload % 2 ^ 16) in
    let o₁₃ = append_u16 o₁₂ packet.frame_count in
    let o₁₄ = append_u32 o₁₃ packet.stream_id in o₁₄ ++ packet.pcm_payload

unfoldable pub serialize : AudioPacket → Result PacketError (List ℕ)
serialize packet = do
  validate packet
  throw_if (ltb (2 ^ 16 - 1) (length packet.pcm_payload)) unrepresentable_payload
  ok (write_packet packet)

-- `deserialize` behind the magic bytes.
unfoldable pub read_packet : Reader → Result PacketError AudioPacket
read_packet r₀ = do
  (version, r₁) ← read_u8 r₀
  (size, r₂) ← read_u8 r₁
  throw_if (not (size == header_size)) bad_header_size
  (flags, r₃) ← read_u16 r₂
  (session_id, r₄) ← read_u64 r₃
  (sequence_number, r₅) ← read_u32 r₄
  (sample_rate, r₆) ← read_u32 r₅
  (channel_count, r₇) ← read_u16 r₆
  (sample_format, r₈) ← read_u8 r₇
  (reserved, r₉) ← read_u8 r₈
  (start_frame, r₁₀) ← read_u64 r₉
  (timestamp, r₁₁) ← read_u64 r₁₀
  (payload_size, r₁₂) ← read_u16 r₁₁
  (frame_count, r₁₃) ← read_u16 r₁₂
  (stream_id, r₁₄) ← read_u32 r₁₃
  throw_if (not (remaining r₁₄ == payload_size)) inconsistent_payload
  (payload, r₁₅) ← read_bytes payload_size r₁₄
  let packet : AudioPacket = record {
    protocol_version = version;
    flags = flags;
    session_id = session_id;
    stream_id = stream_id;
    sequence_number = sequence_number;
    sample_rate = sample_rate;
    channel_count = channel_count;
    sample_format = sample_format;
    start_frame = start_frame;
    presentation_timestamp_nanoseconds = timestamp;
    frame_count = frame_count;
    pcm_payload = payload;
  }
  validate packet
  ok packet

unfoldable pub deserialize : List ℕ → Result PacketError AudioPacket
deserialize bytes = do
  throw_if (ltb (length bytes) header_size) short_header
  throw_if (ltb maximum_datagram_size (length bytes)) oversized_datagram
  (received_magic, r₀) ← read_bytes (length magic) bytes
  throw_if (not (text_eq received_magic magic)) bad_magic
  read_packet r₀
