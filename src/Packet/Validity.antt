-- ===== src/Packet/Validity.antt =====
-- What `validate` of core/src/PacketSerializer.cpp accepts.
use sync_bluetooth_devices.Common.{
  ◌+◌, ◌*◌, ◌^◌, ◌≤◌, ◌<◌, ◌≡◌, ◌↔◌, ◌⊎◌, inl, inr, length, ok, arith,
}
use sync_bluetooth_devices.Packet.{
  AudioPacket, current_protocol_version, pcm_s16_little_endian, maximum_payload_size, validate,
}

-- A packet that may travel, stated without the order of the checks.
pub record IsValid (p : AudioPacket) : Type 0 where
  pub version : p.protocol_version ≡ current_protocol_version
  pub rate_low : 8000 ≤ p.sample_rate
  pub rate_high : p.sample_rate ≤ 192000
  pub channels : (p.channel_count ≡ 1) ⊎ (p.channel_count ≡ 2)
  pub format : p.sample_format ≡ pcm_s16_little_endian
  pub stream : 1 ≤ p.stream_id
  pub frames : 1 ≤ p.frame_count
  pub no_wrap : p.start_frame + p.frame_count < 2 ^ 64
  pub timestamp : p.presentation_timestamp_nanoseconds < 2 ^ 63
  pub size : length p.pcm_payload ≡ p.frame_count * (2 * p.channel_count)
  pub fits : length p.pcm_payload ≤ maximum_payload_size

pub validate→IsValid : (p : AudioPacket) → p.frame_count < 2 ^ 16 → validate p ≡ ok tt → IsValid p
unfolding validate
validate→IsValid p hf h = ground arith

pub IsValid→validate : (p : AudioPacket) → IsValid p → validate p ≡ ok tt
unfolding validate
IsValid→validate p v = elim v.channels [ inl one ↦ ground arith | inr two ↦ ground arith ]

-- `validate` passes exactly the packets with a known version and format, a supported rate and
-- channel count, nonzero stream and frame count, frame numbers and a timestamp in range, and a
-- payload of exactly the frames that the packet names, within the datagram limit.
pub validate_iff : (p : AudioPacket) → p.frame_count < 2 ^ 16 → (validate p ≡ ok tt) ↔ IsValid p
validate_iff p hf = (validate→IsValid p hf, IsValid→validate p)
