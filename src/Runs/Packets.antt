-- ===== src/Runs/Packets.antt =====
-- A mono packet of two frames, through core/src/PacketSerializer.cpp.
use sync_bluetooth_devices.Common.{
  Bool, true, ltb, ◌&&◌, ℕ, ◌≡◌, ◌≢◌, ◌↔◌, refl, List, [], ◌∷◌, ◌++◌, set, All, ok, arith,
}
use sync_bluetooth_devices.Packet.{
  AudioPacket, Fits, validate, serialize, deserialize, write_packet,
}
use sync_bluetooth_devices.Packet.Words.{IsByte, append_u8, append_u16, append_u32, append_u64}
use sync_bluetooth_devices.Packet.Validity.{IsValid, validate_iff}
use sync_bluetooth_devices.Packet.RoundTrip.{
  deserialize-serialize, serialize-deserialize, deserialize-exact_length,
}

abbrev pub two_frames : AudioPacket
two_frames = record {
  protocol_version = 2;
  flags = 0;
  session_id = 7;
  stream_id = 1;
  sequence_number = 5;
  sample_rate = 48000;
  channel_count = 1;
  sample_format = 1;
  start_frame = 480;
  presentation_timestamp_nanoseconds = 1000;
  frame_count = 2;
  pcm_payload = 1 ∷ 0 ∷ 254 ∷ 255 ∷ [];
}

two_frames-Fits : Fits two_frames
two_frames-Fits = ground arith

two_frames-valid : validate two_frames ≡ ok tt
unfolding validate
two_frames-valid = refl

abbrev datagram : List ℕ
datagram = write_packet two_frames

unfoldable are_bytes : List ℕ → Bool
are_bytes [] = true
are_bytes (b ∷ bs) = ltb b 256 && are_bytes bs

are_bytes-IsByte : (bs : List ℕ) → are_bytes bs ≡ true → All IsByte bs
unfolding are_bytes
are_bytes-IsByte [] h = tt
are_bytes-IsByte (b ∷ bs) h = (ground arith, are_bytes-IsByte bs (ground arith))

datagram-IsByte : All IsByte datagram
unfolding are_bytes write_packet append_u8 append_u16 append_u32 append_u64
datagram-IsByte = are_bytes-IsByte datagram refl

serialized : serialize two_frames ≡ ok datagram
unfolding serialize validate
serialized = refl

read_back : deserialize datagram ≡ ok two_frames
read_back =
    let (bytes, written, read) =
      deserialize-serialize two_frames two_frames-Fits two_frames-valid in
    let same : bytes ≡ datagram = cc (written, serialized) in rw same at read

deserialize-serialize_example :
    (bytes : List ℕ) × (serialize two_frames ≡ ok bytes) × (deserialize bytes ≡ ok two_frames)
deserialize-serialize_example = deserialize-serialize two_frames two_frames-Fits two_frames-valid

serialize-deserialize_example :
    Fits two_frames × IsValid two_frames × (serialize two_frames ≡ ok (set datagram 27 0))
serialize-deserialize_example = serialize-deserialize datagram two_frames datagram-IsByte read_back

deserialize-exact_length_example : deserialize (datagram ++ 9 ∷ []) ≢ ok two_frames
deserialize-exact_length_example =
    deserialize-exact_length datagram [] 9 two_frames two_frames datagram-IsByte read_back

validate_iff_example : (validate two_frames ≡ ok tt) ↔ IsValid two_frames
validate_iff_example = validate_iff two_frames (omega arith)
