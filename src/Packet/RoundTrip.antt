-- ===== src/Packet/RoundTrip.antt =====
-- `serialize` and `deserialize` of core/src/PacketSerializer.cpp undo one another.
use sync_bluetooth_devices.Common.{
  ℕ, ◌-◌, ◌%◌, ◌^◌, ◌<◌, ◌≡◌, ◌≢◌, refl, sym, ◌∙◌, ap, List, ◌∷◌, ◌++◌, ge→ltb, text_eq_refl,
  length, set, All, length-append, ok, arith,
}
use sync_bluetooth_devices.Packet.Words.{
  IsByte, u32_bytes, u64_bytes, append_u8-bytes, append_u16-bytes, append_u32-bytes,
  append_u64-bytes,
}
use sync_bluetooth_devices.Packet.Layout.{Header, HeaderFits, header_bytes}
use sync_bluetooth_devices.Packet.Parse.{
  packet_of, judge, judged, deserialize-header_bytes, Accepted, deserialize-Accepted,
}
use sync_bluetooth_devices.Packet.Validity.{IsValid, validate→IsValid}
use sync_bluetooth_devices.Packet.{
  AudioPacket, Fits, magic, header_size, validate, write_packet, serialize, deserialize,
}

-- The header that `serialize` writes.
abbrev header_for : AudioPacket → Header
header_for p = record {
  version = p.protocol_version;
  size = header_size;
  flags = p.flags;
  session_id = p.session_id;
  sequence_number = p.sequence_number;
  sample_rate = p.sample_rate;
  channel_count = p.channel_count;
  sample_format = p.sample_format;
  reserved = 0;
  start_frame = p.start_frame;
  timestamp = p.presentation_timestamp_nanoseconds;
  payload_size = length p.pcm_payload % 2 ^ 16;
  frame_count = p.frame_count;
  stream_id = p.stream_id;
}

header_for-Fits : (p : AudioPacket) → Fits p → HeaderFits (header_for p)
header_for-Fits p f = ground arith

write_packet-header_bytes :
    (p : AudioPacket) → write_packet p ≡ magic ++ header_bytes (header_for p) p.pcm_payload
unfolding write_packet header_bytes
write_packet-header_bytes p =
    rw
      (
        append_u32-bytes, append_u16-bytes, append_u16-bytes, append_u64-bytes, append_u64-bytes,
        append_u8-bytes, append_u8-bytes, append_u16-bytes, append_u32-bytes, append_u32-bytes,
        append_u64-bytes, append_u16-bytes, append_u8-bytes, append_u8-bytes,
      )
      refl

serialize-valid :
    (p : AudioPacket)
    → p.frame_count < 2 ^ 16
    → validate p ≡ ok tt
    → serialize p ≡ ok (write_packet p)
serialize-valid p hf h =
    let v : IsValid p = validate→IsValid p hf h in
    unfold serialize in
    rw (h, ge→ltb (2 ^ 16 - 1) (length p.pcm_payload) (omega (arith, v.fits))) refl

-- A packet whose fields fit their types and which `validate` passes comes back from
-- `deserialize` as it went into `serialize`, every field and byte.
pub deserialize-serialize :
    (p : AudioPacket)
    → Fits p
    → validate p ≡ ok tt
    → (bytes : List ℕ) × (serialize p ≡ ok bytes) × (deserialize bytes ≡ ok p)
unfolding judge
deserialize-serialize p f h =
    let v : IsValid p = validate→IsValid p f.frames_u16 h in
    (
      write_packet p,
      serialize-valid p f.frames_u16 h,
      rw (write_packet-header_bytes p) (
          deserialize-header_bytes _ _ _ _ (header_for p) p.pcm_payload (header_for-Fits p f)
          ∙ ground (arith, text_eq_refl magic)),
    )

-- The reserved byte is the only one that is not determined by the packet.
set-reserved :
    (h : Header) (payload : List ℕ)
    → set (magic ++ header_bytes h payload) 27 0
      ≡ magic ++ header_bytes (record h { reserved = 0 }) payload
unfolding header_bytes u32_bytes u64_bytes
set-reserved h payload = refl

header_for-packet_of :
    (h : Header) (payload : List ℕ)
    → h.size ≡ header_size
    → length payload ≡ h.payload_size
    → h.payload_size < 2 ^ 16
    → header_for (packet_of h payload) ≡ record h { reserved = 0 }
header_for-packet_of h payload hs hp hb = ground arith

-- Whatever bytes `deserialize` accepts hold a packet whose fields fit and that `validate`
-- passes, and serializing the packet gives the same bytes, but for the reserved byte (offset
-- 27), which is written as 0.
pub serialize-deserialize :
    (bytes : List ℕ) (p : AudioPacket)
    → All IsByte bytes
    → deserialize bytes ≡ ok p
    → Fits p × IsValid p × (serialize p ≡ ok (set bytes 27 0))
serialize-deserialize bytes p hb e =
    let a : Accepted bytes p = deserialize-Accepted bytes p hb e in
    let q = packet_of a.header a.payload in
    let f : Fits q = fits_of a.header a.payload a.fits a.payload_bytes in
    let fp : Fits p = rw a.is_packet f in
    (
      fp,
      validate→IsValid p fp.frames_u16 a.valid,
      serialize-valid p fp.frames_u16 a.valid
          ∙ ap ok (
              write_packet-header_bytes p
              ∙ rw (a.is_packet, a.is_layout)
                  (ap (λ h. magic ++ header_bytes h a.payload)
                      (header_for-packet_of a.header a.payload a.size a.payload_size
                        a.fits.payload_u16)
                    ∙ sym (set-reserved a.header a.payload))),
    )
  where
    fits_of :
        (h : Header) (payload : List ℕ)
        → HeaderFits h
        → All IsByte payload
        → Fits (packet_of h payload)
    fits_of h payload f hb = ground arith

header_bytes-append :
    (h : Header) (payload more : List ℕ)
    → header_bytes h payload ++ more ≡ header_bytes h (payload ++ more)
unfolding header_bytes u32_bytes u64_bytes
header_bytes-append h payload more = refl

-- A datagram that `deserialize` accepts is accepted at exactly its own length: with any bytes
-- added behind it, or seen the other way round cut short anywhere, it is refused.
pub deserialize-exact_length :
    (bytes more : List ℕ) (x : ℕ) (p q : AudioPacket)
    → All IsByte bytes
    → deserialize bytes ≡ ok p
    → deserialize (bytes ++ x ∷ more) ≢ ok q
deserialize-exact_length bytes more x p q hb e e' =
    let a : Accepted bytes p = deserialize-Accepted bytes p hb e in
    let longer : List ℕ = a.payload ++ x ∷ more in
    let whole : bytes ++ x ∷ more ≡ magic ++ header_bytes a.header longer =
      rw a.is_layout (ap (λ t. magic ++ t) (header_bytes-append a.header a.payload (x ∷ more))) in
    let j =
      judged magic a.header longer q
        (sym (deserialize-header_bytes _ _ _ _ a.header longer a.fits) ∙ rw whole at e') in
    absurd (omega (arith, j.3, a.payload_size, length-append a.payload (x ∷ more)))
