-- ===== src/Packet/Parse.antt =====
-- What `deserialize` of core/src/PacketSerializer.cpp makes of a datagram in the layout.
use sync_bluetooth_devices.Common.{
  true, ℕ, ◌+◌, ◌≤◌, ◌<◌, ◌≡◌, ◌≢◌, refl, sym, ◌∙◌, ap, inl, inr, not, List, [], ◌∷◌, ◌++◌, ltb,
  lt→ltb, Bool-cases, ◌==◌, ==_iff, text_eq, text_eq→eq, length, All, Result, ok, ◌>>◌, throw_if,
  >>=-eq-ok, arith,
}
use sync_bluetooth_devices.Packet.Words
use sync_bluetooth_devices.Packet.Words.{
  PacketError, IsByte, read_u8-bytes, read_u16-bytes, read_u32-bytes, read_u64-bytes,
  read_bytes-append, remaining, read_bytes,
}
use sync_bluetooth_devices.Packet.Layout.{
  Header, HeaderFits, header_bytes, length-header_bytes, HeaderOf, header_of,
}
use sync_bluetooth_devices.Packet.{
  AudioPacket, magic, validate, read_packet, deserialize, header_size, maximum_datagram_size,
}
use native.Mathlib.Decide.{dec_le}
use mathlib.Core.List.{append-nil}

-- The packet that a header and a payload stand for.
abbrev pub packet_of : Header → List ℕ → AudioPacket
packet_of h payload = record {
  protocol_version = h.version;
  flags = h.flags;
  session_id = h.session_id;
  stream_id = h.stream_id;
  sequence_number = h.sequence_number;
  sample_rate = h.sample_rate;
  channel_count = h.channel_count;
  sample_format = h.sample_format;
  start_frame = h.start_frame;
  presentation_timestamp_nanoseconds = h.timestamp;
  frame_count = h.frame_count;
  pcm_payload = payload;
}

-- What `read_packet` decides once the words are read.
unfoldable pub judge : Header → List ℕ → Result PacketError AudioPacket
judge h payload = do
  throw_if (not (h.size == header_size)) Words.bad_header_size
  throw_if (not (length payload == h.payload_size)) Words.inconsistent_payload
  validate (packet_of h payload)
  ok (packet_of h payload)

read_payload :
    (payload : List ℕ) (size : ℕ)
    → length payload ≡ size
    → read_bytes size payload ≡ ok (payload, [])
read_payload payload size h = rw (← h) (
    ap (λ xs. read_bytes (length payload) xs) (sym (append-nil payload))
    ∙ read_bytes-append payload [])

read_packet-header_bytes :
    (h : Header) (payload : List ℕ)
    → HeaderFits h
    → read_packet (header_bytes h payload) ≡ judge h payload
unfolding judge header_bytes
read_packet-header_bytes h payload f =
    unfold read_packet in
    rw (read_u8-bytes h.version _ f.version_u8, read_u8-bytes h.size _ f.size_u8)
      (elim (Bool-cases (h.size == header_size)) [
        | inl e ↦ rw e (
            rw
              (
                read_u16-bytes h.flags _ f.flags_u16,
                read_u64-bytes h.session_id _ f.session_u64,
                read_u32-bytes h.sequence_number _ f.sequence_u32,
                read_u32-bytes h.sample_rate _ f.rate_u32,
                read_u16-bytes h.channel_count _ f.channels_u16,
                read_u8-bytes h.sample_format _ f.format_u8,
                read_u8-bytes h.reserved _ f.reserved_u8,
                read_u64-bytes h.start_frame _ f.start_u64,
                read_u64-bytes h.timestamp _ f.timestamp_u64,
                read_u16-bytes h.payload_size _ f.payload_u16,
                read_u16-bytes h.frame_count _ f.frames_u16,
                read_u32-bytes h.stream_id _ f.stream_u32,
              )
              (elim (Bool-cases (length payload == h.payload_size)) [
                | inl e₂ ↦
                    unfold remaining in
                    rw e₂ (rw (read_payload payload h.payload_size ((==_iff _ _).0 e₂)) refl)
                | inr e₂ ↦ unfold remaining in rw e₂ refl
              ]))
        | inr e ↦ rw e refl
      ])

-- The whole of `deserialize` on a datagram in the layout.
pub deserialize-header_bytes :
    (a b c d : ℕ) (h : Header) (payload : List ℕ)
    → HeaderFits h
    → deserialize (a ∷ b ∷ c ∷ d ∷ header_bytes h payload) ≡ (do
      throw_if (ltb maximum_datagram_size (length payload + 52)) Words.oversized_datagram
      throw_if (not (text_eq (a ∷ b ∷ c ∷ d ∷ []) magic)) Words.bad_magic
      judge h payload)
deserialize-header_bytes a b c d h payload f =
    unfold deserialize in
    rw (read_bytes-append (a ∷ b ∷ c ∷ d ∷ []) (header_bytes h payload))
      (ground (arith, length-header_bytes h payload, read_packet-header_bytes h payload f))

-- A datagram that `deserialize` accepts, taken apart.
pub record Accepted (bytes : List ℕ) (p : AudioPacket) : Type 0 where
  pub header : Header
  pub payload : List ℕ
  pub fits : HeaderFits header
  pub payload_bytes : All IsByte payload
  pub is_layout : bytes ≡ magic ++ header_bytes header payload
  pub is_packet : p ≡ packet_of header payload
  pub size : header.size ≡ header_size
  pub payload_size : length payload ≡ header.payload_size
  pub short : length payload + 52 ≤ maximum_datagram_size
  pub valid : validate p ≡ ok tt

passed :
    (p : AudioPacket) (q : AudioPacket)
    → (do validate p; ok p) ≡ ok q
    → (q ≡ p) × (validate p ≡ ok tt)
passed p q e = let (t, v, o) = >>=-eq-ok (validate p) (λ _. ok p) e in (cc, v)

pub judged :
    (received : List ℕ) (h : Header) (payload : List ℕ) (p : AudioPacket)
    → (do
      throw_if (ltb maximum_datagram_size (length payload + 52)) Words.oversized_datagram
      throw_if (not (text_eq received magic)) Words.bad_magic
      judge h payload)
      ≡ ok p
    → (length payload + 52 ≤ maximum_datagram_size)
      × (text_eq received magic ≡ true)
      × (h.size ≡ header_size)
      × (length payload ≡ h.payload_size)
      × (p ≡ packet_of h payload)
      × (validate (packet_of h payload) ≡ ok tt)
unfolding judge
judged received h payload p e = ground (arith, passed (packet_of h payload) p)

accept :
    (a b c d : ℕ) (r : List ℕ) (h : HeaderOf r) (p : AudioPacket)
    → deserialize (a ∷ b ∷ c ∷ d ∷ r) ≡ ok p
    → Accepted (a ∷ b ∷ c ∷ d ∷ r) p
accept a b c d r h p e =
    let j =
      judged (a ∷ b ∷ c ∷ d ∷ []) h.header h.payload p
        (sym (deserialize-header_bytes a b c d h.header h.payload h.fits) ∙ rw (← h.is_header) e) in
    record {
      header = h.header;
      payload = h.payload;
      fits = h.fits;
      payload_bytes = h.bytes;
      is_layout =
          ap (λ m. m ++ r) (text_eq→eq (a ∷ b ∷ c ∷ d ∷ []) magic j.1)
          ∙ ap (λ t. magic ++ t) h.is_header;
      is_packet = j.4;
      size = j.2;
      payload_size = j.3;
      short = j.0;
      valid = rw j.4 j.5;
    }

short_datagram :
    (bytes : List ℕ) (p : AudioPacket) → length bytes < header_size → deserialize bytes ≢ ok p
unfolding deserialize
short_datagram bytes p h = rw (lt→ltb (length bytes) header_size h) (λ e. cc)

-- Every datagram that `deserialize` accepts is in the layout, and has a valid packet in it.
pub deserialize-Accepted :
    (bytes : List ℕ) (p : AudioPacket)
    → All IsByte bytes
    → deserialize bytes ≡ ok p
    → Accepted bytes p
deserialize-Accepted (a ∷ b ∷ c ∷ d ∷ r) p hb e = elim (dec_le 48 (length r)) [
  | yes long ↦ accept a b c d r (header_of r hb.1.1.1.1 long) p e
  | no short ↦ absurd (short_datagram _ p (omega arith) e)
]
deserialize-Accepted bytes p hb e = absurd (short_datagram bytes p (omega arith) e)
