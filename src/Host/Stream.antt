-- ===== src/Host/Stream.antt =====
-- What the datagrams of desktop/src/DesktopNetworkHost.cpp carry to the clients.
use sync_bluetooth_devices.Common.{
  ℕ, zero, suc, ◌+◌, ◌-◌, ◌*◌, ◌%◌, ◌^◌, ◌<◌, ◌≤◌, ◌≡◌, ◌∙◌, ap, sym, inl, inr, List, [], ◌∷◌, ◌++◌,
  take, length, All, some, ok, >>=-eq-ok, arith,
}
use native.Mathlib.Nat.{mod-lt}
use sync_bluetooth_devices.Common.Int.{pos}
use sync_bluetooth_devices.Playback.{frame_to_timestamp}
use sync_bluetooth_devices.Packet.{AudioPacket, Fits, validate, serialize, deserialize}
use sync_bluetooth_devices.Packet.Validity.{IsValid, validate→IsValid}
use sync_bluetooth_devices.Packet.RoundTrip.{deserialize-serialize}
use sync_bluetooth_devices.Jitter.Store.{decode_pcm}
use sync_bluetooth_devices.Host.{HostStream, HostFormat, HostRound, make_packet}
use sync_bluetooth_devices.Host.Frames.{to_little_endian_pcm-bytes, length-to_little_endian_pcm}

-- A datagram parses to a packet of the stream with sequence number `n` and first frame `start`, whose
-- timestamp is the clock's for that frame and whose payload decodes to these samples.
pub record Carries (f : HostFormat) (session n start : ℕ) (datagram samples : List ℕ) : Type 0 where
  pub packet : AudioPacket
  pub parsed : deserialize datagram ≡ ok packet
  pub session_id : packet.session_id ≡ session
  pub stream_id : packet.stream_id ≡ f.stream_id
  pub sequence : packet.sequence_number ≡ n % 2 ^ 32
  pub starts : packet.start_frame ≡ start
  pub timestamp :
      frame_to_timestamp f.clock ((start + 2 ^ 64 - f.initial_frame) % 2 ^ 64)
      ≡ ok (pos packet.presentation_timestamp_nanoseconds)
  pub content : decode_pcm packet.pcm_payload ≡ samples
  pub whole : length samples ≡ packet.frame_count * packet.channel_count

-- Datagrams that follow one another: the sequence numbers count up from `n`, and each starts at the frame
-- behind the one before, from `start` to `end`.
abbrev pub Contiguous : HostFormat → ℕ → ℕ → ℕ → List (List ℕ) → List (List ℕ) → ℕ → Type 0
Contiguous f session n start [] [] end = start ≡ end
Contiguous f session n start [] (c ∷ cs) end = 1 ≤ 0
Contiguous f session n start (d ∷ ds) [] end = 1 ≤ 0
Contiguous f session n start (d ∷ ds) (c ∷ cs) end =
    (one : Carries f session n start d c) × Contiguous f session (suc n)
      (start + one.packet.frame_count) ds cs end

pub Contiguous-append :
    (f : HostFormat) (session n m start : ℕ) (ds cs : List (List ℕ)) (end : ℕ) (d c : List ℕ)
    → m ≡ n + length ds
    → Contiguous f session n start ds cs end
    → (one : Carries f session m end d c)
    → Contiguous f session n start (ds ++ (d ∷ [])) (cs ++ (c ∷ [])) (end + one.packet.frame_count)
Contiguous-append f session n m start [] [] end d c e h one =
    let same : m ≡ n = omega (arith, e) in
    (
      record {
        packet = one.packet;
        parsed = one.parsed;
        session_id = one.session_id;
        stream_id = one.stream_id;
        sequence = one.sequence ∙ ap (λ k. k % 2 ^ 32) same;
        starts = one.starts ∙ sym h;
        timestamp = rw h one.timestamp;
        content = one.content;
        whole = one.whole;
      },
      omega (arith, h),
    )
Contiguous-append f session n m start [] (c₁ ∷ cs) end d c e h one = absurd (omega (arith, h))
Contiguous-append f session n m start (d₁ ∷ ds) [] end d c e h one = absurd (omega (arith, h))
Contiguous-append f session n m start (d₁ ∷ ds) (c₁ ∷ cs) end d c e h one = (
  h.0,
  Contiguous-append f session (suc n) m (start + h.0.packet.frame_count) ds cs end d c
      (omega (arith, e)) h.1 one,
)

-- What the decoder promises: it fills the samples of the frames that it says it read.
pub record Reads (channels : ℕ) (r : HostRound) : Type 0 where
  pub filled :
      (requested frames : ℕ)
      → r.frames_read requested ≡ some frames
      → frames * channels ≤ length r.samples
  pub bits : All (λ b. b < 2 ^ 16) r.samples

-- The stream so far.
pub record IsStream (f : HostFormat) (s : HostStream) : Type 0 where
  pub session : s.stats.session_id < 2 ^ 64
  pub sequence : s.sequence_number ≡ length s.datagrams % 2 ^ 32
  pub start : s.start_frame < 2 ^ 64
  pub carried : Contiguous f s.stats.session_id 0 f.initial_frame s.datagrams s.chunks s.start_frame

-- A packet that was serialized comes back.
pub serialize-valid : (p : AudioPacket) (d : List ℕ) → serialize p ≡ ok d → validate p ≡ ok tt
unfolding serialize
serialize-valid p d e = (>>=-eq-ok (validate p) _ e).1

pub serialized :
    (p : AudioPacket) (d : List ℕ)
    → Fits p
    → serialize p ≡ ok d
    → (deserialize d ≡ ok p) × IsValid p
serialized p d f e =
    let valid : validate p ≡ ok tt = serialize-valid p d e in
    let back = deserialize-serialize p f valid in
    let same : back.0 ≡ d = cc (back.1, e) in
    (rw same at back.2, validate→IsValid p f.frames_u16 valid)

pub All-take : (n : ℕ) (xs : List ℕ) → All (λ b. b < 2 ^ 16) xs → All (λ b. b < 2 ^ 16) (take n xs)
All-take zero xs h = tt
All-take (suc n) [] h = tt
All-take (suc n) (x ∷ xs) h = (h.0, All-take n xs h.1)

-- The fields of the format have their C++ types.
pub record FormatFits (f : HostFormat) : Type 0 where
  pub rate_u32 : f.sample_rate < 2 ^ 32
  pub channels_u16 : f.channel_count < 2 ^ 16
  pub stream_u32 : f.stream_id < 2 ^ 32
  pub initial_u64 : f.initial_frame < 2 ^ 64

pub make_packet-Fits :
    (f : HostFormat) (s : HostStream) (timestamp frames : ℕ) (samples : List ℕ)
    → FormatFits f
    → IsStream f s
    → timestamp < 2 ^ 64
    → All (λ b. b < 2 ^ 16) samples
    → Fits (make_packet f s timestamp frames samples)
unfolding make_packet
make_packet-Fits f s timestamp frames samples fits v time bits = record {
  version_u8 = omega arith;
  flags_u16 = omega arith;
  session_u64 = v.session;
  stream_u32 = fits.stream_u32;
  sequence_u32 = omega (arith, v.sequence);
  rate_u32 = fits.rate_u32;
  channels_u16 = fits.channels_u16;
  format_u8 = omega arith;
  start_u64 = v.start;
  timestamp_u64 = time;
  frames_u16 = mod-lt frames (omega arith);
  bytes = to_little_endian_pcm-bytes samples bits;
}

-- What a valid packet of `frames` frames says of them.
pub frames_fit :
    (f : HostFormat) (s : HostStream) (timestamp frames : ℕ) (samples : List ℕ)
    → length samples ≡ frames * f.channel_count
    → IsValid (make_packet f s timestamp frames samples)
    → (frames < 2 ^ 16) × (s.start_frame + frames < 2 ^ 64)
unfolding make_packet
frames_fit f s timestamp frames samples len v =
    let bytes = length-to_little_endian_pcm samples in
    let small : frames < 2 ^ 16 = elim v.channels [
      | inl one ↦
          let few : length samples ≡ frames * 1 = rw one at len in omega (arith, v.fits, bytes, few)
      | inr two ↦
          let few : length samples ≡ frames * 2 = rw two at len in omega (arith, v.fits, bytes, few)
    ] in
    (small, omega (arith, v.no_wrap, small))
