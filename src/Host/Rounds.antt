-- ===== src/Host/Rounds.antt =====
-- A round of the loop in desktop/src/DesktopNetworkHost.cpp that sends a datagram.
use sync_bluetooth_devices.Common.{
  ℕ, ◌+◌, ◌-◌, ◌*◌, ◌%◌, ◌^◌, ◌<◌, ◌≤◌, ◌≡◌, ◌∙◌, refl, ap, sym, inl, inr, Bool-cases, Bool, true,
  false, List, [], ◌∷◌, ◌++◌, take, length, length-append, length-take, All, Result, ok, err, ◌>>=◌,
  throw_if, >>=-eq-ok, arith,
}
use native.Mathlib.Nat.{mod-lt}
use sync_bluetooth_devices.Common.Int.{ℤ, pos, negsuc, ltb_ℤ, ◌+ℤ◌, ◌-ℤ◌, int_laws}
use sync_bluetooth_devices.Playback.{
  PlaybackClock, frame_to_timestamp, frame_to_duration, ClockError, duration_max,
  timestamp_overflow,
}
use sync_bluetooth_devices.Packet.{serialize, deserialize}
use sync_bluetooth_devices.Packet.Words.{PacketError}
use sync_bluetooth_devices.Host.{
  DesktopNetworkHostStats, members, destination, deliver_members, HostStream, HostFormat, HostRound,
  Recipients, deliver, make_packet, send_frames, or_clock_error, or_packet_error, timestamp_count,
}
use sync_bluetooth_devices.Host.Frames.{decode_pcm-to_little_endian_pcm}
use sync_bluetooth_devices.Host.Stream.{
  Carries, Contiguous-append, IsStream, serialized, All-take, FormatFits, make_packet-Fits,
  frames_fit,
}

pub timestamp_bound :
    (c : PlaybackClock) (frame t : ℕ) → frame_to_timestamp c frame ≡ ok (pos t) → t < 2 ^ 63
unfolding frame_to_timestamp
timestamp_bound c frame t e =
    let offset = >>=-eq-ok (frame_to_duration c frame) _ e in bounded offset.0 offset.2
  where
    bounded :
        (o : ℕ)
        → (throw_if (ltb_ℤ (pos duration_max -ℤ pos o) c.start_time) timestamp_overflow
            >>= λ checked. ok (c.start_time +ℤ pos o))
          ≡ ok (pos t)
        → t < 2 ^ 63
    bounded o h = elim (Bool-cases (ltb_ℤ (pos duration_max -ℤ pos o) c.start_time)) [
      | inl late ↦ let no = rw late at h in cc no
      | inr fine ↦
          let sum : c.start_time +ℤ pos o ≡ pos t = cc (rw fine at h) in grind (int_laws, sum, fine)
    ]

pub timestamp_count-pos : (x : ℤ) (t : ℕ) → timestamp_count x ≡ ok t → x ≡ pos t
timestamp_count-pos (pos n) t e = cc e
timestamp_count-pos (negsuc n) t e = cc e

pub or_packet_error-ok :
    {A : Type 0} (x : Result PacketError A) (a : A) → or_packet_error x ≡ ok a → x ≡ ok a
or_packet_error-ok (ok b) a e = cc e
or_packet_error-ok (err b) a e = cc e

pub or_clock_error-ok :
    {A : Type 0} (x : Result ClockError A) (a : A) → or_clock_error x ≡ ok a → x ≡ ok a
or_clock_error-ok (ok b) a e = cc e
or_clock_error-ok (err b) a e = cc e

pub deliver_members-session :
    (sends : List Bool) (size : ℕ) (stats : DesktopNetworkHostStats)
    → (deliver_members sends size stats).session_id ≡ stats.session_id
unfolding deliver_members
deliver_members-session [] size stats = refl
deliver_members-session (true ∷ rest) size stats = deliver_members-session rest size _
deliver_members-session (false ∷ rest) size stats = deliver_members-session rest size _

abbrev pub session_of : DesktopNetworkHostStats → ℕ
session_of s = s.session_id

pub value_unique :
    {E : Type 0} {A : Type 0} (r : Result E A) (a b : A) → r ≡ ok a → r ≡ ok b → a ≡ b
value_unique r a b h k = cc (h, k)

pub deliver-session :
    (r : Recipients) (size : ℕ) (stats t : DesktopNetworkHostStats)
    → deliver r size stats ≡ ok t
    → t.session_id ≡ stats.session_id
unfolding deliver
deliver-session (members sends) size stats t e =
    let same : deliver_members sends size stats ≡ t = cc e in
    rw (← same) (deliver_members-session sends size stats)
deliver-session (destination true) size stats t e =
    ap session_of (value_unique (deliver (destination true) size stats) t _ e refl)
deliver-session (destination false) size stats t e = cc e

-- The stream behind one more datagram.
abbrev pub sent_one : HostStream → ℕ → List ℕ → List ℕ → DesktopNetworkHostStats → HostStream
sent_one s frames samples datagram stats = record {
  stats = record stats {
    packets_sent = (stats.packets_sent + 1) % 2 ^ 64;
    frames_sent = (stats.frames_sent + frames) % 2 ^ 64;
  };
  start_frame = (s.start_frame + frames) % 2 ^ 64;
  sequence_number = (s.sequence_number + 1) % 2 ^ 32;
  datagrams = s.datagrams ++ (datagram ∷ []);
  chunks = s.chunks ++ (samples ∷ []);
}

pub sent_one-IsStream :
    (f : HostFormat) (s : HostStream) (timestamp frames : ℕ) (samples datagram : List ℕ)
    (stats : DesktopNetworkHostStats)
    → frame_to_timestamp f.clock ((s.start_frame + 2 ^ 64 - f.initial_frame) % 2 ^ 64)
      ≡ ok (pos timestamp)
    → length samples ≡ frames * f.channel_count
    → All (λ b. b < 2 ^ 16) samples
    → deserialize datagram ≡ ok (make_packet f s timestamp frames samples)
    → frames < 2 ^ 16
    → s.start_frame + frames < 2 ^ 64
    → stats.session_id ≡ s.stats.session_id
    → IsStream f s
    → IsStream f (sent_one s frames samples datagram stats)
sent_one-IsStream f s timestamp frames samples datagram stats at_ts len bits back small no_wrap
      session v =
    let count : frames % 2 ^ 16 ≡ frames = omega (arith, small) in
    let end : (s.start_frame + frames) % 2 ^ 64 ≡ s.start_frame + frames % 2 ^ 16 =
      omega (arith, no_wrap, small) in
    let one : Carries f s.stats.session_id (length s.datagrams) s.start_frame datagram samples =
      unfold make_packet in
      record {
        packet = make_packet f s timestamp frames samples;
        parsed = back;
        session_id = refl;
        stream_id = refl;
        sequence = v.sequence;
        starts = refl;
        timestamp = at_ts;
        content = decode_pcm-to_little_endian_pcm samples bits;
        whole = len ∙ ap (λ n. n * f.channel_count) (sym count);
      } in
    record {
      session = omega (arith, v.session, session);
      sequence = omega (arith, v.sequence, length-append s.datagrams (datagram ∷ []));
      start = mod-lt (s.start_frame + frames) (omega arith);
      carried =
          rw (session, end)
            (unfold make_packet in
              Contiguous-append f s.stats.session_id 0 (length s.datagrams) f.initial_frame
                s.datagrams s.chunks s.start_frame datagram samples (omega arith) v.carried one);
    }

-- A round that sends keeps the stream contiguous.
pub send_frames-IsStream :
    (f : HostFormat) (s t : HostStream) (presentation : ℤ) (frames : ℕ) (r : HostRound)
    → FormatFits f
    → frame_to_timestamp f.clock ((s.start_frame + 2 ^ 64 - f.initial_frame) % 2 ^ 64)
      ≡ ok presentation
    → frames * f.channel_count ≤ length r.samples
    → All (λ b. b < 2 ^ 16) r.samples
    → send_frames f s presentation frames r ≡ ok t
    → IsStream f s
    → IsStream f t
unfolding send_frames
send_frames-IsStream f s t presentation frames r fits at_clock filled bits e v =
    let samples = take (frames * f.channel_count) r.samples in
    let a = >>=-eq-ok (timestamp_count presentation) _ e in
    let p = make_packet f s a.0 frames samples in
    let b = >>=-eq-ok (or_packet_error (serialize p)) _ a.2 in
    let c = >>=-eq-ok (deliver r.recipients (length b.0) s.stats) _ b.2 in
    let made : serialize p ≡ ok b.0 = or_packet_error-ok (serialize p) b.0 b.1 in
    let at_ts : frame_to_timestamp f.clock ((s.start_frame + 2 ^ 64 - f.initial_frame) % 2 ^ 64)
        ≡ ok (pos a.0) =
      at_clock ∙ ap ok (timestamp_count-pos presentation a.0 a.1) in
    let early =
      timestamp_bound f.clock ((s.start_frame + 2 ^ 64 - f.initial_frame) % 2 ^ 64) a.0 at_ts in
    let chunk_bits = All-take (frames * f.channel_count) r.samples bits in
    let back =
      serialized p b.0
        (make_packet-Fits f s a.0 frames samples fits v (omega (arith, early)) chunk_bits) made in
    let len : length samples ≡ frames * f.channel_count =
      omega (arith, length-take (frames * f.channel_count) r.samples, filled) in
    let small = frames_fit f s a.0 frames samples len back.1 in
    let kept = deliver-session r.recipients (length b.0) s.stats c.0 c.1 in
    let next : t ≡ sent_one s frames samples b.0 c.0 =
      value_unique _ t (sent_one s frames samples b.0 c.0) c.2 refl in
    rw next (
      sent_one-IsStream f s a.0 frames samples b.0 c.0 at_ts len chunk_bits back.0 small.0 small.1
        kept v)
