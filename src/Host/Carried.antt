-- ===== src/Host/Carried.antt =====
-- The whole loop of desktop/src/DesktopNetworkHost.cpp, and what its datagrams carry.
use sync_bluetooth_devices.Common.{
  ℕ, ◌+◌, ◌-◌, ◌*◌, ◌%◌, ◌^◌, ◌<◌, ◌≤◌, ◌≡◌, refl, ap, inl, inr, Bool-cases, Bool, true, false,
  ◌||◌, ◌&&◌, not, List, [], ◌∷◌, length, ◌==◌, All, Option, some, none, Result, ok, throw_if,
  >>=-eq-ok, if◌then◌else◌, arith,
}
use sync_bluetooth_devices.Common.Int.{ℤ, ◌+ℤ◌}
use sync_bluetooth_devices.Common.Floats.{Floats}
use sync_bluetooth_devices.Playback.{playback_clock, PlaybackClock, frame_to_timestamp}
use sync_bluetooth_devices.Host.{
  HostError, route_changed, DesktopNetworkHostConfig, stream_file, seek_failed, format_mismatch,
  decoder_channels, frames_per_packet, nanoseconds_of, DesktopNetworkHostStats, HostStream,
  HostFormat, HostRound, RoundResult, goes_on, ends, send_frames, send_or_end, read_and_send,
  host_round, after_round, stream, or_clock_error, or_decode_failed,
}
use sync_bluetooth_devices.Host.Stream.{Contiguous, Reads, IsStream, FormatFits}
use sync_bluetooth_devices.Host.Rounds.{or_clock_error-ok, value_unique, send_frames-IsStream}

-- The end of a stream changes nothing that was sent.
with_stats-IsStream :
    (f : HostFormat) (s : HostStream) (stats : DesktopNetworkHostStats)
    → stats.session_id ≡ s.stats.session_id
    → IsStream f s
    → IsStream f (record s { stats = stats })
with_stats-IsStream f s stats same v = record {
  session = omega (arith, same, v.session);
  sequence = v.sequence;
  start = v.start;
  carried = rw same v.carried;
}

abbrev pub stream_of : RoundResult → HostStream
stream_of (goes_on s) = s
stream_of (ends s) = s

or_decode_failed-ok : (x : Option ℕ) (n : ℕ) → or_decode_failed x ≡ ok n → x ≡ some n
or_decode_failed-ok none n e = cc e
or_decode_failed-ok (some m) n e = cc e

send_or_end-IsStream :
    (f : HostFormat) (s : HostStream) (presentation : ℤ) (frames : ℕ) (r : HostRound)
    (result : RoundResult)
    → FormatFits f
    → frame_to_timestamp f.clock ((s.start_frame + 2 ^ 64 - f.initial_frame) % 2 ^ 64)
      ≡ ok presentation
    → frames * f.channel_count ≤ length r.samples
    → All (λ b. b < 2 ^ 16) r.samples
    → send_or_end f s presentation frames r ≡ ok result
    → IsStream f s
    → IsStream f (stream_of result)
unfolding send_or_end
send_or_end-IsStream f s presentation frames r result fits clock filled bits e v =
    elim (Bool-cases (frames == 0)) [
      | inl none_left ↦
          let same = value_unique _ result _ (rw none_left at e) refl in
          rw same (with_stats-IsStream f s _ refl v)
      | inr more ↦
          let a = >>=-eq-ok (send_frames f s presentation frames r) _ (rw more at e) in
          let same = value_unique _ result (goes_on a.0) a.2 refl in
          rw same (send_frames-IsStream f s a.0 presentation frames r fits clock filled bits a.1 v)
    ]

abbrev first : HostStream × Bool → HostStream
first x = x.0

after_round-IsStream :
    (f : HostFormat) (t : HostStream) (done : Bool) (result : RoundResult)
    (rest : HostStream → Result HostError (HostStream × Bool))
    → after_round result rest ≡ ok (t, done)
    → IsStream f (stream_of result)
    → ((u : HostStream) → rest u ≡ ok (t, done) → IsStream f u → IsStream f t)
    → IsStream f t
unfolding after_round
after_round-IsStream f t done (goes_on s) rest e v go = go s e v
after_round-IsStream f t done (ends s) rest e v go =
    let same = ap first (
      value_unique _ (record s { stats = record s.stats { last_frame = s.start_frame } }, true)
        (t, done) refl e) in
    rw (← same) (with_stats-IsStream f s (record s.stats { last_frame = s.start_frame }) refl v)

-- The format of `streamFile`.
abbrev format_of : DesktopNetworkHostConfig → ℕ → ℕ → PlaybackClock → ℕ → HostFormat
format_of config rate channels clock initial_frame = record {
  clock = clock;
  sample_rate = rate;
  channel_count = channels;
  stream_id = config.stream_id;
  send_ahead = config.send_ahead;
  initial_frame = initial_frame;
}

decoder_channels-ok : (n m : ℕ) → decoder_channels n ≡ ok m → (m ≡ n) × (n < 2 ^ 16)
unfolding decoder_channels
decoder_channels-ok n m e = (ground (arith, e), ground (arith, e))

session_fits :
    (session drawn : ℕ)
    → session < 2 ^ 64
    → drawn < 2 ^ 64
    → (if session == 0 then drawn else session) < 2 ^ 64
session_fits session drawn h k = ground arith

module _ (F : Floats) (truncate : F.Double → ℕ) where
  read_and_send-IsStream :
      (f : HostFormat) (r : HostRound) (s : HostStream) (presentation : ℤ) (requested : Option ℕ)
      (result : RoundResult)
      → FormatFits f
      → Reads f.channel_count r
      → frame_to_timestamp f.clock ((s.start_frame + 2 ^ 64 - f.initial_frame) % 2 ^ 64)
        ≡ ok presentation
      → read_and_send F truncate f s presentation requested r ≡ ok result
      → IsStream f s
      → IsStream f (stream_of result)
  unfolding read_and_send
  read_and_send-IsStream f r s presentation none result fits reads clock e v =
      let same = value_unique _ result _ e refl in rw same (with_stats-IsStream f s _ refl v)
  read_and_send-IsStream f r s presentation (some requested) result fits reads clock e v =
      let a = >>=-eq-ok (or_decode_failed (r.frames_read requested)) _ e in
      let read = or_decode_failed-ok (r.frames_read requested) a.0 a.1 in
      send_or_end-IsStream f s presentation a.0 r result fits clock
        (reads.filled requested a.0 read) reads.bits a.2 v

  pub host_round-IsStream :
      (f : HostFormat) (r : HostRound) (s : HostStream) (result : RoundResult)
      → FormatFits f
      → Reads f.channel_count r
      → host_round F truncate f r s ≡ ok result
      → IsStream f s
      → IsStream f (stream_of result)
  unfolding host_round
  host_round-IsStream f r s result fits reads e v =
      let a = >>=-eq-ok (throw_if r.output_route_changed route_changed) _ e in
      let at = (s.start_frame + 2 ^ 64 - f.initial_frame) % 2 ^ 64 in
      let b = >>=-eq-ok (or_clock_error (frame_to_timestamp f.clock at)) _ a.2 in
      read_and_send-IsStream f r s b.0 _ result fits reads
        (or_clock_error-ok (frame_to_timestamp f.clock at) b.0 b.1) b.2 v

  pub stream-IsStream :
      (f : HostFormat) (rounds : List HostRound) (s t : HostStream) (done : Bool)
      → FormatFits f
      → All (Reads f.channel_count) rounds
      → stream F truncate f rounds s ≡ ok (t, done)
      → IsStream f s
      → IsStream f t
  unfolding stream
  stream-IsStream f [] s t done fits reads e v =
      let same = ap first (value_unique _ (s, false) (t, done) refl e) in rw (← same) v
  stream-IsStream f (r ∷ rest) s t done fits reads e v =
      let a = >>=-eq-ok (host_round F truncate f r s) _ e in
      let v₁ = host_round-IsStream f r s a.0 fits reads.0 a.1 v in
      after_round-IsStream f t done a.0 (stream F truncate f rest) a.2 v₁
        (λ u h w. stream-IsStream f rest u t done fits reads.1 h w)

  -- When `streamFile` returns, or has got through these rounds, the datagrams that it has sent carry the
  -- audio: in the order in which they were sent, each parses (as the clients parse it) to a packet of the
  -- stream's session, the sequence numbers count up from 0 modulo 2^32, the first packet starts at the first
  -- frame asked for and each other one at the frame behind the one before, the timestamps are those of the
  -- clock that starts at the playback's start plus the output latency, and the payload decodes to the
  -- samples that were read for it. This for a format, a session and a first frame that fit their types
  -- and a decoder that fills what it says it read.
  pub stream_file_carries :
      (config : DesktopNetworkHostConfig) (rate channels : ℕ) (seeks : Bool) (drawn : ℕ)
      (start_time : ℤ) (expected_rate expected_channels initial_frame : ℕ) (rounds : List HostRound)
      (t : HostStream) (done : Bool)
      → rate < 2 ^ 32
      → config.stream_id < 2 ^ 32
      → config.session_id < 2 ^ 64
      → drawn < 2 ^ 64
      → initial_frame < 2 ^ 64
      → All (Reads channels) rounds
      → stream_file F truncate config rate channels seeks drawn start_time expected_rate
          expected_channels initial_frame rounds
        ≡ ok (t, done)
      → (f : HostFormat) × (playback_clock rate
            (start_time +ℤ nanoseconds_of config.host_output_latency)
          ≡ ok f.clock)
        × (f.stream_id ≡ config.stream_id)
        × (f.initial_frame ≡ initial_frame)
        × Contiguous f t.stats.session_id 0 initial_frame t.datagrams t.chunks t.start_frame
  unfolding stream_file
  stream_file_carries config rate channels seeks drawn start_time expected_rate expected_channels
        initial_frame rounds t done hr hs hc hd hi reads e =
      let a = >>=-eq-ok (throw_if (not (initial_frame == 0) && not seeks) seek_failed) _ e in
      let b = >>=-eq-ok (decoder_channels channels) _ a.2 in
      let c =
        >>=-eq-ok
          (throw_if (not (rate == expected_rate) || not (b.0 == expected_channels)) format_mismatch)
          _ b.2 in
      let d = >>=-eq-ok (frames_per_packet rate b.0 config.desired_packet_duration) _ c.2 in
      let k =
        >>=-eq-ok
          (or_clock_error
            (playback_clock rate (start_time +ℤ nanoseconds_of config.host_output_latency)))
          _ d.2 in
      let clock =
        or_clock_error-ok
          (playback_clock rate (start_time +ℤ nanoseconds_of config.host_output_latency)) k.0 k.1 in
      let same : (b.0 ≡ channels) × (channels < 2 ^ 16) = decoder_channels-ok channels b.0 b.1 in
      let fits : FormatFits (format_of config rate b.0 k.0 initial_frame) = record {
        rate_u32 = hr;
        channels_u16 = omega (arith, same.0, same.1);
        stream_u32 = hs;
        initial_u64 = hi;
      } in
      let v =
        stream-IsStream (format_of config rate b.0 k.0 initial_frame) rounds _ t done fits
          (rw (same.0) reads) k.2
          (record {
            session = session_fits config.session_id drawn hc hd;
            sequence = refl;
            start = hi;
            carried = refl;
          }) in
      (format_of config rate b.0 k.0 initial_frame, clock, refl, refl, v.carried)
