-- ===== src/Jitter/Push.antt =====
-- `push` and `readFrames` of core/src/JitterBuffer.cpp keep a buffer well formed.
use sync_bluetooth_devices.Common.{
  ℕ, ◌+◌, ◌*◌, ◌%◌, ◌^◌, ◌≤◌, ◌<◌, ◌≡◌, ◌⊎◌, inl, inr, refl, Bool, false, Bool-cases, List, [], ◌∷◌,
  leb, ◌==◌, max, length, Option, none, some, All, arith,
}
use sync_bluetooth_devices.Common.Int.{ℤ}
use sync_bluetooth_devices.Common.Floats.{Floats}
use sync_bluetooth_devices.Packet.{AudioPacket}
use sync_bluetooth_devices.Jitter.Store.{BufferedPacket, end_frame, prune, contains}
use sync_bluetooth_devices.Jitter.Overlay.{IsPacket, Ascending}
use sync_bluetooth_devices.Jitter.Invariant.{
  All-prune, Ascending-prune, length-prune, All-try_emplace, Ascending-try_emplace,
  length-try_emplace, All-shrink, Ascending-shrink, length-shrink, length-decode_pcm, HasFormat,
  IsBuffer,
}
use sync_bluetooth_devices.Jitter.{
  JitterBuffer, JitterBufferFormat, capacity, buffered_packet, is_bad_format, is_other_format,
  shrink, jitter_buffer, record_arrival, store, push, read_frames,
}

All-mono :
    (m n : ℕ) (ps : List BufferedPacket)
    → m ≤ n
    → All (λ p. end_frame p ≤ m) ps
    → All (λ p. end_frame p ≤ n) ps
All-mono m n [] h a = tt
All-mono m n (p ∷ ps) h a = (omega (arith, a.0), All-mono m n ps h a.1)

-- Fewer packets, each of them there before, keep the format.
HasFormat-prune :
    (read : ℕ) (f : Option JitterBufferFormat) (ps : List BufferedPacket)
    → HasFormat f ps
    → HasFormat f (prune read ps)
HasFormat-prune read none ps h = rw h (unfold prune in refl)
HasFormat-prune read (some f) ps h = (h.0, All-prune (IsPacket f.channel_count) read ps h.1)

HasFormat-shrink :
    (f : Option JitterBufferFormat) (ps : List BufferedPacket)
    → HasFormat f ps
    → HasFormat f (shrink ps).0
HasFormat-shrink none ps h = rw h (unfold shrink in refl)
HasFormat-shrink (some f) ps h = (h.0, All-shrink (IsPacket f.channel_count) ps h.1)

-- A packet that passes the checks of `push`, and is stored with `channels`.
record IsAccepted (packet : AudioPacket) : Type 0 where
  channels : (packet.channel_count ≡ 1) ⊎ (packet.channel_count ≡ 2)
  stored : IsPacket packet.channel_count (buffered_packet packet)

accepted :
    (packet : AudioPacket)
    → packet.frame_count < 2 ^ 16
    → is_bad_format packet ≡ false
    → length packet.pcm_payload ≡ packet.frame_count * packet.channel_count * 2
    → IsAccepted packet
accepted packet frames good size = record {
  channels = ground arith;
  stored = record {
    frames = ground arith;
    no_wrap = ground arith;
    size = omega (arith, size, length-decode_pcm packet.pcm_payload);
  };
}

HasFormat-incoming :
    (packet : AudioPacket) (f : Option JitterBufferFormat) (ps : List BufferedPacket)
    → IsAccepted packet
    → HasFormat f ps
    → is_other_format f
        (record { sample_rate = packet.sample_rate; channel_count = packet.channel_count })
      ≡ false
    → All (IsPacket packet.channel_count) ps
HasFormat-incoming packet none ps x h same = rw h tt
HasFormat-incoming packet (some f) ps x h same =
    let e : packet.channel_count ≡ f.channel_count = ground arith in rw e h.1

module _ (F : Floats) where
  open F use {Double}

  record_arrival-IsBuffer :
      (b : JitterBuffer Double) (packet : AudioPacket) (arrival : ℤ)
      → HasFormat b.format b.packets
      → Ascending 0 b.packets
      → length b.packets ≤ capacity + 1
      → All
          (λ p.
            end_frame p
            ≤ max b.latest_end_frame ((packet.start_frame + packet.frame_count) % 2 ^ 64))
          b.packets
      → IsBuffer (record_arrival F b packet arrival)
  unfolding record_arrival
  record_arrival-IsBuffer b packet arrival f a l e = record {
    format = HasFormat-shrink b.format b.packets f;
    order = Ascending-shrink b.packets a;
    size = length-shrink b.packets l;
    ends = All-shrink _ b.packets e;
    published = refl;
  }

  pruned-IsBuffer :
      (b : JitterBuffer Double)
      → IsBuffer b
      → IsBuffer (record b { packets = prune b.latest_read_frame b.packets })
  pruned-IsBuffer b v = record {
    format = HasFormat-prune b.latest_read_frame b.format b.packets v.format;
    order = Ascending-prune b.latest_read_frame 0 b.packets v.order;
    size = omega (arith, v.size, length-prune b.latest_read_frame b.packets);
    ends = All-prune _ b.latest_read_frame b.packets v.ends;
    published = v.published;
  }

  store-IsBuffer :
      (b₀ : JitterBuffer Double) (packet : AudioPacket) (arrival : ℤ)
      → IsAccepted packet
      → IsBuffer b₀
      → IsBuffer (store F b₀ packet arrival).0
  store-IsBuffer b₀ packet arrival x v =
      let b = record b₀ { packets = prune b₀.latest_read_frame b₀.packets } in
      let w : IsBuffer b = pruned-IsBuffer b₀ v in
      let incoming : JitterBufferFormat = record {
        sample_rate = packet.sample_rate;
        channel_count = packet.channel_count;
      } in
      let q = buffered_packet packet in
      unfold store in
      elim (Bool-cases
        (leb ((packet.start_frame + packet.frame_count) % 2 ^ 64) b₀.latest_read_frame)) [
          | inl late ↦ rw late (record {
            format = w.format;
            order = w.order;
            size = w.size;
            ends = w.ends;
            published = w.published;
          })
          | inr timely ↦ rw timely (elim (Bool-cases (is_other_format b₀.format incoming)) [
            | inl other ↦ rw other w
            | inr same ↦ rw same (
                let alike = HasFormat-incoming packet b₀.format b.packets x w.format same in
                elim (Bool-cases (contains packet.start_frame b.packets)) [
                  | inl twice ↦ rw twice (record {
                    format = (x.channels, alike);
                    order = w.order;
                    size = w.size;
                    ends = w.ends;
                    published = w.published;
                  })
                  | inr new ↦ rw new (
                      record_arrival-IsBuffer _ packet arrival
                        (
                          x.channels,
                          All-try_emplace (IsPacket packet.channel_count) q b.packets x.stored
                              alike,
                        )
                        (Ascending-try_emplace q 0 b.packets (omega arith) w.order)
                        (omega (arith, w.size, length-try_emplace q b.packets))
                        (All-try_emplace _ q b.packets (omega arith)
                          (All-mono b₀.latest_end_frame _ b.packets (omega arith) w.ends)))
                ])
          ])
        ]

  -- Whatever packet arrives and whenever, `push` leaves the buffer well formed: packets only under a
  -- format, each with frames, unwrapped frame numbers and a sample for each frame and channel of the
  -- format; in order of their start frames, no two alike; at most 1024; none beyond the latest end
  -- frame, which is also the published one.
  pub push-IsBuffer :
      (b : JitterBuffer Double) (packet : AudioPacket) (arrival : ℤ)
      → packet.frame_count < 2 ^ 16
      → IsBuffer b
      → IsBuffer (push F b packet arrival).0
  unfolding push
  push-IsBuffer b packet arrival frames v = elim (Bool-cases (is_bad_format packet)) [
    | inl bad ↦ rw bad v
    | inr good ↦
        rw good
          (elim (Bool-cases
            (length packet.pcm_payload == packet.frame_count * packet.channel_count * 2)) [
              | inl size ↦
                  rw size
                    (store-IsBuffer b packet arrival (accepted packet frames good (ground arith)) v)
              | inr odd ↦ rw odd v
            ])
  ]

  read_frames_keeps :
      (b : JitterBuffer Double) (locked : Bool) (start size : ℕ) (retain : Bool)
      → let r = (read_frames F b locked start size retain).0 in
        (r.packets ≡ b.packets)
        × (b.latest_read_frame ≤ r.latest_read_frame)
        × (r.format ≡ b.format)
        × (r.latest_end_frame ≡ b.latest_end_frame)
        × (r.latest_end_frame_atomic ≡ b.latest_end_frame_atomic)
        × (r ≡ record b { latest_read_frame = r.latest_read_frame })
  unfolding read_frames
  read_frames_keeps b locked start size retain = ground arith

  -- Reading, whatever becomes of the lock and of the output, changes nothing of the buffer but the mark up
  -- to which frames have been read, which never goes back, and leaves it well formed.
  pub read_frames-IsBuffer :
      (b : JitterBuffer Double) (locked : Bool) (start size : ℕ) (retain : Bool)
      → IsBuffer b
      → IsBuffer (read_frames F b locked start size retain).0
        × ((read_frames F b locked start size retain).0 ≡ record b {
          latest_read_frame = (read_frames F b locked start size retain).0.latest_read_frame;
        })
        × ((read_frames F b locked start size retain).0.packets ≡ b.packets)
        × (b.latest_read_frame ≤ (read_frames F b locked start size retain).0.latest_read_frame)
  read_frames-IsBuffer b locked start size retain v =
      let (kept, read, format, latest, published, whole) =
        read_frames_keeps b locked start size retain in
      (
        record {
          format = rw (format, kept) (v.format);
          order = rw kept (v.order);
          size = rw kept (v.size);
          ends = rw (kept, latest) (v.ends);
          published = rw (published, latest) (v.published);
        },
        whole,
        kept,
        read,
      )

  pub jitter_buffer-IsBuffer : IsBuffer (jitter_buffer F)
  unfolding jitter_buffer
  jitter_buffer-IsBuffer = record {
    format = refl;
    order = tt;
    size = omega arith;
    ends = tt;
    published = refl;
  }
