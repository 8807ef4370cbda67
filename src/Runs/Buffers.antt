-- ===== src/Runs/Buffers.antt =====
-- A buffer that takes one packet, a reader of the packet's frames, and a run of sequence numbers
-- with two losses, one of which comes late.
use sync_bluetooth_devices.Common.{
  ℕ, ◌+◌, ◌-◌, ◌/◌, ◌≤◌, ◌≡◌, refl, true, false, [], ◌∷◌, ltb, leb, some, get_or, arith,
}
use sync_bluetooth_devices.Common.Int.{pos, pos_part}
use sync_bluetooth_devices.Common.Floats.{Floats}
use sync_bluetooth_devices.Jitter.{
  JitterBuffer, JitterBufferFormat, jitter_buffer, record_arrival, push, read_frames, store,
}
use sync_bluetooth_devices.Jitter.Store
use sync_bluetooth_devices.Jitter.Store.{prune}
use sync_bluetooth_devices.Jitter.Invariant.{IsBuffer}
use sync_bluetooth_devices.Jitter.Overlay.{overlay}
use sync_bluetooth_devices.Jitter.Push.{push-IsBuffer, read_frames-IsBuffer, jitter_buffer-IsBuffer}
use sync_bluetooth_devices.Jitter.Read.{read_frames-overlay}
use sync_bluetooth_devices.Receiver.{statistics, contains}
use sync_bluetooth_devices.Receiver.Losses.{IsExact, update_all, update_all-IsExact, highest_of}
use sync_bluetooth_devices.Runs.Packets.{two_frames}

-- Whole numbers in place of doubles.
abbrev pub naturals : Floats
naturals = record {
  Double = ℕ;
  lit = λ n d. n / d;
  of_int = pos_part;
  add = λ x y. x + y;
  sub = λ x y. x - y;
  mul = λ x y. x;
  div = λ x y. x / y;
  abs = λ x. x;
  neg = λ x. x;
  ltb = ltb;
  leb = leb;
  is_finite = λ x. true;
  ltb_trans = λ x y z h k. ground arith;
  add_lit = λ n d x y h. ground arith;
  sub_lit = λ n d x y h. ground arith;
}

abbrev holding : JitterBuffer ℕ
holding = (push naturals (jitter_buffer naturals) two_frames (pos 70)).0

push-IsBuffer_example : IsBuffer holding
push-IsBuffer_example =
    push-IsBuffer naturals (jitter_buffer naturals) two_frames (pos 70) (omega arith)
      (jitter_buffer-IsBuffer naturals)

holding-IsBuffer : IsBuffer holding
holding-IsBuffer =
    push-IsBuffer naturals (jitter_buffer naturals) two_frames (pos 70) (omega arith)
      (jitter_buffer-IsBuffer naturals)

read_frames-IsBuffer_example :
    IsBuffer (read_frames naturals holding true 480 4 false).0
    × ((read_frames naturals holding true 480 4 false).0 ≡ record holding {
      latest_read_frame = (read_frames naturals holding true 480 4 false).0.latest_read_frame;
    })
    × ((read_frames naturals holding true 480 4 false).0.packets ≡ holding.packets)
    × (holding.latest_read_frame
        ≤ (read_frames naturals holding true 480 4 false).0.latest_read_frame)
read_frames-IsBuffer_example =
    read_frames-IsBuffer naturals holding true 480 4 false holding-IsBuffer

abbrev mono : JitterBufferFormat
mono = record { sample_rate = 48000; channel_count = 1 }

holds_mono : holding.format ≡ some mono
unfolding push store jitter_buffer sync_bluetooth_devices.Jitter.Store.contains prune record_arrival
holds_mono = refl

read_frames-overlay_example :
    get_or (read_frames naturals holding true 480 4 false).1 1 0 ≡ overlay 1 holding.packets 481 0 0
read_frames-overlay_example =
    read_frames-overlay naturals holding mono 480 4 1 0 false holding-IsBuffer holds_mono
      (omega arith) (omega arith) (omega arith)

update_all-IsExact_example :
    IsExact 10 14 (λ x. contains x (14 ∷ 11 ∷ [])) (update_all statistics (10 ∷ 14 ∷ 11 ∷ []))
unfolding highest_of
update_all-IsExact_example =
    update_all-IsExact 10 (14 ∷ 11 ∷ []) (omega arith)
      (omega arith, omega arith, (omega arith, omega arith, tt))
