-- ===== src/Player/Ring/Drain.antt =====
-- How playback ends in desktop/src/DesktopAudioPlayer.cpp once the decoding thread is done.
use sync_bluetooth_devices.Common.{
  ℕ, zero, suc, ◌+◌, ◌-◌, ◌%◌, ◌^◌, ◌<◌, ◌≡◌, ◌∙◌, refl, inl, inr, Bool-cases, Bool, true, false,
  List, [], ◌∷◌, ◌++◌, length, min, ◌==◌, arith,
}
use sync_bluetooth_devices.Player.Ring.{
  player_ring, PlayerRing, stopped, outside, take_frames, copy_out, release, read_at, Action,
  consumes, consume, step, run,
}
use sync_bluetooth_devices.Player.Ring.Valid.{IsRing}
use sync_bluetooth_devices.Player.Ring.Order.{run-IsRing, player_ring-IsRing, offered}
use sync_bluetooth_devices.Player.Ring.Race.{run-append, take-all, stays_ended}

-- One whole call of the callback, `n` of them.
abbrev pub callback : ℕ → List Action
callback k = consumes k ∷ consumes k ∷ consumes k ∷ []

abbrev pub callbacks : ℕ → ℕ → List Action
callbacks k zero = []
callbacks k (suc n) = callback k ++ callbacks k n

-- The ring behind one call that plays `count` frames, with the decoder done.
abbrev pub called : PlayerRing → ℕ → Bool → PlayerRing
called s count drained = record s {
  played = s.played ++ read_at s.cells s.capacity s.read_frame count;
  read_frame = (s.read_frame + count) % 2 ^ 64;
  submitted_frames = (s.submitted_frames + count) % 2 ^ 64;
  end_reached = drained;
  consumer = outside;
}

run-callback :
    (s : PlayerRing) (k : ℕ)
    → s.consumer ≡ outside
    → s.end_reached ≡ false
    → s.decoder_finished ≡ true
    → let count = min k (s.written_frame - s.read_frame) in
      run s (callback k) ≡ called s count (s.read_frame + count == s.written_frame)
unfolding run step consume take_frames copy_out release
run-callback s k out goes done = rw (out, goes, done) refl

played_all :
    (s : PlayerRing)
    → IsRing s
    → s.producer ≡ stopped
    → s.consumer ≡ outside
    → s.read_frame ≡ s.written_frame
    → s.played ≡ s.decoded
played_all s v e out at_end =
    v.prefix
    ∙ take-all (length s.played) s.decoded
        (omega (arith, rw e at v.written, rw out at v.read, at_end))

-- A ring whose decoder is done ends, with every frame played, within one callback more than it holds
-- frames.
pub drains :
    (n k : ℕ) (s : PlayerRing)
    → IsRing s
    → s.producer ≡ stopped
    → s.decoder_finished ≡ true
    → s.consumer ≡ outside
    → s.end_reached ≡ false
    → 0 < k
    → s.written_frame - s.read_frame < n
    → let t = run s (callbacks k n) in (t.end_reached ≡ true) × (t.played ≡ s.decoded)
drains zero k s v e done out goes hk hn = absurd (omega arith)
drains (suc n) k s v e done out goes hk hn =
    let count = min k (s.written_frame - s.read_frame) in
    let drained = s.read_frame + count == s.written_frame in
    let t = called s count drained in
    let one : run s (callback k) ≡ t = run-callback s k out goes done in
    let w : IsRing t = rw one at (run-IsRing s (callback k) (omega (arith, v.bound)) v) in
    let sum : t.read_frame ≡ s.read_frame + count = omega (arith, v.behind, v.bound, v.written) in
    rw (run-append s (callback k) (callbacks k n)) (
      rw one (elim (Bool-cases drained) [
        | inl last ↦
            let after = stays_ended t (callbacks k n) last refl in
            (after.1, after.0 ∙ played_all t w e refl (sum ∙ ground arith))
        | inr more ↦ drains n k t w e done refl more hk (ground (arith, sum, v.behind))
      ]))

-- From any ring that the two threads can reach from the start with fewer than 2^64 frames offered: once
-- the decoding thread has stopped and said so, and the callback is outside and not at its end, calls of
-- the callback that ask for `k` frames each, `k` not 0 and one call more than there are frames in the
-- ring, bring playback to its end with every frame that was decoded played.
pub playback_ends :
    (cells : List ℕ) (capacity frame : ℕ) (actions : List Action) (k : ℕ)
    → 0 < capacity
    → length cells ≡ capacity
    → offered actions < 2 ^ 64
    → let s = run (player_ring cells capacity frame) actions in
      s.producer ≡ stopped
      → s.decoder_finished ≡ true
      → s.consumer ≡ outside
      → s.end_reached ≡ false
      → 0 < k
      → let t = run s (callbacks k (suc (s.written_frame - s.read_frame))) in
        (t.end_reached ≡ true) × (t.played ≡ s.decoded)
playback_ends cells capacity frame actions k h size few e done out goes hk =
    let v =
      run-IsRing (player_ring cells capacity frame) actions
        (unfold player_ring in omega (arith, few))
        (player_ring-IsRing cells capacity frame h size) in
    let s = run (player_ring cells capacity frame) actions in
    drains (suc (s.written_frame - s.read_frame)) k s v e done out goes hk (omega arith)
