-- ===== src/Runs/Rings.antt =====
-- A ring of four cells with a few frames, and a player that plays one at a sample rate of 8000.
use sync_bluetooth_devices.Common.{
  ℕ, ◌≡◌, ◌≤◌, refl, true, false, List, [], ◌∷◌, ◌++◌, length, some, arith,
}
use sync_bluetooth_devices.Common.Int.{pos}
use sync_bluetooth_devices.Playback.{PlaybackClock}
use sync_bluetooth_devices.Player.{
  DesktopAudioPlayer, desktop_audio_player, PlayOutcome, PlayerOperation, loads, loaded, plays_from,
  prefetches, calls_back, stops, reroutes, operate_all, current_playback_frame,
  elapsed_playback_time,
}
use sync_bluetooth_devices.Player.Ring.{
  PlayerRing, player_ring, run, step, produce, request_frames, decode, publish, finish, Action,
  produces, consumes,
}
use sync_bluetooth_devices.Player.Ring.Order.{run_refines}
use sync_bluetooth_devices.Player.Ring.Race.{race, race_loses_tail}
use sync_bluetooth_devices.Player.Ring.Drain.{callbacks, playback_ends}
use sync_bluetooth_devices.Player.Timeline.Position.{position_le_submitted}
use sync_bluetooth_devices.Player.Timeline.Completion.{IsCompletedTime, completes}

abbrev four_cells : List ℕ
four_cells = 9 ∷ 9 ∷ 9 ∷ 9 ∷ []

-- The decoding thread reads three frames in one go; the callback takes two; the rest wraps.
abbrev some_steps : List Action
some_steps =
    produces [] true
    ∷ consumes 2
    ∷ produces (1 ∷ 2 ∷ 3 ∷ []) true
    ∷ consumes 2
    ∷ produces [] true
    ∷ consumes 2
    ∷ produces [] true
    ∷ consumes 2
    ∷ []

run_refines_example :
    let s = run (player_ring four_cells 4 0) some_steps in
    (rest : List ℕ) × (s.decoded ≡ s.played ++ rest) × (length rest ≤ s.capacity)
run_refines_example = run_refines four_cells 4 0 some_steps (omega arith) refl (omega arith)

abbrev empty_ring : PlayerRing
unfolding player_ring
empty_ring = player_ring four_cells 4 0

race_loses_tail_example :
    let t = run empty_ring (race 8 (5 ∷ 6 ∷ []) ++ (consumes 8 ∷ [])) in
    (t.end_reached ≡ true)
    × (t.played ≡ [])
    × ((run empty_ring (race 8 (5 ∷ 6 ∷ []))).decoded ≡ 5 ∷ 6 ∷ [])
unfolding player_ring
race_loses_tail_example =
    race_loses_tail empty_ring (5 ∷ 6 ∷ []) 8 (consumes 8 ∷ []) refl refl refl refl (omega arith)
      (omega arith)

abbrev whole_stream : List Action
whole_stream =
    produces [] true ∷ produces (1 ∷ 2 ∷ 3 ∷ []) true ∷ produces [] true ∷ produces [] true ∷ []

playback_ends_example :
    let s = run (player_ring four_cells 4 0) whole_stream in
    let t = run s (callbacks 2 4) in (t.end_reached ≡ true) × (t.played ≡ s.decoded)
unfolding run step produce request_frames decode publish finish player_ring
playback_ends_example =
    playback_ends four_cells 4 0 whole_stream 2 (omega arith) refl (omega arith) refl refl refl refl
      (omega arith)

abbrev outcome : PlayOutcome
outcome = record {
  seeks = true;
  cells = [];
  prefilled = ([], true) ∷ (1 ∷ 2 ∷ [], true) ∷ [];
  initializes = true;
  starts = true;
}

abbrev some_calls : List PlayerOperation
some_calls =
    loads (pos 0) (pos 0) (loaded (record { sample_rate = 8000; channels = 2; total_frames = 2 }))
    ∷ plays_from 0 (pos 10) (pos 1) (pos 1) outcome
    ∷ prefetches [] true
    ∷ calls_back (pos 11) (pos 11) 80
    ∷ calls_back (pos 11) (pos 11) 80
    ∷ stops (pos 12) (pos 12)
    ∷ []

position_le_submitted_example :
    let p = operate_all desktop_audio_player some_calls in
    current_playback_frame (pos 20) (pos 20) p ≤ p.ring.submitted_frames
position_le_submitted_example = position_le_submitted some_calls (pos 20) (pos 20) (omega arith)

abbrev clock_8000 : PlaybackClock
clock_8000 = record { sample_rate = 8000; start_time = pos 10 }

-- Two frames were submitted, and the stream is over.
abbrev over : DesktopAudioPlayer
unfolding player_ring desktop_audio_player
over = record desktop_audio_player {
  ring = record (player_ring four_cells 4 2) { end_reached = true };
  playing = true;
  timeline_running = true;
  clock = some clock_8000;
  segment_start_time = pos 10;
}

abbrev after_end : List PlayerOperation
after_end =
    calls_back (pos 13) (pos 13) 80 ∷ stops (pos 14) (pos 14) ∷ prefetches [] true ∷ reroutes ∷ []

completes_example :
    let t = operate_all over (calls_back (pos 11) (pos 12) 80 ∷ after_end) in
    (t.playing ≡ false)
    × (current_playback_frame (pos 30) (pos 31) t ≡ 2)
    × IsCompletedTime clock_8000 (pos 12) 2 (elapsed_playback_time (pos 40) t)
unfolding player_ring desktop_audio_player
completes_example =
    completes clock_8000 80 (pos 11) (pos 12) (pos 30) (pos 31) (pos 40) over after_end refl refl
      refl refl refl refl (tt, (tt, (tt, (tt, tt))))
