-- ===== src/Session/Resumed.antt =====
-- A pause in `runHost` of desktop/src/main.cpp, and the PLAY that ends it.
use sync_bluetooth_devices.Common.{ℕ, ◌≡◌, ◌≢◌, true, false, List, [], ◌∷◌, ◌++◌, some, All}
use sync_bluetooth_devices.Common.Int.{ℤ, pos, leb_ℤ}
use sync_bluetooth_devices.Room.{play, pause, ScheduledRoomAction}
use sync_bluetooth_devices.Room.Invariant.{schedules}
use sync_bluetooth_devices.Session.{
  HostSession, SegmentEnd, SessionTurn, advances, calls, starting, opening, streaming, commanded,
  pausing, noticed,
}
use sync_bluetooth_devices.Session.Commands.{Reaches}
use sync_bluetooth_devices.Session.Interleaved.{
  IsControlOnly, IsQuietOnly, IsQuietTurn, reaches_first, reaches_last, reaches_while,
}
use sync_bluetooth_devices.Session.Steps.{
  Plays, Waits, keeps_At, keeps_Waits, keeps_Free, waits_on, schedules_play, notices, resumes,
  opens, starts, pauses, takes_pause,
}

module _ {D : Type 0} where
  -- From the PLAY on: the four steps to the next segment, each after calls of the control threads.
  resumption :
      (frame : ℕ) (start : ℤ) (stream control_stream : ℕ) (b : ScheduledRoomAction)
      (part : SegmentEnd) (l₁ l₂ l₃ l₄ : List (SessionTurn D))
      → b.action ≡ play
      → All IsControlOnly l₁
      → All IsControlOnly l₂
      → All IsControlOnly l₃
      → All IsControlOnly l₄
      → (s : HostSession D) → Waits frame start stream control_stream pausing b s
      → Reaches
          (l₁
            ++ (advances part
                ∷ (l₂ ++ (advances part ∷ (l₃ ++ (advances part ∷ (l₄ ++ (advances part ∷ []))))))))
          s
          (Plays frame b.effective_host_nanoseconds stream)
  resumption frame start stream control b part l₁ l₂ l₃ l₄ is_play h₁ h₂ h₃ h₄ =
      let due = b.effective_host_nanoseconds in
      reaches_while _ _ _ l₁ _ (keeps_Waits frame start stream control pausing b)
        (λ s v. reaches_first _ _ _ _ s (notices frame start stream control s b part is_play v) (
          reaches_while _ _ _ l₂ _ (keeps_Waits frame start stream control (noticed play) b)
            (λ s v. reaches_first _ _ _ _ s (resumes frame start stream control s b part v) (
              reaches_while _ _ _ l₃ _ (keeps_At frame due stream control starting)
                (λ s v. reaches_first _ _ _ _ s (opens frame due stream control s part v) (
                  reaches_while _ _ _ l₄ _ (keeps_At frame due stream stream opening)
                    (λ s v. reaches_last _ _ s (starts frame due stream control s part v)) h₄))
                h₃))
            h₂))
        h₁

  -- A segment ends for a PAUSE, the room is set to paused, and later a PLAY is scheduled: then the
  -- host streams from the frame where it paused, due at the time of the PLAY, on the same stream, which
  -- the control threads name too, and the room plays. This holds however long the host waits, whatever
  -- control threads do to the room between any two of its steps, other PLAYs included, and whoever joins,
  -- leaves or reports before the PLAY, as long as nothing else is scheduled before it.
  pub plays_on :
      (s : HostSession D) (a b : ScheduledRoomAction) (part : SegmentEnd)
      (before waiting l₁ l₂ l₃ l₄ : List (SessionTurn D))
      → s.phase ≡ streaming
      → s.room.state.pending_action ≡ some a
      → a.action ≡ pause
      → b.action ≡ play
      → leb_ℤ b.effective_host_nanoseconds (pos 0) ≡ false
      → b.next_stream_id ≢ 0
      → part.source_exhausted ≡ false
      → part.ended_for_command ≡ true
      → All IsQuietOnly before
      → All IsQuietTurn waiting
      → All IsControlOnly l₁
      → All IsControlOnly l₂
      → All IsControlOnly l₃
      → All IsControlOnly l₄
      → Reaches
          (advances part
            ∷ (before
                ++ (advances part
                    ∷ (waiting
                        ++ (calls (schedules b)
                            ∷ (l₁
                                ++ (advances part
                                    ∷ (l₂
                                        ++ (advances part
                                            ∷ (l₃
                                                ++ (advances part
                                                    ∷ (l₄ ++ (advances part ∷ [])))))))))))))
          s
          (Plays part.last_frame b.effective_host_nanoseconds s.room.state.stream_id)
  plays_on s a b part before waiting l₁ l₂ l₃ l₄ streams e is_pause is_play due nonzero goes_on
        for_command hb hw h₁ h₂ h₃ h₄ =
      let frame = part.last_frame in
      let start = s.segment_start in
      let stream = s.room.state.stream_id in
      let control = s.control_stream_id in
      reaches_first _ _ _ _ s (takes_pause s a part streams e goes_on for_command) (
        reaches_while _ _ _ before _ (keeps_Free frame start stream control (commanded a))
          (λ t v. reaches_first _ _ _ _ t (pauses frame start stream control t a part is_pause v) (
            reaches_while _ _ _ waiting _ (waits_on frame start stream control)
              (λ t v.
                reaches_first _ _ _ _ t
                  (schedules_play frame start stream control t b due nonzero v)
                  (resumption frame start stream control b part l₁ l₂ l₃ l₄ is_play h₁ h₂ h₃ h₄))
              hw))
          hb)
