-- ===== src/Control/Schedule.antt =====
-- What a playback command of desktop/src/ControlChannel.cpp does to the room.
use sync_bluetooth_devices.Common.{
  sym, ◌∙◌, Result-cases, ℕ, ◌<◌, ◌≡◌, ◌≢◌, ◌⊎◌, inl, inr, text_eq_iff, refl, true, false,
  Bool-cases, none, some, ok, err, Text, text_eq, arith,
}
use sync_bluetooth_devices.Common.Int.{ℤ, pos, ◌+ℤ◌}
use sync_bluetooth_devices.Room.{Room, RoomAction, schedule_action}
use sync_bluetooth_devices.Control.{
  Response, scheduled, host_only_command, schedule_command, command_response, action_of,
  is_invalid_in, next_stream, local_address,
}

action_of-frame :
    (total_frames : ℕ) (line : Text) (action : RoomAction) (frame : ℕ)
    → action_of total_frames line ≡ ok (action, frame)
    → (total_frames ≡ 0) ⊎ (frame < total_frames)
unfolding action_of
action_of-frame total_frames line action frame e = ground arith

-- A line's refusal is no schedule.
action_of-refusal :
    (total_frames : ℕ) (line : Text) (refusal : Response) (a : RoomAction) (effective : ℤ) (f : ℕ)
    → action_of total_frames line ≡ err refusal
    → refusal ≢ scheduled a effective f
unfolding action_of
action_of-refusal total_frames line refusal a effective f e = ground arith

module _ {D : Type 0} where
  -- What a command that was scheduled has done to `r`, when its snapshot saw `seen`.
  pub record IsScheduled (seen r r' : Room D) (action : RoomAction) (effective : ℤ) (frame : ℕ)
      : Type 0 where
    pub was_free : r.state.pending_action ≡ none
    pub allowed : is_invalid_in seen.state.playback_state action ≡ false
    pub pending : r' ≡ record r {
      state = record (r.state) {
        pending_action = some (record {
          action = action;
          effective_host_nanoseconds = effective;
          seek_frame = frame;
          next_stream_id = next_stream action seen.state.stream_id;
        });
      };
    }

  schedule_command-IsScheduled :
      (seen r r' : Room D) (action : RoomAction) (frame : ℕ) (now : ℤ) (a : RoomAction)
      (effective : ℤ) (f : ℕ)
      → schedule_command seen r action frame now ≡ ok (scheduled a effective f, r')
      → (effective ≡ now +ℤ pos 2_000_000_000)
        × (a ≡ action)
        × (f ≡ frame)
        × IsScheduled seen r r' a effective f
  unfolding schedule_command schedule_action
  schedule_command-IsScheduled seen r r' action frame now a effective f e = ground arith

  schedule_command_refused :
      (seen r r' : Room D) (action : RoomAction) (frame : ℕ) (now : ℤ) (answer : Response)
      → schedule_command seen r action frame now ≡ ok (answer, r')
      → ((a : RoomAction) (effective : ℤ) (f : ℕ) → answer ≢ scheduled a effective f)
      → r' ≡ r
  unfolding schedule_command schedule_action
  schedule_command_refused seen r r' action frame now answer e n =
      let no = n action (now +ℤ pos 2_000_000_000) frame in ground arith

  command_local :
      (seen r : Room D) (total_frames : ℕ) (peer line : Text) (now : ℤ) (action : RoomAction)
      (frame : ℕ)
      → text_eq peer local_address ≡ true
      → action_of total_frames line ≡ ok (action, frame)
      → command_response seen r total_frames peer line now
        ≡ schedule_command seen r action frame now
  unfolding command_response
  command_local seen r total_frames peer line now action frame here e = rw here (rw e refl)

  command_bad :
      (seen r : Room D) (total_frames : ℕ) (peer line : Text) (now : ℤ) (refusal : Response)
      → text_eq peer local_address ≡ true
      → action_of total_frames line ≡ err refusal
      → command_response seen r total_frames peer line now ≡ ok (refusal, r)
  unfolding command_response
  command_bad seen r total_frames peer line now refusal here e = rw here (rw e refl)

  command_remote :
      (seen r : Room D) (total_frames : ℕ) (peer line : Text) (now : ℤ)
      → text_eq peer local_address ≡ false
      → command_response seen r total_frames peer line now ≡ ok (host_only_command, r)
  unfolding command_response
  command_remote seen r total_frames peer line now away = rw away refl

  -- A playback command that is answered with SCHEDULED came from the host itself, and its snapshot
  -- saw the room in a state that allows it; the room that `scheduleAction` found, whatever became
  -- of it between the two calls, had no action pending; the command is to happen two seconds later,
  -- at a frame of the track if the length is known, on the stream that the snapshot saw or, for a
  -- seek, the next one; and it has become the pending action, which is all that changes in the room.
  pub command_response-IsScheduled :
      (seen r r' : Room D) (total_frames : ℕ) (peer line : Text) (now : ℤ) (action : RoomAction)
      (effective : ℤ) (frame : ℕ)
      → command_response seen r total_frames peer line now
        ≡ ok (scheduled action effective frame, r')
      → (peer ≡ local_address)
        × (effective ≡ now +ℤ pos 2_000_000_000)
        × ((total_frames ≡ 0) ⊎ (frame < total_frames))
        × IsScheduled seen r r' action effective frame
  command_response-IsScheduled seen r r' total_frames peer line now action effective frame e =
      elim (Bool-cases (text_eq peer local_address)) [
        | inr away ↦ let no = command_remote seen r total_frames peer line now away in absurd cc
        | inl here ↦ elim (Result-cases (action_of total_frames line)) [
          | inl ((a, f), ea) ↦
              let said = command_local seen r total_frames peer line now a f here ea in
              let (when, same_a, same_f, done) =
                schedule_command-IsScheduled seen r r' a f now action effective frame
                  (sym said ∙ e) in
              (
                (text_eq_iff peer local_address).0 here,
                when,
                rw same_f (action_of-frame total_frames line a f ea),
                done,
              )
          | inr (refusal, ea) ↦
              let said = command_bad seen r total_frames peer line now refusal here ea in
              let no = action_of-refusal total_frames line refusal action effective frame ea in
              absurd (no cc)
        ]
      ]

  -- A playback command with any other answer leaves the room as it was, whatever its snapshot saw.
  pub command_response_refused :
      (seen r r' : Room D) (total_frames : ℕ) (peer line : Text) (now : ℤ) (answer : Response)
      → command_response seen r total_frames peer line now ≡ ok (answer, r')
      → ((a : RoomAction) (effective : ℤ) (f : ℕ) → answer ≢ scheduled a effective f)
      → r' ≡ r
  command_response_refused seen r r' total_frames peer line now answer e n =
      elim (Bool-cases (text_eq peer local_address)) [
        | inr away ↦ let said = command_remote seen r total_frames peer line now away in cc
        | inl here ↦ elim (Result-cases (action_of total_frames line)) [
          | inl ((a, f), ea) ↦
              schedule_command_refused seen r r' a f now answer
                (sym (command_local seen r total_frames peer line now a f here ea) ∙ e) n
          | inr (refusal, ea) ↦
              let said = command_bad seen r total_frames peer line now refusal here ea in cc
        ]
      ]
