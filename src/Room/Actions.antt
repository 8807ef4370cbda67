-- ===== src/Room/Actions.antt =====
-- The pending action of core/src/Room.cpp as a queue with one place.
use sync_bluetooth_devices.Common.{
  ◌≡◌, sym, ◌∙◌, ap, Bool, true, false, List, [], ◌∷◌, ◌++◌, Option, none, some, Result, ok, err,
  arith,
}
use sync_bluetooth_devices.Room.{RoomError, ScheduledRoomAction, Room, schedule_action, take_action}
use mathlib.Core.List.{append_assoc, append-nil}

-- What the control channel and the player do to the slot.
pub data Use : Type 0 where
  schedules : ScheduledRoomAction → Use
  takes : Use

abbrev waiting : Option ScheduledRoomAction → List ScheduledRoomAction
waiting none = []
waiting (some a) = a ∷ []

module _ {D : Type 0} where
  abbrev pub slot : Room D → List ScheduledRoomAction
  slot r = waiting r.state.pending_action

  abbrev after_schedule : Room D → Result RoomError (Bool × Room D) → Room D
  after_schedule r (ok (b, r')) = r'
  after_schedule r (err e) = r

  -- The action, if it was accepted.
  abbrev accepted_now :
      ScheduledRoomAction → Result RoomError (Bool × Room D) → List ScheduledRoomAction
  accepted_now a (ok (true, r')) = a ∷ []
  accepted_now a (ok (false, r')) = []
  accepted_now a (err e) = []

  unfoldable pub use_slot : Room D → Use → Room D
  use_slot r (schedules a) = after_schedule r (schedule_action r a)
  use_slot r takes = (take_action r).1

  unfoldable pub use_all : Room D → List Use → Room D
  use_all r [] = r
  use_all r (u ∷ us) = use_all (use_slot r u) us

  -- The actions that `schedule_action` accepted over a history, in order.
  unfoldable pub accepted : Room D → List Use → List ScheduledRoomAction
  accepted r [] = []
  accepted r (schedules a ∷ us) =
      accepted_now a (schedule_action r a) ++ accepted (use_slot r (schedules a)) us
  accepted r (takes ∷ us) = accepted (use_slot r takes) us

  -- The actions that `take_action` returned, in order.
  unfoldable pub taken : Room D → List Use → List ScheduledRoomAction
  taken r [] = []
  taken r (schedules a ∷ us) = taken (use_slot r (schedules a)) us
  taken r (takes ∷ us) = waiting (take_action r).0 ++ taken (use_slot r takes) us

  schedule-slot :
      (r : Room D) (a : ScheduledRoomAction)
      → slot (use_slot r (schedules a)) ≡ slot r ++ accepted_now a (schedule_action r a)
  unfolding use_slot schedule_action
  schedule-slot r a = ground arith

  take-slot : (r : Room D) → waiting (take_action r).0 ++ slot (use_slot r takes) ≡ slot r
  unfolding use_slot take_action
  take-slot r = ground arith

  -- Over any history of schedules and takes the accepted actions, behind one that was pending at
  -- the start, are exactly those taken and the one that is pending at the end, in that order: none
  -- is lost, repeated, replaced or overtaken.
  pub accepted-taken :
      (r : Room D) (us : List Use) → slot r ++ accepted r us ≡ taken r us ++ slot (use_all r us)
  unfolding accepted taken use_all
  accepted-taken r [] = append-nil (slot r)
  accepted-taken r (schedules a ∷ us) =
      sym (append_assoc (slot r) (accepted_now a (schedule_action r a)) _)
      ∙ rw (← schedule-slot r a) (accepted-taken (use_slot r (schedules a)) us)
  accepted-taken r (takes ∷ us) =
      ap (λ xs. xs ++ accepted (use_slot r takes) us) (sym (take-slot r))
      ∙ append_assoc (waiting (take_action r).0) (slot (use_slot r takes)) _
      ∙ ap (λ xs. waiting (take_action r).0 ++ xs) (accepted-taken (use_slot r takes) us)
      ∙ sym (append_assoc (waiting (take_action r).0) _ _)
