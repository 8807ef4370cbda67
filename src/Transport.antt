-- ===== src/Transport.antt =====
-- desktop/src/ClockSyncTransport.cpp: the clock-sync server's answer and the client's measurement,
-- without the sockets. Datagrams are what `recvfrom` left in the 40-byte buffer, and readings of the
-- clock, which are not negative, are arguments. `std::sort` is a parameter: it may leave equal
-- elements in any order.
pub mod Exchange
pub mod Rank
pub mod Selection
use sync_bluetooth_devices.Common.{
  ℕ, zero, suc, ◌+◌, ◌/◌, ◌%◌, ◌^◌, ◌≡◌, Bool, true, false, ◌||◌, not, List, [], ◌∷◌, ◌++◌, length,
  take, get_or, min, ltb, leb, ◌==◌, if◌then◌else◌, Option, none, some, Result, ok, err, All,
}
use sync_bluetooth_devices.Common.Int.{ℤ, ltb_ℤ}
use sync_bluetooth_devices.Sync.{
  ClockSyncMessage, ClockSyncEstimate, SyncError, request, response, serialize, deserialize,
  estimate,
}

pub data TransportError : Type 0 where
  send_failed receive_failed timed_out : TransportError

-- One turn of the server's loop: what it sends, if anything, for a datagram that came at `t₂`, with
-- the second reading of the clock `t₃`.
abbrev sent : Result SyncError (List ℕ) → Option (List ℕ)
sent (ok bytes) = some bytes
sent (err e) = none

unfoldable pub answer : ClockSyncMessage → ℕ → ℕ → Option (List ℕ)
answer message t₂ t₃ =
    if not (message.type == request)
    then none
    else sent (
        serialize (record message {
          type = response;
          host_receive_timestamp_nanoseconds = t₂;
          host_send_timestamp_nanoseconds = t₃;
        }))

unfoldable pub respond : List ℕ → ℕ → ℕ → Option (List ℕ)
respond datagram t₂ t₃ = elim (deserialize datagram) [
  | err e ↦ none
  | ok message ↦ answer message t₂ t₃
]

-- The client's test of a response that came at `t₄`, and the sample it gives.
abbrev pub sampled : Result SyncError ClockSyncEstimate → Option ClockSyncEstimate
sampled (ok e) = some e
sampled (err e) = none

unfoldable pub match_response : ClockSyncMessage → ClockSyncMessage → ℕ → Option ClockSyncEstimate
match_response sent_request received t₄ =
    if not (received.type == response)
      || not (received.request_id == sent_request.request_id)
      || not (
          received.client_send_timestamp_nanoseconds
          == sent_request.client_send_timestamp_nanoseconds)
    then none
    else sampled (
        estimate received.client_send_timestamp_nanoseconds
          received.host_receive_timestamp_nanoseconds received.host_send_timestamp_nanoseconds t₄)

unfoldable pub accept : ClockSyncMessage → List ℕ → ℕ → Option ClockSyncEstimate
accept sent_request datagram t₄ = elim (deserialize datagram) [
  | err e ↦ none
  | ok received ↦ match_response sent_request received t₄
]

-- What a turn of the client's loop meets: the send fails, the receive fails or times out, or a
-- datagram comes at a time.
pub data Outcome : Type 0 where
  not_sent not_received no_answer : Outcome
  received : List ℕ → ℕ → Outcome

abbrev pub request_at : ℕ → ℕ → ClockSyncMessage
request_at request_id now = record {
  type = request;
  request_id = request_id;
  client_send_timestamp_nanoseconds = now;
  host_receive_timestamp_nanoseconds = 0;
  host_send_timestamp_nanoseconds = 0;
}

abbrev with_sample : List ClockSyncEstimate → Option ClockSyncEstimate → List ClockSyncEstimate
with_sample samples none = samples
with_sample samples (some e) = samples ++ e ∷ []

-- The loop of `measure`, over the turns that start before the deadline, each with the time of its
-- request.
unfoldable pub collect :
    ℕ
    → ℕ
    → List ClockSyncEstimate
    → List (ℕ × Outcome)
    → Result TransportError (List ClockSyncEstimate)
collect desired request_id samples [] = ok samples
collect desired request_id samples ((now, outcome) ∷ turns) =
    let next_id = (request_id + 1) % 2 ^ 32 in
    if leb desired (length samples) then ok samples else elim outcome [
      | not_sent ↦ err send_failed
      | not_received ↦ err receive_failed
      | no_answer ↦ collect desired next_id samples turns
      | received datagram t₄ ↦
          collect desired next_id
            (with_sample samples (accept (request_at request_id now) datagram t₄)) turns
    ]

abbrev pub by_round_trip : ClockSyncEstimate → ClockSyncEstimate → Bool
by_round_trip left right = ltb_ℤ left.round_trip_time right.round_trip_time

abbrev pub by_offset : ClockSyncEstimate → ClockSyncEstimate → Bool
by_offset left right = ltb_ℤ left.host_minus_client_offset right.host_minus_client_offset

-- None is less than one before it.
abbrev pub IsOrdered :
    (ClockSyncEstimate → ClockSyncEstimate → Bool) → List ClockSyncEstimate → Type 0
IsOrdered less [] = Unit {0}
IsOrdered less (x ∷ xs) = All (λ y. less y x ≡ false) xs × IsOrdered less xs

unfoldable pub count : (ClockSyncEstimate → Bool) → List ClockSyncEstimate → ℕ
count test [] = 0
count test (x ∷ xs) = (if test x then 1 else 0) + count test xs

-- `std::sort`: the same elements, each as often, in order, for a comparison that is a strict weak order.
pub record Sort : Type 1 where
  pub sort :
      (ClockSyncEstimate → ClockSyncEstimate → Bool)
      → List ClockSyncEstimate
      → List ClockSyncEstimate
  pub length-sort :
      (less : ClockSyncEstimate → ClockSyncEstimate → Bool) (xs : List ClockSyncEstimate)
      → length (sort less xs) ≡ length xs
  pub All-sort :
      (less : ClockSyncEstimate → ClockSyncEstimate → Bool) (P : ClockSyncEstimate → Type 0)
      (xs : List ClockSyncEstimate)
      → (All P xs → All P (sort less xs)) × (All P (sort less xs) → All P xs)
  pub count-sort :
      (less : ClockSyncEstimate → ClockSyncEstimate → Bool) (test : ClockSyncEstimate → Bool)
      (xs : List ClockSyncEstimate)
      → count test (sort less xs) ≡ count test xs
  pub IsOrdered-sort :
      (less : ClockSyncEstimate → ClockSyncEstimate → Bool) (xs : List ClockSyncEstimate)
      → ((a b : ClockSyncEstimate) → less a b ≡ true → less b a ≡ false)
      → ((a b c : ClockSyncEstimate) → less b a ≡ false → less c b ≡ false → less c a ≡ false)
      → IsOrdered less (sort less xs)

module _ (S : Sort) where
  open S use {sort}

  -- `measure` behind the sort by round-trip time. The index is in range: the count is not 0.
  unfoldable pub pick : List ClockSyncEstimate → Result TransportError ClockSyncEstimate
  pick [] = err timed_out
  pick (first ∷ rest) =
      let selected_count = min 3 (length (first ∷ rest)) in
      let chosen =
        get_or (sort by_offset (take selected_count (first ∷ rest))) (selected_count / 2) first in
      ok (record chosen {
        round_trip_time = first.round_trip_time;
        samples = length (first ∷ rest) % 2 ^ 32;
      })

  -- `measure` behind its loop.
  unfoldable pub select_sample : List ClockSyncEstimate → Result TransportError ClockSyncEstimate
  select_sample [] = err timed_out
  select_sample (s ∷ ss) = pick (sort by_round_trip (s ∷ ss))
