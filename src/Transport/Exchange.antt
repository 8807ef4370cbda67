-- ===== src/Transport/Exchange.antt =====
-- A whole exchange of desktop/src/ClockSyncTransport.cpp, from request to sample.
use sync_bluetooth_devices.Common.{ℕ, ◌≡◌, ◌<◌, ◌^◌, refl, ◌∙◌, inl, inr, List, some, ok, arith}
use sync_bluetooth_devices.Sync.{
  ClockSyncMessage, request, response, serialize, deserialize, estimate,
}
use sync_bluetooth_devices.Sync.Message.{Fits, deserialize-serialize_message}
use sync_bluetooth_devices.Transport.{answer, respond, match_response, accept, sampled}

abbrev reply_to : ClockSyncMessage → ℕ → ℕ → ClockSyncMessage
reply_to r t₂ t₃ = record r {
  type = response;
  host_receive_timestamp_nanoseconds = t₂;
  host_send_timestamp_nanoseconds = t₃;
}

respond_lem :
    (datagram : List ℕ) (m : ClockSyncMessage) (t₂ t₃ : ℕ)
    → deserialize datagram ≡ ok m
    → respond datagram t₂ t₃ ≡ answer m t₂ t₃
unfolding respond
respond_lem datagram m t₂ t₃ d = ground arith

answer_lem :
    (m : ClockSyncMessage) (t₂ t₃ : ℕ) (reply : List ℕ)
    → m.type ≡ request
    → serialize (reply_to m t₂ t₃) ≡ ok reply
    → answer m t₂ t₃ ≡ some reply
unfolding answer
answer_lem m t₂ t₃ reply is_request s = rw is_request (rw s refl)

accept_lem :
    (r : ClockSyncMessage) (datagram : List ℕ) (m : ClockSyncMessage) (t₄ : ℕ)
    → deserialize datagram ≡ ok m
    → accept r datagram t₄ ≡ match_response r m t₄
unfolding accept
accept_lem r datagram m t₄ d = ground arith

match_response_lem :
    (r : ClockSyncMessage) (t₂ t₃ t₄ : ℕ)
    → match_response r (reply_to r t₂ t₃) t₄
      ≡ sampled (estimate r.client_send_timestamp_nanoseconds t₂ t₃ t₄)
unfolding match_response
match_response_lem r t₂ t₃ t₄ = ground arith

-- The server answers every request, and the client takes the answer for a sample of just the times
-- at which the request was sent and came, the answer was sent and came, whatever these are.
pub accept-respond :
    (r : ClockSyncMessage) (t₂ t₃ t₄ : ℕ)
    → Fits r
    → r.type ≡ request
    → t₂ < 2 ^ 64
    → t₃ < 2 ^ 64
    → (datagram : List ℕ) × (reply : List ℕ) × (serialize r ≡ ok datagram)
      × (respond datagram t₂ t₃ ≡ some reply)
      × (accept r reply t₄ ≡ sampled (estimate r.client_send_timestamp_nanoseconds t₂ t₃ t₄))
accept-respond r t₂ t₃ t₄ f is_request h₂ h₃ =
    let (datagram, s, _, d) = deserialize-serialize_message r f (inl is_request) in
    let (reply, s', _, d') = deserialize-serialize_message replied replied-Fits (inr refl) in
    (
      datagram,
      reply,
      s,
      respond_lem datagram r t₂ t₃ d ∙ answer_lem r t₂ t₃ reply is_request s',
      accept_lem r reply replied t₄ d' ∙ match_response_lem r t₂ t₃ t₄,
    )
  where
    replied : ClockSyncMessage
    replied = reply_to r t₂ t₃

    replied-Fits : Fits replied
    replied-Fits = record {
      type_u8 = omega arith;
      request_u32 = f.request_u32;
      client_send_u64 = f.client_send_u64;
      host_receive_u64 = h₂;
      host_send_u64 = h₃;
    }
