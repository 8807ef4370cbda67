-- ===== src/Sync.antt =====
-- core/include/ClockSync.hpp and core/src/ClockSync.cpp: the clock-sync message and the estimate.
-- The message is written into and read from a 40-byte array at an offset that each access moves.
-- `estimate` computes in `long double`; its timestamps are below 2 ^ 63, so with the 64-bit
-- significand of x86 each step is exact, and the model computes with integers.
pub mod Wire
pub mod Estimate
pub mod Message
use sync_bluetooth_devices.Common.{
  ℕ, ◌+◌, ◌-◌, ◌*◌, ◌/◌, ◌%◌, ◌^◌, Bool, ◌||◌, ◌&&◌, not, List, [], ◌∷◌, ltb, ◌==◌, text_eq, length,
  take, replicate, Result, ok, err, ◌>>=◌, ◌>>◌, throw_if,
}
use sync_bluetooth_devices.Common.Int.{ℤ, pos, negsuc, pos_part, neg_part, ◌+ℤ◌, ◌-ℤ◌, ltb_ℤ, leb_ℤ}
use Wire.{
  append_u8, append_u16, append_u32, append_u64, copy, read_u8, read_u16, read_u32, read_u64,
}

-- One constructor for each message of `std::invalid_argument`.
pub data SyncError : Type 0 where
  bad_header bad_version bad_type bad_size bad_timestamps bad_sample : SyncError

-- The values of `ClockSyncMessageType`; a field of that type can hold any byte.
abbrev pub request : ℕ
request = 1

abbrev pub response : ℕ
response = 2

abbrev pub protocol_version : ℕ
protocol_version = 1

abbrev pub message_size : ℕ
message_size = 40

-- "SCLK"
abbrev pub magic : List ℕ
magic = b'S' ∷ b'C' ∷ b'L' ∷ b'K' ∷ []

pub record ClockSyncMessage : Type 0 where
  pub type : ℕ
  pub request_id : ℕ
  pub client_send_timestamp_nanoseconds : ℕ
  pub host_receive_timestamp_nanoseconds : ℕ
  pub host_send_timestamp_nanoseconds : ℕ

pub record ClockSyncEstimate : Type 0 where
  pub host_minus_client_offset : ℤ
  pub round_trip_time : ℤ
  pub samples : ℕ
  pub client_sample_timestamp_nanoseconds : ℕ

-- The writes of `serialize`, in their order.
unfoldable pub write_message : ClockSyncMessage → List ℕ
unfolding append_u64 copy
write_message message =
    let o₀ = copy magic (replicate message_size 0) in
    let (o₁, at₁) = append_u8 o₀ (length magic) protocol_version in
    let (o₂, at₂) = append_u8 o₁ at₁ (message.type % 2 ^ 8) in
    let (o₃, at₃) = append_u16 o₂ at₂ (message_size % 2 ^ 16) in
    let (o₄, at₄) = append_u32 o₃ at₃ message.request_id in
    let (o₅, at₅) = append_u32 o₄ at₄ 0 in
    let (o₆, at₆) = append_u64 o₅ at₅ message.client_send_timestamp_nanoseconds in
    let (o₇, at₇) = append_u64 o₆ at₆ message.host_receive_timestamp_nanoseconds in
    let (o₈, at₈) = append_u64 o₇ at₇ message.host_send_timestamp_nanoseconds in o₈

unfoldable pub serialize : ClockSyncMessage → Result SyncError (List ℕ)
unfolding write_message
serialize message = do
  throw_if (not (message.type == request) && not (message.type == response)) bad_type
  ok (write_message message)

unfoldable pub deserialize : List ℕ → Result SyncError ClockSyncMessage
deserialize bytes = do
  throw_if (not (length bytes == message_size) || not (text_eq magic (take (length magic) bytes)))
      bad_header
  let (version, at₁) = read_u8 bytes (length magic)
  throw_if (not (version == protocol_version)) bad_version
  let (type, at₂) = read_u8 bytes at₁
  throw_if (not (type == request) && not (type == response)) bad_type
  let (size, at₃) = read_u16 bytes at₂
  throw_if (not (size == message_size)) bad_size
  let (request_id, at₄) = read_u32 bytes at₃
  let (reserved, at₅) = read_u32 bytes at₄
  let (client_send, at₆) = read_u64 bytes at₅
  let (host_receive, at₇) = read_u64 bytes at₆
  let (host_send, at₈) = read_u64 bytes at₇
  ok (record {
    type = type;
    request_id = request_id;
    client_send_timestamp_nanoseconds = client_send;
    host_receive_timestamp_nanoseconds = host_receive;
    host_send_timestamp_nanoseconds = host_send;
  })

-- `std::numeric_limits<std::int64_t>::max()`
abbrev pub maximum : ℕ
maximum = 2 ^ 63 - 1

-- |a|
abbrev pub magnitude : ℤ → ℕ
magnitude a = pos_part a + neg_part a

-- `llround(a / 2.0L)`: half of an integer, rounded half away from zero.
unfoldable pub round_half : ℤ → ℤ
round_half (pos n) = pos ((n + 1) / 2)
round_half (negsuc n) = negsuc ((n + 2) / 2 - 1)

unfoldable pub estimate : ℕ → ℕ → ℕ → ℕ → Result SyncError ClockSyncEstimate
estimate client_send host_receive host_send client_receive = do
  throw_if
      (ltb maximum client_send
        || ltb maximum host_receive
        || ltb maximum host_send
        || ltb maximum client_receive
        || ltb client_receive client_send
        || ltb host_send host_receive)
      bad_timestamps
  let t₁ = pos client_send
  let t₂ = pos host_receive
  let t₃ = pos host_send
  let t₄ = pos client_receive
  let round_trip = (t₄ -ℤ t₁) -ℤ (t₃ -ℤ t₂)
  let twice_offset = (t₂ -ℤ t₁) +ℤ (t₃ -ℤ t₄)
  throw_if
      (ltb_ℤ round_trip (pos 0)
        || ltb_ℤ (pos maximum) round_trip
        || ltb (2 * maximum) (magnitude twice_offset))
      bad_sample
  ok (record {
    host_minus_client_offset = round_half twice_offset;
    round_trip_time = round_trip;
    samples = 1;
    client_sample_timestamp_nanoseconds = client_send + (client_receive - client_send) / 2;
  })
