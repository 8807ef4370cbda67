-- ===== src/Sync/Message.antt =====
-- The clock-sync message of core/src/ClockSync.cpp on the wire.
use sync_bluetooth_devices.Common.{
  ℕ, ◌^◌, ◌<◌, ◌≡◌, ◌⊎◌, refl, sym, ◌∙◌, List, [], ◌++◌, text_eq_refl, length, take, drop, ok,
  arith,
}
use sync_bluetooth_devices.Packet.Words.{u8_bytes, u16_bytes, u32_bytes, u64_bytes}
use sync_bluetooth_devices.Sync.{
  ClockSyncMessage, magic, request, response, protocol_version, message_size, write_message,
  serialize, deserialize,
}
use sync_bluetooth_devices.Sync.Wire.{read_u8-bytes, read_u16-bytes, read_u32-bytes, read_u64-bytes}

-- What the C++ types of the fields guarantee.
pub record Fits (m : ClockSyncMessage) : Type 0 where
  pub type_u8 : m.type < 2 ^ 8
  pub request_u32 : m.request_id < 2 ^ 32
  pub client_send_u64 : m.client_send_timestamp_nanoseconds < 2 ^ 64
  pub host_receive_u64 : m.host_receive_timestamp_nanoseconds < 2 ^ 64
  pub host_send_u64 : m.host_send_timestamp_nanoseconds < 2 ^ 64

-- The array in its order, with the reserved word.
abbrev pub message_body : ClockSyncMessage → ℕ → List ℕ
message_body m reserved = u8_bytes protocol_version (
    u8_bytes m.type (
      u16_bytes message_size (
        u32_bytes m.request_id (
          u32_bytes reserved (
            u64_bytes m.client_send_timestamp_nanoseconds (
              u64_bytes m.host_receive_timestamp_nanoseconds
                (u64_bytes m.host_send_timestamp_nanoseconds [])))))))

unfoldable pub message_bytes : ClockSyncMessage → ℕ → List ℕ
message_bytes m reserved = magic ++ message_body m reserved

length-message_bytes :
    (m : ClockSyncMessage) (reserved : ℕ) → length (message_bytes m reserved) ≡ message_size
unfolding message_bytes u32_bytes u64_bytes
length-message_bytes m reserved = refl

take-message_bytes :
    (m : ClockSyncMessage) (reserved : ℕ) → take 4 (message_bytes m reserved) ≡ magic
unfolding message_bytes
take-message_bytes m reserved = refl

write_message-bytes : (m : ClockSyncMessage) → write_message m ≡ message_bytes m 0
unfolding write_message message_bytes u64_bytes u32_bytes
write_message-bytes m = ground arith

deserialize-message_bytes :
    (m : ClockSyncMessage) (reserved : ℕ)
    → Fits m
    → reserved < 2 ^ 32
    → (m.type ≡ request) ⊎ (m.type ≡ response)
    → deserialize (message_bytes m reserved) ≡ ok m
deserialize-message_bytes m reserved f hr ht =
    let bytes = message_bytes m reserved in
    let h₀ : drop 4 bytes ≡ message_body m reserved = unfold message_bytes in refl in
    let (e₁, h₁) = read_u8-bytes bytes 4 protocol_version _ (omega arith) h₀ in
    let (e₂, h₂) = read_u8-bytes bytes 5 m.type _ f.type_u8 h₁ in
    let (e₃, h₃) = read_u16-bytes bytes 6 message_size _ (omega arith) h₂ in
    let (e₄, h₄) = read_u32-bytes bytes 8 m.request_id _ f.request_u32 h₃ in
    let (e₅, h₅) = read_u32-bytes bytes 12 reserved _ hr h₄ in
    let (e₆, h₆) =
      read_u64-bytes bytes 16 m.client_send_timestamp_nanoseconds _ f.client_send_u64 h₅ in
    let (e₇, h₇) =
      read_u64-bytes bytes 24 m.host_receive_timestamp_nanoseconds _ f.host_receive_u64 h₆ in
    let (e₈, h₈) = read_u64-bytes bytes 32 m.host_send_timestamp_nanoseconds _ f.host_send_u64 h₇ in
    unfold deserialize in
    rw
      (
        length-message_bytes m reserved,
        take-message_bytes m reserved,
        text_eq_refl magic,
        e₁,
        e₂,
        e₃,
        e₄,
        e₅,
        e₆,
        e₇,
        e₈,
      )
      (ground arith)

-- A message of a known type comes back from `deserialize` as it went into `serialize`, and takes
-- the 40 bytes that its size field says.
pub deserialize-serialize_message :
    (m : ClockSyncMessage)
    → Fits m
    → (m.type ≡ request) ⊎ (m.type ≡ response)
    → (bytes : List ℕ) × (serialize m ≡ ok bytes)
      × (length bytes ≡ message_size)
      × (deserialize bytes ≡ ok m)
deserialize-serialize_message m f ht = (
  message_bytes m 0,
  unfold serialize in ground (arith, write_message-bytes m),
  length-message_bytes m 0,
  deserialize-message_bytes m 0 f (omega arith) ht,
)

-- The reserved word is not looked at.
pub deserialize_ignores_reserved :
    (m : ClockSyncMessage) (reserved : ℕ)
    → Fits m
    → reserved < 2 ^ 32
    → (m.type ≡ request) ⊎ (m.type ≡ response)
    → deserialize (message_bytes m reserved) ≡ deserialize (message_bytes m 0)
deserialize_ignores_reserved m reserved f hr ht =
    deserialize-message_bytes m reserved f hr ht
    ∙ sym (deserialize-message_bytes m 0 f (omega arith) ht)

-- Whatever `deserialize` accepts has the right length, and its type is one of the two.
pub deserialize_known :
    (bytes : List ℕ) (m : ClockSyncMessage)
    → deserialize bytes ≡ ok m
    → (length bytes ≡ message_size) × ((m.type ≡ request) ⊎ (m.type ≡ response))
unfolding deserialize
deserialize_known bytes m e = ground arith
