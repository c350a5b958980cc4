-- ===== src/Types/Message.antt =====
-- servercc/types/include/message.h: messages, and the wrapping that names a channel.
pub mod Wrapped
pub mod RoundTrip
use servercc.Common.{
  ℕ, ◌+◌, ◌-◌, ◌%◌, ◌^◌, List, [], Outcome, done, Option, none, some, not, take, ltb, ◌==◌,
  if◌then◌else◌, ◌>>=◌,
}
use servercc.Types.Status.{Status, ok_status, error, invalid_argument}
use servercc.Types.Memory.{Copyable, copy_from, copy_into, resize}
use servercc.Types.Header.{MessageHeader, header_bytes, header_of_bytes, message_header_length}

-- `body` is the `data` of the message's body.
pub record Message : Type 0 where
  pub header : MessageHeader
  pub body : List ℕ

-- `std::make_unique<Message>()`
abbrev pub empty_message : Message
empty_message = record { header = record { length = 0; protocol = 0 }; body = [] }

module _ {T : Type 0} (copyable : Copyable T) where
  -- The size of the new body and the offsets are computed in the widths of the source: the sum of
  -- two 32-bit words wraps, one with `sizeof(T)` does not.
  pub wrap_message : ℕ → T → Message → Outcome Message
  wrap_message protocol value message = do
    let offset = message.header.length
    let grown = resize ((offset + message_header_length) % 2 ^ 32 + copyable.size) message.body
    with_header ← copy_into grown offset (header_bytes message.header)
    let offset' = (offset + message_header_length) % 2 ^ 32
    with_value ← copy_into with_header offset' (copyable.bytes value)
    done (record {
      header = record { length = (offset' + copyable.size) % 2 ^ 32; protocol = protocol };
      body = with_value;
    })

  -- The inner header has been copied over the outer one: is it the length of what precedes it?
  unwrap_inner : T → ℕ → MessageHeader → List ℕ → Status × Option (T × Message)
  unwrap_inner value offset header body =
      if not (header.length == offset)
      then (error invalid_argument "Invalid message length", none)
      else (ok_status, some (value, record { header = header; body = take offset body }))

  unfoldable pub unwrap_message : Message → Outcome (Status × Option (T × Message))
  unfolding unwrap_inner
  unwrap_message message =
      if ltb message.header.length (copyable.size + message_header_length)
      then done (error invalid_argument "Invalid message length", none)
      else do
        let offset = message.header.length - copyable.size
        value ← copy_from message.body offset copyable.size
        let offset' = offset - message_header_length
        header ← copy_from message.body offset' message_header_length
        done (unwrap_inner (copyable.of_bytes value) offset' (header_of_bytes header) message.body)
