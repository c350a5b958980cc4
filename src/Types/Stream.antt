-- ===== src/Types/Stream.antt =====
-- servercc/types/src/message.cc: messages over a socket.
pub mod Transfer
pub mod Sequence
pub mod Keeping
use servercc.Common.{
  ℕ, ◌%◌, ◌^◌, ℤ, Bool, List, [], Option, none, some, length, take, ltb, signed_lt, is_negative,
  if◌then◌else◌,
}
use servercc.Types.Status.{Status, ok_status, error, invalid_argument, deadline_exceeded}
use servercc.Types.Memory.{resize}
use servercc.Types.Header.{MessageHeader, header_bytes, header_of_bytes, message_header_length}
use servercc.Types.Message.{Message}
use servercc.Types.Posix.{Posix}

-- `message->header.length = message->body.data.size()`
abbrev pub counted : Message → Message
counted message = record message {
  header = record message.header { length = length message.body % 2 ^ 32 };
}

module _ (posix : Posix) where
  open posix use {World, send, recv, fsync}

  read_body : ℤ → MessageHeader → World → Status × Option Message × World
  read_body fd header w =
      let (read, received, w') = recv fd header.length w in
      if signed_lt read header.length
      then (error invalid_argument "Error reading message body", none, w')
      else (ok_status, some (record { header = header; body = resize header.length received }), w')

  unfoldable pub read_message : ℤ → World → Status × Option Message × World
  unfolding read_body
  read_message fd w =
      let (read, received, w') = recv fd message_header_length w in
      let header = header_of_bytes (resize message_header_length received) in
      if signed_lt read message_header_length
      then (error invalid_argument "Error reading message header", none, w')
      else if ltb 0 header.length
      then read_body fd header w'
      else (ok_status, some (record { header = header; body = [] }), w')

  -- `expired` is what `wait_for` found. The read goes on either way, and its future is waited for
  -- before the function returns.
  pub read_message_for : Bool → ℤ → World → Status × Option Message × World
  read_message_for expired fd w =
      let (status, message, w') = read_message fd w in
      if expired
      then (error deadline_exceeded "Timeout reading message", none, w')
      else (status, message, w')

  write_body : ℤ → Message → World → Status × World
  write_body fd message w =
      let (written, w') = send fd (take message.header.length message.body) w in
      if signed_lt written message.header.length
      then (error invalid_argument "Error writing message body", w')
      else (ok_status, fsync fd w')

  write_header : ℤ → Message → World → Status × World
  unfolding write_body
  write_header fd message w =
      let (written, w') = send fd (header_bytes message.header) w in
      if signed_lt written message_header_length
      then (error invalid_argument "Error writing message header", w')
      else write_body fd message w'

  unfoldable pub write_message : ℤ → Message → World → Status × World
  unfolding write_header
  write_message fd message w =
      if is_negative fd
      then (error invalid_argument "Invalid file descriptor", w)
      else write_header fd (counted message) w
