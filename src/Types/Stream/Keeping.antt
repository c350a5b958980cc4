-- ===== src/Types/Stream/Keeping.antt =====
-- What the functions of servercc/types/src/message.cc leave alone of the world.
use servercc.Common.{ℕ, ◌%◌, ◌^◌, ◌≡◌, ℤ, List, arith, length, take}
use servercc.Types.Memory.{resize}
use servercc.Types.Header.{header_bytes, header_of_bytes, message_header_length}
use servercc.Types.Message.{Message}
use servercc.Types.Posix.{Posix}
use servercc.Types.Stream.{read_message, write_message, counted}

module _ {ℓ} (posix : Posix) where
  -- `writeMessage` and `readMessage` change no more than the calls that they make.
  pub write_message-keeps :
      {A : Type ℓ} (X : posix.World → A) (fd : ℤ)
      → ((bs : List ℕ) (w : posix.World) → X (posix.send fd bs w).1 ≡ X w)
      → ((w : posix.World) → X (posix.fsync fd w) ≡ X w)
      → (m : Message) (w : posix.World) → X (write_message posix fd m w).1 ≡ X w
  unfolding write_message
  write_message-keeps X fd send fsync m w = ground (
    arith,
    send head w,
    send (take (length m.body % 2 ^ 32) m.body) (posix.send fd head w).1,
    fsync (posix.send fd (take (length m.body % 2 ^ 32) m.body) (posix.send fd head w).1).1,
  )
    where
      head : List ℕ
      head = header_bytes (counted m).header

  pub read_message-keeps :
      {A : Type ℓ} (X : posix.World → A) (fd : ℤ)
      → ((n : ℕ) (w : posix.World) → X (posix.recv fd n w).2 ≡ X w)
      → (w : posix.World) → X (read_message posix fd w).2 ≡ X w
  unfolding read_message
  read_message-keeps X fd recv w = ground (
    arith,
    recv message_header_length w,
    recv
        (header_of_bytes
          (resize message_header_length (posix.recv fd message_header_length w).1)).length
        (posix.recv fd message_header_length w).2,
  )
