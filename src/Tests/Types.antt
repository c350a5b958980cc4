-- ===== src/Tests/Types.antt =====
-- Messages and streams of servercc/types at concrete inputs.
use servercc.Common.{ℕ, ◌≡◌, ◌⊎◌, refl, pos, [], ◌∷◌, some, none, done, arith, All}
use servercc.Types.Status.{ok_status, error, invalid_argument}
use servercc.Types.Memory.{uint32, resize, IsByte}
use servercc.Types.Message.{Message, wrap_message, unwrap_message}
use servercc.Types.Message.RoundTrip.{IsFramed, unwrap-wrap, wrap-unwrap}
use servercc.Types.Stream.{counted}
use servercc.Types.Stream.Transfer.{Reads, read_message-Arrived}
use servercc.Types.Stream.Sequence.{IsSendable, write_messages, read_messages, read-write_messages}
use servercc.Fixtures.{loopback, loopback_stream, idle, greeting, greeting-IsHeader}

unwrap-wrap_example :
    (w : Message) × (wrap_message uint32 9 260 greeting ≡ done w)
    × (w.header.protocol ≡ 9)
    × (w.header.length ≡ 15)
    × IsFramed w
    × (unwrap_message uint32 w
        ≡ done (ok_status, some (260, record greeting { body = resize 3 (104 ∷ 105 ∷ 33 ∷ []) })))
unwrap-wrap_example = unwrap-wrap uint32 9 260 greeting greeting-IsHeader refl (omega arith)

-- An empty message wrapped with the value 5.
abbrev wrapped_five : Message
wrapped_five = record {
  header = record { length = 12; protocol = 9 };
  body = 0 ∷ 0 ∷ 0 ∷ 0 ∷ 7 ∷ 0 ∷ 0 ∷ 0 ∷ 5 ∷ 0 ∷ 0 ∷ 0 ∷ [];
}

wrapped_five-bytes : All IsByte wrapped_five.body
wrapped_five-bytes = ground arith

wrap-unwrap_example :
    (unwrap_message uint32 wrapped_five
      ≡ done (error invalid_argument "Invalid message length", none))
    ⊎ ((v : ℕ) × (m : Message) × (unwrap_message uint32 wrapped_five
          ≡ done (ok_status, some (v, m)))
        × IsFramed m
        × (wrap_message uint32 9 v m ≡ done wrapped_five))
wrap-unwrap_example = wrap-unwrap uint32 wrapped_five refl (omega arith) wrapped_five-bytes

read_message-Arrived_example : Reads loopback (pos 5) idle
read_message-Arrived_example = read_message-Arrived loopback (pos 5) idle

read-write_messages_example :
    read_messages loopback
      (pos 6)
      2
      (write_messages loopback (pos 5) (greeting ∷ wrapped_five ∷ []) idle)
    ≡ some (counted greeting) ∷ some (counted wrapped_five) ∷ []
read-write_messages_example =
    read-write_messages loopback (loopback_stream (pos 5) (pos 6)) (greeting ∷ wrapped_five ∷ [])
      idle refl refl sendable
  where
    sendable : All IsSendable (greeting ∷ wrapped_five ∷ [])
    sendable = ground arith
