-- ===== src/Types/Stream/Sequence.antt =====
-- Messages one after another over one socket.
use mathlib.Core.List.{map}
use servercc.Common.{
  ℕ, zero, suc, ◌^◌, ◌<◌, ◌≡◌, refl, sym, ap, ap₂, ◌∙◌, ℤ, false, List, [], ◌∷◌, ◌++◌, Option, some,
  arith, length, All, is_negative, append_assoc, append-nil,
}
use servercc.Types.Message.{Message}
use servercc.Types.Posix.{Posix, ByteStream}
use servercc.Types.Stream.{read_message, write_message, counted}
use servercc.Types.Stream.Transfer.{frame, read_message-frame, write_message-frame}

-- A message that fits the wire format.
abbrev pub IsSendable : Message → Type 0
IsSendable m = (length m.body < 2 ^ 32) × (m.header.protocol < 2 ^ 32)

abbrev pub frames : List Message → List ℕ
frames [] = []
frames (m ∷ ms) = frame m ++ frames ms

module _ (posix : Posix) where
  open posix use {World}

  -- `writeMessage` for each message in turn.
  abbrev pub write_messages : ℤ → List Message → World → World
  write_messages fd [] w = w
  write_messages fd (m ∷ ms) w = write_messages fd ms (write_message posix fd m w).1

  -- What `n` calls of `readMessage` return.
  abbrev pub read_messages : ℤ → ℕ → World → List (Option Message)
  read_messages fd zero w = []
  read_messages fd (suc n) w =
      let (status, message, w') = read_message posix fd w in message ∷ read_messages fd n w'

  module _ {source target : ℤ} (stream : ByteStream posix source target) where
    open stream use {pending}

    pending-write_messages :
        (ms : List Message) (w : World)
        → is_negative source ≡ false
        → All IsSendable ms
        → pending (write_messages source ms w) ≡ pending w ++ frames (map counted ms)
    pending-write_messages [] w h a = sym (append-nil (pending w))
    pending-write_messages (m ∷ ms) w h (fits, rest) =
        pending-write_messages ms (write_message posix source m w).1 h rest
        ∙ ap (λ t. t ++ frames (map counted ms)) (write_message-frame posix stream m w h fits.0).1
        ∙ append_assoc (pending w) (frame (counted m)) (frames (map counted ms))

    read_messages-frames :
        (ms : List Message) (w : World)
        → All IsSendable ms
        → pending w ≡ frames (map counted ms)
        → read_messages target (length ms) w ≡ map (λ m. some (counted m)) ms
    read_messages-frames [] w a h = refl
    read_messages-frames (m ∷ ms) w (fits, rest) h =
        let read =
          read_message-frame posix stream (counted m) (frames (map counted ms)) w h (omega arith)
            (omega arith) in
        ap₂ ◌∷◌ read.1 (read_messages-frames ms (read_message posix target w).2 rest read.2)

    -- Messages whose lengths and protocols are words, written one after the other to an idle
    -- stream, are read back in order by as many reads, each header counting its body.
    pub read-write_messages :
        (ms : List Message) (w : World)
        → is_negative source ≡ false
        → pending w ≡ []
        → All IsSendable ms
        → read_messages target (length ms) (write_messages source ms w)
          ≡ map (λ m. some (counted m)) ms
    read-write_messages ms w h idle a =
        read_messages-frames ms (write_messages source ms w) a
          (pending-write_messages ms w h a ∙ ap (λ t. t ++ frames (map counted ms)) idle)
