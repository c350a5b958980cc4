-- ===== src/Types/Stream/Transfer.antt =====
-- What readMessage reads of what writeMessage wrote, and what any read gives.
use servercc.Common.{
  ℕ, ◌%◌, ◌^◌, ◌≤◌, ◌<◌, ◌≡◌, ◌⊎◌, inl, inr, negsuc, true, signed_lt, ltb, Bool-cases, refl, sym,
  ap, ◌∙◌, ℤ, pos, false, List, [], ◌∷◌, ◌++◌, Option, none, some, arith, length, take, is_negative,
  length-append, take-append, drop-append, take_all, append_assoc,
}
use servercc.Types.Status.{Status, ok_status, is_ok}
use servercc.Types.Memory.{resize}
use servercc.Types.Memory.Bounds.{length-resize, resize_self}
use servercc.Types.Header.{
  MessageHeader, IsHeader, header_bytes, header_of_bytes, header_of_bytes-header_bytes,
  length-header_bytes, message_header_length,
}
use servercc.Types.Message.{Message}
use servercc.Types.Message.RoundTrip.{IsFramed}
use servercc.Types.Posix.{Posix, ByteStream}
use servercc.Types.Stream.{read_message, write_message, counted}

-- What every read returns: a message that counts its own body beside an ok status, or no message
-- beside an error.
abbrev pub ReadResult : Status → Option Message → Type 0
ReadResult s none = is_ok s ≡ false
ReadResult s (some m) = (s ≡ ok_status) × IsFramed m

-- The bytes of a message on the wire.
abbrev pub frame : Message → List ℕ
frame m = header_bytes m.header ++ m.body

length-eq-zero : (bs : List ℕ) → length bs ≡ 0 → bs ≡ []
length-eq-zero [] h = refl
length-eq-zero (b ∷ bs) h = absurd (omega arith)

module _ (posix : Posix) where
  open posix use {World}

  -- A read gives a message that counts its own body and an ok status, or an error and nothing.
  pub read_message-ReadResult :
      (fd : ℤ) (w : World) → ReadResult (read_message posix fd w).0 (read_message posix fd w).1
  unfolding read_message
  read_message-ReadResult fd w = ground (
    arith,
    length-resize
        (header_of_bytes
          (resize message_header_length (posix.recv fd message_header_length w).1)).length
        (posix.recv fd
          (header_of_bytes
            (resize message_header_length (posix.recv fd message_header_length w).1)).length
          (posix.recv fd message_header_length w).2).1,
  )

  -- A receive that gave all that was asked for.
  abbrev pub Whole : ℤ → ℕ → Type 0
  Whole result n = (k : ℕ) × (result ≡ pos k) × (n ≤ k)

  signed_lt-Whole : (result : ℤ) (n : ℕ) → signed_lt result n ≡ false → Whole result n
  signed_lt-Whole (pos k) n e = (k, refl, ground arith)
  signed_lt-Whole (negsuc k) n e = absurd (ground arith)

  not_Whole : (result : ℤ) (n : ℕ) → signed_lt result n ≡ true → ¬ Whole result n
  not_Whole result n e (k, q, le) = ground arith

  -- The header that a read decodes, and whether both receives gave all that was asked for; a body
  -- of no bytes is not asked for.
  abbrev pub header_read : ℤ → World → MessageHeader
  header_read fd w =
      header_of_bytes (resize message_header_length (posix.recv fd message_header_length w).1)

  abbrev pub Arrived : ℤ → World → Type 0
  Arrived fd w =
      Whole (posix.recv fd message_header_length w).0 message_header_length
      × (0 < (header_read fd w).length
          → Whole
              (posix.recv fd (header_read fd w).length (posix.recv fd message_header_length w).2).0
              (header_read fd w).length)

  -- What a read comes to: where all has arrived, a message that counts its own body, with the header
  -- and the bytes that were received, and otherwise an error and no message.
  abbrev pub Reads : ℤ → World → Type 0
  Reads fd w =
      (Arrived fd w
        × ((read_message posix fd w).0 ≡ ok_status)
        × (m : Message) × ((read_message posix fd w).1 ≡ some m)
        × (m.header ≡ header_read fd w)
        × IsFramed m
        × (m.body
            ≡ resize m.header.length
                (posix.recv fd (header_read fd w).length
                  (posix.recv fd message_header_length w).2).1))
      ⊎ ((¬ Arrived fd w)
          × (is_ok (read_message posix fd w).0 ≡ false)
          × ((read_message posix fd w).1 ≡ none))

  -- A read succeeds exactly where the receive of the header gave all its bytes and, where the
  -- header states a body, the receive of the body did: the message then has the header that was
  -- received and, as its body, the bytes that were received, cut or padded to the length that the
  -- header states. Otherwise an error and no message are returned.
  pub read_message-Arrived : (fd : ℤ) (w : World) → Reads fd w
  unfolding read_message resize
  read_message-Arrived fd w =
      let (r1, bytes1, w1) = posix.recv fd message_header_length w in
      let n = (header_read fd w).length in
      let (r2, bytes2, w2) = posix.recv fd n w1 in
      elim (Bool-cases (signed_lt r1 message_header_length)) [
        | inl short ↦ inr (
          (λ arrived. not_Whole r1 message_header_length short arrived.0),
          ground arith,
          ground arith,
        )
        | inr first ↦ elim (Bool-cases (ltb 0 n)) [
          | inr empty ↦ inl (
            (signed_lt-Whole r1 message_header_length first, λ more. absurd (ground arith)),
            ground arith,
            record { header = header_read fd w; body = [] },
            ground arith,
            refl,
            ground arith,
            ground arith,
          )
          | inl more ↦ elim (Bool-cases (signed_lt r2 n)) [
            | inl short ↦ inr (
              (λ arrived. not_Whole r2 n short (arrived.1 (ground arith))),
              ground arith,
              ground arith,
            )
            | inr second ↦ inl (
              (signed_lt-Whole r1 message_header_length first, λ _. signed_lt-Whole r2 n second),
              ground arith,
              record { header = header_read fd w; body = resize n bytes2 },
              ground arith,
              refl,
              length-resize n bytes2,
              refl,
            )
          ]
        ]
      ]

  module _ {source target : ℤ} (stream : ByteStream posix source target) where
    open stream use {
      pending, send_result, send_pending, recv_result, recv_bytes, recv_pending, fsync_pending,
    }

    abbrev Receives : ℕ → World → List ℕ → List ℕ → Type 0
    Receives n w bs rest =
        ((posix.recv target n w).0 ≡ pos n)
        × ((posix.recv target n w).1 ≡ bs)
        × (pending (posix.recv target n w).2 ≡ rest)

    recv_prefix :
        (n : ℕ) (bs rest : List ℕ) (w : World)
        → pending w ≡ bs ++ rest
        → n ≡ length bs
        → Receives n w bs rest
    recv_prefix n bs rest w h e = (
      recv_result n w enough,
      recv_bytes n w enough ∙ rw h (take-append n bs rest e),
      recv_pending n w enough ∙ rw h (drop-append n bs rest e),
    )
      where
        enough : n ≤ length (pending w)
        enough = rw h (omega (arith, length-append bs rest))

    -- A frame that has arrived is read as its message, and what follows it stays.
    pub read_message-frame :
        (m : Message) (rest : List ℕ) (w : World)
        → pending w ≡ frame m ++ rest
        → IsHeader m.header
        → IsFramed m
        → (read_message posix target w).0 ≡ ok_status
          × ((read_message posix target w).1 ≡ some m)
          × (pending (read_message posix target w).2 ≡ rest)
    unfolding read_message
    read_message-frame m rest w h hm fm = ground (
      arith,
      head,
      decoded,
      tail,
      resize_self m.header.length m.body fm,
      ap (λ (k : MessageHeader). k.length) decoded,
      bodyless,
    )
      where
        head : Receives message_header_length w (header_bytes m.header) (m.body ++ rest)
        head =
            recv_prefix message_header_length (header_bytes m.header) (m.body ++ rest) w
              (h ∙ append_assoc (header_bytes m.header) m.body rest)
              (sym (length-header_bytes m.header))

        decoded :
            header_of_bytes
              (resize message_header_length (posix.recv target message_header_length w).1)
            ≡ m.header
        decoded =
            ap (λ t. header_of_bytes (resize message_header_length t)) head.1
            ∙ ap header_of_bytes (
                resize_self message_header_length (header_bytes m.header)
                  (length-header_bytes m.header))
            ∙ header_of_bytes-header_bytes m.header hm

        bodyless : m.header.length ≡ 0 → (m.body ≡ []) × (m.body ++ rest ≡ rest)
        bodyless e =
            let none_left : m.body ≡ [] = length-eq-zero m.body (fm ∙ e) in
            (none_left, ap (λ t. t ++ rest) none_left)

        tail : Receives m.header.length (posix.recv target message_header_length w).2 m.body rest
        tail =
            recv_prefix m.header.length m.body rest (posix.recv target message_header_length w).2
              head.2 (sym fm)

    -- A message is written as its frame, its header counting the body.
    pub write_message-frame :
        (m : Message) (w : World)
        → is_negative source ≡ false
        → length m.body < 2 ^ 32
        → (write_message posix source m w).0 ≡ ok_status
          × (pending (write_message posix source m w).1 ≡ pending w ++ frame (counted m))
    unfolding write_message
    write_message-frame m w h fits = ground (
      arith,
      whole,
      send_result head w,
      send_pending head w,
      send_result m.body sent,
      send_pending m.body sent,
      fsync_pending (posix.send source m.body sent).1,
      length-header_bytes (counted m).header,
      append_assoc (pending w) head m.body,
    )
      where
        head : List ℕ
        head = header_bytes (counted m).header

        sent : World
        sent = (posix.send source head w).1

        whole : take (length m.body % 2 ^ 32) m.body ≡ m.body
        whole = take_all (length m.body % 2 ^ 32) m.body (omega arith)
