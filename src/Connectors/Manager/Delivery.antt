-- ===== src/Connectors/Manager/Delivery.antt =====
-- From a write on a channel at one end of a connection to the call at the other.
use servercc.Common.{
  ℕ, ◌+◌, ◌%◌, ◌^◌, ◌<◌, ◌≡◌, ◌≢◌, refl, sym, ap, subst, ◌∙◌, ℤ, false, [], ◌++◌, none, some,
  Outcome, done, arith, length, is_negative, lt→ltb, append-nil,
}
use servercc.Types.Status.{ok_status}
use servercc.Types.Memory.{uint32, resize, word32_of_bytes-word32_bytes}
use servercc.Types.Header.{IsHeader, message_header_length}
use servercc.Types.Message.{Message, unwrap_message}
use servercc.Types.Message.RoundTrip.{IsFramed, unwrap-wrap}
use servercc.Types.Posix.{ByteStream}
use servercc.Types.Stream.{read_message, write_message, counted}
use servercc.Types.Stream.Transfer.{frame, write_message-frame, read_message-frame}
use servercc.Connectors.Env.{Env, ChannelConfig}
use servercc.Connectors.Channel.{
  Channel, Side, requests, responses, write, shut, end_message, write_protocol, write_end_protocol,
}
use servercc.Connectors.Manager.{
  State, Forwarded, forward_response, forward_request, forward_unwrapped, forward_wrapped,
  forward_message,
}
use servercc.Connectors.Manager.Invariant.{IsValid}
use servercc.Connectors.Manager.Closing.{Removed}
use servercc.Connectors.Manager.Forwarding.{
  Ended, EndInRange, forward_response_end-Ended, forward_request_end-Ended,
}

-- The protocols of a manager are 32-bit words, and its four kinds of message are told apart.
pub record IsConfig (config : ChannelConfig) : Type 0 where
  pub fits : (side : Side) → write_protocol config side < 2 ^ 32
  pub fits_end : (side : Side) → write_end_protocol config side < 2 ^ 32
  pub not_response_end : (side : Side) → write_protocol config side ≢ config.response_end_protocol
  pub not_request_end : (side : Side) → write_protocol config side ≢ config.request_end_protocol
  pub sides_differ : config.request_protocol ≢ config.response_protocol
  pub ends_differ : config.request_end_protocol ≢ config.response_end_protocol

-- A message that can be wrapped with a channel identifier: the wrapped length fits its field.
pub record IsWrappable (m : Message) : Type 0 where
  pub header_fits : IsHeader m.header
  pub room : m.header.length + message_header_length + 4 < 2 ^ 32

-- What the other end makes of a wrapped message: the body has the length that its header states.
abbrev pub delivered : Message → Message
delivered m = record m { body = resize m.header.length m.body }

-- The side of the channel at the other end.
abbrev pub peer : Side → Side
peer requests = responses
peer responses = requests

module _ (config : ChannelConfig) (env : Env) where
  open config use {max_channels}

  -- The call at the other end for a message of a side.
  abbrev pub accept : Side → ℕ → Message → State env → Outcome (Forwarded config env)
  accept requests id m s = forward_request config env id m s
  accept responses id m s = forward_response config env id m s

  forward_unwrapped-accept :
      (side : Side) (protocol id : ℕ) (m : Message) (s : State env)
      → IsConfig config
      → protocol ≡ write_protocol config side
      → forward_unwrapped config env protocol id m s ≡ accept side id m s
  unfolding forward_unwrapped
  forward_unwrapped-accept requests protocol id m s d e = ground (arith, d.sides_differ)
  forward_unwrapped-accept responses protocol id m s d e = ground arith

  pub forward_message-accept :
      (side : Side) (id : ℕ) (w m : Message) (s : State env)
      → IsConfig config
      → w.header.protocol ≡ write_protocol config side
      → unwrap_message uint32 w ≡ done (ok_status, some (id, m))
      → forward_message config env w s ≡ accept side id m s
  unfolding forward_message forward_wrapped
  forward_message-accept side id w m s d e u = ground (
    arith,
    d.not_response_end side,
    d.not_request_end side,
    u,
    forward_unwrapped-accept side w.header.protocol id m s d e,
  )

  forward_message-Ended :
      (side : Side) (m : Message) (s : State env)
      → IsConfig config
      → m.header.protocol ≡ write_end_protocol config side
      → IsValid config env s
      → EndInRange config env m
      → Ended config env (peer side) m s (forward_message config env m s)
  unfolding forward_message
  forward_message-Ended requests m s d e v r =
      subst (Ended config env responses m s) (sym (ground (arith, d.ends_differ)))
        (forward_request_end-Ended config env m s v r)
  forward_message-Ended responses m s d e v r =
      subst (Ended config env requests m s) (sym (ground arith))
        (forward_response_end-Ended config env m s v r)

  -- Counting the body of a framed message whose length fits changes nothing.
  pub counted-framed : (w : Message) → IsFramed w → w.header.length < 2 ^ 32 → counted w ≡ w
  counted-framed w framed fits = λ i. record w { header = record w.header { length = same i } }
    where
      same : length w.body % 2 ^ 32 ≡ w.header.length
      same = omega arith

  module _ (target : ℤ) (c : Channel env.Buffer)
      (stream : ByteStream env.posix c.write_fd target) where
    open stream use {pending}

    -- The message goes over the idle stream whole, and is read at the other end.
    abbrev pub Arrives : Message → env.World → Type 0
    Arrives m w =
        ((read_message env.posix target w).0 ≡ ok_status)
        × ((read_message env.posix target w).1 ≡ some m)
        × (pending (read_message env.posix target w).2 ≡ [])

    sent-Arrives :
        (m : Message) (w : env.World)
        → is_negative c.write_fd ≡ false
        → pending w ≡ []
        → IsFramed m
        → IsHeader m.header
        → ((write_message env.posix c.write_fd m w).0 ≡ ok_status)
          × Arrives m (write_message env.posix c.write_fd m w).1
    sent-Arrives m w fd idle framed fits =
        let same : counted m ≡ m = counted-framed m framed fits.length_fits in
        let (ok, wire) = write_message-frame env.posix stream m w fd (omega arith) in
        let on_wire : pending (write_message env.posix c.write_fd m w).1 ≡ frame m ++ [] =
          wire
          ∙ ap (λ t. t ++ frame (counted m)) idle
          ∙ ap frame same
          ∙ sym (append-nil (frame m)) in
        (ok, read_message-frame env.posix stream m [] _ on_wire fits framed)

    -- Under a configuration whose protocols are words and told apart, a message of a valid header
    -- with room for the wrapping, written to an open channel with a word as identifier and an
    -- idle stream on its descriptor, arrives at the other end whole; forwarding it there makes
    -- the call of its side for this channel's identifier and for the message, its body cut or
    -- padded to the length that its header states.
    pub write-delivers :
        (m : Message) (w : env.World)
        → IsConfig config
        → IsWrappable m
        → c.is_closed ≡ false
        → c.id < 2 ^ 32
        → is_negative c.write_fd ≡ false
        → pending w ≡ []
        → (sent : Message) × (w' : env.World) × (write config env c m w ≡ done (ok_status, w'))
          × Arrives sent w'
          × ((s : State env)
              → forward_message config env sent s ≡ accept c.side c.id (delivered m) s)
    unfolding write
    write-delivers m w d ok is_open small fd idle =
        let (sent, wrapped, protocol, counts, framed, unwrapped) =
          unwrap-wrap uint32 (write_protocol config c.side) c.id m ok.header_fits
            (lt→ltb c.id _ small) ok.room in
        let fits : IsHeader sent.header = record {
          length_fits = omega (arith, counts, ok.room);
          protocol_fits = omega (arith, protocol, d.fits c.side);
        } in
        let (sent_ok, arrives) = sent-Arrives sent w fd idle framed fits in
        (
          sent,
          (write_message env.posix c.write_fd sent w).1,
          rw is_open
              (rw wrapped (λ i. done (sent_ok i, (write_message env.posix c.write_fd sent w).1))),
          arrives,
          λ s. forward_message-accept c.side c.id sent (delivered m) s d protocol unwrapped,
        )

    -- Under a configuration whose protocols are words and told apart, closing a channel with a
    -- word as identifier and an idle stream on its descriptor tells the other end; forwarding the
    -- end message there to a valid manager, with the identifier within its arrays, removes the
    -- channel of this identifier from the other side and keeps the manager valid.
    pub shut-delivers :
        (w : env.World) (s : State env)
        → IsConfig config
        → c.id < 2 ^ 32
        → is_negative c.write_fd ≡ false
        → pending w ≡ []
        → IsValid config env s
        → c.id < max_channels
        → Arrives (end_message config env c) (shut config env c w).1
          × ((s' : State env) × (forward_message config env (end_message config env c) s
                ≡ done (ok_status, write_end_protocol config c.side, none, s'))
              × Removed config env (peer c.side) c.id s s')
    unfolding shut end_message
    shut-delivers w s d small fd idle v lt = (
      (sent-Arrives (end_message config env c) w fd idle refl
          (record { length_fits = omega arith; protocol_fits = d.fits_end c.side })).1,
      subst
          (λ i.
            (s' : State env) × (forward_message config env (end_message config env c) s
              ≡ done (ok_status, write_end_protocol config c.side, none, s'))
            × Removed config env (peer c.side) i s s')
          (word32_of_bytes-word32_bytes c.id small)
          (forward_message-Ended c.side (end_message config env c) s d refl v
            (omega arith, rw (word32_of_bytes-word32_bytes c.id small) lt)),
    )
