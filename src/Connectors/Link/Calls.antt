-- ===== src/Connectors/Link/Calls.antt =====
-- The calls that the user of a manager makes, at one end of a connection.
use servercc.Common.{
  ℕ, ◌^◌, ◌≤◌, ◌<◌, ◌≡◌, ◌⊎◌, inl, inr, refl, sym, subst, ◌∙◌, false, [], ◌∷◌, Option, some, done,
  arith, Bool-cases, Option-cases, lt→ltb,
}
use servercc.Types.Status.{Status, ok_status}
use servercc.Types.Memory.{uint32}
use servercc.Types.Message.{Message, unwrap_message}
use servercc.Types.Message.RoundTrip.{unwrap-wrap}
use servercc.Types.Stream.{write_message}
use servercc.Connectors.Env.{Env, ChannelConfig}
use servercc.Connectors.Channel.{
  Channel, Side, requests, responses, new_channel, write, read, write_protocol,
}
use servercc.Connectors.Manager.{State, allocate, create_request_channel}
use servercc.Connectors.Manager.Retire.{slot}
use servercc.Connectors.Manager.Opening.{opened, popped, opened_request-IsValid}
use servercc.Connectors.Manager.Invariant.{IsValid}
use servercc.Connectors.Manager.Forwarding.{IsEnd}
use servercc.Connectors.Manager.Delivery.{IsConfig, IsWrappable}
use servercc.Connectors.InternalRequest.{InternalRequest, send_message}
use servercc.Connectors.Link.{End, Wires, Call, creates, sends, receives, receives_for, terminates}
use servercc.Connectors.Manager.Answering.{IsRequest}
use servercc.Connectors.Link.Claims.{Owns}
use servercc.Connectors.Link.Traffic.{IsAcceptable, Sends-nothing, write_message-Sends}
use servercc.Connectors.Link.Endpoint.{
  Owns-nothing, IsAt, Continues, Change-Continues, entered-IsAt,
}
use servercc.Connectors.Link.Changes.{
  receive_message-Change, receive_message_for-Change, terminate-Change, create-opened,
}

module _ (config : ChannelConfig) (env : Env) where
  open config use {max_channels}

  module _ (d : IsConfig config) (small : max_channels ≤ 2 ^ 32) (wires : Wires env.posix) where
    -- What `write` puts on the wire is acceptable at the other end.
    wrapped-IsAcceptable :
        (c : Channel env.Buffer) (m : Message)
        → IsWrappable m
        → c.id < max_channels
        → (sent : Message) × ((w : env.World)
            → c.is_closed ≡ false
            → write config env c m w ≡ done (write_message env.posix c.write_fd sent w))
          × IsAcceptable config env wires sent
          × (sent.header.protocol ≡ write_protocol config c.side)
          × ((inner : Message) × (unwrap_message uint32 sent
                ≡ done (ok_status, some (c.id, inner))))
    unfolding write
    wrapped-IsAcceptable c m ok lt =
        let (sent, wrapped, protocol, counts, framed, unwrapped) =
          unwrap-wrap uint32 (write_protocol config c.side) c.id m ok.header_fits
            (lt→ltb c.id _ (omega (arith, lt, small))) ok.room in
        (
          sent,
          (λ w is_open. rw (is_open, wrapped) refl),
          record {
            header_fits = record {
              length_fits = omega (arith, counts, ok.room);
              protocol_fits = omega (arith, protocol, d.fits c.side);
            };
            framed = framed;
            ending = λ end. absurd (not_end sent protocol end);
            wrapping = λ other id inner run. ground (arith, lt, unwrapped, run);
          },
          protocol,
          (_, unwrapped),
        )
      where
        not_end :
            (sent : Message)
            → sent.header.protocol ≡ write_protocol config c.side
            → ¬ IsEnd config env sent
        not_end sent e (inl is_end) = d.not_response_end c.side (sym e ∙ is_end)
        not_end sent e (inr is_end) = d.not_request_end c.side (sym e ∙ is_end)

    -- A message that is sent is wrapped and written for an open channel, and only a closed one drops it.
    pub send_message-sent :
        (r : InternalRequest) (m : Message) (st : Status) (s s' : State env)
        → IsValid config env s
        → IsWrappable m
        → send_message config env m r s ≡ done (st, s')
        → (s' ≡ s)
          ⊎ ((c : Channel env.Buffer) × (sent : Message) × (s.heap r.channel ≡ some c)
              × (c.is_closed ≡ false)
              × (s' ≡ record s { world = (write_message env.posix c.write_fd sent s.world).1 })
              × IsAcceptable config env wires sent
              × (sent.header.protocol ≡ write_protocol config c.side)
              × ((inner : Message) × (unwrap_message uint32 sent
                    ≡ done (ok_status, some (c.id, inner)))))
    unfolding send_message write
    send_message-sent r m st s s' v ok run = elim (Option-cases (s.heap r.channel)) [
      | inl empty ↦ absurd (ground arith)
      | inr (c, h) ↦ elim (Bool-cases c.is_closed) [
        | inl closed ↦ inl (ground arith)
        | inr is_open ↦
            let (sent, writes, acceptable, protocol, inner) =
              wrapped-IsAcceptable c m ok
                (v.bounded c.side c.id r.channel (v.open_registered r.channel c h is_open)) in
            inr (
              c,
              sent,
              h,
              is_open,
              ground (arith, writes s.world is_open),
              acceptable,
              protocol,
              inner,
            )
      ]
    ]

    sent-Owns :
        (c : Channel env.Buffer) (sent : Message) (ref : ℕ) (s : State env) (w : env.World)
        → IsValid config env s
        → s.heap ref ≡ some c
        → c.is_closed ≡ false
        → sent.header.protocol ≡ write_protocol config c.side
        → ((inner : Message) × (unwrap_message uint32 sent ≡ done (ok_status, some (c.id, inner))))
        → Owns config s (record s { world = w }) (sent ∷ [])
    sent-Owns c sent ref s w v h is_open protocol (inner, unwrapped) =
        ((λ id claim. inl claim), ((λ id request. inl (ref, owned c.side refl id request)), tt))
      where
        at : slot s c.side c.id ≡ some ref
        at = v.open_registered ref c h is_open

        owned :
            (side : Side)
            → c.side ≡ side
            → (id : ℕ) → IsRequest config id sent
            → s.request_channel id ≡ some ref
        owned requests e id (request, (m, read)) = ground (arith, at, e, unwrapped, read)
        owned responses e id (request, (m, read)) =
            absurd (ground (arith, d.sides_differ, protocol, e, request))

    send_message-Continues :
        (e : End) (r : InternalRequest) (m : Message) (st : Status) (s s' : State env)
        → IsAt config env wires e s
        → IsWrappable m
        → send_message config env m r s ≡ done (st, s')
        → Continues config env wires e s s'
    send_message-Continues e r m st s s' a ok run =
        elim (send_message-sent r m st s s' a.valid ok run) [
          | inl same ↦ subst (Continues config env wires e s) (sym same) (
            a,
            [],
            Sends-nothing config env wires e s.world,
            Owns-nothing config env wires s s (λ id r k. k),
          )
          | inr (c, sent, h, is_open, q, acceptable, protocol, unwrapped) ↦
              let w = (write_message env.posix c.write_fd sent s.world).1 in
              subst (Continues config env wires e s) (sym q) (
                entered-IsAt config env wires e s w a,
                sent ∷ [],
                write_message-Sends config env wires e c.write_fd sent s.world
                    (a.channel_fd r.channel c h) acceptable,
                sent-Owns c sent r.channel s w a.valid h is_open protocol unwrapped,
              )
        ]

    create-Continues :
        (e : End) (st : Status) (channel : Option ℕ) (s s' : State env)
        → IsAt config env wires e s
        → create_request_channel config env s ≡ done (st, channel, s')
        → Continues config env wires e s s'
    unfolding allocate new_channel
    create-Continues e st channel s s' a run =
        let (id, permits, rest, es, ef, q) = create-opened config env st channel s s' a.valid run in
        subst (Continues config env wires e s) (sym q) (
          record {
            valid = opened_request-IsValid config env id permits rest s a.valid es ef;
            fd = a.fd;
            channel_fd = λ r c k. ground (arith, a.fd, a.channel_fd r c);
          },
          [],
          Sends-nothing config env wires e s.world,
          Owns-nothing config env wires s
              (opened config env requests id (popped config env rest permits s))
              (λ i r k.
                ground (arith, k, ef, a.valid.free_or_used i, a.valid.bounded requests i r)),
        )

    -- No call of the user takes the manager from its end, and none sends anything but acceptable
    -- messages.
    pub Call-Continues :
        (e : End) (s s' : State env)
        → IsAt config env wires e s
        → Call config env s s'
        → Continues config env wires e s s'
    Call-Continues e s s' a (creates st channel run) = create-Continues e st channel s s' a run
    Call-Continues e s s' a (sends r m st ok run) = send_message-Continues e r m st s s' a ok run
    Call-Continues e s s' a (receives r st m run) =
        Change-Continues config env wires d small e s s' a
          (receive_message-Change config env r st m s s' run)
    Call-Continues e s s' a (receives_for expired r st m run) =
        Change-Continues config env wires d small e s s' a
          (receive_message_for-Change config env expired r st m s s' run)
    Call-Continues e s s' a (terminates r run) =
        Change-Continues config env wires d small e s s' a
          (terminate-Change config env r s s' a.valid run)
