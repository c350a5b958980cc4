-- ===== src/Connectors/Link/Endpoint.antt =====
-- One end of a connection: what each call does to its manager and sends to the other end.
use servercc.Common.{
  ℕ, suc, ◌+◌, ◌*◌, ◌^◌, ◌≤◌, ◌<◌, ◌≡◌, ◌⊎◌, inl, inr, refl, sym, ap, subst, ◌∙◌, false, List, [],
  ◌∷◌, some, arith, length, Bool-cases, ◌==◌, ==_iff,
}
use servercc.Types.Memory.{uint32, word32_of_bytes-word32_bytes}
use servercc.Types.Message.{Message}
use servercc.Types.Stream.{write_message}
use servercc.Connectors.Env.{Env, ChannelConfig}
use servercc.Connectors.Channel.{
  Channel, Side, requests, responses, new_channel, shut, end_message, write_end_protocol,
}
use servercc.Connectors.Manager.{State, shut_at, release_id, allocate}
use servercc.Connectors.Manager.Retire.{retired}
use servercc.Connectors.Manager.Invariant.{IsValid, entered-IsValid}
use servercc.Connectors.Manager.Opening.{opened}
use servercc.Connectors.Manager.Count.{open_channels, open_channels-opened, open_channels-retired}
use servercc.Connectors.Manager.Pushing.{rebuffered}
use servercc.Connectors.Manager.Effect.{
  Change, Effect, changed, unchanged, buffered, accepted, ended, Change-IsValid, Effect-IsValid,
}
use servercc.Connectors.Manager.Delivery.{IsConfig}
use servercc.Connectors.Link.{End, Wires}
use servercc.Connectors.Link.Claims.{Owns}
use servercc.Connectors.Link.Traffic.{IsAcceptable, Sends, Sends-nothing, write_message-Sends}

module _ (config : ChannelConfig) (env : Env) (wires : Wires env.posix) where
  open config use {max_channels}

  -- A valid manager at end `e`, all of whose channels write there.
  pub record IsAt (e : End) (s : State env) : Type 0 where
    pub valid : IsValid config env s
    pub fd : s.write_fd ≡ wires.fd e
    pub channel_fd :
        (ref : ℕ) (c : Channel env.Buffer) → s.heap ref ≡ some c → c.write_fd ≡ wires.fd e

  -- After a call the end is still one, and the call sent nothing but acceptable messages, which it
  -- owns.
  abbrev pub Continues : End → State env → State env → Type 0
  Continues e s s' =
      IsAt e s'
      × (ms : List Message) × Sends config env wires e ms s.world s'.world
      × Owns config s s' ms

  -- The same, and every two messages that are sent are paid for by a channel that is closed, but for
  -- one.
  abbrev pub Lightens : End → State env → State env → Type 0
  Lightens e s s' =
      IsAt e s'
      × (ms : List Message) × Sends config env wires e ms s.world s'.world
      × Owns config s s' ms
      × (2 * length ms + open_channels config env s' ≤ suc (open_channels config env s))

  pub Owns-nothing :
      (s s' : State env)
      → ((id ref : ℕ) → s.request_channel id ≡ some ref → s'.request_channel id ≡ some ref)
      → Owns config s s' []
  Owns-nothing s s' keeps = ((λ id claim. inl (claim.0, keeps id claim.0 claim.1)), tt)

  pub entered-IsAt :
      (e : End) (s : State env) (w : env.World) → IsAt e s → IsAt e (record s { world = w })
  entered-IsAt e s w a = record {
    valid = entered-IsValid config env s w a.valid;
    fd = a.fd;
    channel_fd = a.channel_fd;
  }

  module _ (d : IsConfig config) (small : max_channels ≤ 2 ^ 32) where
    end_message-IsAcceptable :
        (c : Channel env.Buffer)
        → c.id < max_channels
        → IsAcceptable config env wires (end_message config env c)
    unfolding end_message
    end_message-IsAcceptable c lt = record {
      header_fits = record { length_fits = omega arith; protocol_fits = d.fits_end c.side };
      framed = refl;
      ending = λ end. (omega arith, rw (word32_of_bytes-word32_bytes c.id (omega arith)) lt);
      wrapping = λ other. absurd (other (is_end c.side refl));
    }
      where
        is_end :
            (side : Side)
            → c.side ≡ side
            → (write_end_protocol config c.side ≡ config.response_end_protocol)
              ⊎ (write_end_protocol config c.side ≡ config.request_end_protocol)
        is_end requests e = inr (ap (write_end_protocol config) e)
        is_end responses e = inl (ap (write_end_protocol config) e)

    channel_fd-retired :
        (ref : ℕ) (c : Channel env.Buffer) (s : State env) (e : End)
        → IsAt e s
        → s.heap ref ≡ some c
        → (r : ℕ) (c' : Channel env.Buffer) → (retired config env ref c s).heap r ≡ some c'
        → c'.write_fd ≡ wires.fd e
    unfolding retired shut_at shut release_id
    channel_fd-retired ref c s e a h r c' k =
        ground (arith, a.channel_fd ref c h, a.channel_fd r c')

    fd-retired :
        (ref : ℕ) (c : Channel env.Buffer) (s : State env)
        → (retired config env ref c s).write_fd ≡ s.write_fd
    unfolding retired shut_at shut release_id
    fd-retired ref c s = ground arith

    world-retired :
        (ref : ℕ) (c : Channel env.Buffer) (s : State env)
        → (retired config env ref c s).world
          ≡ (write_message env.posix c.write_fd (end_message config env c) s.world).1
    unfolding retired shut_at shut release_id
    world-retired ref c s = ground arith

    -- A channel that is closed sends its end.
    retired-Owns :
        (ref : ℕ) (c : Channel env.Buffer) (s : State env)
        → c.id < max_channels
        → (side : Side) → c.side ≡ side
        → Owns config s (retired config env ref c s) (end_message config env c ∷ [])
    unfolding retired shut_at shut release_id end_message
    retired-Owns ref c s lt requests e = (
      λ id claim. elim (Bool-cases (c.id == id)) [
        | inl same ↦ inr (
            inl (
              ap (write_end_protocol config) e,
              word32_of_bytes-word32_bytes c.id (omega (arith, lt)) ∙ (==_iff c.id id).0 same,
            ))
        | inr apart ↦ inl (claim.0, ground (arith, claim.1))
      ],
      ((λ id request. absurd (ground (arith, d.not_request_end requests))), tt),
    )
    retired-Owns ref c s lt responses e = (
      λ id claim. inl (claim.0, ground (arith, claim.1)),
      ((λ id request. absurd (ground (arith, d.not_response_end requests))), tt),
    )

    retired-Lightens :
        (e : End) (ref : ℕ) (c : Channel env.Buffer) (s : State env)
        → IsAt e s
        → s.heap ref ≡ some c
        → c.is_closed ≡ false
        → Lightens e s (retired config env ref c s)
    retired-Lightens e ref c s a h is_open = (
      record {
        valid = Change-IsValid config env s _ a.valid (ended ref c h is_open refl);
        fd = fd-retired ref c s ∙ a.fd;
        channel_fd = channel_fd-retired ref c s e a h;
      },
      end_message config env c ∷ [],
      subst (Sends config env wires e (end_message config env c ∷ []) s.world)
          (sym (world-retired ref c s))
          (write_message-Sends config env wires e c.write_fd (end_message config env c) s.world
            (a.channel_fd ref c h) (end_message-IsAcceptable c lt)),
      retired-Owns ref c s lt c.side refl,
      omega (arith, open_channels-retired config env ref c s a.valid h is_open),
    )
      where
        lt : c.id < max_channels
        lt = a.valid.bounded c.side c.id ref (a.valid.open_registered ref c h is_open)

    -- A change leaves the manager at its end, and sends at most an end message, for the channel that
    -- it closes.
    pub Change-Lightens :
        (e : End) (s s' : State env) → IsAt e s → Change config env s s' → Lightens e s s'
    Change-Lightens e s s' a (unchanged q) = subst (Lightens e s) (sym q) (
      a,
      [],
      Sends-nothing config env wires e s.world,
      Owns-nothing s s (λ id r k. k),
      omega arith,
    )
    Change-Lightens e s s' a (buffered ref c b h q) = subst (Lightens e s) (sym q) (
      record {
        valid = Change-IsValid config env s _ a.valid (buffered ref c b h refl);
        fd = a.fd;
        channel_fd = λ r c' k. ground (arith, a.channel_fd r c', a.channel_fd ref c h);
      },
      [],
      Sends-nothing config env wires e s.world,
      Owns-nothing s (rebuffered config env ref c b s) (λ id r k. k),
      omega arith,
    )
    Change-Lightens e s s' a (ended ref c h is_open q) =
        subst (Lightens e s) (sym q) (retired-Lightens e ref c s a h is_open)

    -- Without one, a message that is forwarded opens at most one channel.
    pub Effect-Lightens :
        (e : End) (s s' : State env) → IsAt e s → Effect config env s s' → Lightens e s s'
    unfolding allocate new_channel
    Effect-Lightens e s s' a (changed change) = Change-Lightens e s s' a change
    Effect-Lightens e s s' a (accepted id c b lt free h q) = subst (Lightens e s) (sym q) (
      record {
        valid = Effect-IsValid config env s _ a.valid (accepted id c b lt free h refl);
        fd = a.fd;
        channel_fd = λ r c' k. ground (arith, a.channel_fd r c', a.fd, h);
      },
      [],
      Sends-nothing config env wires e s.world,
      Owns-nothing s (rebuffered config env s.next_ref c b (opened config env responses id s))
          (λ id r k. k),
      omega (arith, open_channels-opened config env responses id s),
    )

    pub Change-Continues :
        (e : End) (s s' : State env) → IsAt e s → Change config env s s' → Continues e s s'
    Change-Continues e s s' a change =
        let (is_at, ms, sends, owns, lighter) = Change-Lightens e s s' a change in
        (is_at, ms, sends, owns)

    pub Effect-Continues :
        (e : End) (s s' : State env) → IsAt e s → Effect config env s s' → Continues e s s'
    Effect-Continues e s s' a effect =
        let (is_at, ms, sends, owns, lighter) = Effect-Lightens e s s' a effect in
        (is_at, ms, sends, owns)
