-- ===== src/Connectors/Manager/Routing.antt =====
-- Where `forwardMessage` puts the message that it unwrapped.
use servercc.Common.{ℕ, ◌<◌, ◌≡◌, refl, false, Option, none, some, done, arith, update, eq_self}
use servercc.Types.Message.{Message}
use servercc.Connectors.Env.{Env, ChannelConfig}
use servercc.Connectors.Channel.{Channel, Side, requests, responses, new_channel, push}
use servercc.Connectors.Manager.{
  State, slot_at, push_at, allocate, create_response_channel, push_request, forward_request,
  forward_response,
}
use servercc.Connectors.Manager.Retire.{slot}
use servercc.Connectors.Manager.Invariant.{IsValid}
use servercc.Connectors.Manager.Delivery.{accept, peer}

module _ (config : ChannelConfig) (env : Env) where
  open config use {max_channels}

  -- The channel at `ref` with a message pushed on its buffer.
  abbrev pub pushed : ℕ → Channel env.Buffer → Message → State env → State env
  pushed ref c m s = record s {
    heap = update s.heap ref (some (record c { message_buffer = (env.push m c.message_buffer).1 }));
  }

  -- The channel that the call returns: only that of a request.
  abbrev pub returned : Side → ℕ → Option ℕ
  returned requests ref = some ref
  returned responses ref = none

  push_at-open :
      (ref : ℕ) (c : Channel env.Buffer) (m : Message) (s : State env)
      → s.heap ref ≡ some c
      → c.is_closed ≡ false
      → push_at config env ref m s ≡ done ((env.push m c.message_buffer).0, pushed ref c m s)
  unfolding push_at push
  push_at-open ref c m s h e = ground arith

  -- A message for an identifier at which a valid manager has a channel of the side that it is for is
  -- pushed on the buffer of that channel, and the call returns the status of the push; no other
  -- channel, and neither array, is changed.
  pub accept-pushed :
      (side : Side) (id ref : ℕ) (m : Message) (s : State env)
      → IsValid config env s
      → slot s (peer side) id ≡ some ref
      → (c : Channel env.Buffer) × (s.heap ref ≡ some c)
        × (c.id ≡ id)
        × (c.is_closed ≡ false)
        × (accept config env side id m s
            ≡ done (
              (env.push m c.message_buffer).0,
              m.header.protocol,
              returned side ref,
              pushed ref c m s,
            ))
  unfolding forward_response forward_request push_request slot_at
  accept-pushed responses id ref m s v at =
      let (c, held, of_side, of_id, is_open) = v.registered requests id ref at in
      (
        c,
        held,
        of_id,
        is_open,
        ground (arith, v.bounded requests id ref at, push_at-open ref c m s held is_open),
      )
  accept-pushed requests id ref m s v at =
      let (c, held, of_side, of_id, is_open) = v.registered responses id ref at in
      (
        c,
        held,
        of_id,
        is_open,
        ground (arith, v.bounded responses id ref at, push_at-open ref c m s held is_open),
      )

  -- The first request for an identifier within the arrays, at which the manager has no response
  -- channel, makes one, pushes the message on its new buffer, and returns the channel and the status of the
  -- push; no other channel is changed and nothing is sent.
  pub forward_request-first :
      (id : ℕ) (m : Message) (s : State env)
      → id < max_channels
      → s.response_channel id ≡ none
      → (s' : State env) × (forward_request config env id m s
          ≡ done ((env.push m env.new_buffer).0, m.header.protocol, some s.next_ref, s'))
        × (s'.response_channel id ≡ some s.next_ref)
        × ((r : ℕ)
            → s'.heap r
              ≡ update s.heap s.next_ref
                  (some (record (new_channel config env responses id s.write_fd) {
                    message_buffer = (env.push m env.new_buffer).1;
                  }))
                  r)
        × (s'.world ≡ s.world)
  unfolding forward_request push_request slot_at create_response_channel allocate push_at push
      new_channel
  forward_request-first id m s lt e = (
    pushed s.next_ref (new_channel config env responses id s.write_fd) m
        (record (allocate config env responses id s).1 {
          response_channel = update s.response_channel id (some s.next_ref);
        }),
    ground arith,
    rw (eq_self id),
    (λ r. ground arith),
    refl,
  )
