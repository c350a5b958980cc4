-- ===== src/Demos/Runs.antt =====
-- What the parts of the echo service of demos/distributed_demo.cc come to where nothing fails.
use servercc.Common.{
  ℕ, ◌+◌, ◌%◌, ◌^◌, ◌<◌, ◌≡◌, refl, List, none, some, done, arith, length, eq_self,
}
use servercc.Types.Status.{ok_status}
use servercc.Types.Memory.Bounds.{resize_self}
use servercc.Types.Message.{Message}
use servercc.Connectors.Env.{Env, ChannelConfig}
use servercc.Connectors.Channel.{Channel, write, read}
use servercc.Connectors.Manager.{State, create_request_channel}
use servercc.Connectors.Manager.Invariant.{IsValid}
use servercc.Connectors.Manager.Pushing.{rebuffered, rebuffered-IsValid}
use servercc.Connectors.Manager.Delivery.{IsWrappable, delivered}
use servercc.Connectors.InternalRequest.{
  InternalRequest, new_internal_request, send_message, receive_message, terminate-ends,
}
use servercc.Demos.{echo_message, echo_turn, send_echo, receive_echo}

module _ (config : ChannelConfig) (env : Env) where
  open config use {max_channels}

  pub receive_message-rebuffers :
      (r : InternalRequest) (s : State env) (c : Channel env.Buffer) (m : Message) (b : env.Buffer)
      → s.heap r.channel ≡ some c
      → env.pop c.message_buffer ≡ done (ok_status, some m, b)
      → receive_message config env r s
        ≡ done (ok_status, some m, rebuffered config env r.channel c b s)
  unfolding receive_message read
  receive_message-rebuffers r s c m b held taken = ground (arith, held, taken)

  pub send_message-written :
      (r : InternalRequest) (s : State env) (c : Channel env.Buffer) (m : Message) (w : env.World)
      → s.heap r.channel ≡ some c
      → write config env c m s.world ≡ done (ok_status, w)
      → send_message config env m r s ≡ done (ok_status, record s { world = w })
  unfolding send_message
  send_message-written r s c m w held written = ground (arith, held, written)

  pub send_echo-sent :
      (text : List ℕ) (s s' : State env) (ref : ℕ) (c : Channel env.Buffer) (w : env.World)
      → create_request_channel config env s ≡ done (ok_status, some ref, s')
      → s'.heap ref ≡ some c
      → write config env c (echo_message text) s'.world ≡ done (ok_status, w)
      → send_echo config env text s
        ≡ done (some (new_internal_request ref), record s' { world = w })
  unfolding send_echo new_internal_request
  send_echo-sent text s s' ref c w created held written = rw created (
      rw (send_message-written (new_internal_request ref) s' c (echo_message text) w held written)
        refl)

  pub echo_turn-replies :
      (r : InternalRequest) (s : State env) (c : Channel env.Buffer) (m : Message) (b : env.Buffer)
      (w : env.World)
      → s.heap r.channel ≡ some c
      → env.pop c.message_buffer ≡ done (ok_status, some m, b)
      → write config env (record c { message_buffer = b }) m s.world ≡ done (ok_status, w)
      → echo_turn config env r s
        ≡ done (none, record (rebuffered config env r.channel c b s) { world = w })
  unfolding echo_turn
  echo_turn-replies r s c m b w held taken written =
      rw (receive_message-rebuffers r s c m b held taken) (
        rw
          (send_message-written r (rebuffered config env r.channel c b s)
            (record c { message_buffer = b }) m w (rw (eq_self r.channel)) written)
          refl)

  pub receive_echo-reply :
      (r : InternalRequest) (s : State env) (c : Channel env.Buffer) (m : Message) (b : env.Buffer)
      → IsValid config env s
      → s.heap r.channel ≡ some c
      → env.pop c.message_buffer ≡ done (ok_status, some m, b)
      → (s' : State env) × (receive_echo config env r s ≡ done (some m, s')) × IsValid config env s'
  unfolding receive_echo
  receive_echo-reply r s c m b v held taken =
      let (s', run, valid, again, refused) =
        terminate-ends config env r (record c { message_buffer = b }) m
          (rebuffered config env r.channel c b s)
          (rebuffered-IsValid config env r.channel c b s v held) (rw (eq_self r.channel)) in
      (s', rw (receive_message-rebuffers r s c m b held taken) (rw run refl), valid)

pub delivered-echo :
    (text : List ℕ) → length text < 2 ^ 32 → delivered (echo_message text) ≡ echo_message text
delivered-echo text fits = λ i. record (echo_message text) {
  body = resize_self (length text % 2 ^ 32) text (omega (arith, fits)) i;
}

pub echo-IsWrappable : (text : List ℕ) → length text + 12 < 2 ^ 32 → IsWrappable (echo_message text)
echo-IsWrappable text fits = record {
  header_fits = record { length_fits = omega arith; protocol_fits = omega arith };
  room = omega (arith, fits);
}
