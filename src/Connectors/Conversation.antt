-- ===== src/Connectors/Conversation.antt =====
-- A request from the channel that it is written to, to the user who reads it at the other end.
use servercc.Common.{
  ◌^◌, ◌<◌, ◌≡◌, sym, ap, ◌∙◌, ℤ, true, false, [], ◌∷◌, ◌++◌, none, some, done, arith, is_negative,
  update, eq_self,
}
use servercc.Types.Status.{ok_status}
use servercc.Types.Message.{Message}
use servercc.Types.Posix.{SockAddr, ByteStream}
use servercc.Connectors.Env.{Env, ChannelConfig, Fifo}
use servercc.Connectors.Channel.{Channel, requests, responses, new_channel, write, read}
use servercc.Connectors.Manager.{State, forward_message}
use servercc.Connectors.Manager.Delivery.{
  IsConfig, IsWrappable, Arrives, accept, delivered, write-delivers,
}
use servercc.Connectors.Manager.Routing.{pushed, accept-pushed, forward_request-first}
use servercc.Connectors.Manager.Invariant.{IsValid}
use servercc.Connectors.InternalRequest.{InternalRequest, receive_message}

module _ (config : ChannelConfig) (env : Env) (fifo : Fifo env.buffers) where
  open config use {max_channels}

  -- An open empty buffer gives back the message that is pushed on it.
  pub pop-push :
      (m : Message) (e : env.Buffer)
      → fifo.is_open e ≡ true
      → fifo.contents e ≡ []
      → ((env.push m e).0 ≡ ok_status)
        × (b : env.Buffer) × (env.pop (env.push m e).1 ≡ done (ok_status, some m, b))
  pop-push m e is_open empty =
      let (taken, holds, still) = fifo.push_ok m e is_open in
      let (b, run, _, _) =
        fifo.pop_first m [] (env.push m e).1 still (holds ∙ ap (λ ms. ms ++ (m ∷ [])) empty) in
      (taken, b, run)

  receive_message-first :
      (r : InternalRequest) (c : Channel env.Buffer) (m : Message) (b : env.Buffer) (s : State env)
      → s.heap r.channel ≡ some c
      → env.pop c.message_buffer ≡ done (ok_status, some m, b)
      → (s' : State env) × (receive_message config env r s ≡ done (ok_status, some m, s'))
  unfolding receive_message read
  receive_message-first r c m b s h run = (
    record s { heap = update s.heap r.channel (some (record c { message_buffer = b })) },
    ground (arith, h, run),
  )

  -- Under a configuration whose protocols are words and told apart, a message of a valid header
  -- with room for the wrapping, written to an open request channel with a word as identifier and
  -- an idle stream on its descriptor, arrives at the other end; where the manager there has no
  -- response channel at the identifier, which is within its arrays, forwarding what arrived
  -- returns a new channel, and the request on that channel receives the message, its body cut or
  -- padded to the length that its header states.
  pub request-received :
      (target : ℤ) (c : Channel env.Buffer) (stream : ByteStream env.posix c.write_fd target)
      (m : Message) (addr : SockAddr) (w : env.World) (s : State env)
      → IsConfig config
      → IsWrappable m
      → c.side ≡ requests
      → c.is_closed ≡ false
      → c.id < 2 ^ 32
      → is_negative c.write_fd ≡ false
      → stream.pending w ≡ []
      → c.id < max_channels
      → s.response_channel c.id ≡ none
      → (sent : Message) × (w' : env.World) × (s' : State env) × (s'' : State env) × (write config
            env c m w
          ≡ done (ok_status, w'))
        × Arrives config env target c stream sent w'
        × (forward_message config env sent s
            ≡ done (ok_status, m.header.protocol, some s.next_ref, s'))
        × (receive_message config env
              (record { protocol = m.header.protocol; addr = addr; channel = s.next_ref })
              s'
            ≡ done (ok_status, some (delivered m), s''))
  unfolding new_channel
  request-received target c stream m addr w s d ok side is_open small fd idle lt free =
      let (sent, w', run, arrives, forwards) =
        write-delivers config env target c stream m w d ok is_open small fd idle in
      let (s', first, at, heap, same_world) =
        forward_request-first config env c.id (delivered m) s lt free in
      let (taken, b, popped) =
        pop-push (delivered m) env.new_buffer fifo.new_open fifo.new_contents in
      let (s'', received) =
        receive_message-first
          (record { protocol = m.header.protocol; addr = addr; channel = s.next_ref })
          (record (new_channel config env responses c.id s.write_fd) {
            message_buffer = (env.push (delivered m) env.new_buffer).1;
          })
          (delivered m) b s' (heap s.next_ref ∙ rw (eq_self s.next_ref)) popped in
      (
        sent,
        w',
        s',
        s'',
        run,
        arrives,
        forwards s
            ∙ ap (λ side'. accept config env side' c.id (delivered m) s) side
            ∙ first
            ∙ ap (λ st. done (st, m.header.protocol, some s.next_ref, s')) taken,
        received,
      )

  -- Under a configuration whose protocols are words and told apart, a message of a valid header
  -- with room for the wrapping, written to an open response channel with a word as identifier and
  -- an idle stream on its descriptor, arrives at the other end; where the valid manager there has
  -- a request channel at the identifier, whose buffer is open and empty, forwarding what arrived
  -- succeeds and returns no channel, and the request on that channel receives the message, its
  -- body cut or padded to the length that its header states.
  pub response-received :
      (target : ℤ) (c : Channel env.Buffer) (stream : ByteStream env.posix c.write_fd target)
      (m : Message) (w : env.World) (s : State env) (r : InternalRequest)
      (asked : Channel env.Buffer)
      → IsConfig config
      → IsWrappable m
      → c.side ≡ responses
      → c.is_closed ≡ false
      → c.id < 2 ^ 32
      → is_negative c.write_fd ≡ false
      → stream.pending w ≡ []
      → IsValid config env s
      → s.request_channel c.id ≡ some r.channel
      → s.heap r.channel ≡ some asked
      → fifo.is_open asked.message_buffer ≡ true
      → fifo.contents asked.message_buffer ≡ []
      → (sent : Message) × (w' : env.World) × (s' : State env) × (s'' : State env) × (write config
            env c m w
          ≡ done (ok_status, w'))
        × Arrives config env target c stream sent w'
        × (forward_message config env sent s ≡ done (ok_status, m.header.protocol, none, s'))
        × (receive_message config env r s' ≡ done (ok_status, some (delivered m), s''))
  response-received target c stream m w s r asked d ok side is_open small fd idle v at held ready
        empty =
      let (sent, w', run, arrives, forwards) =
        write-delivers config env target c stream m w d ok is_open small fd idle in
      let (asked', held', of_id, open', pushing) =
        accept-pushed config env responses c.id r.channel (delivered m) s v at in
      let same : asked ≡ asked' = cc in
      let (taken, b, popped) =
        pop-push (delivered m) asked'.message_buffer
          (ap (λ (k : Channel env.Buffer). fifo.is_open k.message_buffer) (sym same) ∙ ready)
          (ap (λ (k : Channel env.Buffer). fifo.contents k.message_buffer) (sym same) ∙ empty) in
      let (s'', received) =
        receive_message-first r
          (record asked' { message_buffer = (env.push (delivered m) asked'.message_buffer).1 })
          (delivered m) b (pushed config env r.channel asked' (delivered m) s)
          (rw (eq_self r.channel)) popped in
      (
        sent,
        w',
        pushed config env r.channel asked' (delivered m) s,
        s'',
        run,
        arrives,
        forwards s
            ∙ ap (λ side'. accept config env side' c.id (delivered m) s) side
            ∙ pushing
            ∙ ap
                (λ st.
                  done (
                    st,
                    m.header.protocol,
                    none,
                    pushed config env r.channel asked' (delivered m) s,
                  ))
                taken,
        received,
      )
