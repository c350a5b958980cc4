-- ===== src/Demos/Echo.antt =====
-- A text sent to the echo service of a peer comes back.
use servercc.Common.{
  ℕ, zero, suc, ◌+◌, ◌≤◌, ◌^◌, ◌<◌, ◌≡◌, ◌≢◌, inl, inr, refl, sym, ap, subst, ◌∙◌, List, [], ◌∷◌,
  none, some, done, arith, length, eq_self, Option-cases,
}
use servercc.Types.Status.{ok_status}
use servercc.Types.Message.{Message}
use servercc.Types.Posix.{SockAddr}
use servercc.Types.Stream.{read_message}
use servercc.Connectors.Env.{Env, ChannelConfig, Fifo}
use servercc.Connectors.Channel.{Channel, requests, responses, new_channel}
use servercc.Connectors.Manager.{State, forward_message, allocate}
use servercc.Connectors.Manager.Invariant.{IsValid, entered-IsValid}
use servercc.Connectors.Manager.Opening.{
  opened, popped, create_request_channel-popped, opened_request-IsValid,
}
use servercc.Connectors.Manager.Pushing.{rebuffered, rebuffered-IsValid}
use servercc.Connectors.Manager.Delivery.{IsConfig, IsWrappable, delivered, accept}
use servercc.Connectors.Manager.Routing.{pushed, accept-pushed, forward_request-first}
use servercc.Connectors.InternalRequest.{InternalRequest, new_internal_request}
use servercc.Connectors.Conversation.{pop-push}
use servercc.Connectors.Link.{End, opposite, Wires, Link, at, Reach}
use servercc.Connectors.Link.Traffic.{on_wire}
use servercc.Connectors.Link.Safety.{IsIdle, Reach-IsLinked}
use servercc.Connectors.Link.Tidy.{Reach-claimed, opposite_twice}
use servercc.Connectors.Link.Passage.{write-Passes}
use servercc.Demos.{echo_message, echo_protocol, echo_turn, send_echo, receive_echo}
use servercc.Demos.Runs.{
  send_echo-sent, echo_turn-replies, receive_echo-reply, delivered-echo, echo-IsWrappable,
}

module _ (config : ChannelConfig) (env : Env) (wires : Wires env.posix) where
  -- The whole way of a text: the shell at end `e` sends it, the reader at the other end takes it and
  -- starts the handler, which answers, and the reader at end `e` takes the answer for the shell.
  abbrev pub Echoes : End → List ℕ → SockAddr → Link env → Type 0
  Echoes e text addr l =
      (r : InternalRequest) × (s1 : State env) × (asked : Message) × (w1 : env.World)
      × (channel : ℕ) × (s2 : State env) × (s3 : State env) × (answer : Message) × (w2 : env.World)
      × (s4 : State env) × (s5 : State env) × (send_echo config env text (at e l)
          ≡ done (some r, s1))
      × (read_message env.posix (wires.fd (opposite e)) s1.world ≡ (ok_status, some asked, w1))
      × (forward_message config env asked (record (l.manager (opposite e)) { world = w1 })
          ≡ done (ok_status, echo_protocol, some channel, s2))
      × (echo_turn config env (record { protocol = echo_protocol; addr = addr; channel = channel })
            s2
          ≡ done (none, s3))
      × (read_message env.posix (wires.fd e) s3.world ≡ (ok_status, some answer, w2))
      × (forward_message config env answer (record s1 { world = w2 })
          ≡ done (ok_status, echo_protocol, none, s4))
      × (receive_echo config env r s4 ≡ done (some (echo_message text), s5))
      × IsValid config env s5

module _ (config : ChannelConfig) (env : Env) (fifo : Fifo env.buffers) (wires : Wires env.posix)
    (d : IsConfig config) (small : config.max_channels ≤ 2 ^ 32) where
  open config use {max_channels}

  -- The peer takes a message on a new response channel, and its handler sends it back.
  answers :
      (e : End) (id : ℕ) (m : Message) (addr : SockAddr) (s : State env)
      → IsWrappable m
      → id < max_channels
      → s.write_fd ≡ wires.fd e
      → s.response_channel id ≡ none
      → on_wire config env wires e s.world ≡ []
      → (channel : ℕ) × (s' : State env) × (s'' : State env) × (sent : Message) × (w : env.World)
        × (accept config env requests id m s
            ≡ done (ok_status, m.header.protocol, some channel, s'))
        × (echo_turn config env
              (record { protocol = m.header.protocol; addr = addr; channel = channel })
              s'
            ≡ done (none, s''))
        × (read_message env.posix (wires.fd (opposite e)) s''.world ≡ (ok_status, some sent, w))
        × ((t : State env)
            → forward_message config env sent t ≡ accept config env responses id (delivered m) t)
  unfolding new_channel
  answers e id m addr s ok lt fd free idle =
      let (s', first, registered, heap, same) = forward_request-first config env id m s lt free in
      let c : Channel env.Buffer = record (new_channel config env responses id s.write_fd) {
        message_buffer = (env.push m env.new_buffer).1;
      } in
      let (taken, b, got) =
        pop-push config env fifo m env.new_buffer fifo.new_open fifo.new_contents in
      let (sent, w', w'', written, arrived, rest, other, forwards) =
        write-Passes config env wires e (record c { message_buffer = b }) m s'.world d ok fd refl
          (omega (arith, lt, small)) (ap (on_wire config env wires e) same ∙ idle) in
      (
        s.next_ref,
        s',
        record (rebuffered config env s.next_ref c b s') { world = w' },
        sent,
        w'',
        first ∙ ap (λ st. done (st, m.header.protocol, some s.next_ref, s')) taken,
        echo_turn-replies config env
            (record { protocol = m.header.protocol; addr = addr; channel = s.next_ref }) s' c m b w'
            (heap s.next_ref ∙ rw (eq_self s.next_ref)) got written,
        arrived,
        forwards,
      )

  -- The reply is taken by the shell from its request channel, which is open and has an empty buffer.
  takes_reply :
      (id : ℕ) (r : InternalRequest) (c : Channel env.Buffer) (m : Message) (s : State env)
      → IsValid config env s
      → s.request_channel id ≡ some r.channel
      → s.heap r.channel ≡ some c
      → c.message_buffer ≡ env.new_buffer
      → (s' : State env) × (s'' : State env) × (accept config env responses id m s
          ≡ done (ok_status, m.header.protocol, none, s'))
        × (receive_echo config env r s' ≡ done (some m, s''))
        × IsValid config env s''
  takes_reply id r c m s v at held fresh =
      let (c', held', of_id, is_open, pushing) =
        accept-pushed config env responses id r.channel m s v at in
      let same : c ≡ c' = cc in
      let empty : c'.message_buffer ≡ env.new_buffer =
        ap (λ (k : Channel env.Buffer). k.message_buffer) (sym same) ∙ fresh in
      let (taken, b, got) =
        pop-push config env fifo m c'.message_buffer (ap fifo.is_open empty ∙ fifo.new_open)
          (ap fifo.contents empty ∙ fifo.new_contents) in
      let c'' : Channel env.Buffer = record c' {
        message_buffer = (env.push m c'.message_buffer).1;
      } in
      let s' : State env = pushed config env r.channel c' m s in
      let (s'', received, valid) =
        receive_echo-reply config env r s' c'' m b
          (rebuffered-IsValid config env r.channel c' (env.push m c'.message_buffer).1 s v held')
          (rw (eq_self r.channel)) got in
      (s', s'', pushing ∙ ap (λ st. done (st, m.header.protocol, none, s')) taken, received, valid)

  -- An identifier that is free at one end has no response channel at the other, where nothing is on
  -- the way.
  free-no_response :
      (w : env.World) (l : Link env) (e : End) (id : ℕ)
      → IsIdle config env wires w
      → Reach config env wires w l
      → on_wire config env wires e l.world ≡ []
      → (l.manager e).request_channel id ≡ none
      → (l.manager (opposite e)).response_channel id ≡ none
  free-no_response w l e id idle reach quiet none_asked =
      elim (Option-cases ((l.manager (opposite e)).response_channel id)) [
        | inl free ↦ free
        | inr (ref, held) ↦
            let (asking, open_at) =
              Reach-claimed config env wires d small w l e id ref idle reach quiet held in
            absurd (ground (arith, none_asked, open_at))
      ]

  lent-Echoes :
      (w : env.World) (l : Link env) (e : End) (text : List ℕ) (addr : SockAddr) (id permits : ℕ)
      (rest : List ℕ)
      → IsIdle config env wires w
      → Reach config env wires w l
      → IsIdle config env wires l.world
      → length text + 12 < 2 ^ 32
      → (l.manager e).free_list ≡ id ∷ rest
      → (l.manager e).free_list_semaphore ≡ suc permits
      → Echoes config env wires e text addr l
  unfolding new_channel allocate new_internal_request
  lent-Echoes w l e text addr id permits rest idle reach quiet fits free semaphore =
      let linked = Reach-IsLinked config env wires d small w l idle reach in
      let here = linked.ends e in
      let there = linked.ends (opposite e) in
      let s : State env = at e l in
      let lt : id < max_channels = here.valid.in_range id (ground (arith, free)) in
      let unasked : s.request_channel id ≡ none =
        ground (arith, free, here.valid.free_or_used id lt) in
      let s1 : State env = opened config env requests id (popped config env rest permits s) in
      let c : Channel env.Buffer = new_channel config env requests id s.write_fd in
      let m : Message = echo_message text in
      let whole : delivered m ≡ m = delivered-echo text (omega (arith, fits)) in
      let created =
        create_request_channel-popped config env id permits rest s here.valid semaphore free in
      let (asked, w', w1, written, arrived, rest_wire, other, forwards) =
        write-Passes config env wires e c m s1.world d (echo-IsWrappable text fits) here.fd refl
          (omega (arith, lt, small)) (quiet e) in
      let (channel, s2, s3, answer, w2, accepted, echoed, arrived', forwards') =
        answers (opposite e) id m addr (record (l.manager (opposite e)) { world = w1 })
          (echo-IsWrappable text fits) lt there.fd
          (free-no_response w l e id idle reach (quiet e) unasked) (other ∙ quiet (opposite e)) in
      let r : InternalRequest = new_internal_request s.next_ref in
      let t : State env = record s1 { world = w2 } in
      let (s4, s5, accepted', received, valid) =
        takes_reply id r c m t
          (entered-IsValid config env s1 w2
            (opened_request-IsValid config env id permits rest s here.valid semaphore free))
          (rw (eq_self id)) (rw (eq_self s.next_ref)) refl in
      (
        r,
        record s1 { world = w' },
        asked,
        w1,
        channel,
        s2,
        s3,
        answer,
        w2,
        s4,
        s5,
        send_echo-sent config env text s s1 s.next_ref c w' created (rw (eq_self s.next_ref))
            written,
        arrived,
        forwards (record (l.manager (opposite e)) { world = w1 })
            ∙ ap
                (λ m'.
                  accept config env requests id m' (record (l.manager (opposite e)) { world = w1 }))
                whole
            ∙ accepted,
        echoed,
        subst (λ e'. read_message env.posix (wires.fd e') s3.world ≡ (ok_status, some answer, w2))
            (opposite_twice e) arrived',
        forwards' t ∙ ap (λ m'. accept config env responses id m' t) whole ∙ accepted',
        received,
        valid,
      )

  -- Under a configuration whose protocols are words and told apart, with at most 2^32 channels,
  -- in a state that calls and receipts lead two new managers at the ends of an idle connection
  -- to, with both wires empty and an identifier free at one end: a text with room for its
  -- wrapping that the shell sends from there is read whole at the other end, where forwarding it
  -- succeeds and returns a channel under the echo protocol; a turn of the echo handler on that
  -- channel sends it back and goes on; the answer is read whole and forwarded to the shell's
  -- request and starts no handler; and the shell receives the text, its request is destroyed, and
  -- its manager is valid.
  pub send_echo-Echoes :
      (w : env.World) (l : Link env) (e : End) (text : List ℕ) (addr : SockAddr)
      → IsIdle config env wires w
      → Reach config env wires w l
      → IsIdle config env wires l.world
      → length text + 12 < 2 ^ 32
      → (l.manager e).free_list ≢ []
      → Echoes config env wires e text addr l
  send_echo-Echoes w l e text addr idle reach quiet fits some_free =
      lending (l.manager e).free_list (l.manager e).free_list_semaphore refl refl
    where
      counted : (l.manager e).free_list_semaphore ≡ length (l.manager e).free_list
      counted = ((Reach-IsLinked config env wires d small w l idle reach).ends e).valid.counted

      lending :
          (free : List ℕ) (permits : ℕ)
          → (l.manager e).free_list ≡ free
          → (l.manager e).free_list_semaphore ≡ permits
          → Echoes config env wires e text addr l
      lending [] permits ef es = absurd (some_free ef)
      lending (id ∷ rest) zero ef es = absurd (omega (arith, ap length ef, counted))
      lending (id ∷ rest) (suc permits) ef es =
          lent-Echoes w l e text addr id permits rest idle reach quiet fits ef es
