-- ===== src/Servers/UdpServer.antt =====
-- servercc/servers/src/udp_server.cc: the receive loop.
use servercc.Common.{
  ℕ, zero, suc, ◌<◌, ◌≤◌, ◌⊎◌, inl, inr, sym, subst, none, thrown, Bool-cases, Option-cases, ℤ, pos,
  negsuc, ◌≡◌, refl, ap, ◌∙◌, false, List, [], some, Outcome, done, ◌>>=◌, to_uint32, ltb,
  if◌then◌else◌, arith,
}
use servercc.Types.Status.{Status}
use servercc.Types.Memory.{resize}
use servercc.Types.Memory.Bounds.{resize_self, length-resize}
use servercc.Types.Header.{
  MessageHeader, IsHeader, header_bytes, header_of_bytes, message_header_length,
  header_of_bytes-header_bytes, length-header_bytes,
}
use servercc.Types.Message.{Message, empty_message}
use servercc.Types.Message.RoundTrip.{IsFramed}
use servercc.Types.Posix.{Posix, SockAddr}
use servercc.Servers.UdpRequest.{UdpRequest, new_udp_request}
use servercc.Servers.Registry.{Handler, Server, handle_request}
use servercc.Servers.Registry.Lookup.{handler_for, answer, handle_request-handler_for}

decoded_zeros : header_of_bytes (resize message_header_length []) ≡ empty_message.header
unfolding header_of_bytes resize
decoded_zeros = refl

module _ (posix : Posix) where
  open posix use {World, recvfrom}

  abbrev pub UdpServer : Type 0
  UdpServer = Server UdpRequest World

  -- The status of the handler is only logged.
  unfoldable pub udp_dispatch : SockAddr → Message → UdpServer → World → Outcome (UdpServer × World)
  udp_dispatch addr message s w =
      let (out, s') = handle_request message.header.protocol (new_udp_request addr message) w s in
      out >>= λ r. done (s', r.1)

  -- The second datagram; its sender is the one that the request names.
  unfoldable pub receive_body : MessageHeader → UdpServer → World → Outcome (UdpServer × World)
  receive_body header s w =
      let (read, received, addr, w') = recvfrom s.server_socket_fd header.length w in
      if ltb (to_uint32 read) header.length
      then done (s, w')
      else udp_dispatch addr (record { header = header; body = resize header.length received }) s w'

  -- One round of the loop of `run`. The results are of type `int`, and are compared with unsigned
  -- lengths.
  unfoldable pub udp_round : UdpServer → World → Outcome (UdpServer × World)
  udp_round s w =
      let (read, received, addr, w') = recvfrom s.server_socket_fd message_header_length w in
      if ltb (to_uint32 read) message_header_length
      then done (s, w')
      else receive_body (header_of_bytes (resize message_header_length received)) s w'

  -- `run`, for as many rounds.
  pub run_udp : ℕ → UdpServer → World → Outcome (UdpServer × World)
  run_udp zero s w = done (s, w)
  run_udp (suc rounds) s w = udp_round s w >>= λ r. run_udp rounds r.0 r.1

  udp_dispatch-handler_for :
      (addr : SockAddr) (m : Message) (s : UdpServer) (w : World)
      (h : UdpRequest → World → Outcome (Status × World))
      → handler_for s m.header.protocol ≡ some h
      → (s' : UdpServer) × (udp_dispatch addr m s w
          ≡ (h (new_udp_request addr m) w >>= λ r. done (s', r.1)))
        × ((q : ℕ) → handler_for s' q ≡ handler_for s q)
  unfolding udp_dispatch
  udp_dispatch-handler_for addr m s w h at =
      let request = new_udp_request addr m in
      let (ran, kept) = handle_request-handler_for m.header.protocol request w s in
      let s' : UdpServer = (handle_request m.header.protocol request w s).1 in
      (
        s',
        ap (λ (out : Outcome (Status × World)). out >>= λ r. done (s', r.1))
            (ran ∙ ap (λ (k : Handler UdpRequest World). answer k request w) at),
        kept,
      )

  receive_body-handler_for :
      (m : Message) (h : UdpRequest → World → Outcome (Status × World)) (s : UdpServer)
      (w w' : World) (read : ℤ) (received : List ℕ) (addr : SockAddr)
      → recvfrom s.server_socket_fd m.header.length w ≡ (read, received, addr, w')
      → ltb (to_uint32 read) m.header.length ≡ false
      → resize m.header.length received ≡ m.body
      → handler_for s m.header.protocol ≡ some h
      → (s' : UdpServer) × (receive_body m.header s w
          ≡ (h (new_udp_request addr m) w' >>= λ r. done (s', r.1)))
        × ((q : ℕ) → handler_for s' q ≡ handler_for s q)
  unfolding receive_body
  receive_body-handler_for m h s w w' read received addr got enough body at =
      let (s', run, kept) = udp_dispatch-handler_for addr m s w' h at in
      (s', ground (arith, run), kept)

  -- What a message makes of a server, as for the TCP server.
  abbrev pub Answers : SockAddr → Message → UdpServer → World → Outcome (UdpServer × World) → Type 0
  Answers addr m s w out =
      ((handler_for s m.header.protocol ≡ none) × (out ≡ thrown))
      ⊎ ((h : UdpRequest → World → Outcome (Status × World)) × (s' : UdpServer) × (handler_for s
              m.header.protocol
            ≡ some h)
          × (out ≡ (h (new_udp_request addr m) w >>= λ r. done (s', r.1)))
          × ((q : ℕ) → handler_for s' q ≡ handler_for s q))

  udp_dispatch-Answers :
      (addr : SockAddr) (m : Message) (s : UdpServer) (w : World)
      → Answers addr m s w (udp_dispatch addr m s w)
  unfolding udp_dispatch
  udp_dispatch-Answers addr m s w =
      let request = new_udp_request addr m in
      let (ran, kept) = handle_request-handler_for m.header.protocol request w s in
      let s' : UdpServer = (handle_request m.header.protocol request w s).1 in
      let answered : (k : Handler UdpRequest World)
          → handler_for s m.header.protocol ≡ k
          → udp_dispatch addr m s w ≡ (answer k request w >>= λ r. done (s', r.1)) =
        λ k at.
          ap (λ (out : Outcome (Status × World)). out >>= λ r. done (s', r.1))
            (ran ∙ ap (λ (k' : Handler UdpRequest World). answer k' request w) at) in
      elim (Option-cases (handler_for s m.header.protocol)) [
        | inl at ↦ inl (at, answered none at)
        | inr (h, at) ↦ inr (h, s', at, answered (some h) at, kept)
      ]

  -- A round: the first result is less than a header, or the second less than the body, which drops
  -- what was received, or the message is answered.
  abbrev pub Serves : UdpServer → World → Outcome (UdpServer × World) → Type 0
  Serves s w out =
      let (read, bytes, from, w1) = recvfrom s.server_socket_fd message_header_length w in
      let header : MessageHeader = header_of_bytes (resize message_header_length bytes) in
      let (read', bytes', from', w2) = recvfrom s.server_socket_fd header.length w1 in
      ((to_uint32 read < message_header_length) × (out ≡ done (s, w1)))
      ⊎ ((message_header_length ≤ to_uint32 read)
          × (to_uint32 read' < header.length)
          × (out ≡ done (s, w2)))
      ⊎ ((message_header_length ≤ to_uint32 read)
          × (header.length ≤ to_uint32 read')
          × (m : Message) × (m.header ≡ header)
          × (m.body ≡ resize header.length bytes')
          × IsFramed m
          × Answers from' m s w2 out)

  -- A round of the receive loop drops what it received where the result of the first receive, as
  -- an unsigned number, is less than a header, or that of the second is less than the length that
  -- the header states; a failed receive, whose result is -1, is not. Otherwise the handler
  -- registered for the protocol of the header, or the default one where there is none or an empty
  -- one, runs on a request with that header and the bytes of the second receive, cut or padded to
  -- the length, sent from where they came, no protocol's handler being changed; where the default
  -- is empty too the round throws.
  pub udp_round-Serves : (s : UdpServer) (w : World) → Serves s w (udp_round s w)
  unfolding udp_round receive_body
  udp_round-Serves s w =
      let (read, bytes, from, w1) = recvfrom s.server_socket_fd message_header_length w in
      let header : MessageHeader = header_of_bytes (resize message_header_length bytes) in
      let (read', bytes', from', w2) = recvfrom s.server_socket_fd header.length w1 in
      let m : Message = record { header = header; body = resize header.length bytes' } in
      elim (Bool-cases (ltb (to_uint32 read) message_header_length)) [
        | inl short ↦ inl (ground (arith, short), ground arith)
        | inr first ↦ elim (Bool-cases (ltb (to_uint32 read') header.length)) [
          | inl short ↦ inr (inl (ground (arith, first), ground (arith, short), ground arith))
          | inr second ↦
              let run : udp_round s w ≡ udp_dispatch from' m s w2 = ground arith in
              inr (
                inr (
                  ground (arith, first),
                  ground (arith, second),
                  m,
                  refl,
                  refl,
                  length-resize header.length bytes',
                  subst (Answers from' m s w2) (sym run) (udp_dispatch-Answers from' m s w2),
                ))
        ]
      ]

  -- A datagram with the header of a message that counts its body, and then a datagram with that
  -- body, each received whole, give the handler of their protocol, which is not an empty
  -- function, a request with the whole message, sent from where the second datagram came; no
  -- protocol's handler is changed.
  pub udp_round-serves :
      (m : Message) (h : UdpRequest → World → Outcome (Status × World)) (s : UdpServer)
      (w w1 w2 : World) (addr1 addr2 : SockAddr)
      → IsHeader m.header
      → IsFramed m
      → handler_for s m.header.protocol ≡ some h
      → recvfrom s.server_socket_fd message_header_length w
        ≡ (pos message_header_length, header_bytes m.header, addr1, w1)
      → recvfrom s.server_socket_fd m.header.length w1 ≡ (pos m.header.length, m.body, addr2, w2)
      → (s' : UdpServer) × (udp_round s w
          ≡ (h (new_udp_request addr2 m) w2 >>= λ r. done (s', r.1)))
        × ((q : ℕ) → handler_for s' q ≡ handler_for s q)
  unfolding udp_round
  udp_round-serves m h s w w1 w2 addr1 addr2 hm fm at first second =
      let (s', run, kept) =
        receive_body-handler_for m h s w1 w2 (pos m.header.length) m.body addr2 second
          (ground (arith, hm.length_fits)) (resize_self m.header.length m.body fm) at in
      let decoded : header_of_bytes (resize message_header_length (header_bytes m.header))
          ≡ m.header =
        ap header_of_bytes
          (resize_self message_header_length (header_bytes m.header) (length-header_bytes m.header))
        ∙ header_of_bytes-header_bytes m.header hm in
      (s', ground (arith, run, decoded), kept)

  -- A round in which both receives fail with -1 does not stop at either test: it runs the handler
  -- of protocol 0, if that is not an empty function, on an empty message, and changes no
  -- protocol's handler.
  pub udp_round-error :
      (h : UdpRequest → World → Outcome (Status × World)) (s : UdpServer) (w w1 w2 : World)
      (addr1 addr2 : SockAddr)
      → handler_for s 0 ≡ some h
      → recvfrom s.server_socket_fd message_header_length w ≡ (negsuc 0, [], addr1, w1)
      → recvfrom s.server_socket_fd 0 w1 ≡ (negsuc 0, [], addr2, w2)
      → (s' : UdpServer) × (udp_round s w
          ≡ (h (new_udp_request addr2 empty_message) w2 >>= λ r. done (s', r.1)))
        × ((q : ℕ) → handler_for s' q ≡ handler_for s q)
  unfolding udp_round
  udp_round-error h s w w1 w2 addr1 addr2 at first second =
      let (s', run, kept) =
        receive_body-handler_for empty_message h s w1 w2 (negsuc 0) [] addr2 second refl
          (resize_self 0 [] refl) at in
      (s', ground (arith, run, decoded_zeros), kept)
