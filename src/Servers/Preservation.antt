-- ===== src/Servers/Preservation.antt =====
-- The loops of servercc/servers/src/tcp_server.cc and udp_server.cc keep what their system calls and
-- their handlers keep.
use servercc.Common.{
  ℕ, ℤ, ◌≡◌, inl, inr, refl, sym, ap, subst, ◌∙◌, some, Outcome, done, ◌>>=◌, >>=-eq-done,
  is_negative, to_uint32, ltb, arith, Bool-cases, Option-cases,
}
use servercc.Types.Status.{Status, is_ok}
use servercc.Types.Memory.{resize}
use servercc.Types.Header.{MessageHeader, header_of_bytes, message_header_length}
use servercc.Types.Message.{Message}
use servercc.Types.Posix.{Posix}
use servercc.Types.Stream.{read_message}
use servercc.Servers.TcpRequest.{new_tcp_request}
use servercc.Servers.UdpRequest.{new_udp_request}
use servercc.Servers.Registry.{Handler, Server, handle_request}
use servercc.Servers.Registry.Lookup.{handler_for, answer, handle_request-handler_for}
use servercc.Servers.TcpServer.{TcpServer, tcp_round, serve, dispatch}
use servercc.Servers.UdpServer.{UdpServer, udp_round, receive_body, udp_dispatch}

module _ (posix : Posix) (P : posix.World → Type 0) where
  open posix use {World, accept, recv, recvfrom, close}

  -- The handlers that a server calls keep `P`.
  abbrev pub HandlersKeep : {R : Type 0} → Server R World → Type 0
  HandlersKeep {R} s =
      (q : ℕ) (h : R → World → Outcome (Status × World))
      → handler_for s q ≡ some h
      → (request : R) (w w' : World) (status : Status) → P w
      → h request w ≡ done (status, w')
      → P w'

  abbrev pub RoundKeeps : {R : Type 0} → Server R World → Server R World → World → Type 0
  RoundKeeps s s' w' = P w' × ((q : ℕ) → handler_for s' q ≡ handler_for s q)

  abbrev kept_server :
      {R : Type 0} → Server R World → Status × World → Outcome (Server R World × World)
  kept_server s r = done (s, r.1)

  handled-keeps :
      {R : Type 0} (q : ℕ) (request : R) (s s' : Server R World) (w w' : World)
      → HandlersKeep s
      → P w
      → ((handle_request q request w s).0 >>= kept_server (handle_request q request w s).1)
        ≡ done (s', w')
      → RoundKeeps s s' w'
  handled-keeps {R = R} q request s s' w w' keep p run =
      let (r, ran, e) =
        >>=-eq-done (handle_request q request w s).0 (kept_server (handle_request q request w s).1)
          run in
      let (calls, kept) = handle_request-handler_for q request w s in
      let same_s : (handle_request q request w s).1 ≡ s' = cc in
      let same_w : r.1 ≡ w' = cc in
      elim (Option-cases (handler_for s q)) [
        | inl none_there ↦ absurd (ground (arith, calls, ran, none_there))
        | inr (h, at) ↦ (
          subst P same_w (
              keep q h at request w r.1 r.0 p
                (sym (ap (λ (k : Handler R World). answer k request w) at) ∙ sym calls ∙ ran)),
          λ q'. subst (λ t. handler_for t q' ≡ handler_for s q') same_s (kept q'),
        )
      ]

  unchanged-keeps :
      {R : Type 0} (s s' : Server R World) (w w' : World)
      → P w
      → Path (Outcome (Server R World × World)) (done (s, w)) (done (s', w'))
      → RoundKeeps s s' w'
  unchanged-keeps s s' w w' p e =
      let same_s : s ≡ s' = cc in
      let same_w : w ≡ w' = cc in
      (subst P same_w p, λ q. subst (λ t. handler_for t q ≡ handler_for s q) same_s refl)

  module _ (accept_keeps : (fd : ℤ) (w : World) → P w → P (accept fd w).2)
      (read_keeps : (fd : ℤ) (w : World) → P w → P (read_message posix fd w).2)
      (close_keeps : (fd : ℤ) (w : World) → P w → P (close fd w)) where
    pub tcp_round-keeps :
        (s s' : TcpServer posix) (w w' : World)
        → HandlersKeep s
        → P w
        → tcp_round posix s w ≡ done (s', w')
        → RoundKeeps s s' w'
    unfolding tcp_round serve dispatch
    tcp_round-keeps s s' w w' keep p run =
        let (fd, addr, w1) = accept s.server_socket_fd w in
        let p1 : P w1 = accept_keeps s.server_socket_fd w p in
        let (status, message, w2) = read_message posix fd w1 in
        let p2 : P w2 = read_keeps fd w1 p1 in
        elim (Bool-cases (is_negative fd)) [
          | inl bad ↦ unchanged-keeps s s' w1 w' p1 (ground (arith, bad, run))
          | inr good ↦ elim (Bool-cases (is_ok status)) [
            | inr failed ↦
                unchanged-keeps s s' (close fd w2) w' (close_keeps fd w2 p2)
                  (ground (arith, good, failed, run))
            | inl ok ↦ elim (Option-cases message) [
              | inl empty ↦ absurd (ground (arith, good, ok, empty, run))
              | inr (m, got) ↦
                  handled-keeps m.header.protocol (new_tcp_request fd addr m) s s' w2 w' keep p2
                    (ground (arith, good, ok, got, run))
            ]
          ]
        ]

  module _ (recvfrom_keeps : (fd : ℤ) (n : ℕ) (w : World) → P w → P (recvfrom fd n w).3) where
    receive_body-keeps :
        (header : MessageHeader) (s s' : UdpServer posix) (w w' : World)
        → HandlersKeep s
        → P w
        → receive_body posix header s w ≡ done (s', w')
        → RoundKeeps s s' w'
    unfolding receive_body udp_dispatch
    receive_body-keeps header s s' w w' keep p run =
        let (read, received, addr, w1) = recvfrom s.server_socket_fd header.length w in
        let p1 : P w1 = recvfrom_keeps s.server_socket_fd header.length w p in
        elim (Bool-cases (ltb (to_uint32 read) header.length)) [
          | inl short ↦ unchanged-keeps s s' w1 w' p1 (ground (arith, short, run))
          | inr enough ↦
              let m : Message = record { header = header; body = resize header.length received } in
              handled-keeps header.protocol (new_udp_request addr m) s s' w1 w' keep p1
                (ground (arith, enough, run))
        ]

    pub udp_round-keeps :
        (s s' : UdpServer posix) (w w' : World)
        → HandlersKeep s
        → P w
        → udp_round posix s w ≡ done (s', w')
        → RoundKeeps s s' w'
    unfolding udp_round
    udp_round-keeps s s' w w' keep p run =
        let (read, received, addr, w1) = recvfrom s.server_socket_fd message_header_length w in
        let p1 : P w1 = recvfrom_keeps s.server_socket_fd message_header_length w p in
        elim (Bool-cases (ltb (to_uint32 read) message_header_length)) [
          | inl short ↦ unchanged-keeps s s' w1 w' p1 (ground (arith, short, run))
          | inr enough ↦
              receive_body-keeps (header_of_bytes (resize message_header_length received)) s s' w1
                w' keep p1 (ground (arith, enough, run))
        ]
