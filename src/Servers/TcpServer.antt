-- ===== src/Servers/TcpServer.antt =====
-- servercc/servers/src/tcp_server.cc: the accept loop.
use servercc.Common.{
  ℕ, zero, suc, ℤ, ◌≡◌, ◌⊎◌, inl, inr, sym, subst, ap, ◌∙◌, true, false, thrown, Bool-cases,
  Option-cases, not, none, some, Outcome, done, undefined, ◌>>=◌, is_negative, if◌then◌else◌, arith,
}
use servercc.Types.Status.{Status, ok_status, is_ok}
use servercc.Types.Message.{Message}
use servercc.Types.Posix.{Posix, SockAddr}
use servercc.Types.Stream.{read_message}
use servercc.Servers.TcpRequest.{TcpRequest, new_tcp_request}
use servercc.Servers.Registry.{Handler, Server, handle_request}
use servercc.Servers.Registry.Lookup.{handler_for, answer, handle_request-handler_for}
use servercc.Types.Message.RoundTrip.{IsFramed}
use servercc.Types.Stream.Transfer.{ReadResult, read_message-ReadResult}

module _ (posix : Posix) where
  open posix use {World, accept, close}

  abbrev pub TcpServer : Type 0
  TcpServer = Server TcpRequest World

  -- The status of the handler is only logged.
  unfoldable pub dispatch : ℤ → SockAddr → Message → TcpServer → World → Outcome (TcpServer × World)
  dispatch fd addr message s w =
      let (out, s') =
        handle_request message.header.protocol (new_tcp_request fd addr message) w s in
      out >>= λ r. done (s', r.1)

  unfoldable pub serve : ℤ → SockAddr → TcpServer → World → Outcome (TcpServer × World)
  serve fd addr s w =
      let (status, message, w') = read_message posix fd w in
      if not (is_ok status)
      then done (s, close fd w')
      else elim message [ none ↦ undefined | some m ↦ dispatch fd addr m s w' ]

  -- One round of the loop of `run`.
  unfoldable pub tcp_round : TcpServer → World → Outcome (TcpServer × World)
  tcp_round s w =
      let (fd, addr, w') = accept s.server_socket_fd w in
      if is_negative fd then done (s, w') else serve fd addr s w'

  -- `run`, for as many rounds.
  pub run_tcp : ℕ → TcpServer → World → Outcome (TcpServer × World)
  run_tcp zero s w = done (s, w)
  run_tcp (suc rounds) s w = tcp_round s w >>= λ r. run_tcp rounds r.0 r.1

  -- What a message makes of a server: the handler of its protocol, or the default one, is given a
  -- request that holds it, and no protocol's handler is changed; where there is neither the call
  -- throws.
  abbrev pub Answers :
      ℤ → SockAddr → Message → TcpServer → World → Outcome (TcpServer × World) → Type 0
  Answers fd addr m s w out =
      ((handler_for s m.header.protocol ≡ none) × (out ≡ thrown))
      ⊎ ((h : TcpRequest → World → Outcome (Status × World)) × (s' : TcpServer) × (handler_for s
              m.header.protocol
            ≡ some h)
          × (out ≡ (h (new_tcp_request fd addr m) w >>= λ r. done (s', r.1)))
          × ((q : ℕ) → handler_for s' q ≡ handler_for s q))

  dispatch-Answers :
      (fd : ℤ) (addr : SockAddr) (m : Message) (s : TcpServer) (w : World)
      → Answers fd addr m s w (dispatch fd addr m s w)
  unfolding dispatch
  dispatch-Answers fd addr m s w =
      let request = new_tcp_request fd addr m in
      let (ran, kept) = handle_request-handler_for m.header.protocol request w s in
      let s' : TcpServer = (handle_request m.header.protocol request w s).1 in
      let answered : (k : Handler TcpRequest World)
          → handler_for s m.header.protocol ≡ k
          → dispatch fd addr m s w ≡ (answer k request w >>= λ r. done (s', r.1)) =
        λ k at.
          ap (λ (out : Outcome (Status × World)). out >>= λ r. done (s', r.1))
            (ran ∙ ap (λ (k' : Handler TcpRequest World). answer k' request w) at) in
      elim (Option-cases (handler_for s m.header.protocol)) [
        | inl at ↦ inl (at, answered none at)
        | inr (h, at) ↦ inr (h, s', at, answered (some h) at, kept)
      ]

  -- A round: no connection, or one whose message is not read and which is closed, or one that is
  -- answered.
  abbrev pub Serves : TcpServer → World → Outcome (TcpServer × World) → Type 0
  Serves s w out =
      let (fd, addr, w1) = accept s.server_socket_fd w in
      let (status, message, w2) = read_message posix fd w1 in
      ((is_negative fd ≡ true) × (out ≡ done (s, w1)))
      ⊎ ((is_negative fd ≡ false) × (is_ok status ≡ false) × (out ≡ done (s, close fd w2)))
      ⊎ ((is_negative fd ≡ false)
          × (m : Message) × (status ≡ ok_status)
          × (message ≡ some m)
          × IsFramed m
          × Answers fd addr m s w2 out)

  serve-Answers :
      (fd : ℤ) (addr : SockAddr) (m : Message) (s : TcpServer) (w w' : World)
      → read_message posix fd w ≡ (ok_status, some m, w')
      → serve fd addr s w ≡ dispatch fd addr m s w'
  unfolding serve
  serve-Answers fd addr m s w w' read = ground (arith, read)

  -- A round of the accept loop changes nothing where no connection is accepted, and closes a
  -- connection whose first message cannot be read. Otherwise that message counts its own body,
  -- and the handler registered for its protocol, or the default one where there is none or an
  -- empty one, runs on a request that holds it, no protocol's handler being changed; where the
  -- default is empty too the round throws.
  pub tcp_round-Serves : (s : TcpServer) (w : World) → Serves s w (tcp_round s w)
  unfolding tcp_round serve
  tcp_round-Serves s w =
      let (fd, addr, w1) = accept s.server_socket_fd w in
      let (status, message, w2) = read_message posix fd w1 in
      let result : ReadResult status message = read_message-ReadResult posix fd w1 in
      elim (Bool-cases (is_negative fd)) [
        | inl refused ↦ inl (refused, ground arith)
        | inr valid ↦ elim (Bool-cases (is_ok status)) [
          | inr bad ↦ inr (inl (valid, bad, ground arith))
          | inl good ↦ elim (Option-cases message) [
            | inl nothing ↦ absurd (ground (arith, good, subst (ReadResult status) nothing result))
            | inr (m, read) ↦
                let (ok, framed) = subst (ReadResult status) read result in
                inr (
                  inr (
                    valid,
                    m,
                    ok,
                    read,
                    framed,
                    subst (Answers fd addr m s w2)
                        (sym (
                          ground
                            (arith, serve-Answers fd addr m s w1 w2 (λ i. (ok i, read i, w2)))))
                        (dispatch-Answers fd addr m s w2),
                  ))
          ]
        ]
      ]
