-- ===== src/Clients/TcpClient/Sockets.antt =====
-- The state of a TCP client's socket, and what it sends.
use servercc.Common.{
  ℕ, ◌+◌, ◌-◌, ◌≡◌, ◌⊎◌, inl, inr, refl, none, Outcome, ltb, Bool-cases, Option-cases, ℤ, pos,
  negsuc, true, false, not, ◌&&◌, List, [], ◌∷◌, ◌++◌, some, done, undefined, ◌<◌, ◌∙◌, ap,
  is_minus_one, arith, if◌then◌else◌, length, take_all, append_assoc,
}
use servercc.Types.Status.{Status, ok_status, is_ok, error, internal}
use servercc.Types.Memory.{copy_from}
use servercc.Types.Memory.Bounds.{copy_from-done, copy_from-undefined}
use servercc.Types.Header.{header_bytes, length-header_bytes, message_header_length}
use servercc.Types.Message.{Message}
use servercc.Types.Message.RoundTrip.{IsFramed}
use servercc.Types.Posix.{Posix, AddrInfo, ByteStream, Descriptors, SocketResults, sock_stream}
use servercc.Types.Stream.Transfer.{frame}
use servercc.Clients.TcpClient.{
  Client, is_zero, connect_any, open_socket, close_socket, send_message,
}

-- The socket counts as open where there is a descriptor.
pub record IsConsistent (c : Client) : Type 0 where
  pub open_iff : c.is_socket_open ≡ not (is_minus_one c.client_fd)

module _ (posix : Posix) (d : Descriptors posix) (r : SocketResults posix) where
  open posix use {World}
  open d use {held}

  -- The attempts that fail give their descriptors back.
  connect_any-held :
      (ps : List AddrInfo) (fd : ℤ) (w : World)
      → is_minus_one fd ≡ true
      → held (connect_any posix ps fd w).1
        ≡ (if is_minus_one (connect_any posix ps fd w).0 then held w else held w + 1)
  unfolding connect_any
  connect_any-held [] fd w h = ground arith
  connect_any-held (p ∷ ps) fd w h =
      let (fd', w1) = posix.socket p.ai_family p.ai_socktype p.ai_protocol w in
      let w2 = (posix.connect fd' p.ai_addr w1).1 in
      ground (
        arith,
        d.socket_held p.ai_family p.ai_socktype p.ai_protocol w,
        r.socket_minus_one p.ai_family p.ai_socktype p.ai_protocol w,
        d.socket_open p.ai_family p.ai_socktype p.ai_protocol w,
        d.connect_held fd' p.ai_addr w1,
        d.connect_open fd' p.ai_addr w1,
        d.close_held fd' w2,
        connect_any-held ps fd' w1,
        connect_any-held ps (negsuc 0) (posix.close fd' w2) refl,
      )

  -- A client that is not open connects, and what is read of the freed address list fails or is more
  -- than a `sockaddr` holds.
  abbrev pub Misreads : Client → World → Type 0
  Misreads c w =
      let (result, first, rest, w1) =
        posix.getaddrinfo (some c.server_address) (pos c.port) sock_stream w in
      let (fd, w2) = connect_any posix (first ∷ rest) c.client_fd w1 in
      (c.is_socket_open ≡ false)
      × (is_minus_one fd ≡ false)
      × ((posix.read_freed first w2 ≡ none)
          ⊎ ((freed : AddrInfo) × (posix.read_freed first w2 ≡ some freed)
              × (16 < freed.ai_addrlen)))

  -- What opening leaves of the socket and the descriptors.
  abbrev pub Opens : Client → World → Outcome (Status × Client × World) → Type 0
  Opens c w out =
      (Misreads c w × (out ≡ undefined))
      ⊎ ((status : Status) × (c' : Client) × (w' : World) × (out ≡ done (status, c', w'))
          × IsConsistent c'
          × (is_ok status ≡ c'.is_socket_open)
          × (held w' ≡ (if c'.is_socket_open && not c.is_socket_open then held w + 1 else held w)))

  Opens-done :
      (c c' : Client) (w w' : World) (status : Status) (out : Outcome (Status × Client × World))
      → out ≡ done (status, c', w')
      → c'.is_socket_open ≡ not (is_minus_one c'.client_fd)
      → is_ok status ≡ c'.is_socket_open
      → held w' ≡ (if c'.is_socket_open && not c.is_socket_open then held w + 1 else held w)
      → Opens c w out
  Opens-done c c' w w' status out run open_iff ok counted =
      inr (status, c', w', run, record { open_iff = open_iff }, ok, counted)

  -- Opening the socket of a consistent client is undefined only where it connects and what is
  -- read of the freed address list fails, or is longer than the sockaddr that it is copied to.
  -- Otherwise it keeps the client consistent, succeeds exactly where the socket is open
  -- afterwards, and holds one more descriptor exactly where it opened one: the attempts that fail
  -- give theirs back.
  pub open_socket-Opens :
      (c : Client) (w : World) → IsConsistent c → Opens c w (open_socket posix c w)
  unfolding open_socket
  open_socket-Opens c w v =
      let (result, first, rest, w1) =
        posix.getaddrinfo (some c.server_address) (pos c.port) sock_stream w in
      let kept : held w1 ≡ held w =
        d.getaddrinfo_held (some c.server_address) (pos c.port) sock_stream w in
      let (fd, w2) = connect_any posix (first ∷ rest) c.client_fd w1 in
      elim (Bool-cases c.is_socket_open) [
        | inl opened ↦
            Opens-done c c w w ok_status _ (ground (arith, opened)) v.open_iff (ground arith)
              (ground arith)
        | inr shut ↦
            let counted : held w2 ≡ (if is_minus_one fd then held w1 else held w1 + 1) =
              connect_any-held (first ∷ rest) c.client_fd w1 (ground (arith, v.open_iff)) in
            elim (Bool-cases (is_zero result)) [
              | inr unresolved ↦
                  Opens-done c c w w1 (error internal "Could not resolve server address") _
                    (ground (arith, shut, unresolved)) v.open_iff (ground arith)
                    (ground (arith, kept))
              | inl resolved ↦ elim (Bool-cases (is_minus_one fd)) [
                | inl refused ↦
                    Opens-done c (record c { client_fd = fd }) w w2
                      (error internal "Could not connect to server") _
                      (ground (arith, shut, resolved, refused)) (ground arith) (ground arith)
                      (ground (arith, kept, counted))
                | inr connected ↦ elim (Option-cases (posix.read_freed first w2)) [
                  | inl failed ↦ inl (
                    (shut, connected, inl failed),
                    ground (arith, shut, resolved, connected, failed),
                  )
                  | inr (freed, read) ↦ elim (Bool-cases (ltb 16 freed.ai_addrlen)) [
                    | inl long ↦ inl (
                      (shut, connected, inr (freed, read, ground (arith, long))),
                      ground (arith, shut, resolved, connected, read, long),
                    )
                    | inr fits ↦
                        Opens-done c
                          (record c {
                            client_fd = fd;
                            is_socket_open = true;
                            client_addr = freed.ai_addr;
                          })
                          w w2 ok_status _ (ground (arith, shut, resolved, connected, read, fits))
                          (ground arith) (ground arith) (ground (arith, kept, counted))
                  ]
                ]
              ]
            ]
      ]

  -- Closing a consistent client, whose descriptor is open where its socket is, gives back the one
  -- descriptor of an open socket and keeps the client consistent; a second close does nothing.
  pub close_socket-held :
      (c : Client) (w : World)
      → IsConsistent c
      → d.is_open c.client_fd w ≡ c.is_socket_open
      → let (c', w') = close_socket posix c w in
        IsConsistent c'
        × (c'.is_socket_open ≡ false)
        × (held w' ≡ (if c.is_socket_open then held w - 1 else held w))
        × (close_socket posix c' w' ≡ (c', w'))
  unfolding close_socket
  close_socket-held c w v own = ground (arith, v.open_iff, d.close_held c.client_fd w)

module _ (posix : Posix) where
  open posix use {World}

  -- A message that counts its body goes out as its frame on a client with a descriptor that is
  -- the source of a stream, and an ok status is returned.
  pub send_message-frame :
      {target : ℤ} (c : Client) (stream : ByteStream posix c.client_fd target) (m : Message)
      (w : World)
      → is_minus_one c.client_fd ≡ false
      → IsFramed m
      → (w' : World) × (send_message posix m c w ≡ done (ok_status, w'))
        × (stream.pending w' ≡ stream.pending w ++ frame m)
  unfolding send_message
  send_message-frame c stream m w fd framed = (
    posix.fsync c.client_fd (posix.send c.client_fd m.body sent).1,
    ground (
      arith,
      whole,
      stream.send_result head w,
      stream.send_result m.body sent,
      length-header_bytes m.header,
    ),
    stream.fsync_pending (posix.send c.client_fd m.body sent).1
        ∙ stream.send_pending m.body sent
        ∙ ap (λ t. t ++ m.body) (stream.send_pending head w)
        ∙ append_assoc (stream.pending w) head m.body,
  )
    where
      head : List ℕ
      head = header_bytes m.header

      sent : World
      sent = (posix.send c.client_fd head w).1

      whole : copy_from m.body 0 m.header.length ≡ done m.body
      whole =
          copy_from-done m.body 0 m.header.length (omega arith)
          ∙ ap done (take_all m.header.length m.body (omega arith))

  -- Where the header goes out whole on a client with a descriptor, a message whose header states
  -- more than its body is read past the body's end.
  pub send_message-undefined :
      (m : Message) (c : Client) (w : World)
      → is_minus_one c.client_fd ≡ false
      → (posix.send c.client_fd (header_bytes m.header) w).0 ≡ pos message_header_length
      → length m.body < m.header.length
      → send_message posix m c w ≡ undefined
  unfolding send_message
  send_message-undefined m c w fd sent short =
      ground (arith, copy_from-undefined m.body 0 m.header.length)
