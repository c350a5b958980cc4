-- ===== src/Servers/Binding/Held.antt =====
-- What the constructors of the servers leave of the descriptors that they open.
use servercc.Common.{
  ℕ, ◌+◌, ◌-◌, ◌≡◌, ℤ, Bool, true, not, ◌&&◌, List, [], ◌∷◌, String, inl, inr, none, some, false,
  arith, Option-cases, is_some, is_negative, if◌then◌else◌,
}
use servercc.Types.Posix.{
  Posix, AddrInfo, Descriptors, reuse_addr, add_membership, sock_stream, sock_dgram,
}
use servercc.Servers.Registry.{Handler}
use servercc.Servers.Binding.{
  int16, is_nonzero, bind_any, join_group, bind_group, new_tcp_server, new_udp_server,
}

module _ (posix : Posix) (d : Descriptors posix) where
  open posix use {World, getaddrinfo, socket, setsockopt, bind, listen, close}
  open d use {held, is_open}

  bind_any-held :
      (ps : List AddrInfo) (w : World)
      → held (bind_any posix ps w).1
        ≡ (if is_some (bind_any posix ps w).0 then held w + 1 else held w)
  unfolding bind_any
  bind_any-held [] w = ground arith
  bind_any-held (p ∷ ps) w =
      let (fd, w1) = socket p.ai_family p.ai_socktype p.ai_protocol w in
      let w2 = (setsockopt fd reuse_addr w1).1 in
      let w3 = (bind fd p.ai_addr w2).1 in
      ground (
        arith,
        d.socket_held p.ai_family p.ai_socktype p.ai_protocol w,
        d.socket_open p.ai_family p.ai_socktype p.ai_protocol w,
        d.setsockopt_held fd reuse_addr w1,
        d.setsockopt_open fd reuse_addr w1,
        d.bind_held fd p.ai_addr w2,
        d.bind_open fd p.ai_addr w2,
        d.close_held fd w2,
        d.close_held fd w3,
        bind_any-held ps w1,
        bind_any-held ps (close fd w2),
        bind_any-held ps (close fd w3),
      )

  join_group-held :
      (fd : ℤ) (group : String) (interfaces : List String) (w : World)
      → is_open fd w ≡ true
      → held (join_group posix fd group interfaces w).1
        ≡ (if (join_group posix fd group interfaces w).0 then held w else held w - 1)
  unfolding join_group
  join_group-held fd group [] w h = ground arith
  join_group-held fd group (interface ∷ interfaces) w h =
      let w1 = (setsockopt fd (add_membership group interface) w).1 in
      ground (
        arith,
        d.setsockopt_held fd (add_membership group interface) w,
        d.setsockopt_open fd (add_membership group interface) w,
        d.close_held fd w1,
        join_group-held fd group interfaces w1,
      )

  bind_group-held :
      (group : String) (interfaces : List String) (ps : List AddrInfo) (w : World)
      → held (bind_group posix group interfaces ps w).1
        ≡ (if is_some (bind_group posix group interfaces ps w).0 then held w + 1 else held w)
  unfolding bind_group
  bind_group-held group interfaces [] w = ground arith
  bind_group-held group interfaces (p ∷ ps) w =
      let (fd, w1) = socket p.ai_family p.ai_socktype p.ai_protocol w in
      let w2 = (setsockopt fd reuse_addr w1).1 in
      let w3 = (bind fd p.ai_addr w2).1 in
      let w4 = (join_group posix fd group interfaces w3).1 in
      ground (
        arith,
        d.socket_held p.ai_family p.ai_socktype p.ai_protocol w,
        d.socket_open p.ai_family p.ai_socktype p.ai_protocol w,
        d.setsockopt_held fd reuse_addr w1,
        d.setsockopt_open fd reuse_addr w1,
        d.bind_held fd p.ai_addr w2,
        d.bind_open fd p.ai_addr w2,
        d.close_held fd w2,
        d.close_held fd w3,
        join_group-held fd group interfaces w3,
        bind_group-held group interfaces ps w1,
        bind_group-held group interfaces ps (close fd w2),
        bind_group-held group interfaces ps (close fd w3),
        bind_group-held group interfaces ps w4,
      )

  -- A UDP server that is made holds one more descriptor, and where none can be made, because of no
  -- address, socket, option, binding or group, every descriptor that was opened on the way is given
  -- back.
  pub new_udp_server-held :
      {R : Type 0} (port : ℕ) (group : String) (interfaces : List String) (h : Handler R World)
      (w : World)
      → let (server, w') = new_udp_server posix port group interfaces h w in
        held w' ≡ (if is_some server then held w + 1 else held w)
  unfolding new_udp_server
  new_udp_server-held port group interfaces h w =
      let (result, first, rest, w1) = getaddrinfo none (int16 port) sock_dgram w in
      ground (
        arith,
        d.getaddrinfo_held none (int16 port) sock_dgram w,
        bind_group-held group interfaces (first ∷ rest) w1,
      )

  -- A TCP server is made exactly where a socket is bound and listening on that socket succeeds,
  -- and one more descriptor is held exactly where a socket is bound: a failed listening keeps it,
  -- though the constructor throws.
  pub new_tcp_server-held :
      {R : Type 0} (port : ℕ) (h : Handler R World) (w : World)
      → let (result, first, rest, w1) = getaddrinfo none (int16 port) sock_stream w in
        let (socket_fd, w2) = bind_any posix (first ∷ rest) w1 in
        let bound = not (is_nonzero result) && is_some socket_fd in
        let listens : Bool = elim socket_fd [
          | none ↦ false
          | some fd ↦ not (is_negative (listen fd 100 w2).0)
        ] in
        let (server, w') = new_tcp_server posix port h w in
        (is_some server ≡ (bound && listens)) × (held w' ≡ (if bound then held w + 1 else held w))
  unfolding new_tcp_server
  new_tcp_server-held port h w =
      let (result, first, rest, w1) = getaddrinfo none (int16 port) sock_stream w in
      let (bound, w2) = bind_any posix (first ∷ rest) w1 in
      elim (Option-cases bound) [
        | inl e ↦ ground (
          arith,
          d.getaddrinfo_held none (int16 port) sock_stream w,
          bind_any-held (first ∷ rest) w1,
        )
        | inr (fd, e) ↦ ground (
          arith,
          d.getaddrinfo_held none (int16 port) sock_stream w,
          bind_any-held (first ∷ rest) w1,
          d.listen_held fd 100 w2,
        )
      ]
