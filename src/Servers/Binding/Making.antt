-- ===== src/Servers/Binding/Making.antt =====
-- What the servers' constructors make, and what they leave alone of the world.
use servercc.Common.{
  ℕ, ℤ, ◌≡◌, ◌⊎◌, inl, inr, refl, ◌∙◌, List, [], ◌∷◌, String, Option, none, some, arith,
  is_negative, Bool-cases, Option-cases,
}
use servercc.Types.Posix.{
  Posix, SockAddr, AddrInfo, SockOption, reuse_addr, add_membership, sock_stream, sock_dgram,
}
use servercc.Servers.Registry.{Handler, Server}
use servercc.Servers.Binding.{
  new_server, int16, is_nonzero, bind_any, bind_group, join_group, new_tcp_server, new_udp_server,
}

module _ (posix : Posix) {A : Type 0} (X : posix.World → A) where
  open posix use {World, getaddrinfo, socket, setsockopt, bind, listen, close}

  -- The calls of the constructors leave a part of the world alone.
  pub record IsLeft : Type 0 where
    pub getaddrinfo_keeps :
        (host : Option String) (port : ℤ) (kind : ℕ) (w : World)
        → X (getaddrinfo host port kind w).3 ≡ X w
    pub socket_keeps :
        (family kind protocol : ℕ) (w : World) → X (socket family kind protocol w).1 ≡ X w
    pub setsockopt_keeps :
        (fd : ℤ) (option : SockOption) (w : World) → X (setsockopt fd option w).1 ≡ X w
    pub bind_keeps : (fd : ℤ) (addr : SockAddr) (w : World) → X (bind fd addr w).1 ≡ X w
    pub listen_keeps : (fd : ℤ) (n : ℕ) (w : World) → X (listen fd n w).1 ≡ X w
    pub close_keeps : (fd : ℤ) (w : World) → X (close fd w) ≡ X w

  module _ (left : IsLeft) where
    open left use {
      getaddrinfo_keeps, socket_keeps, setsockopt_keeps, bind_keeps, listen_keeps, close_keeps,
    }

    bind_any-keeps : (ps : List AddrInfo) (w : World) → X (bind_any posix ps w).1 ≡ X w
    unfolding bind_any
    bind_any-keeps [] w = refl
    bind_any-keeps (p ∷ ps) w =
        let (fd, w1) = socket p.ai_family p.ai_socktype p.ai_protocol w in
        let (set, w2) = setsockopt fd reuse_addr w1 in
        let (bound, w3) = bind fd p.ai_addr w2 in
        ground (
          arith,
          socket_keeps p.ai_family p.ai_socktype p.ai_protocol w,
          setsockopt_keeps fd reuse_addr w1,
          bind_keeps fd p.ai_addr w2,
          close_keeps fd w2,
          close_keeps fd w3,
          bind_any-keeps ps w1,
          bind_any-keeps ps (close fd w2),
          bind_any-keeps ps (close fd w3),
        )

    join_group-keeps :
        (fd : ℤ) (group : String) (interfaces : List String) (w : World)
        → X (join_group posix fd group interfaces w).1 ≡ X w
    unfolding join_group
    join_group-keeps fd group [] w = refl
    join_group-keeps fd group (i ∷ is) w =
        let (result, w1) = setsockopt fd (add_membership group i) w in
        ground (
          arith,
          setsockopt_keeps fd (add_membership group i) w,
          join_group-keeps fd group is w1,
          close_keeps fd w1,
        )

    bind_group-keeps :
        (group : String) (interfaces : List String) (ps : List AddrInfo) (w : World)
        → X (bind_group posix group interfaces ps w).1 ≡ X w
    unfolding bind_group
    bind_group-keeps group interfaces [] w = refl
    bind_group-keeps group interfaces (p ∷ ps) w =
        let (fd, w1) = socket p.ai_family p.ai_socktype p.ai_protocol w in
        let (set, w2) = setsockopt fd reuse_addr w1 in
        let (bound, w3) = bind fd p.ai_addr w2 in
        let (joined, w4) = join_group posix fd group interfaces w3 in
        ground (
          arith,
          socket_keeps p.ai_family p.ai_socktype p.ai_protocol w,
          setsockopt_keeps fd reuse_addr w1,
          bind_keeps fd p.ai_addr w2,
          join_group-keeps fd group interfaces w3,
          close_keeps fd w2,
          close_keeps fd w3,
          bind_group-keeps group interfaces ps w1,
          bind_group-keeps group interfaces ps (close fd w2),
          bind_group-keeps group interfaces ps (close fd w3),
          bind_group-keeps group interfaces ps w4,
        )

    -- No server, or one on some descriptor with the given default handler and no others.
    abbrev pub Made :
        {R : Type 0} → ℕ → Handler R World → World → Option (Server R World) × World → Type 0
    Made port default_handler w (made, w') =
        ((made ≡ none) ⊎ ((fd : ℤ) × (made ≡ some (new_server port default_handler fd))))
        × (X w' ≡ X w)

    pub new_tcp_server-Made :
        {R : Type 0} (port : ℕ) (default_handler : Handler R World) (w : World)
        → Made port default_handler w (new_tcp_server posix port default_handler w)
    unfolding new_tcp_server
    new_tcp_server-Made port default_handler w =
        let (result, first, others, w1) = getaddrinfo none (int16 port) sock_stream w in
        let (bound, w2) = bind_any posix (first ∷ others) w1 in
        let kept1 : X w1 ≡ X w = getaddrinfo_keeps none (int16 port) sock_stream w in
        let kept2 : X w2 ≡ X w = bind_any-keeps (first ∷ others) w1 ∙ kept1 in
        elim (Bool-cases (is_nonzero result)) [
          | inl bad ↦ rw bad (inl refl, kept1)
          | inr good ↦ elim (Option-cases bound) [
            | inl e ↦ rw (good, e) (inl refl, kept2)
            | inr (fd, e) ↦
                let (listening, w3) = listen fd 100 w2 in
                let kept3 : X w3 ≡ X w = listen_keeps fd 100 w2 ∙ kept2 in
                elim (Bool-cases (is_negative listening)) [
                  | inl bad ↦ rw (good, e, bad) (inl refl, kept3)
                  | inr ok ↦ rw (good, e, ok) (inr (fd, refl), kept3)
                ]
          ]
        ]

    pub new_udp_server-Made :
        {R : Type 0} (port : ℕ) (group : String) (interfaces : List String)
        (default_handler : Handler R World) (w : World)
        → Made port default_handler w (new_udp_server posix port group interfaces default_handler w)
    unfolding new_udp_server
    new_udp_server-Made port group interfaces default_handler w =
        let (result, first, others, w1) = getaddrinfo none (int16 port) sock_dgram w in
        let (bound, w2) = bind_group posix group interfaces (first ∷ others) w1 in
        let kept1 : X w1 ≡ X w = getaddrinfo_keeps none (int16 port) sock_dgram w in
        let kept2 : X w2 ≡ X w = bind_group-keeps group interfaces (first ∷ others) w1 ∙ kept1 in
        elim (Bool-cases (is_nonzero result)) [
          | inl bad ↦ rw bad (inl refl, kept1)
          | inr good ↦ elim (Option-cases bound) [
            | inl e ↦ rw (good, e) (inl refl, kept2)
            | inr (fd, e) ↦ rw (good, e) (inr (fd, refl), kept2)
          ]
        ]
