-- ===== src/Distributed/Node/Registration.antt =====
-- Which handlers the constructor of a distributed server gives to its servers.
use servercc.Common.{
  ◌>>=◌, none, Option, ℕ, ℤ, ◌≡◌, ◌⊎◌, inl, inr, refl, ap, ◌∙◌, Bool, true, false, List, String,
  some, Outcome, done, thrown, arith, ◌==◌, if◌then◌else◌,
}
use servercc.Types.Status.{Status}
use servercc.Types.Protocols.{connect_request_protocol, connect_ack_request_protocol}
use servercc.Types.Posix.{SockAddr}
use servercc.Servers.Registry
use servercc.Servers.Registry.{Handler, Server}
use servercc.Servers.Registry.Lookup.{handler_for, handler_for-add_handler}
use servercc.Servers.TcpRequest.{TcpRequest}
use servercc.Servers.UdpRequest.{UdpRequest}
use servercc.Servers.Binding.{new_server, new_tcp_server, new_udp_server}
use servercc.Servers.Binding.Making.{IsLeft, new_tcp_server-Made, new_udp_server-Made}
use servercc.Connectors.Env.{Env, ChannelConfig}
use servercc.Connectors.Connector.{new_connector}
use servercc.Distributed.{DistributedServer, with_world, new_distributed_server}
use servercc.Distributed.Handshake.{handle_connect}
use servercc.Distributed.Node.{
  Node, UserCode, node_posix, of_tcp, of_udp, forward_request_to_handler, connect_ack_handler,
  register_handlers, new_node,
}

-- The system calls change nothing of a distributed server but its world.
pub node_posix-IsLeft :
    {H : Type 0} (env : Env) (w : env.World)
    → IsLeft (node_posix H env) (with_world {H = H} {env = env} w)
node_posix-IsLeft env w = record {
  getaddrinfo_keeps = λ host port kind n. refl;
  socket_keeps = λ family kind protocol n. refl;
  setsockopt_keeps = λ fd option n. refl;
  bind_keeps = λ fd addr n. refl;
  listen_keeps = λ fd size n. refl;
  close_keeps = λ fd n. refl;
}

module _ {H : Type 0} (config : ChannelConfig) (env : Env) (inet_ntop : ℕ → String)
    (user : UserCode H env) where
  -- The connect request goes to its handler, and every other to the handlers of the user.
  abbrev pub udp_handler :
      ℕ → UdpRequest → DistributedServer H env → Outcome (Status × DistributedServer H env)
  udp_handler q =
      if connect_request_protocol == q then handle_connect config env inet_ntop else λ request.
      forward_request_to_handler config env inet_ntop user (of_udp request)

  abbrev pub tcp_handler :
      ℕ → TcpRequest → DistributedServer H env → Outcome (Status × DistributedServer H env)
  tcp_handler q =
      if connect_ack_request_protocol == q
      then connect_ack_handler config env inet_ntop user
      else λ request. forward_request_to_handler config env inet_ntop user (of_tcp request)

  pub record IsRegistered (node : Node H env) : Type 0 where
    pub on_udp : (q : ℕ) → handler_for node.udp_server q ≡ some (udp_handler q)
    pub on_tcp : (q : ℕ) → handler_for node.tcp_server q ≡ some (tcp_handler q)

  register_handlers-IsRegistered :
      (port : ℕ) (fd fd' : ℤ) (n : DistributedServer H env)
      → (node : Node H env) × (register_handlers config env inet_ntop user
            (new_server port
              (some
                (λ request. forward_request_to_handler config env inet_ntop user (of_tcp request)))
              fd)
            (new_server port
              (some
                (λ request. forward_request_to_handler config env inet_ntop user (of_udp request)))
              fd')
            n
          ≡ done node)
        × IsRegistered node
        × (node.shared ≡ n)
  unfolding register_handlers Registry.add_handler
  register_handlers-IsRegistered port fd fd' n = (
    _,
    refl,
    record {
      on_udp = λ q.
          handler_for-add_handler connect_request_protocol (handle_connect config env inet_ntop)
            (new_server port (some on_udp) fd') q refl
          ∙ branch (handle_connect config env inet_ntop) on_udp (connect_request_protocol == q);
      on_tcp = λ q.
          handler_for-add_handler connect_ack_request_protocol
            (connect_ack_handler config env inet_ntop user) (new_server port (some on_tcp) fd) q
            refl
          ∙ branch (connect_ack_handler config env inet_ntop user) on_tcp
              (connect_ack_request_protocol == q);
    },
    refl,
  )
    where
      on_tcp : TcpRequest → DistributedServer H env → Outcome (Status × DistributedServer H env)
      on_tcp request = forward_request_to_handler config env inet_ntop user (of_tcp request)

      on_udp : UdpRequest → DistributedServer H env → Outcome (Status × DistributedServer H env)
      on_udp request = forward_request_to_handler config env inet_ntop user (of_udp request)

      branch :
          {R : Type 0}
          (h k : R → DistributedServer H env → Outcome (Status × DistributedServer H env))
          (b : Bool)
          → (if b then some h else some k) ≡ some (if b then h else k)
      branch h k true = refl
      branch h k false = refl

  pub new_node-IsRegistered :
      (interface group : String) (group_addr : SockAddr) (interfaces : List String) (port : ℕ)
      (default_handler : H) (initialised : Outcome (Option H)) (connects disconnects : Bool)
      (w : env.World)
      → (new_node config env inet_ntop user interface group group_addr interfaces port
            default_handler initialised connects disconnects w
          ≡ thrown)
        ⊎ ((node : Option H → Node H env) × (new_node config env inet_ntop user interface group
                group_addr interfaces port default_handler initialised connects disconnects w
              ≡ (initialised >>= λ found. done (node found)))
            × ((found : Option H)
                → IsRegistered (node found)
                  × (with_world w (node found).shared
                      ≡ new_distributed_server interface group_addr interfaces port found connects
                          disconnects w)))
  unfolding new_node new_distributed_server new_connector
  new_node-IsRegistered interface group group_addr interfaces port default_handler initialised
        connects disconnects w =
      let n0 : DistributedServer H env =
        new_distributed_server interface group_addr interfaces port none connects disconnects w in
      let tcp_default : Handler TcpRequest (DistributedServer H env) =
        some (λ request. forward_request_to_handler config env inet_ntop user (of_tcp request)) in
      let udp_default : Handler UdpRequest (DistributedServer H env) =
        some (λ request. forward_request_to_handler config env inet_ntop user (of_udp request)) in
      let (made, n1) = new_tcp_server (node_posix H env) port tcp_default n0 in
      let (tcp, kept1) =
        new_tcp_server-Made (node_posix H env) (with_world w) (node_posix-IsLeft env w) port
          tcp_default n0 in
      let (made', n2) = new_udp_server (node_posix H env) port group interfaces udp_default n1 in
      let (udp, kept2) =
        new_udp_server-Made (node_posix H env) (with_world w) (node_posix-IsLeft env w) port group
          interfaces udp_default n1 in
      elim tcp [
        | inl none_made ↦ inl (ground arith)
        | inr (fd, one) ↦ elim udp [
          | inl none_made ↦ inl (ground arith)
          | inr (fd', other) ↦
              let started : Option H → DistributedServer H env =
                λ found. record n2 { default_handler = found } in
              let rounds =
                λ (found : Option H). register_handlers-IsRegistered port fd fd' (started found) in
              let to_end : new_node config env inet_ntop user interface group group_addr interfaces
                    port default_handler initialised connects disconnects w
                  ≡ (initialised >>= λ found.
                      register_handlers config env inet_ntop user (new_server port tcp_default fd)
                        (new_server port udp_default fd') (started found)) =
                ground (arith, one, other) in
              inr (
                (λ found. (rounds found).0),
                to_end ∙ (λ i. initialised >>= λ found. (rounds found).1 i),
                λ found. (
                  (rounds found).2,
                  ap (with_world w) (rounds found).3
                      ∙ ap (λ (n : DistributedServer H env). record n { default_handler = found })
                          (kept2 ∙ kept1),
                ),
              )
        ]
      ]
