-- ===== src/Distributed/Node/Reach.antt =====
-- The states that the threads of a distributed server lead to.
use servercc.Common.{
  ◌>>=◌, Option, ℕ, ◌≡◌, ◌⊎◌, inl, inr, refl, sym, subst, ◌∙◌, Bool, List, String, Outcome, thrown,
  done, arith, >>=-eq-done,
}
use servercc.Types.Status.{Status}
use servercc.Types.Posix.{SockAddr}
use servercc.Connectors.Env.{Env, ChannelConfig}
use servercc.Connectors.InternalRequest.{InternalRequest}
use servercc.Connectors.Connector.{new_connector}
use servercc.Distributed.{new_distributed_server, with_world, DistributedServer, peer_round}
use servercc.Servers.Preservation.{tcp_round-keeps, udp_round-keeps}
use servercc.Servers.Registry.{Server}
use servercc.Servers.TcpRequest.{TcpRequest}
use servercc.Servers.UdpRequest.{UdpRequest}
use servercc.Servers.TcpServer.{tcp_round}
use servercc.Servers.UdpServer.{udp_round}
use servercc.Distributed.Node.{
  Node, UserCode, of_connector, node_posix, forward_request_to_handler, tcp_thread, udp_thread,
  peer_thread, handler_thread, new_node,
}
use servercc.Distributed.Node.Registration.{IsRegistered, new_node-IsRegistered}
use servercc.Distributed.Node.Soundness.{IsSound}
use servercc.Distributed.Node.Reading.{peer_round-IsSound}
use servercc.Distributed.Node.Handling.{
  UserKeeps, forward-IsSound, tcp_handlers-HandlersKeep, udp_handlers-HandlersKeep,
  read_message-IsSound,
}

module _ {H : Type 0} (config : ChannelConfig) (env : Env) (inet_ntop : ℕ → String) where
  module _ (user : UserCode H env) where
    -- A step is a round of one of the threads that returns.
    pub data Step (node node' : Node H env) : Type 0 where
      tcp : tcp_thread config env inet_ntop user node ≡ done node' → Step node node'
      udp : udp_thread config env inet_ntop user node ≡ done node' → Step node node'
      peer : (ip : ℕ) → peer_thread config env inet_ntop user ip node ≡ done node' → Step node node'
      handler :
          (request : InternalRequest)
          → handler_thread config env inet_ntop user request node ≡ done node'
          → Step node node'

    pub data Reach (start_node : Node H env) : Node H env → Type 0 where
      start : Reach start_node start_node
      later :
          {node node' : Node H env}
          → Reach start_node node
          → Step node node'
          → Reach start_node node'

    -- Its servers call the handlers that the constructor gave them, its clients' managers are valid,
    -- and its set of peers is empty.
    abbrev pub IsRunning : Node H env → Type 0
    IsRunning node = IsRegistered config env inet_ntop user node × IsSound config env node.shared

    -- What follows a round.
    abbrev after_tcp :
        Node H env
        → Server TcpRequest (DistributedServer H env) × DistributedServer H env
        → Outcome (Node H env)
    after_tcp node (server, n) = done (record node { tcp_server = server; shared = n })

    abbrev after_udp :
        Node H env
        → Server UdpRequest (DistributedServer H env) × DistributedServer H env
        → Outcome (Node H env)
    after_udp node (server, n) = done (record node { udp_server = server; shared = n })

    abbrev after_peer : Node H env → Bool × DistributedServer H env → Outcome (Node H env)
    after_peer node (goes_on, n) = done (record node { shared = n })

    abbrev after_handler : Node H env → Status × DistributedServer H env → Outcome (Node H env)
    after_handler node (status, n) = done (record node { shared = n })

    tcp_thread-IsRunning :
        (node node' : Node H env)
        → UserKeeps config env inet_ntop user
        → IsRunning node
        → tcp_thread config env inet_ntop user node ≡ done node'
        → IsRunning node'
    unfolding tcp_thread
    tcp_thread-IsRunning node node' keeps (registered, s) run =
        let (r, ran, rest) =
          >>=-eq-done (tcp_round (node_posix H env) node.tcp_server node.shared) (after_tcp node)
            {b = node'} run in
        let (s', kept) =
          tcp_round-keeps (node_posix H env) (IsSound config env) (λ fd n sound. sound)
            (read_message-IsSound config env inet_ntop user) (λ fd n sound. sound) node.tcp_server
            r.0 node.shared r.1
            (tcp_handlers-HandlersKeep config env inet_ntop user node keeps registered) s ran in
        let q : record node { tcp_server = r.0; shared = r.1 } ≡ node' = ground (arith, rest) in
        subst IsRunning q
          (record { on_udp = registered.on_udp; on_tcp = λ p. kept p ∙ registered.on_tcp p }, s')

    udp_thread-IsRunning :
        (node node' : Node H env)
        → UserKeeps config env inet_ntop user
        → IsRunning node
        → udp_thread config env inet_ntop user node ≡ done node'
        → IsRunning node'
    unfolding udp_thread
    udp_thread-IsRunning node node' keeps (registered, s) run =
        let (r, ran, rest) =
          >>=-eq-done (udp_round (node_posix H env) node.udp_server node.shared) (after_udp node)
            {b = node'} run in
        let (s', kept) =
          udp_round-keeps (node_posix H env) (IsSound config env) (λ fd size n sound. sound)
            node.udp_server r.0 node.shared r.1
            (udp_handlers-HandlersKeep config env inet_ntop user node keeps registered) s ran in
        let q : record node { udp_server = r.0; shared = r.1 } ≡ node' = ground (arith, rest) in
        subst IsRunning q
          (record { on_udp = λ p. kept p ∙ registered.on_udp p; on_tcp = registered.on_tcp }, s')

    Step-IsRunning :
        (node node' : Node H env)
        → UserKeeps config env inet_ntop user
        → IsRunning node
        → Step node node'
        → IsRunning node'
    unfolding peer_thread handler_thread
    Step-IsRunning node node' keeps running (tcp run) =
        tcp_thread-IsRunning node node' keeps running run
    Step-IsRunning node node' keeps running (udp run) =
        udp_thread-IsRunning node node' keeps running run
    Step-IsRunning node node' keeps (registered, s) (peer ip run) =
        let (r, ran, rest) =
          >>=-eq-done (peer_round config env inet_ntop ip node.shared) (after_peer node) {b = node'}
            run in
        let q : record node { shared = r.1 } ≡ node' = ground (arith, rest) in
        subst IsRunning q (
          record { on_udp = registered.on_udp; on_tcp = registered.on_tcp },
          peer_round-IsSound config env inet_ntop ip node.shared r.1 r.0 s ran,
        )
    Step-IsRunning node node' keeps (registered, s) (handler request run) =
        let (r, ran, rest) =
          >>=-eq-done
            (forward_request_to_handler config env inet_ntop user (of_connector request)
              node.shared)
            (after_handler node) {b = node'} run in
        let q : record node { shared = r.1 } ≡ node' = ground (arith, rest) in
        subst IsRunning q (
          record { on_udp = registered.on_udp; on_tcp = registered.on_tcp },
          forward-IsSound config env inet_ntop user (of_connector request) node.shared r.1 r.0 keeps
              s ran,
        )

    pub Reach-IsRunning :
        (node node' : Node H env)
        → UserKeeps config env inet_ntop user
        → IsRunning node
        → Reach node node'
        → IsRunning node'
    Reach-IsRunning node node' keeps running start = running
    Reach-IsRunning node node' keeps running (later reach step) =
        Step-IsRunning _ node' keeps (Reach-IsRunning node _ keeps running reach) step

    -- Where the user's handlers keep every client's manager valid and the set of peers empty, and
    -- the constructor of a distributed server returns a node, every node that rounds of its
    -- threads lead to, which are those of the TCP server, the UDP server, a peer's reader and a
    -- handler that a reader has started, in any order, still gives each request to the handler
    -- that the constructor registered for it, has a valid manager for every client, and has no
    -- peers.
    pub new_node-IsRunning :
        (interface group : String) (group_addr : SockAddr) (interfaces : List String) (port : ℕ)
        (default_handler : H) (initialised : Outcome (Option H)) (connects disconnects : Bool)
        (w : env.World) (node node' : Node H env)
        → new_node config env inet_ntop user interface group group_addr interfaces port
            default_handler initialised connects disconnects w
          ≡ done node
        → UserKeeps config env inet_ntop user
        → Reach node node'
        → IsRunning node'
    unfolding new_distributed_server new_connector
    new_node-IsRunning interface group group_addr interfaces port default_handler initialised
          connects disconnects w node node' run keeps reach =
        Reach-IsRunning node node' keeps
          (made (
            new_node-IsRegistered config env inet_ntop user interface group group_addr interfaces
              port default_handler initialised connects disconnects w))
          reach
      where
        fresh : Option H → DistributedServer H env
        fresh found =
            new_distributed_server interface group_addr interfaces port found connects disconnects w

        made :
            (new_node config env inet_ntop user interface group group_addr interfaces port
                  default_handler initialised connects disconnects w
                ≡ thrown)
              ⊎ ((made_node : Option H → Node H env) × (new_node config env inet_ntop user interface
                      group group_addr interfaces port default_handler initialised connects
                      disconnects w
                    ≡ (initialised >>= λ found. done (made_node found)))
                  × ((found : Option H)
                      → IsRegistered config env inet_ntop user (made_node found)
                        × (with_world w (made_node found).shared ≡ fresh found)))
            → IsRunning node
        made (inl threw) = absurd (ground (arith, threw, run))
        made (inr (made_node, ran, holds)) =
            let (found, got, same_node) =
              >>=-eq-done initialised (λ found. done (made_node found)) {b = node}
                (sym ran ∙ run) in
            let q : made_node found ≡ node = cc in
            let (registered, same) = holds found in
            subst IsRunning q (
              registered,
              subst (IsSound config env) (sym same)
                  ((λ address c e. absurd (ground arith)), λ ip. refl),
            )
