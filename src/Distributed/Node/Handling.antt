-- ===== src/Distributed/Node/Handling.antt =====
-- The handlers of a distributed server keep it sound.
use servercc.Common.{
  inl, inr, arith, Option-cases, ℕ, ℤ, ◌≡◌, refl, sym, ap, subst, ◌∙◌, Bool, true, false, String,
  some, done, ◌==◌, if◌then◌else◌,
}
use servercc.Types.Status.{Status}
use servercc.Types.Protocols.{connect_request_protocol, connect_ack_request_protocol}
use servercc.Types.Stream.{read_message}
use servercc.Connectors.Env.{Env, ChannelConfig}
use servercc.Distributed.{with_world, forwarded_handler, DistributedServer}
use servercc.Servers.Preservation.{HandlersKeep}
use servercc.Types.Stream.Keeping.{read_message-keeps}
use servercc.Distributed.Handshake.{handle_connect}
use servercc.Distributed.Node.{
  Node, UserCode, AnyRequest, of_tcp, of_udp, protocol_of, node_posix, forward_request_to_handler,
  connect_ack_handler,
}
use servercc.Distributed.Node.Registration.{IsRegistered, tcp_handler, udp_handler}
use servercc.Distributed.Node.Acknowledging.{handle_connect_ack-IsSound}
use servercc.Distributed.Node.Soundness.{IsSound, handle_connect-IsSound}

module _ {H : Type 0} (config : ChannelConfig) (env : Env) (inet_ntop : ℕ → String) where
  module _ (user : UserCode H env) where
    -- The handlers of the user reach the server through its operations, which keep it sound.
    abbrev pub UserKeeps : Type 0
    UserKeeps =
        (h : H) (request : AnyRequest) (n n' : DistributedServer H env) (status : Status)
        → IsSound config env n
        → user h request n ≡ done (status, n')
        → IsSound config env n'

    pub forward-IsSound :
        (request : AnyRequest) (n n' : DistributedServer H env) (status : Status)
        → UserKeeps
        → IsSound config env n
        → forward_request_to_handler config env inet_ntop user request n ≡ done (status, n')
        → IsSound config env n'
    unfolding forward_request_to_handler
    forward-IsSound request n n' status keeps s run =
        elim (Option-cases (forwarded_handler (protocol_of request) n)) [
          | inl empty ↦ absurd (ground (arith, empty, run))
          | inr (h, chosen) ↦ keeps h request n n' status s (ground (arith, chosen, run))
        ]

    pub tcp_handlers-HandlersKeep :
        (node : Node H env)
        → UserKeeps
        → IsRegistered config env inet_ntop user node
        → HandlersKeep (node_posix H env) (IsSound config env) node.tcp_server
    tcp_handlers-HandlersKeep node keeps registered q h at request n n' status s run =
        let handles : some (tcp_handler config env inet_ntop user q) ≡ some h =
          sym (registered.on_tcp q) ∙ at in
        let same : tcp_handler config env inet_ntop user q ≡ h = cc in
        handled (connect_ack_request_protocol == q) (ap (λ f. f request n) same ∙ run)
      where
        handled :
            (b : Bool)
            → (if b then connect_ack_handler config env inet_ntop user else λ r.
                  forward_request_to_handler config env inet_ntop user (of_tcp r))
                request n
              ≡ done (status, n')
            → IsSound config env n'
        handled true acked =
            handle_connect_ack-IsSound config env inet_ntop request n n' status s acked
        handled false forwarded = forward-IsSound (of_tcp request) n n' status keeps s forwarded

    pub udp_handlers-HandlersKeep :
        (node : Node H env)
        → UserKeeps
        → IsRegistered config env inet_ntop user node
        → HandlersKeep (node_posix H env) (IsSound config env) node.udp_server
    udp_handlers-HandlersKeep node keeps registered q h at request n n' status s run =
        let handles : some (udp_handler config env inet_ntop user q) ≡ some h =
          sym (registered.on_udp q) ∙ at in
        let same : udp_handler config env inet_ntop user q ≡ h = cc in
        handled (connect_request_protocol == q) (ap (λ f. f request n) same ∙ run)
      where
        handled :
            (b : Bool)
            → (if b then handle_connect config env inet_ntop else λ r.
                  forward_request_to_handler config env inet_ntop user (of_udp r))
                request n
              ≡ done (status, n')
            → IsSound config env n'
        handled true connected =
            handle_connect-IsSound config env inet_ntop request n n' status s connected
        handled false forwarded = forward-IsSound (of_udp request) n n' status keeps s forwarded

    pub read_message-IsSound :
        (fd : ℤ) (n : DistributedServer H env)
        → IsSound config env n
        → IsSound config env (read_message (node_posix H env) fd n).2
    read_message-IsSound fd n s =
        subst (IsSound config env)
          (sym (
            read_message-keeps (node_posix H env) (with_world n.connector.world) fd
              (λ size n'. refl) n))
          s
