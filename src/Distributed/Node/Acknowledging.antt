-- ===== src/Distributed/Node/Acknowledging.antt =====
-- `handleConnectAck` keeps a distributed server sound.
use servercc.Common.{
  ℕ, ◌≡◌, inl, inr, subst, not, String, Outcome, done, arith, if◌then◌else◌, Bool-cases,
  >>=-eq-done,
}
use servercc.Types.Status.{Status, ok_status, is_ok}
use servercc.Types.Protocols.{connect_ack_response_protocol}
use servercc.Clients.TcpClient.{connected_client}
use servercc.Servers.TcpRequest
use servercc.Servers.TcpRequest.{TcpRequest}
use servercc.Connectors.Env.{Env, ChannelConfig}
use servercc.Connectors.Connector.{Connector, add_client}
use servercc.Distributed.{
  DistributedServer, Forwarding, with_world, call_connected, ack_message, ntohs,
}
use servercc.Distributed.Handshake.{adopt, handle_connect_ack}
use servercc.Distributed.Node.Soundness.{IsSound, add_client-ClientsValid}

module _ (config : ChannelConfig) (env : Env) where
  module _ {H : Type 0} (inet_ntop : ℕ → String) where
    -- What follows the addition of an acknowledged connection's client.
    abbrev after_adopt :
        TcpRequest
        → DistributedServer H env
        → Status × Connector Forwarding env
        → Outcome (Status × DistributedServer H env)
    after_adopt request n (status, connector) =
        let (fd, kept) = TcpRequest.set_keep_alive request in
        let n' = record n { connector = connector } in
        if not (is_ok status)
        then done (
          status,
          with_world (TcpRequest.destroy_request env.posix kept (env.close fd connector.world)) n',
        )
        else done (
          ok_status,
          call_connected request.client_addr.address
              (with_world (TcpRequest.destroy_request env.posix kept connector.world) n'),
        )

    adopt-IsSound :
        (request : TcpRequest) (n n' : DistributedServer H env) (st : Status)
        → IsSound config env n
        → adopt config env inet_ntop request n ≡ done (st, n')
        → IsSound config env n'
    unfolding adopt
    adopt-IsSound request n n' st (v, peers) run =
        let (fd, kept) = TcpRequest.set_keep_alive request in
        let ip = request.client_addr.address in
        let client =
          connected_client fd (inet_ntop ip) (ntohs request.client_addr.port) request.client_addr in
        let (r, added, rest) =
          >>=-eq-done (add_client config env client n.connector) (after_adopt request n)
            {b = (st, n')} run in
        let v' = add_client-ClientsValid config env client n.connector r.1 r.0 v added in
        let taken = record n { connector = r.1 } in
        elim (Bool-cases (is_ok r.0)) [
          | inr bad ↦
              let q : with_world
                    (TcpRequest.destroy_request env.posix kept (env.close fd r.1.world)) taken
                  ≡ n' =
                ground (arith, bad, rest) in
              subst (IsSound config env) q (v', peers)
          | inl ok ↦
              let q : call_connected ip
                    (with_world (TcpRequest.destroy_request env.posix kept r.1.world) taken)
                  ≡ n' =
                ground (arith, ok, rest) in
              subst (IsSound config env) q (v', peers)
        ]

    pub handle_connect_ack-IsSound :
        (request : TcpRequest) (n n' : DistributedServer H env) (st : Status)
        → IsSound config env n
        → handle_connect_ack config env inet_ntop request n ≡ done (st, n')
        → IsSound config env n'
    unfolding handle_connect_ack
    handle_connect_ack-IsSound request n n' st s run =
        let (status, message, request', w) =
          TcpRequest.receive_message env.posix request n.connector.world in
        let (sent, w') =
          TcpRequest.send_message env.posix (ack_message connect_ack_response_protocol) request'
            w in
        elim (Bool-cases (is_ok status)) [
          | inr bad ↦
              let q : with_world (TcpRequest.destroy_request env.posix request' w) n ≡ n' =
                ground (arith, bad, run) in
              subst (IsSound config env) q s
          | inl ok ↦ elim (Bool-cases (is_ok sent)) [
            | inr bad ↦
                let q : with_world (TcpRequest.destroy_request env.posix request' w') n ≡ n' =
                  ground (arith, ok, bad, run) in
                subst (IsSound config env) q s
            | inl good ↦
                adopt-IsSound request' (with_world w' n) n' st s (ground (arith, ok, good, run))
          ]
        ]
