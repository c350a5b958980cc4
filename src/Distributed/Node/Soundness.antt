-- ===== src/Distributed/Node/Soundness.antt =====
-- What the handlers and the threads of a distributed server keep: the channel managers of its clients
-- are valid, and its set of peers is empty.
use servercc.Common.{
  ℕ, ℤ, ◌≡◌, ◌⊎◌, inl, inr, refl, sym, ap, subst, ◌∙◌, false, not, ◌||◌, List, [], ◌∷◌, String,
  Option, some, Outcome, done, undefined, arith, ◌==◌, if◌then◌else◌, update, is_some, Option-cases,
  Bool-cases, >>=-eq-done,
}
use servercc.Types.Status.{Status, ok_status, is_ok}
use servercc.Types.Protocols.{connect_ack_request_protocol, connect_ack_response_protocol}
use servercc.Types.Memory.{copy_from, word16_of_bytes}
use servercc.Clients.TcpClient
use servercc.Clients.TcpClient.{Client, new_client, connected_client}
use servercc.Servers.UdpRequest
use servercc.Servers.UdpRequest.{UdpRequest}
use servercc.Connectors.Env.{Env, ChannelConfig}
use servercc.Connectors.Manager.{new_manager}
use servercc.Connectors.Manager.Invariant.{IsValid, new_manager-IsValid}
use servercc.Connectors.Connector.{Connector, InternalClient, add_client, add_opened, run_client}
use servercc.Distributed.{
  DistributedServer, Forwarding, with_world, abandon, call_connected, same_text, ack_message,
  peer_error,
}
use servercc.Distributed.Handshake.{
  add_peer, await_ack, send_ack, connect_to_peer, connect_unless_known, handle_connect,
}

module _ (config : ChannelConfig) (env : Env) where
  abbrev pub ClientsValid : (ℕ → Option (InternalClient env)) → Type 0
  ClientsValid clients =
      (address : ℕ) (c : InternalClient env)
      → clients address ≡ some c
      → IsValid config env c.channel_manager

  abbrev pub IsSound : {H : Type 0} → DistributedServer H env → Type 0
  IsSound n = ClientsValid n.connector.clients × ((ip : ℕ) → n.peers ip ≡ false)

  -- A client that is added has a new manager.
  add_opened-clients :
      {H : Type 0} (opened : Status × Client × env.World) (k : Connector H env)
      → ((add_opened config env opened k).1.clients ≡ k.clients)
        ⊎ ((address : ℕ) × (c : Client) × (fd : ℤ) × (w : env.World) × ((add_opened config env
                opened k).1.clients
              ≡ update k.clients address
                  (some (record { client = c; channel_manager = new_manager config env fd w }))))
  unfolding add_opened run_client
  add_opened-clients (status, client', w) k =
      let address = TcpClient.get_client_in_addr client' in
      elim (Bool-cases (is_ok status)) [
        | inr bad ↦ inl (ground (arith, bad))
        | inl ok ↦ elim (Bool-cases (is_some (k.clients address))) [
          | inl taken ↦ inl (ground (arith, ok, taken))
          | inr free ↦ inr (address, client', client'.client_fd, w, ground (arith, ok, free))
        ]
      ]

  add_opened-ClientsValid :
      {H : Type 0} (opened : Status × Client × env.World) (k : Connector H env)
      → ClientsValid k.clients
      → ClientsValid (add_opened config env opened k).1.clients
  add_opened-ClientsValid opened k v address c e = elim (add_opened-clients opened k) [
    | inl same ↦ v address c (ap (λ f. f address) (sym same) ∙ e)
    | inr (a, c', fd, w, new) ↦ elim (Bool-cases (a == address)) [
      | inl here ↦
          let at : update k.clients a
                (some (record { client = c'; channel_manager = new_manager config env fd w }))
                address
              ≡ some c =
            ap (λ f. f address) (sym new) ∙ e in
          let same : new_manager config env fd w ≡ c.channel_manager = ground (arith, here, at) in
          subst (IsValid config env) same (new_manager-IsValid config env fd w)
      | inr apart ↦
          let at : update k.clients a
                (some (record { client = c'; channel_manager = new_manager config env fd w }))
                address
              ≡ some c =
            ap (λ f. f address) (sym new) ∙ e in
          v address c (ground (arith, apart, at))
    ]
  ]

  pub add_client-ClientsValid :
      {H : Type 0} (client : Client) (k k' : Connector H env) (st : Status)
      → ClientsValid k.clients
      → add_client config env client k ≡ done (st, k')
      → ClientsValid k'.clients
  unfolding add_client
  add_client-ClientsValid {H} client k k' st v run =
      let (opened, opens, rest) =
        >>=-eq-done (TcpClient.open_socket env.posix client k.world)
          (λ r. done (add_opened config env r k)) {b = (st, k')} run in
      let same : add_opened config env opened k ≡ (st, k') = cc in
      subst (λ (r : Status × Connector H env). ClientsValid r.1.clients) same
        (add_opened-ClientsValid opened k v)

  module _ {H : Type 0} (inet_ntop : ℕ → String) where
    -- What follows the addition of a peer's client.
    abbrev after_add_peer :
        ℕ
        → DistributedServer H env
        → Status × Connector Forwarding env
        → Outcome (Status × DistributedServer H env)
    after_add_peer ip n (status, connector) =
        if not (is_ok status)
        then undefined
        else done (ok_status, call_connected ip (record n { connector = connector }))

    add_peer-IsSound :
        (ip : ℕ) (client : Client) (n n' : DistributedServer H env) (st : Status)
        → IsSound n
        → add_peer config env inet_ntop ip client n ≡ done (st, n')
        → IsSound n'
    unfolding add_peer
    add_peer-IsSound ip client n n' st (v, peers) run =
        let (r, added, rest) =
          >>=-eq-done (add_client config env client n.connector) (after_add_peer ip n)
            {b = (st, n')} run in
        let v' = add_client-ClientsValid client n.connector r.1 r.0 v added in
        elim (Bool-cases (is_ok r.0)) [
          | inr bad ↦ absurd (ground (arith, bad, rest))
          | inl ok ↦
              let q : call_connected ip (record n { connector = r.1 }) ≡ n' =
                ground (arith, ok, rest) in
              subst IsSound q (v', peers)
        ]

    await_ack-IsSound :
        (ip : ℕ) (client : Client) (n n' : DistributedServer H env) (st : Status)
        → IsSound n
        → await_ack config env inet_ntop ip client n ≡ done (st, n')
        → IsSound n'
    unfolding await_ack
    await_ack-IsSound ip client n n' st s run =
        let (status, response, w) = TcpClient.receive_message env.posix client n.connector.world in
        let closed = with_world (abandon env client w) n in
        elim (Bool-cases (is_ok status)) [
          | inr bad ↦ let q : closed ≡ n' = ground (arith, bad, run) in subst IsSound q s
          | inl ok ↦ elim (Option-cases response) [
            | inl empty ↦ absurd (ground (arith, ok, empty, run))
            | inr (m, got) ↦
                elim (Bool-cases (m.header.protocol == connect_ack_response_protocol)) [
                  | inr other ↦
                      let q : closed ≡ n' = ground (arith, ok, got, other, run) in subst IsSound q s
                  | inl ack ↦
                      add_peer-IsSound ip client (with_world w n) n' st s
                        (ground (arith, ok, got, ack, run))
                ]
          ]
        ]

    -- What follows the acknowledgement that is sent to the peer.
    abbrev acknowledged :
        ℕ
        → Client
        → DistributedServer H env
        → Status × env.World
        → Outcome (Status × DistributedServer H env)
    acknowledged ip client n (sent, w) =
        if not (is_ok sent)
        then done (
          peer_error "Failed to send connectAck to peer server" (inet_ntop ip) sent,
          with_world (abandon env client w) n,
        )
        else await_ack config env inet_ntop ip client (with_world w n)

    send_ack-IsSound :
        (ip : ℕ) (client : Client) (n n' : DistributedServer H env) (st : Status)
        → IsSound n
        → send_ack config env inet_ntop ip client n ≡ done (st, n')
        → IsSound n'
    unfolding send_ack
    send_ack-IsSound ip client n n' st s run =
        let ack = ack_message connect_ack_request_protocol in
        let (r, written, rest) =
          >>=-eq-done (TcpClient.send_message env.posix ack client n.connector.world)
            (acknowledged ip client n) {b = (st, n')} run in
        elim (Bool-cases (is_ok r.0)) [
          | inr bad ↦
              let q : with_world (abandon env client r.1) n ≡ n' = ground (arith, bad, rest) in
              subst IsSound q s
          | inl sent ↦
              await_ack-IsSound ip client (with_world r.1 n) n' st s (ground (arith, sent, rest))
        ]

    -- What follows the attempt to connect to the peer.
    abbrev after_open :
        ℕ
        → DistributedServer H env
        → Status × Client × env.World
        → Outcome (Status × DistributedServer H env)
    after_open ip n (status, client, w) =
        if not (is_ok status)
        then done (
          peer_error "Failed to open socket to peer server" (inet_ntop ip) status,
          with_world (abandon env client w) n,
        )
        else send_ack config env inet_ntop ip client (with_world w n)

    connect_to_peer-IsSound :
        (ip port : ℕ) (n n' : DistributedServer H env) (st : Status)
        → IsSound n
        → connect_to_peer config env inet_ntop ip port n ≡ done (st, n')
        → IsSound n'
    unfolding connect_to_peer
    connect_to_peer-IsSound ip port n n' st s run =
        let (r, opens, rest) =
          >>=-eq-done
            (TcpClient.open_socket env.posix (new_client (inet_ntop ip) port) n.connector.world)
            (after_open ip n) {b = (st, n')} run in
        elim (Bool-cases (is_ok r.0)) [
          | inr bad ↦
              let q : with_world (abandon env r.1 r.2) n ≡ n' = ground (arith, bad, rest) in
              subst IsSound q s
          | inl ok ↦ send_ack-IsSound ip r.1 (with_world r.2 n) n' st s (ground (arith, ok, rest))
        ]

    connect_unless_known-IsSound :
        (ip port : ℕ) (n n' : DistributedServer H env) (st : Status)
        → IsSound n
        → connect_unless_known config env inet_ntop ip port n ≡ done (st, n')
        → IsSound n'
    unfolding connect_unless_known
    connect_unless_known-IsSound ip port n n' st s run = knowing n.interfaces refl
      where
        knowing : (interfaces : List String) → n.interfaces ≡ interfaces → IsSound n'
        knowing [] e = absurd (ground (arith, e, run))
        knowing (first ∷ others) e =
            elim (Bool-cases (same_text first (inet_ntop ip) || n.peers ip)) [
              | inl known ↦ let q : n ≡ n' = ground (arith, e, known, run) in subst IsSound q s
              | inr new ↦ connect_to_peer-IsSound ip port n n' st s (ground (arith, e, new, run))
            ]

    pub handle_connect-IsSound :
        (request : UdpRequest) (n n' : DistributedServer H env) (st : Status)
        → IsSound n
        → handle_connect config env inet_ntop request n ≡ done (st, n')
        → IsSound n'
    unfolding handle_connect
    handle_connect-IsSound request n n' st s run =
        let (status, message, request') = UdpRequest.receive_message request in
        elim (Bool-cases (is_ok status)) [
          | inr bad ↦ let q : n ≡ n' = ground (arith, bad, run) in subst IsSound q s
          | inl ok ↦ elim (Option-cases message) [
            | inl empty ↦ absurd (ground (arith, ok, empty, run))
            | inr (m, got) ↦ elim (Bool-cases (m.header.length == 2)) [
              | inr other ↦
                  let q : n ≡ n' = ground (arith, ok, got, other, run) in subst IsSound q s
              | inl two ↦
                  let (bytes, read, rest) =
                    >>=-eq-done (copy_from m.body 0 2)
                      (λ bytes.
                        connect_unless_known config env inet_ntop request.client_addr.address
                          (word16_of_bytes bytes) n)
                      (ground (arith, ok, got, two, run)) in
                  connect_unless_known-IsSound request.client_addr.address (word16_of_bytes bytes) n
                    n' st s rest
            ]
          ]
        ]
