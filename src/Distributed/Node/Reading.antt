-- ===== src/Distributed/Node/Reading.antt =====
-- The reader threads of the peers keep the channel managers of the clients valid, whatever they read.
use servercc.Common.{
  ℕ, ◌≡◌, inl, inr, refl, sym, ap, subst, ◌∙◌, Bool, true, false, String, Option, none, some,
  Outcome, done, arith, ◌==◌, if◌then◌else◌, update, Option-cases, Bool-cases, ==_iff, is_minus_one,
  >>=-eq-done,
}
use servercc.Types.Status.{is_ok}
use servercc.Types.Message.{Message}
use servercc.Types.Message.RoundTrip.{IsFramed}
use servercc.Types.Posix.{SockAddr}
use servercc.Types.Stream.Transfer.{ReadResult, read_message-ReadResult}
use servercc.Types.Stream.{read_message}
use servercc.Clients.TcpClient
use servercc.Clients.TcpClient.{Client}
use servercc.Connectors.Env.{Env, ChannelConfig}
use servercc.Connectors.Manager.{forward_message}
use servercc.Connectors.Manager.Invariant.{IsValid, entered-IsValid}
use servercc.Connectors.Manager.Arbitrary.{IsSettled, forward_message-IsSettled}
use servercc.Connectors.Connector.{
  Connector, InternalClient, left, start_handler, forward_read, read_round,
}
use servercc.Connectors.Connector.Clients.{read_round-disconnects}
use servercc.Distributed.{Forwarding, DistributedServer, peer_round, on_connector_disconnect}
use servercc.Distributed.Node.Soundness.{ClientsValid, IsSound}

received-IsFramed :
    (env : Env) (c : Client) (w : env.World) (m : Message)
    → (TcpClient.receive_message env.posix c w).1 ≡ some m
    → IsFramed m
unfolding TcpClient.receive_message
received-IsFramed env c w m got = elim (Bool-cases (is_minus_one c.client_fd)) [
  | inl closed ↦ absurd (ground (arith, closed, got))
  | inr fd ↦
      let read : (read_message env.posix c.client_fd w).1 ≡ some m = ground (arith, fd, got) in
      (subst (ReadResult (read_message env.posix c.client_fd w).0) read
        (read_message-ReadResult env.posix c.client_fd w)).1
]

module _ {H : Type 0} (config : ChannelConfig) (env : Env) where
  clients-start_handler :
      (address protocol : ℕ) (addr : SockAddr) (channel : Option ℕ) (k : Connector H env)
      → (start_handler config env address protocol addr channel k).clients ≡ k.clients
  unfolding start_handler
  clients-start_handler address protocol addr none k = refl
  clients-start_handler address protocol addr (some ref) k = refl

  forward_read-ClientsValid :
      (address : ℕ) (c : InternalClient env) (m : Message) (k k' : Connector H env)
      → ClientsValid config env k.clients
      → k.clients address ≡ some c
      → IsFramed m
      → forward_read config env address c m k ≡ done k'
      → ClientsValid config env k'.clients
  unfolding forward_read
  forward_read-ClientsValid address c m k k' v e framed run address' c' e' = settled (
      forward_message-IsSettled config env m (record c.channel_manager { world = k.world })
        (entered-IsValid config env c.channel_manager k.world (v address c e)) framed)
    where
      settled :
          IsSettled config env
            (record c.channel_manager { world = k.world })
            (forward_message config env m (record c.channel_manager { world = k.world }))
          → IsValid config env c'.channel_manager
      settled (inl bad) = absurd (ground (arith, bad, run))
      settled (inr (status, protocol, channel, s, ran, effect, valid)) =
          let q : start_handler config env address protocol c.client.client_addr channel
                (left config env address c s k)
              ≡ k' =
            ground (arith, ran, run) in
          let clients : update k.clients address (some (record c { channel_manager = s }))
              ≡ k'.clients =
            sym (
              clients-start_handler address protocol c.client.client_addr channel
                (left config env address c s k))
            ∙ ap (λ (x : Connector H env). x.clients) q in
          let at : update k.clients address (some (record c { channel_manager = s })) address'
              ≡ some c' =
            ap (λ f. f address') clients ∙ e' in
          elim (Bool-cases (address == address')) [
            | inl here ↦
                let same : s ≡ c'.channel_manager = ground (arith, here, at) in
                subst (IsValid config env) same valid
            | inr apart ↦ v address' c' (ground (arith, apart, at))
          ]

  abbrev going_on : Connector H env → Outcome (Bool × Connector H env)
  going_on k = done (true, k)

  pub read_round-ClientsValid :
      (address : ℕ) (k k' : Connector H env) (goes_on : Bool)
      → ClientsValid config env k.clients
      → read_round config env address k ≡ done (goes_on, k')
      → ClientsValid config env k'.clients
  unfolding read_round
  read_round-ClientsValid address k k' goes_on v run = elim (Option-cases (k.clients address)) [
    | inl gone ↦ absurd (ground (arith, gone, run))
    | inr (c, e) ↦
        let (status, message, w) = TcpClient.receive_message env.posix c.client k.world in
        elim (Bool-cases (is_ok status)) [
          | inr bad ↦ disconnected c e bad
          | inl ok ↦ elim (Option-cases message) [
            | inl empty ↦ absurd (ground (arith, e, ok, empty, run))
            | inr (m, got) ↦
                let (k2, forwarded, rest) =
                  >>=-eq-done (forward_read config env address c m (record k { world = w }))
                    going_on {b = (goes_on, k')} (ground (arith, e, ok, got, run)) in
                let same : k2 ≡ k' = cc in
                subst (λ x. ClientsValid config env x.clients) same
                  (forward_read-ClientsValid address c m (record k { world = w }) k2 v e
                    (received-IsFramed env c.client k.world m got) forwarded)
          ]
        ]
  ]
    where
      disconnected :
          (c : InternalClient env)
          → k.clients address ≡ some c
          → is_ok (TcpClient.receive_message env.posix c.client k.world).0 ≡ false
          → ClientsValid config env k'.clients
      disconnected c e bad address' c' e' =
          let (k2, ran, gone, stopped, called, started, others) =
            read_round-disconnects config env address c
              (TcpClient.receive_message env.posix c.client k.world).0
              (TcpClient.receive_message env.posix c.client k.world).1
              (TcpClient.receive_message env.posix c.client k.world).2 k e (v address c e) refl
              bad in
          let same : k2 ≡ k' = cc in
          let at : k2.clients address' ≡ some c' =
            ap (λ (x : Connector H env). x.clients address') same ∙ e' in
          elim (Bool-cases (address == address')) [
            | inl here ↦ absurd (ground (arith, (==_iff address address').0 here, gone, at))
            | inr apart ↦ v address' c' (sym (others address' apart) ∙ at)
          ]

module _ {H : Type 0} (config : ChannelConfig) (env : Env) (inet_ntop : ℕ → String) where
  -- What follows a round of a peer's reader.
  abbrev after_round :
      ℕ
      → DistributedServer H env
      → Bool × Connector Forwarding env
      → Outcome (Bool × DistributedServer H env)
  after_round ip n (goes_on, k) =
      let n' = record n { connector = k } in
      done (goes_on, if goes_on then n' else on_connector_disconnect ip n')

  pub peer_round-IsSound :
      (ip : ℕ) (n n' : DistributedServer H env) (goes_on : Bool)
      → IsSound config env n
      → peer_round config env inet_ntop ip n ≡ done (goes_on, n')
      → IsSound config env n'
  unfolding peer_round on_connector_disconnect
  peer_round-IsSound ip n n' goes_on (v, peers) run =
      let (r, ran, rest) =
        >>=-eq-done (read_round config env ip n.connector) (after_round ip n) {b = (goes_on, n')}
          run in
      let v' : ClientsValid config env r.1.clients =
        read_round-ClientsValid config env ip n.connector r.1 r.0 v ran in
      elim (Bool-cases r.0) [
        | inl on ↦
            let q : record n { connector = r.1 } ≡ n' = ground (arith, on, rest) in
            subst (IsSound config env) q (v', peers)
        | inr off ↦
            let q : on_connector_disconnect ip (record n { connector = r.1 }) ≡ n' =
              ground (arith, off, rest) in
            subst (IsSound config env) q (v', λ ip'. ground (arith, peers ip'))
      ]
