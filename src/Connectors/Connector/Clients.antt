-- ===== src/Connectors/Connector/Clients.antt =====
-- The clients of a connector: what is kept of each, and how they come and go.
use servercc.Common.{
  ℕ, ◌≡◌, ◌⊎◌, inl, inr, refl, ap, ◌∙◌, Bool, true, false, [], ◌∷◌, Option, none, some, Outcome,
  done, blocked, arith, update, ◌==◌, eq_self, Option-cases,
}
use servercc.Types.Status.{Status, ok_status, error, is_ok, already_exists, not_found}
use servercc.Types.Message.{Message}
use servercc.Clients.TcpClient.{
  Client, receive_message, open_socket, close_socket, get_client_in_addr,
}
use servercc.Connectors.Env.{Env, ChannelConfig}
use servercc.Connectors.Manager.{State, new_manager, forward_message}
use servercc.Types.Message.RoundTrip.{IsFramed}
use servercc.Connectors.InternalRequest.{new_internal_request}
use servercc.Connectors.Manager.Opening.{create_request_channel-RequestOpened}
use servercc.Connectors.Manager.Closing.{destroy_manager-closes}
use servercc.Connectors.Manager.Forwarding.{
  forward_message-Handled, IsEnd, EndInRange, WrappedInRange,
}
use servercc.Connectors.Manager.Invariant.{
  IsValid, entered-IsValid, new_manager-IsValid, write_fd-new_manager,
}
use servercc.Connectors.Connector.{
  Connector, InternalClient, handler_for, left, add_client, add_opened, register_client, run_client,
  send_request, disconnect, forward_read, start_handler, read_round,
}

module _ {H : Type 0} (config : ChannelConfig) (env : Env) where
  -- All clients but the one at `address` are kept.
  abbrev pub KeepsOthers : ℕ → Connector H env → Connector H env → Type 0
  KeepsOthers address k k' =
      (other : ℕ) → (address == other) ≡ false → k'.clients other ≡ k.clients other

  -- A client whose socket opens is refused where its address has one already, which closes the new
  -- socket and keeps the clients; otherwise it is registered with a valid manager on its socket,
  -- and read from, and the other clients are kept.
  pub add_client-registers :
      (client opened : Client) (w : env.World) (k : Connector H env)
      → open_socket env.posix client k.world ≡ done (ok_status, opened, w)
      → ((old : InternalClient env) × (k.clients (get_client_in_addr opened) ≡ some old)
          × (add_client config env client k
              ≡ done (
                error already_exists "Client already exists",
                record k { world = (close_socket env.posix opened w).1 },
              )))
        ⊎ ((k' : Connector H env) × (manager : State env) × (k.clients (get_client_in_addr opened)
              ≡ none)
            × (add_client config env client k ≡ done (ok_status, k'))
            × (k'.clients (get_client_in_addr opened)
                ≡ some (record { client = opened; channel_manager = manager }))
            × (manager.write_fd ≡ opened.client_fd)
            × IsValid config env manager
            × (k'.reading (get_client_in_addr opened) ≡ true)
            × (k'.world ≡ w)
            × KeepsOthers (get_client_in_addr opened) k k')
  unfolding add_client add_opened register_client run_client get_client_in_addr
  add_client-registers client opened w k e =
      elim (Option-cases (k.clients opened.client_addr.address)) [
        | inr (old, held) ↦ inl (old, held, ground (arith, e))
        | inl free ↦ inr (
          record k {
            clients = update k.clients opened.client_addr.address (
                some (record {
                  client = opened;
                  channel_manager = new_manager config env opened.client_fd w;
                }));
            reading = update k.reading opened.client_addr.address true;
            world = w;
          },
          new_manager config env opened.client_fd w,
          free,
          ground (arith, e, eq_self opened.client_addr.address),
          rw (eq_self opened.client_addr.address),
          write_fd-new_manager config env opened.client_fd w,
          new_manager-IsValid config env opened.client_fd w,
          rw (eq_self opened.client_addr.address),
          refl,
          λ other apart. rw apart,
        )
      ]

  -- Sending to an address without a client is an error that changes nothing. Where there is a
  -- client, whose manager is valid, the call blocks when no identifier is free, and otherwise gives
  -- the request of a new channel, which the manager has registered under an identifier that had
  -- none; the manager stays valid and the other clients are kept.
  pub send_request-opens :
      (address : ℕ) (k : Connector H env)
      → ((c : InternalClient env)
          → k.clients address ≡ some c
          → IsValid config env c.channel_manager)
      → ((k.clients address ≡ none)
          × (send_request config env address k
              ≡ done (error not_found "Client does not exist", none, k)))
        ⊎ ((c : InternalClient env) × (k.clients address ≡ some c)
            × (((c.channel_manager.free_list ≡ []) × (send_request config env address k ≡ blocked))
                ⊎ ((id : ℕ) × (k' : Connector H env) × (c' : InternalClient env) × (send_request
                        config env address k
                      ≡ done
                          (ok_status, some (new_internal_request c.channel_manager.next_ref), k'))
                    × (k'.clients address ≡ some c')
                    × (c.channel_manager.request_channel id ≡ none)
                    × (c'.channel_manager.request_channel id ≡ some c.channel_manager.next_ref)
                    × IsValid config env c'.channel_manager
                    × KeepsOthers address k k')))
  unfolding send_request
  send_request-opens address k valid = elim (Option-cases (k.clients address)) [
    | inl e ↦ inl (e, ground arith)
    | inr (c, e) ↦ inr (
      c,
      e,
      elim (create_request_channel-RequestOpened config env
          (record c.channel_manager { world = k.world })
          (entered-IsValid config env c.channel_manager k.world (valid c e))) [
            | inl (empty, run) ↦ inl (empty, ground (arith, run))
            | inr (id, s', run, free, at, popped, v) ↦ inr (
              id,
              left config env address c s' k,
              record c { channel_manager = s' },
              ground (arith, run),
              rw (eq_self address),
              free,
              at,
              v,
              λ other apart. rw apart,
            )
          ],
    )
  ]

  -- Where a read from a client with a valid manager fails, the reader loop stops, the client is
  -- forgotten and no other, the disconnect callback is called once, and no handler is started;
  -- this holds although the manager is destroyed after the socket was closed.
  pub read_round-disconnects :
      (address : ℕ) (c : InternalClient env) (status : Status) (message : Option Message)
      (w : env.World) (k : Connector H env)
      → k.clients address ≡ some c
      → IsValid config env c.channel_manager
      → receive_message env.posix c.client k.world ≡ (status, message, w)
      → is_ok status ≡ false
      → (k' : Connector H env) × (read_round config env address k ≡ done (false, k'))
        × (k'.clients address ≡ none)
        × (k'.reading address ≡ false)
        × (k'.disconnected ≡ address ∷ k.disconnected)
        × (k'.started ≡ k.started)
        × KeepsOthers address k k'
  unfolding read_round disconnect
  read_round-disconnects address c status message w k e v received failed =
      let closed : env.World = (close_socket env.posix c.client w).1 in
      let (s', run, _, _) =
        destroy_manager-closes config env (record c.channel_manager { world = closed })
          (entered-IsValid config env c.channel_manager closed v) in
      (
        record k {
          clients = update k.clients address none;
          reading = update k.reading address false;
          disconnected = address ∷ k.disconnected;
          world = s'.world;
        },
        ground (arith, e, received, failed, run),
        rw (eq_self address),
        rw (eq_self address),
        refl,
        refl,
        λ other apart. rw apart,
      )

  -- The handler that is registered for a protocol, or the default one where none is.
  abbrev pub Handles : Connector H env → ℕ → H → Type 0
  Handles k protocol handler =
      (k.handlers protocol ≡ some handler)
      ⊎ ((k.handlers protocol ≡ none) × (handler ≡ k.default_handler))

  -- The threads that a round has started: none where the manager gave back no channel, and
  -- otherwise one, of the handler of the protocol that came with the channel, on that channel.
  abbrev pub Starts :
      ℕ → InternalClient env → ℕ → Option ℕ → Connector H env → Connector H env → Type 0
  Starts address c protocol channel k k' =
      ((channel ≡ none) × (k'.started ≡ k.started))
      ⊎ ((ref : ℕ) × (handler : H) × (channel ≡ some ref)
          × Handles k protocol handler
          × (k'.started
              ≡ record {
                handler = handler;
                request = record {
                  protocol = protocol;
                  addr = c.client.client_addr;
                  channel = ref;
                };
                peer = address;
              }
                ∷ k.started))

  -- A round on a message that was read, leaving a world: the client's manager forwards it there, and
  -- the round goes on, keeps the client with the manager that this leaves, which is valid, and the
  -- other clients, and starts what came back.
  abbrev pub Forwards :
      ℕ
      → InternalClient env
      → Message
      → env.World
      → Connector H env
      → Outcome (Bool × Connector H env)
      → Type 0
  Forwards address c m w k out =
      (status : Status) × (protocol : ℕ) × (channel : Option ℕ) × (manager : State env)
      × (k' : Connector H env) × (forward_message config env m
            (record c.channel_manager { world = w })
          ≡ done (status, protocol, channel, manager))
      × (out ≡ done (true, k'))
      × IsValid config env manager
      × (k'.clients address ≡ some (record c { channel_manager = manager }))
      × (k'.world ≡ manager.world)
      × (k'.disconnected ≡ k.disconnected)
      × KeepsOthers address k k'
      × Starts address c protocol channel k k'

  handler_for-Handles :
      (k : Connector H env) (protocol : ℕ) → Handles k protocol (handler_for config env k protocol)
  handler_for-Handles k protocol = elim (Option-cases (k.handlers protocol)) [
    | inl e ↦ inr (e, ground arith)
    | inr (h, e) ↦ inl (ground arith)
  ]

  start_handler-Starts :
      (channel : Option ℕ) (address protocol : ℕ) (c : InternalClient env) (s : State env)
      (k : Connector H env)
      → Starts address c protocol channel k (
          start_handler config env address protocol c.client.client_addr channel
            (left config env address c s k))
  unfolding start_handler
  start_handler-Starts none address protocol c s k = inl (refl, refl)
  start_handler-Starts (some ref) address protocol c s k =
      inr (ref, handler_for config env k protocol, refl, handler_for-Handles k protocol, refl)

  start_handler-left :
      (channel : Option ℕ) (address protocol : ℕ) (c : InternalClient env) (s : State env)
      (k : Connector H env)
      → let k' =
          start_handler config env address protocol c.client.client_addr channel
            (left config env address c s k) in
        (k'.clients ≡ update k.clients address (some (record c { channel_manager = s })))
        × (k'.world ≡ s.world)
        × (k'.disconnected ≡ k.disconnected)
  unfolding start_handler
  start_handler-left none address protocol c s k = (refl, refl, refl)
  start_handler-left (some ref) address protocol c s k = (refl, refl, refl)

  -- A message that is read from a client with a valid manager, that counts its own body and names
  -- an identifier within the arrays, is forwarded by that manager in the world after the read:
  -- the loop goes on, the client is kept with the manager that forwarding leaves, which is valid,
  -- as are the other clients, and no disconnection is told. Where forwarding returns no channel
  -- no handler is started; where it returns one, a single handler is, on that channel and under
  -- the protocol that came with it: the one registered for that protocol, or the default where
  -- none is.
  pub read_round-Forwards :
      (address : ℕ) (c : InternalClient env) (m : Message) (w : env.World) (k : Connector H env)
      → k.clients address ≡ some c
      → IsValid config env c.channel_manager
      → receive_message env.posix c.client k.world ≡ (ok_status, some m, w)
      → IsFramed m
      → (IsEnd config env m → EndInRange config env m)
      → (¬ IsEnd config env m → WrappedInRange config env m)
      → Forwards address c m w k (read_round config env address k)
  unfolding read_round forward_read
  read_round-Forwards address c m w k e v received framed ending wrapping =
      let (status, protocol, channel, manager, run, effect, v') =
        forward_message-Handled config env m (record c.channel_manager { world = w })
          (entered-IsValid config env c.channel_manager w v) framed ending wrapping in
      let (clients, world, disconnected) =
        start_handler-left channel address protocol c manager (record k { world = w }) in
      (
        status,
        protocol,
        channel,
        manager,
        start_handler config env address protocol c.client.client_addr channel
            (left config env address c manager (record k { world = w })),
        run,
        ground (arith, e, received, run),
        v',
        ap (λ f. f address) clients ∙ rw (eq_self address),
        world,
        disconnected,
        (λ other apart. ap (λ f. f other) clients ∙ rw apart),
        start_handler-Starts channel address protocol c manager (record k { world = w }),
      )
