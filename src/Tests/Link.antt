-- ===== src/Tests/Link.antt =====
-- Two managers of servercc/connectors at the ends of one connection, at concrete inputs.
use servercc.Common.{
  ap, ◌∙◌, ◌++◌, ℕ, ◌<◌, not, is_some, ◌≡◌, ◌≢◌, refl, pos, false, List, [], ◌∷◌, some, done, arith,
}
use servercc.Types.Status.{ok_status}
use servercc.Types.Memory.{uint32, copy_from, resize}
use servercc.Types.Message.{Message, wrap_message, unwrap_message}
use servercc.Types.Message.Wrapped.{wrap_message-wrapped}
use servercc.Types.Header.{header_bytes, header_of_bytes}
use servercc.Types.Stream.{read_message, write_message}
use servercc.Connectors.Channel.{Channel, requests, new_channel, write, shut, end_message}
use servercc.Connectors.Manager.{State, new_manager, allocate, shut_at, release_id, free_ids}
use servercc.Connectors.Manager.Retire.{retired, close-retired}
use servercc.Connectors.Manager.Invariant.{new_manager-IsValid}
use servercc.Connectors.Manager.Opening.{opened, popped, create_request_channel-popped}
use servercc.Connectors.InternalRequest.{send_message, new_internal_request, terminate}
use servercc.Connectors.Link.{
  left, right, Link, at, after, sends, creates, terminates, Receipt, forwards, Step, calls, receipt,
  Reach, start, later, connected,
}
use servercc.Connectors.Link.Traffic.{on_wire}
use servercc.Connectors.Link.Safety.{IsLinked, Reach-IsLinked, Reach-receives}
use servercc.Connectors.Link.Quiet.{Settles, Reach-Settles}
use servercc.Connectors.Link.Claims.{IsOpen}
use servercc.Connectors.Link.Tidy.{Reach-claimed}
use servercc.Connectors.Pool.{PoolReach, PoolStep, is_free}
use servercc.Connectors.Link.Lending.{pool, Reach-lends}
use servercc.Types.Stream.Transfer.{frame, read_message-frame}
use servercc.Connectors.Manager.Routing.{forward_request-first}
use servercc.Connectors.Manager.Delivery.{forward_message-accept}
use servercc.Fixtures.{greeting, greeting-IsHeader, small_config, small_config-IsConfig}
use servercc.Fixtures.Duplex.{duplex, silent, duplex_env, duplex_wires}

abbrev first : Link duplex_env
first = connected small_config duplex_env duplex_wires silent

-- The left end opens a request channel.
abbrev opening : State duplex_env
opening =
    opened small_config duplex_env requests 1
      (popped small_config duplex_env (0 ∷ []) 1 (at left first))

abbrev second : Link duplex_env
second = after left opening first

abbrev channel : Channel (List Message)
channel = record {
  side = requests;
  id = 1;
  write_fd = pos 0;
  is_closed = false;
  message_buffer = [];
}

-- It terminates the request on it, which sends an end message.
abbrev third : Link duplex_env
third = after left (retired small_config duplex_env 0 channel (at left second)) second

second-Step : Step small_config duplex_env duplex_wires first second
unfolding new_manager free_ids
second-Step =
    calls left opening
      (creates ok_status (some 0) (
        create_request_channel-popped small_config duplex_env 1 1 (0 ∷ []) (at left first)
          (new_manager-IsValid small_config duplex_env (pos 0) silent) refl refl))
      refl

third-Step : Step small_config duplex_env duplex_wires second third
unfolding new_manager allocate new_channel terminate retired new_internal_request
third-Step =
    calls left _
      (terminates (new_internal_request 0) (
        close-retired small_config duplex_env 0 0 channel (at left second) refl refl refl
          (omega arith)))
      refl

third-Reach : Reach small_config duplex_env duplex_wires silent third
third-Reach = later (later start second-Step) third-Step

third-busy : on_wire small_config duplex_env duplex_wires left third.world ≢ []
unfolding retired shut_at shut release_id end_message new_manager allocate write_message
    header_bytes
third-busy e = ground arith

Reach-IsLinked_example : IsLinked small_config duplex_env duplex_wires third
Reach-IsLinked_example =
    Reach-IsLinked small_config duplex_env duplex_wires small_config-IsConfig (omega arith) silent
      third (elim [ left ↦ refl | right ↦ refl ]) third-Reach

Reach-receives_example :
    (l : Link duplex_env) × Receipt small_config duplex_env duplex_wires left third l
Reach-receives_example =
    Reach-receives small_config duplex_env duplex_wires small_config-IsConfig (omega arith) silent
      third left (elim [ left ↦ refl | right ↦ refl ]) third-Reach third-busy

Reach-Settles_example : Settles small_config duplex_env duplex_wires third
Reach-Settles_example =
    Reach-Settles small_config duplex_env duplex_wires small_config-IsConfig (omega arith) silent
      third (elim [ left ↦ refl | right ↦ refl ]) third-Reach

Reach-lends_example :
    PoolReach 2 (pool small_config duplex_env (second.manager left))
    × PoolStep 2
        (pool small_config duplex_env (second.manager left))
        (pool small_config duplex_env (third.manager left))
    × ((id : ℕ)
        → id < 2
        → is_free id (pool small_config duplex_env (second.manager left))
          ≡ not (is_some ((second.manager left).request_channel id)))
Reach-lends_example =
    Reach-lends small_config duplex_env small_config-IsConfig (omega arith) duplex_wires silent
      second third (elim [ left ↦ refl | right ↦ refl ]) (later start second-Step) third-Step left

-- On the open channel the left end sends a request, which stands on the wire after its header.
abbrev request : Message
request = record {
  header = record { length = 15; protocol = 1 };
  body = 104 ∷ 105 ∷ 33 ∷ 3 ∷ 0 ∷ 0 ∷ 0 ∷ 7 ∷ 0 ∷ 0 ∷ 0 ∷ 1 ∷ 0 ∷ 0 ∷ 0 ∷ [];
}

request-wrapped : wrap_message uint32 1 1 greeting ≡ done request
unfolding resize header_bytes
request-wrapped = wrap_message-wrapped uint32 1 1 greeting (omega arith)

abbrev requested : Link duplex_env
requested =
    after left (record (at left second) { world = (write_message duplex (pos 0) request silent).1 })
      second

requested-Step : Step small_config duplex_env duplex_wires second requested
unfolding send_message write new_internal_request allocate new_channel new_manager write_message
    header_bytes
requested-Step =
    calls left _
      (sends (new_internal_request 0) greeting ok_status
        (record { header_fits = greeting-IsHeader; room = omega arith }) (rw request-wrapped refl))
      refl

request-unwrapped : unwrap_message uint32 request ≡ done (ok_status, some (1, greeting))
unfolding unwrap_message copy_from header_of_bytes
request-unwrapped = refl

request-on_wire :
    on_wire small_config duplex_env duplex_wires left requested.world ≡ frame request ++ []
unfolding allocate new_manager write_message header_bytes
request-on_wire = refl

requested-busy : on_wire small_config duplex_env duplex_wires left requested.world ≢ []
unfolding write_message header_bytes
requested-busy e = cc

-- The right end has a response channel for it, and nothing is left on the wire.
answered :
    (l : Link duplex_env) × Receipt small_config duplex_env duplex_wires left requested l
    × ((l.manager right).response_channel 1 ≡ some 0)
    × (on_wire small_config duplex_env duplex_wires left l.world ≡ [])
unfolding new_manager
answered =
    let (status, message, rest) =
      read_message-frame duplex (duplex_wires.outgoing left) request [] requested.world
        request-on_wire (record { length_fits = omega arith; protocol_fits = omega arith }) refl in
    let w = (read_message duplex (pos 1) requested.world).2 in
    let s : State duplex_env = record (first.manager right) { world = w } in
    let (s', run, at, heap, same) =
      forward_request-first small_config duplex_env 1 greeting s (omega arith) refl in
    (
      after right s' requested,
      forwards request w _ _ _ s' requested-busy (λ i. (status i, message i, w))
          (forward_message-accept small_config duplex_env requests 1 request greeting s
              small_config-IsConfig refl request-unwrapped
            ∙ run)
          refl,
      at,
      ap (on_wire small_config duplex_env duplex_wires left) same ∙ rest,
    )

Reach-claimed_example : IsOpen (answered.0.manager left) 1
Reach-claimed_example =
    Reach-claimed small_config duplex_env duplex_wires small_config-IsConfig (omega arith) silent
      answered.0 left 1 0 (elim [ left ↦ refl | right ↦ refl ])
      (later (later (later start second-Step) requested-Step) (receipt left answered.1)) answered.3
      answered.2
