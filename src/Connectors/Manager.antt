-- ===== src/Connectors/Manager.antt =====
-- servercc/connectors/include/internal_channel_manager.h: the channels of one connection. The
-- channels stand in a heap, since the manager and the requests of the user share them; a reference
-- is an index into it.
pub mod Retire
pub mod Invariant
pub mod Opening
pub mod Count
pub mod Effect
pub mod Closing
pub mod Pushing
pub mod Forwarding
pub mod Delivery
pub mod Routing
pub mod Unchecked
pub mod Arbitrary
pub mod Answering
use servercc.Common.{
  ℕ, zero, suc, ◌+◌, ◌-◌, ◌^◌, ℤ, Bool, true, false, not, List, [], ◌∷◌, Option, none, some,
  Outcome, done, undefined, blocked, exhausted, ◌>>=◌, ltb, ◌==◌, if◌then◌else◌, update, is_some,
}
use servercc.Types.Status.{
  Status, ok_status, error, is_ok, not_found, already_exists, invalid_argument,
}
use servercc.Types.Memory.{copy_from, uint32, word32_of_bytes}
use servercc.Types.Message.{Message, unwrap_message}
use servercc.Connectors.Env.{Env, ChannelConfig}
use servercc.Connectors.Channel
use servercc.Connectors.Channel.{Channel, Side, requests, responses}

-- The manager's fields, the heap of its channels and the world.
pub record State (env : Env) : Type 0 where
  pub write_fd : ℤ
  pub free_list : List ℕ
  pub free_list_semaphore : ℕ
  pub request_channel : ℕ → Option ℕ
  pub response_channel : ℕ → Option ℕ
  pub heap : ℕ → Option (Channel env.Buffer)
  pub next_ref : ℕ
  pub world : env.World

-- How deep `close` and the removals call one another.
abbrev pub call_depth : ℕ
call_depth = 3

-- 0, 1, … pushed in turn on a stack, whose top is the head.
unfoldable pub free_ids : ℕ → List ℕ
free_ids zero = []
free_ids (suc n) = n ∷ free_ids n

module _ (config : ChannelConfig) (env : Env) where
  open config use {max_channels}

  unfoldable pub new_manager : ℤ → env.World → State env
  unfolding free_ids
  new_manager write_fd w = record {
    write_fd = write_fd;
    free_list = free_ids max_channels;
    free_list_semaphore = max_channels;
    request_channel = λ id. none;
    response_channel = λ id. none;
    heap = λ ref. none;
    next_ref = 0;
    world = w;
  }

  -- An element of one of the arrays; past their end the access is undefined.
  unfoldable pub slot_at : (ℕ → Option ℕ) → ℕ → Outcome (Option ℕ)
  slot_at array id = if ltb id max_channels then done (array id) else undefined

  -- `std::make_shared<InternalChannel<…>>(id, writeFd, writeMutex, …)`
  unfoldable pub allocate : Side → ℕ → State env → ℕ × State env
  allocate side id s = (
    s.next_ref,
    record s {
      heap = update s.heap s.next_ref (some (Channel.new_channel config env side id s.write_fd));
      next_ref = suc s.next_ref;
    },
  )

  -- The channel at `ref` is closed but for its callback.
  unfoldable pub shut_at : ℕ → Channel env.Buffer → State env → State env
  shut_at ref c s =
      let (c', w) = Channel.shut config env c s.world in
      record s { heap = update s.heap ref (some c'); world = w }

  unfoldable pub release_id : ℕ → State env → State env
  release_id id s = record s {
    free_list = id ∷ s.free_list;
    free_list_semaphore = suc s.free_list_semaphore;
  }

  mutual
    unfolding slot_at

    -- `InternalChannel::close`
    pub close : ℕ → ℕ → State env → Outcome (State env)
    close zero ref s = exhausted
    close (suc fuel) ref s = elim (s.heap ref) [
      | none ↦ undefined
      | some c ↦ elim c.is_closed [
        | true ↦ done s
        | false ↦ elim c.side [
          | requests ↦ remove_request_channel fuel c.id (shut_at ref c s)
          | responses ↦ remove_response_channel fuel c.id (shut_at ref c s)
        ]
      ]
    ]

    pub remove_request_channel : ℕ → ℕ → State env → Outcome (State env)
    remove_request_channel zero id s = exhausted
    remove_request_channel (suc fuel) id s = slot_at s.request_channel id >>= elim [
      | none ↦ done s
      | some ref ↦ do
        s' ← close fuel ref (record s { request_channel = update s.request_channel id none })
        done (release_id id s')
    ]

    pub remove_response_channel : ℕ → ℕ → State env → Outcome (State env)
    remove_response_channel zero id s = exhausted
    remove_response_channel (suc fuel) id s = slot_at s.response_channel id >>= elim [
      | none ↦ done s
      | some ref ↦
          close fuel ref (record s { response_channel = update s.response_channel id none })
    ]

  -- Waits on the semaphore where the free list is empty.
  pub create_request_channel : State env → Outcome (Status × Option ℕ × State env)
  unfolding allocate slot_at
  create_request_channel s = elim s.free_list_semaphore [
    | zero ↦ blocked
    | suc permits ↦ elim s.free_list [
      | [] ↦ undefined
      | id ∷ rest ↦ do
        let popped = record s { free_list = rest; free_list_semaphore = permits }
        let (ref, s') = allocate requests id popped
        old ← slot_at s'.request_channel id
        done (
          ok_status,
          some ref,
          record s' { request_channel = update s'.request_channel id (some ref) },
        )
    ]
  ]

  pub create_response_channel : ℕ → State env → Outcome (Status × State env)
  unfolding allocate slot_at
  create_response_channel id s = slot_at s.response_channel id >>= elim [
    | some ref ↦ done (error already_exists "Channel already exists", s)
    | none ↦
        let (ref, s') = allocate responses id s in
        done (ok_status, record s' { response_channel = update s'.response_channel id (some ref) })
  ]

  -- `channel->push(message)` on the channel at `ref`
  unfoldable pub push_at : ℕ → Message → State env → Outcome (Status × State env)
  push_at ref message s = elim (s.heap ref) [
    | none ↦ undefined
    | some c ↦
        let (status, c') = Channel.push config env c message in
        done (status, record s { heap = update s.heap ref (some c') })
  ]

  -- What `forwardMessage` returns: a status, a protocol, and a channel if there is one.
  abbrev pub Forwarded : Type 0
  Forwarded = Status × ℕ × Option ℕ × State env

  -- The identifier in the body of an end message.
  pub end_id : Message → Outcome ℕ
  end_id message = do bytes ← copy_from message.body 0 4; done (word32_of_bytes bytes)

  pub forward_response_end : Message → State env → Outcome Forwarded
  unfolding slot_at
  forward_response_end message s = do
    id ← end_id message
    channel ← slot_at s.request_channel id
    s' ← elim channel [ none ↦ done s | some ref ↦ remove_request_channel call_depth id s ]
    done (ok_status, message.header.protocol, none, s')

  pub forward_request_end : Message → State env → Outcome Forwarded
  unfolding slot_at
  forward_request_end message s = do
    id ← end_id message
    channel ← slot_at s.response_channel id
    s' ← elim channel [ none ↦ done s | some ref ↦ remove_response_channel call_depth id s ]
    done (ok_status, message.header.protocol, none, s')

  pub forward_response : ℕ → Message → State env → Outcome Forwarded
  unfolding slot_at
  forward_response id unwrapped s = slot_at s.request_channel id >>= elim [
    | none ↦ done (error not_found "Channel does not exist", unwrapped.header.protocol, none, s)
    | some ref ↦ do
      (status, s') ← push_at ref unwrapped s
      done (status, unwrapped.header.protocol, none, s')
  ]

  -- The push to the channel of `responseChannel[id]`, which is also what is returned.
  pub push_request : ℕ → Message → State env → Outcome Forwarded
  unfolding slot_at
  push_request id unwrapped s = slot_at s.response_channel id >>= elim [
    | none ↦ undefined
    | some ref ↦ do
      (status, s') ← push_at ref unwrapped s
      done (status, unwrapped.header.protocol, some ref, s')
  ]

  pub forward_request : ℕ → Message → State env → Outcome Forwarded
  unfolding slot_at
  forward_request id unwrapped s = slot_at s.response_channel id >>= elim [
    | some ref ↦ push_request id unwrapped s
    | none ↦ do
      (status, s') ← create_response_channel id s
      if not (is_ok status)
          then done (status, unwrapped.header.protocol, none, s')
          else push_request id unwrapped s'
  ]

  pub forward_unwrapped : ℕ → ℕ → Message → State env → Outcome Forwarded
  forward_unwrapped protocol id unwrapped s =
      if protocol == config.response_protocol
      then forward_response id unwrapped s
      else if protocol == config.request_protocol
      then forward_request id unwrapped s
      else done (error invalid_argument "Invalid protocol", unwrapped.header.protocol, none, s)

  pub forward_wrapped : Message → State env → Outcome Forwarded
  forward_wrapped message s = do
    (status, unwrapped) ← unwrap_message uint32 message
    if not (is_ok status) then done (status, 2 ^ 32 - 1, none, s) else elim unwrapped [
      | none ↦ undefined
      | some (id, inner) ↦ forward_unwrapped message.header.protocol id inner s
    ]

  pub forward_message : Message → State env → Outcome Forwarded
  forward_message message s =
      if message.header.protocol == config.response_end_protocol
      then forward_response_end message s
      else if message.header.protocol == config.request_end_protocol
      then forward_request_end message s
      else forward_wrapped message s

  -- `~InternalChannelManager`, from channel `max_channels - left` on.
  destroy_from : ℕ → State env → Outcome (State env)
  destroy_from zero s = done s
  destroy_from (suc left) s = do
    s' ← remove_response_channel call_depth (max_channels - suc left) s
    s'' ← remove_request_channel call_depth (max_channels - suc left) s'
    destroy_from left s''

  pub destroy_manager : State env → Outcome (State env)
  unfolding destroy_from
  destroy_manager s = destroy_from max_channels s
