-- ===== src/Connectors/InternalRequest.antt =====
-- servercc/connectors/include/internal_request.h: a request between two servers, over a channel.
use servercc.Common.{
  ℕ, ◌≡◌, Bool, Option, none, some, Outcome, done, undefined, ◌>>=◌, update, arith,
}
use servercc.Types.Status.{Status, error, failed_precondition}
use servercc.Types.Message.{Message}
use servercc.Types.Posix.{SockAddr}
use servercc.Connectors.Env.{Env, ChannelConfig}
use servercc.Connectors.Channel
use servercc.Connectors.Channel.{Channel}
use servercc.Connectors.Manager.{State, close, call_depth}
use servercc.Connectors.Manager.Invariant.{IsValid}
use servercc.Connectors.Manager.Closing.{close-Closed}

-- The channel is a reference into the heap of its manager.
pub record InternalRequest : Type 0 where
  pub protocol : ℕ
  pub addr : SockAddr
  pub channel : ℕ

-- The constructor of a request that this server makes.
unfoldable pub new_internal_request : ℕ → InternalRequest
new_internal_request channel = record {
  protocol = 0;
  addr = record { address = 0; port = 0 };
  channel = channel;
}

module _ (config : ChannelConfig) (env : Env) where
  -- `channel->read()`, whose buffer it changes.
  unfoldable pub receive_message :
      InternalRequest → State env → Outcome (Status × Option Message × State env)
  receive_message r s = elim (s.heap r.channel) [
    | none ↦ undefined
    | some c ↦ do
      (status, message, c') ← Channel.read config env c
      done (status, message, record s { heap = update s.heap r.channel (some c') })
  ]

  unfoldable pub receive_message_for :
      Bool → InternalRequest → State env → Outcome (Status × Option Message × State env)
  receive_message_for expired r s = elim (s.heap r.channel) [
    | none ↦ undefined
    | some c ↦ do
      (status, message, c') ← Channel.read_for config env expired c
      done (status, message, record s { heap = update s.heap r.channel (some c') })
  ]

  unfoldable pub send_message : Message → InternalRequest → State env → Outcome (Status × State env)
  send_message m r s = elim (s.heap r.channel) [
    | none ↦ undefined
    | some c ↦ do
      (status, w) ← Channel.write config env c m s.world
      done (status, record s { world = w })
  ]

  -- Also the destructor.
  unfoldable pub terminate : InternalRequest → State env → Outcome (State env)
  terminate r s = close config env call_depth r.channel s

  -- Terminating a request whose channel is one of a valid manager ends, and keeps the manager
  -- valid; the destructor after it does nothing, and nothing can be sent any more.
  pub terminate-ends :
      (r : InternalRequest) (c : Channel env.Buffer) (m : Message) (s : State env)
      → IsValid config env s
      → s.heap r.channel ≡ some c
      → (s' : State env) × (terminate r s ≡ done s')
        × IsValid config env s'
        × (terminate r s' ≡ done s')
        × (send_message m r s' ≡ done (error failed_precondition "Channel is closed", s'))
  unfolding terminate send_message Channel.write
  terminate-ends r c m s v h =
      let (s', run, after) = close-Closed config env r.channel c s v h in
      let (c', held, shut) = after.closed in (s', run, after.valid, after.idempotent, ground arith)
