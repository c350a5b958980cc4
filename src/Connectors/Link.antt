-- ===== src/Connectors/Link.antt =====
-- servercc/connectors/include/internal_channel_manager.h and internal_request.h, twice: the
-- managers at the two ends of one connection, in any order of their calls. A step is a call of the
-- user at one end, or one message that the reader thread of connector.cc takes from the connection
-- and forwards.
pub mod Claims
pub mod Traffic
pub mod Endpoint
pub mod Changes
pub mod Calls
pub mod Safety
pub mod Quiet
pub mod Lending
pub mod Tidy
pub mod Passage
use servercc.Common.{
  ℕ, ◌≡◌, ◌≢◌, ℤ, Bool, false, List, [], Option, none, some, Outcome, done, is_negative,
}
use servercc.Types.Status.{Status, ok_status}
use servercc.Types.Message.{Message}
use servercc.Types.Posix.{Posix, ByteStream}
use servercc.Types.Stream.{read_message}
use servercc.Connectors.Env.{Env, ChannelConfig}
use servercc.Connectors.Channel.{Channel}
use servercc.Connectors.Manager.{State, new_manager, create_request_channel, forward_message}
use servercc.Connectors.Manager.Delivery.{IsWrappable}
use servercc.Connectors.InternalRequest.{
  InternalRequest, send_message, receive_message, receive_message_for, terminate,
}

pub data End : Type 0 where
  left right : End

abbrev pub opposite : End → End
opposite left = right
opposite right = left

-- A value changed at one end.
abbrev pub place {ℓ} : {A : Type ℓ} → End → A → (End → A) → End → A
place left x f left = x
place left x f right = f right
place right x f left = f left
place right x f right = x

-- A connection: a byte stream from each end to the other. A call on one of its descriptors leaves
-- the stream of the other direction alone.
pub record Wires (posix : Posix) : Type 0 where
  pub fd : End → ℤ
  pub fd_valid : (e : End) → is_negative (fd e) ≡ false
  pub outgoing : (e : End) → ByteStream posix (fd e) (fd (opposite e))
  pub send_leaves :
      (e : End) (bs : List ℕ) (w : posix.World)
      → (outgoing (opposite e)).pending (posix.send (fd e) bs w).1
        ≡ (outgoing (opposite e)).pending w
  pub fsync_leaves :
      (e : End) (w : posix.World)
      → (outgoing (opposite e)).pending (posix.fsync (fd e) w) ≡ (outgoing (opposite e)).pending w
  pub recv_leaves :
      (e : End) (n : ℕ) (w : posix.World)
      → (outgoing e).pending (posix.recv (fd e) n w).2 ≡ (outgoing e).pending w

-- The two managers, and the world in which both stand.
pub record Link (env : Env) : Type 0 where
  pub manager : End → State env
  pub world : env.World

-- The manager at an end in the common world, and what a call of it leaves.
abbrev pub at : {env : Env} → End → Link env → State env
at e l = record (l.manager e) { world = l.world }

abbrev pub after : {env : Env} → End → State env → Link env → Link env
after e s l = record { manager = place e s l.manager; world = s.world }

module _ (config : ChannelConfig) (env : Env) where
  -- What the user of a manager does with it: a new request channel, and the operations of the
  -- requests on its channels. A call that blocks is no step.
  pub data Call (s s' : State env) : Type 0 where
    creates :
        (status : Status) (channel : Option ℕ)
        → create_request_channel config env s ≡ done (status, channel, s')
        → Call s s'
    sends :
        (r : InternalRequest) (m : Message) (status : Status)
        → IsWrappable m
        → send_message config env m r s ≡ done (status, s')
        → Call s s'
    receives :
        (r : InternalRequest) (status : Status) (m : Option Message)
        → receive_message config env r s ≡ done (status, m, s')
        → Call s s'
    receives_for :
        (expired : Bool) (r : InternalRequest) (status : Status) (m : Option Message)
        → receive_message_for config env expired r s ≡ done (status, m, s')
        → Call s s'
    terminates : (r : InternalRequest) → terminate config env r s ≡ done s' → Call s s'

  module _ (wires : Wires env.posix) where
    -- The message that was sent first from end `e`, and is not yet read, reaches the other end. The
    -- read of an idle connection blocks, and is no step.
    pub data Receipt (e : End) (l l' : Link env) : Type 0 where
      forwards :
          (m : Message) (w : env.World) (status : Status) (protocol : ℕ) (channel : Option ℕ)
          (s : State env)
          → (wires.outgoing e).pending l.world ≢ []
          → read_message env.posix (wires.fd (opposite e)) l.world ≡ (ok_status, some m, w)
          → forward_message config env m (record (l.manager (opposite e)) { world = w })
            ≡ done (status, protocol, channel, s)
          → l' ≡ after (opposite e) s l
          → Receipt e l l'

    pub data Step (l l' : Link env) : Type 0 where
      calls : (e : End) (s : State env) → Call (at e l) s → l' ≡ after e s l → Step l l'
      receipt : (e : End) → Receipt e l l' → Step l l'

    -- Both ends are new, and nothing is on the way.
    abbrev pub connected : env.World → Link env
    connected w = record { manager = λ e. new_manager config env (wires.fd e) w; world = w }

    pub data Reach (w : env.World) : Link env → Type 0 where
      start : Reach w (connected w)
      later : {l l' : Link env} → Reach w l → Step l l' → Reach w l'
