-- ===== src/Connectors/Manager/Effect.antt =====
-- What a call of `forwardMessage` or `close` does to a manager, told apart by what it changes.
use servercc.Common.{ℕ, ◌<◌, ◌≡◌, subst, sym, false, some, none}
use servercc.Connectors.Env.{Env, ChannelConfig}
use servercc.Connectors.Channel.{Channel, responses}
use servercc.Connectors.Manager.{State}
use servercc.Connectors.Manager.Retire.{retired}
use servercc.Connectors.Manager.Invariant.{IsValid, retired-IsValid}
use servercc.Connectors.Manager.Opening.{opened, opened_response-IsValid}
use servercc.Connectors.Manager.Pushing.{rebuffered, rebuffered-IsValid}

module _ (config : ChannelConfig) (env : Env) where
  open config use {max_channels}

  -- The manager is as it was, or one channel of it has another buffer, or one open channel is closed
  -- and removed.
  pub data Change (s s' : State env) : Type 0 where
    unchanged : s' ≡ s → Change s s'
    buffered :
        (ref : ℕ) (c : Channel env.Buffer) (b : env.Buffer)
        → s.heap ref ≡ some c
        → s' ≡ rebuffered config env ref c b s
        → Change s s'
    ended :
        (ref : ℕ) (c : Channel env.Buffer)
        → s.heap ref ≡ some c
        → c.is_closed ≡ false
        → s' ≡ retired config env ref c s
        → Change s s'

  -- One of these, or there is a new response channel with a buffer of its own.
  pub data Effect (s s' : State env) : Type 0 where
    changed : Change s s' → Effect s s'
    accepted :
        (id : ℕ) (c : Channel env.Buffer) (b : env.Buffer)
        → id < max_channels
        → s.response_channel id ≡ none
        → (opened config env responses id s).heap s.next_ref ≡ some c
        → s' ≡ rebuffered config env s.next_ref c b (opened config env responses id s)
        → Effect s s'

  -- Each of these keeps a manager valid.
  pub Change-IsValid :
      (s s' : State env) → IsValid config env s → Change s s' → IsValid config env s'
  Change-IsValid s s' v (unchanged e) = subst (IsValid config env) (sym e) v
  Change-IsValid s s' v (buffered ref c b h e) =
      subst (IsValid config env) (sym e) (rebuffered-IsValid config env ref c b s v h)
  Change-IsValid s s' v (ended ref c h is_open e) =
      subst (IsValid config env) (sym e) (retired-IsValid config env ref c s v h is_open)

  pub Effect-IsValid :
      (s s' : State env) → IsValid config env s → Effect s s' → IsValid config env s'
  Effect-IsValid s s' v (changed change) = Change-IsValid s s' v change
  Effect-IsValid s s' v (accepted id c b lt free h e) = subst (IsValid config env) (sym e) (
      rebuffered-IsValid config env s.next_ref c b (opened config env responses id s)
        (opened_response-IsValid config env id s v lt free) h)
