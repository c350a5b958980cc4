-- ===== src/Connectors/Manager/Pushing.antt =====
-- Pushing a message on a channel keeps the manager valid.
use servercc.Common.{
  ℕ, ◌<◌, ◌≡◌, inl, inr, refl, sym, ◌∙◌, some, done, arith, ◌==◌, update, Bool-cases, ==_iff,
}
use servercc.Types.Status.{Status}
use servercc.Types.Memory.{uint32}
use servercc.Types.Message.{Message}
use servercc.Connectors.Env.{Env, ChannelConfig}
use servercc.Connectors.Channel.{Channel, Side, requests, responses, push}
use servercc.Connectors.Manager.{State, slot_at, push_at, push_request}
use servercc.Connectors.Manager.Retire.{slot}
use servercc.Connectors.Manager.Invariant.{IsValid, Registered}

module _ (config : ChannelConfig) (env : Env) where
  open config use {max_channels}

  -- The channel at `ref` with another buffer.
  abbrev pub rebuffered : ℕ → Channel env.Buffer → env.Buffer → State env → State env
  rebuffered ref c b s = record s {
    heap = update s.heap ref (some (record c { message_buffer = b }));
  }

  slot-rebuffered :
      (side : Side) (id ref : ℕ) (c : Channel env.Buffer) (b : env.Buffer) (s : State env)
      → slot (rebuffered ref c b s) side id ≡ slot s side id
  slot-rebuffered requests id ref c b s = refl
  slot-rebuffered responses id ref c b s = refl

  rebuffered-Registered :
      (ref : ℕ) (c : Channel env.Buffer) (b : env.Buffer) (s : State env) (side : Side) (id r : ℕ)
      → s.heap ref ≡ some c
      → Registered s side id r
      → Registered (rebuffered ref c b s) side id r
  rebuffered-Registered ref c b s side id r h (c', held, of_side, of_id, is_open) =
      elim (Bool-cases (ref == r)) [
        | inl e ↦ (
          record c { message_buffer = b },
          rw e,
          ground (arith, (==_iff ref r).0 e),
          ground (arith, (==_iff ref r).0 e),
          ground (arith, (==_iff ref r).0 e),
        )
        | inr e ↦ (c', rw e held, of_side, of_id, is_open)
      ]

  pub rebuffered-IsValid :
      (ref : ℕ) (c : Channel env.Buffer) (b : env.Buffer) (s : State env)
      → IsValid config env s
      → s.heap ref ≡ some c
      → IsValid config env (rebuffered ref c b s)
  rebuffered-IsValid ref c b s v h = record {
    in_range = v.in_range;
    distinct_ids = v.distinct_ids;
    counted = v.counted;
    free_or_used = v.free_or_used;
    bounded = λ side id r k. v.bounded side id r (sym (slot-rebuffered side id ref c b s) ∙ k);
    registered = λ side id r k.
        rebuffered-Registered ref c b s side id r h
          (v.registered side id r (sym (slot-rebuffered side id ref c b s) ∙ k));
    open_registered = λ r c' k e.
        slot-rebuffered c'.side c'.id ref c b s
        ∙ ground (arith, v.open_registered r c', v.open_registered ref c);
    allocated = λ r c' k. ground (arith, v.allocated r c', v.allocated ref c h);
  }

  push-rebuffers :
      (c : Channel env.Buffer) (m : Message)
      → (b : env.Buffer) × ((push config env c m).1 ≡ record c { message_buffer = b })
  unfolding push
  push-rebuffers c m = elim (Bool-cases c.is_closed) [
    | inl e ↦ (c.message_buffer, ground arith)
    | inr e ↦ ((env.push m c.message_buffer).1, ground arith)
  ]

  push_at-rebuffered :
      (ref : ℕ) (c : Channel env.Buffer) (m : Message) (s : State env)
      → s.heap ref ≡ some c
      → (st : Status) × (b : env.Buffer) × (push_at config env ref m s
          ≡ done (st, rebuffered ref c b s))
  unfolding push_at
  push_at-rebuffered ref c m s h =
      let (b, e) = push-rebuffers c m in ((push config env c m).0, b, ground (arith, e))

  -- A call on the channel that stands at `id` of a side changes no more than its buffer.
  pub push_slot-rebuffered :
      (side : Side) (id ref : ℕ) (m : Message) (s : State env)
      → IsValid config env s
      → slot s side id ≡ some ref
      → (st : Status) × (c : Channel env.Buffer) × (b : env.Buffer) × (s.heap ref ≡ some c)
        × (push_at config env ref m s ≡ done (st, rebuffered ref c b s))
  push_slot-rebuffered side id ref m s v at =
      let (c, held, of_side, of_id, is_open) = v.registered side id ref at in
      let (st, b, run) = push_at-rebuffered ref c m s held in (st, c, b, held, run)

  -- The push to the registered response channel, which comes back beside the status.
  pub push_request-channel :
      (id ref : ℕ) (m : Message) (s : State env)
      → IsValid config env s
      → id < max_channels
      → s.response_channel id ≡ some ref
      → (st : Status) × (c : Channel env.Buffer) × (b : env.Buffer) × (s.heap ref ≡ some c)
        × (push_request config env id m s
            ≡ done (st, m.header.protocol, some ref, rebuffered ref c b s))
  unfolding push_request slot_at
  push_request-channel id ref m s v lt e =
      let (st, c, b, held, run) = push_slot-rebuffered responses id ref m s v e in
      (st, c, b, held, ground (arith, run))
