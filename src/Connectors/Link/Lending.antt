-- ===== src/Connectors/Link/Lending.antt =====
-- The managers of a connection lend identifiers as the pool promises.
use servercc.Common.{
  inl, inr, ℕ, ◌<◌, ◌^◌, ◌≤◌, ◌≡◌, refl, sym, ap, subst, false, not, List, ◌∷◌, some, arith,
  is_some,
}
use servercc.Connectors.Env.{Env, ChannelConfig}
use servercc.Connectors.Channel.{Channel, Side, requests, responses, shut}
use servercc.Connectors.Manager.{State, new_manager, allocate, shut_at, release_id}
use servercc.Connectors.Manager.Retire.{slot, retired}
use servercc.Connectors.Manager.Invariant.{IsValid}
use servercc.Connectors.Manager.Opening.{opened, popped}
use servercc.Connectors.Manager.Effect.{
  Change, Effect, changed, unchanged, buffered, accepted, ended,
}
use servercc.Connectors.Manager.Delivery.{IsConfig}
use servercc.Connectors.Pool.{
  Pool, pool_of, is_free, add, PoolStep, lends, returns, keeps, PoolReach, full, later,
}
use servercc.Connectors.Link.{
  End, opposite, place, Wires, Link, at, after, Call, creates, sends, receives, receives_for,
  terminates, Step, calls, receipt, Reach, start,
}
use servercc.Connectors.Link
use servercc.Connectors.Link.Calls.{send_message-sent}
use servercc.Connectors.Link.Changes.{
  create-opened, receive_message-Change, receive_message_for-Change, terminate-Change,
}
use servercc.Connectors.Link.Safety.{
  both_ends, place_self, place-opposite, IsLinked, IsIdle, Receipt-Effect, Reach-IsLinked,
}

module _ (config : ChannelConfig) (env : Env) where
  open config use {max_channels}

  -- The pool that a manager keeps.
  abbrev pub pool : State env → Pool
  pool s = pool_of s.free_list

  retired-PoolStep :
      (ref : ℕ) (c : Channel env.Buffer) (s : State env)
      → IsValid config env s
      → s.heap ref ≡ some c
      → c.is_closed ≡ false
      → (side : Side) → c.side ≡ side
      → PoolStep max_channels (pool s) (pool (retired config env ref c s))
  unfolding retired shut_at shut release_id is_free add
  retired-PoolStep ref c s v h is_open requests e =
      returns c.id (v.bounded c.side c.id ref at)
        (ground (arith, e, at, v.free_or_used c.id (v.bounded c.side c.id ref at)))
        (ap pool_of (ground (arith, e)))
    where
      at : slot s c.side c.id ≡ some ref
      at = v.open_registered ref c h is_open
  retired-PoolStep ref c s v h is_open responses e = keeps (ap pool_of (ground (arith, e)))

  Change-PoolStep :
      (s s' : State env)
      → IsValid config env s
      → Change config env s s'
      → PoolStep max_channels (pool s) (pool s')
  Change-PoolStep s s' v (unchanged q) = keeps (ap pool q)
  Change-PoolStep s s' v (buffered ref c b h q) = keeps (ap pool q)
  Change-PoolStep s s' v (ended ref c h is_open q) =
      subst (λ t. PoolStep max_channels (pool s) (pool t)) (sym q)
        (retired-PoolStep ref c s v h is_open c.side refl)

  Effect-PoolStep :
      (s s' : State env)
      → IsValid config env s
      → Effect config env s s'
      → PoolStep max_channels (pool s) (pool s')
  unfolding allocate
  Effect-PoolStep s s' v (changed change) = Change-PoolStep s s' v change
  Effect-PoolStep s s' v (accepted id c b lt free h q) = keeps (ap pool q)

  opened-PoolStep :
      (id permits : ℕ) (rest : List ℕ) (s : State env)
      → IsValid config env s
      → s.free_list ≡ id ∷ rest
      → PoolStep max_channels
          (pool s)
          (pool (opened config env requests id (popped config env rest permits s)))
  unfolding allocate add is_free
  opened-PoolStep id permits rest s v ef =
      lends id (v.in_range id (ground (arith, ef))) (ap pool_of ef)
        (ground (arith, ef, v.distinct_ids))

  module _ (d : IsConfig config) (small : max_channels ≤ 2 ^ 32) (wires : Wires env.posix) where
    Call-PoolStep :
        (s s' : State env)
        → IsValid config env s
        → Call config env s s'
        → PoolStep max_channels (pool s) (pool s')
    Call-PoolStep s s' v (creates st channel run) =
        let (id, permits, rest, es, ef, q) = create-opened config env st channel s s' v run in
        subst (λ t. PoolStep max_channels (pool s) (pool t)) (sym q)
          (opened-PoolStep id permits rest s v ef)
    Call-PoolStep s s' v (sends r m st ok run) =
        elim (send_message-sent config env d small wires r m st s s' v ok run) [
          | inl same ↦ keeps (ap pool same)
          | inr (c, sent, h, is_open, q, acceptable, protocol, unwrapped) ↦ keeps (ap pool q)
        ]
    Call-PoolStep s s' v (receives r st m run) =
        Change-PoolStep s s' v (receive_message-Change config env r st m s s' run)
    Call-PoolStep s s' v (receives_for expired r st m run) =
        Change-PoolStep s s' v (receive_message_for-Change config env expired r st m s s' run)
    Call-PoolStep s s' v (terminates r run) =
        Change-PoolStep s s' v (terminate-Change config env r s s' v run)

    -- A step of one manager is a step of its pool, and the other pool is kept.
    after-PoolStep :
        (e : End) (s : State env) (l : Link env)
        → PoolStep max_channels (pool (l.manager e)) (pool s)
        → (e' : End) → PoolStep max_channels (pool (l.manager e')) (pool ((after e s l).manager e'))
    after-PoolStep e s l moved =
        both_ends
          (λ e'. PoolStep max_channels (pool (l.manager e')) (pool ((after e s l).manager e'))) e
          (subst (λ t. PoolStep max_channels (pool (l.manager e)) (pool t))
            (sym (place_self e s l.manager)) moved)
          (keeps (ap pool (place-opposite e s l.manager)))

    Step-PoolStep :
        (l l' : Link env)
        → IsLinked config env wires l
        → Step config env wires l l'
        → (e : End) → PoolStep max_channels (pool (l.manager e)) (pool (l'.manager e))
    Step-PoolStep l l' linked (calls e s call q) e' =
        subst (λ t. PoolStep max_channels (pool (l.manager e')) (pool (t.manager e'))) (sym q)
          (after-PoolStep e s l (Call-PoolStep (at e l) s (linked.ends e).valid call) e')
    Step-PoolStep l l' linked (receipt e received) e' =
        let (h, s, effect, run, q) =
          Receipt-Effect config env wires d small e l l' linked received in
        subst (λ t. PoolStep max_channels (pool (l.manager e')) (pool (t.manager e'))) (sym q)
          (after-PoolStep (opposite e) s l
            (Effect-PoolStep _ s (h.remains.ends (opposite e)).valid effect) e')

    Reach-PoolReach :
        (w : env.World) (l : Link env)
        → IsIdle config env wires w
        → Reach config env wires w l
        → (e : End) → PoolReach max_channels (pool (l.manager e))
    unfolding new_manager
    Reach-PoolReach w l idle start e = full
    Reach-PoolReach w l idle (Link.later reach step) e =
        later (Reach-PoolReach w _ idle reach e)
          (Step-PoolStep _ l (Reach-IsLinked config env wires d small w _ idle reach) step e)

    -- Under a configuration whose protocols are words and told apart, with at most 2^32 channels,
    -- two new managers stand at the ends of an idle connection, their users make calls, and
    -- messages are taken from the connection and forwarded, in any order. Each step of a state
    -- that is reached is, at both ends, a step of the pool of free identifiers, a set: one is
    -- lent, or one returns, or none does; the pool is one that the full pool leads to, and an
    -- identifier is in it exactly where it has no request channel.
    pub Reach-lends :
        (w : env.World) (l l' : Link env)
        → IsIdle config env wires w
        → Reach config env wires w l
        → Step config env wires l l'
        → (e : End)
        → PoolReach max_channels (pool (l.manager e))
          × PoolStep max_channels (pool (l.manager e)) (pool (l'.manager e))
          × ((id : ℕ)
              → id < max_channels
              → is_free id (pool (l.manager e)) ≡ not (is_some ((l.manager e).request_channel id)))
    unfolding is_free
    Reach-lends w l l' idle reach step e =
        let linked = Reach-IsLinked config env wires d small w l idle reach in
        (
          Reach-PoolReach w l idle reach e,
          Step-PoolStep l l' linked step e,
          λ id lt. ground (arith, (linked.ends e).valid.free_or_used id lt),
        )
