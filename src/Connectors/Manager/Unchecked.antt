-- ===== src/Connectors/Manager/Unchecked.antt =====
-- What `forwardMessage` does not check: the identifier that a message names, and whether the channel
-- that it returns is new.
use servercc.Common.{
  ℕ, ◌≤◌, ◌<◌, ◌≡◌, ◌⊎◌, inl, inr, ◌∙◌, none, some, done, undefined, arith, length, take,
}
use servercc.Types.Status.{Status, ok_status}
use servercc.Types.Memory.{uint32, word32_of_bytes}
use servercc.Types.Memory.Bounds.{copy_from-undefined}
use servercc.Types.Message.{Message, unwrap_message}
use servercc.Connectors.Env.{Env, ChannelConfig}
use servercc.Connectors.Channel.{Side, requests, responses, write_protocol, write_end_protocol}
use servercc.Connectors.Manager.{
  State, slot_at, end_id, forward_response, forward_request, forward_response_end,
  forward_request_end, forward_message,
}
use servercc.Connectors.Manager.Invariant.{IsValid}
use servercc.Connectors.Manager.Opening.{create_response_channel-IsValid, slot-opened_self, opened}
use servercc.Connectors.Manager.Forwarding.{end_id-done, forward_request-old, forward_request-new}
use servercc.Connectors.Manager.Pushing.{push_request-channel}
use servercc.Connectors.Manager.Delivery.{IsConfig, accept, forward_message-accept}

module _ (config : ChannelConfig) (env : Env) where
  open config use {max_channels}

  accept-undefined :
      (side : Side) (id : ℕ) (m : Message) (s : State env)
      → max_channels ≤ id
      → accept config env side id m s ≡ undefined
  unfolding forward_request forward_response slot_at
  accept-undefined requests id m s h = ground arith
  accept-undefined responses id m s h = ground arith

  -- A message of a side's protocol that unwraps to a channel identifier not below the number of
  -- channels is an access out of bounds, whatever the manager holds.
  pub forward_message-undefined :
      (side : Side) (id : ℕ) (w m : Message) (s : State env)
      → IsConfig config
      → w.header.protocol ≡ write_protocol config side
      → unwrap_message uint32 w ≡ done (ok_status, some (id, m))
      → max_channels ≤ id
      → forward_message config env w s ≡ undefined
  forward_message-undefined side id w m s d e u h =
      forward_message-accept config env side id w m s d e u ∙ accept-undefined side id m s h

  pub end_id-undefined : (m : Message) → length m.body < 4 → end_id config env m ≡ undefined
  unfolding end_id
  end_id-undefined m h = rw (copy_from-undefined m.body 0 4 (omega arith))

  -- An end message whose body has fewer than four bytes, or names an identifier not below the
  -- number of channels, is an access out of bounds, whatever the manager holds.
  pub forward_end-undefined :
      (side : Side) (m : Message) (s : State env)
      → IsConfig config
      → m.header.protocol ≡ write_end_protocol config side
      → (length m.body < 4)
        ⊎ ((4 ≤ length m.body) × (max_channels ≤ word32_of_bytes (take 4 m.body)))
      → forward_message config env m s ≡ undefined
  unfolding forward_message forward_request_end forward_response_end slot_at
  forward_end-undefined requests m s d e (inl short) =
      ground (arith, d.ends_differ, end_id-undefined m short)
  forward_end-undefined responses m s d e (inl short) = ground (arith, end_id-undefined m short)
  forward_end-undefined requests m s d e (inr (long, h)) =
      ground (arith, d.ends_differ, end_id-done config env m long)
  forward_end-undefined responses m s d e (inr (long, h)) =
      ground (arith, end_id-done config env m long)

  -- A request message for an identifier within the arrays of a valid manager comes back with the
  -- channel of that identifier, be that channel new or not.
  pub forward_request-channel :
      (id : ℕ) (m : Message) (s : State env)
      → IsValid config env s
      → id < max_channels
      → (status : Status) × (ref : ℕ) × (s' : State env) × (forward_request config env id m s
          ≡ done (status, m.header.protocol, some ref, s'))
        × (s'.response_channel id ≡ some ref)
        × ((s.response_channel id ≡ none) ⊎ (s.response_channel id ≡ some ref))
  forward_request-channel id m s v lt =
      elim (create_response_channel-IsValid config env id s v lt) [
        | inl (ref, e, run) ↦
            let (st, c, b, held, pushed) = push_request-channel config env id ref m s v lt e in
            (st, ref, _, forward_request-old config env id ref m s lt e ∙ pushed, e, inr e)
        | inr (e, run, v1) ↦
            let (st, c, b, held, pushed) =
              push_request-channel config env id s.next_ref m (opened config env responses id s) v1
                lt (slot-opened_self config env responses id s) in
            (
              st,
              s.next_ref,
              _,
              forward_request-new config env id m s _ lt e run ∙ pushed,
              slot-opened_self config env responses id s,
              inl e,
            )
      ]
