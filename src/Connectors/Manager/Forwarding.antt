-- ===== src/Connectors/Manager/Forwarding.antt =====
-- `forwardMessage` keeps the manager valid, whatever the message.
use servercc.Common.{
  ℕ, ◌-◌, ◌^◌, ◌≤◌, ◌<◌, ◌≡◌, refl, ◌∙◌, ◌⊎◌, inl, inr, length, take, Option, none, some, Outcome,
  done, arith, ◌==◌, Bool-cases, ==_iff, Option-cases,
}
use servercc.Types.Status.{Status, ok_status, error, not_found, invalid_argument}
use servercc.Types.Memory.{uint32, word32_of_bytes}
use servercc.Types.Memory.Bounds.{copy_from-done}
use servercc.Types.Message.{Message, unwrap_message}
use servercc.Types.Message.RoundTrip.{IsFramed, unwrap_message-total}
use servercc.Connectors.Env.{Env, ChannelConfig}
use servercc.Connectors.Channel.{Side, requests, responses}
use servercc.Connectors.Manager.{
  State, Forwarded, slot_at, end_id, create_response_channel, forward_response_end,
  forward_request_end, forward_response, push_request, forward_request, forward_unwrapped,
  forward_wrapped, forward_message,
}
use servercc.Connectors.Manager.Invariant.{IsValid}
use servercc.Connectors.Manager.Opening.{opened, create_response_channel-IsValid, slot-opened_self}
use servercc.Connectors.Manager.Closing.{Removed, remove_from-Removed}
use servercc.Connectors.Manager.Pushing.{push_slot-rebuffered, push_request-channel}
use servercc.Connectors.Manager.Effect.{
  Effect, changed, unchanged, buffered, accepted, Effect-IsValid,
}

module _ (config : ChannelConfig) (env : Env) where
  open config use {max_channels}

  -- The call returns, its effect on the manager is one of four, and the manager is valid after it.
  abbrev pub Handled : State env → Outcome (Forwarded config env) → Type 0
  Handled s out =
      (status : Status) × (protocol : ℕ) × (channel : Option ℕ) × (s' : State env) × (out
        ≡ done (status, protocol, channel, s'))
      × Effect config env s s'
      × IsValid config env s'

  handled :
      (status : Status) (protocol : ℕ) (channel : Option ℕ) (s s' : State env)
      (out : Outcome (Forwarded config env))
      → IsValid config env s
      → out ≡ done (status, protocol, channel, s')
      → Effect config env s s'
      → Handled s out
  handled status protocol channel s s' out v run effect =
      (status, protocol, channel, s', run, effect, Effect-IsValid config env s s' v effect)

  forward_response-Handled :
      (id : ℕ) (m : Message) (s : State env)
      → IsValid config env s
      → id < max_channels
      → Handled s (forward_response config env id m s)
  unfolding forward_response slot_at
  forward_response-Handled id m s v lt = elim (Option-cases (s.request_channel id)) [
    | inl e ↦
        handled (error not_found "Channel does not exist") m.header.protocol none s s _ v
          (ground arith) (changed (unchanged refl))
    | inr (ref, e) ↦
        let (st, c, b, held, run) = push_slot-rebuffered config env requests id ref m s v e in
        handled st m.header.protocol none s _ _ v (ground (arith, run))
          (changed (buffered ref c b held refl))
  ]

  pub forward_request-old :
      (id ref : ℕ) (m : Message) (s : State env)
      → id < max_channels
      → s.response_channel id ≡ some ref
      → forward_request config env id m s ≡ push_request config env id m s
  unfolding forward_request slot_at
  forward_request-old id ref m s lt e = ground arith

  pub forward_request-new :
      (id : ℕ) (m : Message) (s s' : State env)
      → id < max_channels
      → s.response_channel id ≡ none
      → create_response_channel config env id s ≡ done (ok_status, s')
      → forward_request config env id m s ≡ push_request config env id m s'
  unfolding forward_request slot_at
  forward_request-new id m s s' lt e run = ground arith

  forward_request-Handled :
      (id : ℕ) (m : Message) (s : State env)
      → IsValid config env s
      → id < max_channels
      → Handled s (forward_request config env id m s)
  forward_request-Handled id m s v lt =
      elim (create_response_channel-IsValid config env id s v lt) [
        | inl (ref, e, run) ↦
            let (st, c, b, held, pushed) = push_request-channel config env id ref m s v lt e in
            handled st m.header.protocol (some ref) s _ _ v
              (forward_request-old id ref m s lt e ∙ pushed) (changed (buffered ref c b held refl))
        | inr (e, run, v') ↦
            let (st, c, b, held, pushed) =
              push_request-channel config env id s.next_ref m (opened config env responses id s) v'
                lt (slot-opened_self config env responses id s) in
            handled st m.header.protocol (some s.next_ref) s _ _ v
              (forward_request-new id m s _ lt e run ∙ pushed) (accepted id c b lt e held refl)
      ]

  -- The identifier that an end message names is read inside its body and inside the arrays.
  abbrev pub EndInRange : Message → Type 0
  EndInRange m = (4 ≤ length m.body) × (word32_of_bytes (take 4 m.body) < max_channels)

  pub end_id-done :
      (m : Message)
      → 4 ≤ length m.body
      → end_id config env m ≡ done (word32_of_bytes (take 4 m.body))
  unfolding end_id
  end_id-done m h = rw (copy_from-done m.body 0 4 (omega arith))

  -- The end of a channel has been handled: it is removed from the array of the given side.
  abbrev pub Ended : Side → Message → State env → Outcome (Forwarded config env) → Type 0
  Ended side m s out =
      (s' : State env) × (out ≡ done (ok_status, m.header.protocol, none, s'))
      × Removed config env side (word32_of_bytes (take 4 m.body)) s s'

  pub Ended-Handled :
      (side : Side) (m : Message) (s : State env) (out : Outcome (Forwarded config env))
      → Ended side m s out
      → Handled s out
  Ended-Handled side m s out (s', run, r) =
      (ok_status, m.header.protocol, none, s', run, changed r.change, r.valid)

  pub forward_response_end-Ended :
      (m : Message) (s : State env)
      → IsValid config env s
      → EndInRange m
      → Ended requests m s (forward_response_end config env m s)
  unfolding forward_response_end slot_at
  forward_response_end-Ended m s v (long, lt) =
      let id = word32_of_bytes (take 4 m.body) in
      let (s', run, r) = remove_from-Removed config env requests id s v lt in
      elim (Option-cases (s.request_channel id)) [
        | inl e ↦ (
          s,
          ground (arith, end_id-done m long),
          record { valid = v; change = unchanged refl; gone = e; keeps_none = λ side' i h. h },
        )
        | inr (ref, e) ↦ (s', ground (arith, end_id-done m long, run), r)
      ]

  pub forward_request_end-Ended :
      (m : Message) (s : State env)
      → IsValid config env s
      → EndInRange m
      → Ended responses m s (forward_request_end config env m s)
  unfolding forward_request_end slot_at
  forward_request_end-Ended m s v (long, lt) =
      let id = word32_of_bytes (take 4 m.body) in
      let (s', run, r) = remove_from-Removed config env responses id s v lt in
      elim (Option-cases (s.response_channel id)) [
        | inl e ↦ (
          s,
          ground (arith, end_id-done m long),
          record { valid = v; change = unchanged refl; gone = e; keeps_none = λ side' i h. h },
        )
        | inr (ref, e) ↦ (s', ground (arith, end_id-done m long, run), r)
      ]

  pub forward_unwrapped-Handled :
      (protocol id : ℕ) (m : Message) (s : State env)
      → IsValid config env s
      → id < max_channels
      → Handled s (forward_unwrapped config env protocol id m s)
  unfolding forward_unwrapped
  forward_unwrapped-Handled protocol id m s v lt =
      elim (Bool-cases (protocol == config.response_protocol)) [
        | inl e ↦ rw e (forward_response-Handled id m s v lt)
        | inr e ↦ elim (Bool-cases (protocol == config.request_protocol)) [
          | inl e' ↦ rw (e, e') (forward_request-Handled id m s v lt)
          | inr e' ↦
              handled (error invalid_argument "Invalid protocol") m.header.protocol none s s _ v
                (rw (e, e')) (changed (unchanged refl))
        ]
      ]

  -- The identifier that a wrapped message names stands inside the arrays.
  abbrev pub WrappedInRange : Message → Type 0
  WrappedInRange m =
      (id : ℕ) (inner : Message)
      → unwrap_message uint32 m ≡ done (ok_status, some (id, inner))
      → id < max_channels

  forward_wrapped-Handled :
      (m : Message) (s : State env)
      → IsValid config env s
      → IsFramed m
      → WrappedInRange m
      → Handled s (forward_wrapped config env m s)
  unfolding forward_wrapped
  forward_wrapped-Handled m s v framed lt = elim (unwrap_message-total uint32 m framed) [
    | inl e ↦
        handled (error invalid_argument "Invalid message length") (2 ^ 32 - 1) none s s _ v
          (ground (arith, e)) (changed (unchanged refl))
    | inr (id, inner, e) ↦
        rw e (forward_unwrapped-Handled m.header.protocol id inner s v (lt id inner e))
  ]

  abbrev pub IsEnd : Message → Type 0
  IsEnd m =
      (m.header.protocol ≡ config.response_end_protocol)
      ⊎ (m.header.protocol ≡ config.request_end_protocol)

  -- A message that counts its own body and names an identifier within the arrays (in its first
  -- four bytes if it is an end message, behind its body otherwise) is handled by a valid manager:
  -- the call returns; the manager is unchanged, or one channel has another buffer, or a response
  -- channel is added, or one open channel is closed and removed; and the manager stays valid.
  pub forward_message-Handled :
      (m : Message) (s : State env)
      → IsValid config env s
      → IsFramed m
      → (IsEnd m → EndInRange m)
      → (¬ IsEnd m → WrappedInRange m)
      → Handled s (forward_message config env m s)
  unfolding forward_message
  forward_message-Handled m s v framed ending wrapping =
      elim (Bool-cases (m.header.protocol == config.response_end_protocol)) [
        | inl e ↦ rw e (
            Ended-Handled requests m s _
              (forward_response_end-Ended m s v (ending (inl ((==_iff _ _).0 e)))))
        | inr e ↦ elim (Bool-cases (m.header.protocol == config.request_end_protocol)) [
          | inl e' ↦
              rw (e, e')
                (Ended-Handled responses m s _
                  (forward_request_end-Ended m s v (ending (inr ((==_iff _ _).0 e')))))
          | inr e' ↦
              rw (e, e') (forward_wrapped-Handled m s v framed (wrapping (λ end. ground arith)))
        ]
      ]
