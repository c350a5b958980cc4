-- ===== src/Connectors/Manager/Answering.antt =====
-- What `forwardMessage` makes of the response channels.
use servercc.Common.{
  take, ℕ, ◌^◌, ◌-◌, ◌<◌, ◌≡◌, ◌⊎◌, inl, inr, refl, sym, ◌∙◌, Option, none, some, Outcome, done,
  arith, ◌==◌, Bool-cases, ==_iff, Option-cases,
}
use servercc.Types.Status.{Status, ok_status, error, not_found, invalid_argument}
use servercc.Types.Memory.{uint32, word32_of_bytes}
use servercc.Types.Message.{Message, unwrap_message}
use servercc.Types.Message.RoundTrip.{IsFramed, unwrap_message-total}
use servercc.Connectors.Env.{Env, ChannelConfig}
use servercc.Connectors.Channel.{Side, requests, responses}
use servercc.Connectors.Manager.{
  State, Forwarded, allocate, slot_at, forward_request, forward_response, forward_unwrapped,
  forward_wrapped, forward_message,
}
use servercc.Connectors.Manager.Invariant.{IsValid}
use servercc.Connectors.Manager.Opening.{opened, create_response_channel-IsValid, slot-opened_self}
use servercc.Connectors.Manager.Closing.{Removed}
use servercc.Connectors.Manager.Pushing.{rebuffered, push_slot-rebuffered, push_request-channel}
use servercc.Connectors.Manager.Forwarding.{
  IsEnd, EndInRange, WrappedInRange, forward_request-old, forward_request-new,
  forward_response_end-Ended, forward_request_end-Ended,
}
use servercc.Connectors.Manager.Delivery.{IsConfig}

module _ (config : ChannelConfig) where
  -- A message that ends the request channel of an identifier, and one on that channel.
  abbrev pub EndsRequest : ℕ → Message → Type 0
  EndsRequest id m =
      (m.header.protocol ≡ config.request_end_protocol) × (word32_of_bytes (take 4 m.body) ≡ id)

  abbrev pub IsRequest : ℕ → Message → Type 0
  IsRequest id m =
      (m.header.protocol ≡ config.request_protocol)
      × ((inner : Message) × (unwrap_message uint32 m ≡ done (ok_status, some (id, inner))))

  module _ {env : Env} where
    -- What a message leaves of the response channels: those that it does not end, and the one that it
    -- is a request for.
    abbrev pub Answers : Message → State env → State env → Type 0
    Answers m p p' =
        (id ref : ℕ)
        → p'.response_channel id ≡ some ref
        → (((ref' : ℕ) × (p.response_channel id ≡ some ref')) × (¬ EndsRequest id m))
          ⊎ IsRequest id m

module _ (config : ChannelConfig) (env : Env) (d : IsConfig config) where
  open config use {max_channels}

  Removed-shrinks :
      (side : Side) (i : ℕ) (s s' : State env)
      → Removed config env side i s s'
      → (id ref : ℕ) → s'.response_channel id ≡ some ref
      → (ref' : ℕ) × (s.response_channel id ≡ some ref')
  Removed-shrinks side i s s' r id ref e = elim (Option-cases (s.response_channel id)) [
    | inl none_there ↦ absurd (ground (arith, r.keeps_none responses id none_there))
    | inr found ↦ found
  ]

  -- A wrapped message for a known or a new channel: where it is a request, that channel is the only new
  -- one.
  abbrev NewOnly : ℕ → ℕ → Outcome (Forwarded config env) → State env → Type 0
  NewOnly protocol id out s =
      (st : Status) × (p : ℕ) × (channel : Option ℕ) × (s' : State env) × (out
        ≡ done (st, p, channel, s'))
      × ((i ref : ℕ)
          → s'.response_channel i ≡ some ref
          → (s.response_channel i ≡ some ref) ⊎ ((i ≡ id) × (protocol ≡ config.request_protocol)))

  forward_request-NewOnly :
      (protocol id : ℕ) (m : Message) (s : State env)
      → IsValid config env s
      → id < max_channels
      → protocol ≡ config.request_protocol
      → NewOnly protocol id (forward_request config env id m s) s
  unfolding allocate
  forward_request-NewOnly protocol id m s v lt same =
      elim (create_response_channel-IsValid config env id s v lt) [
        | inl (ref, e, run) ↦
            let (st, c, b, held, pushed) = push_request-channel config env id ref m s v lt e in
            (st, _, _, _, forward_request-old config env id ref m s lt e ∙ pushed, λ i r h. inl h)
        | inr (e, run, v') ↦
            let (st, c, b, held, pushed) =
              push_request-channel config env id s.next_ref m (opened config env responses id s) v'
                lt (slot-opened_self config env responses id s) in
            (
              st,
              _,
              _,
              _,
              forward_request-new config env id m s _ lt e run ∙ pushed,
              λ i r h. elim (Bool-cases (id == i)) [
                | inl here ↦ inr (sym ((==_iff id i).0 here), same)
                | inr apart ↦ inl (ground (arith, h))
              ],
            )
      ]

  forward_response-NewOnly :
      (protocol id : ℕ) (m : Message) (s : State env)
      → IsValid config env s
      → id < max_channels
      → NewOnly protocol id (forward_response config env id m s) s
  unfolding forward_response slot_at
  forward_response-NewOnly protocol id m s v lt = elim (Option-cases (s.request_channel id)) [
    | inl e ↦ (
      error not_found "Channel does not exist",
      m.header.protocol,
      none,
      s,
      ground arith,
      λ i r h. inl h,
    )
    | inr (ref, e) ↦
        let (st, c, b, held, run) = push_slot-rebuffered config env requests id ref m s v e in
        (
          st,
          m.header.protocol,
          none,
          rebuffered config env ref c b s,
          ground (arith, run),
          λ i r h. inl h,
        )
  ]

  forward_unwrapped-NewOnly :
      (protocol id : ℕ) (m : Message) (s : State env)
      → IsValid config env s
      → id < max_channels
      → NewOnly protocol id (forward_unwrapped config env protocol id m s) s
  unfolding forward_unwrapped
  forward_unwrapped-NewOnly protocol id m s v lt =
      elim (Bool-cases (protocol == config.response_protocol)) [
        | inl e ↦ rw e (forward_response-NewOnly protocol id m s v lt)
        | inr e ↦ elim (Bool-cases (protocol == config.request_protocol)) [
          | inl e' ↦ rw (e, e') (forward_request-NewOnly protocol id m s v lt ((==_iff _ _).0 e'))
          | inr e' ↦ (
            error invalid_argument "Invalid protocol",
            m.header.protocol,
            none,
            s,
            rw (e, e') refl,
            λ i r h. inl h,
          )
        ]
      ]

  forward_wrapped-Answers :
      (m : Message) (s : State env)
      → IsValid config env s
      → IsFramed m
      → WrappedInRange config env m
      → ¬ IsEnd config env m
      → (st : Status) × (p : ℕ) × (channel : Option ℕ) × (s' : State env) × (forward_wrapped config
            env m s
          ≡ done (st, p, channel, s'))
        × Answers config m s s'
  unfolding forward_wrapped
  forward_wrapped-Answers m s v framed lt other = elim (unwrap_message-total uint32 m framed) [
    | inl e ↦ (
      error invalid_argument "Invalid message length",
      2 ^ 32 - 1,
      none,
      s,
      ground (arith, e),
      λ i r h. inl ((r, h), λ end. other (inr end.0)),
    )
    | inr (id, inner, e) ↦
        let (st, p, channel, s', run, new) =
          forward_unwrapped-NewOnly m.header.protocol id inner s v (lt id inner e) in
        (
          st,
          p,
          channel,
          s',
          rw e run,
          λ i r h. elim (new i r h) [
            | inl old ↦ inl ((r, old), λ end. other (inr end.0))
            | inr (same, request) ↦ inr (request, (inner, ground (arith, same, e)))
          ],
        )
  ]

  -- Of the response channels after a message is forwarded, each was there before and is not the one that
  -- the message ends, or is the one that it is a request for.
  pub forward_message-Answers :
      (m : Message) (s : State env)
      → IsValid config env s
      → IsFramed m
      → (IsEnd config env m → EndInRange config env m)
      → (¬ IsEnd config env m → WrappedInRange config env m)
      → (st : Status) × (p : ℕ) × (channel : Option ℕ) × (s' : State env) × (forward_message config
            env m s
          ≡ done (st, p, channel, s'))
        × Answers config m s s'
  unfolding forward_message
  forward_message-Answers m s v framed ending wrapping =
      elim (Bool-cases (m.header.protocol == config.response_end_protocol)) [
        | inl e ↦
            let is_end = (==_iff _ _).0 e in
            let (s', run, r) = forward_response_end-Ended config env m s v (ending (inl is_end)) in
            (
              ok_status,
              m.header.protocol,
              none,
              s',
              rw e run,
              λ id ref h. inl (
                Removed-shrinks requests _ s s' r id ref h,
                λ end. ground (arith, d.ends_differ),
              ),
            )
        | inr e ↦ elim (Bool-cases (m.header.protocol == config.request_end_protocol)) [
          | inl e' ↦
              let is_end = (==_iff _ _).0 e' in
              let (s', run, r) = forward_request_end-Ended config env m s v (ending (inr is_end)) in
              (
                ok_status,
                m.header.protocol,
                none,
                s',
                rw (e, e') run,
                λ id ref h. inl (
                  Removed-shrinks responses _ s s' r id ref h,
                  λ end. ground (arith, end, r.gone, h),
                ),
              )
          | inr e' ↦
              let other : ¬ IsEnd config env m = λ end. ground arith in
              rw (e, e') (forward_wrapped-Answers m s v framed (wrapping other) other)
        ]
      ]
