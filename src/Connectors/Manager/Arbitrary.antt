-- ===== src/Connectors/Manager/Arbitrary.antt =====
-- `forwardMessage` on whatever a peer sends.
use servercc.Common.{
  ℕ, ◌≤◌, ◌<◌, ◌^◌, ◌-◌, ◌≡◌, ◌⊎◌, inl, inr, refl, none, Outcome, undefined, arith, ◌==◌, ltb,
  length, take, Bool-cases, ltb→lt,
}
use servercc.Types.Status.{error, invalid_argument}
use servercc.Types.Memory.{uint32, word32_of_bytes}
use servercc.Types.Message.{Message}
use servercc.Types.Message.RoundTrip.{IsFramed, unwrap_message-total}
use servercc.Connectors.Env.{Env, ChannelConfig}
use servercc.Connectors.Channel.{requests, responses}
use servercc.Connectors.Manager.{
  State, Forwarded, slot_at, end_id, forward_response_end, forward_request_end, forward_response,
  forward_request, forward_unwrapped, forward_wrapped, forward_message,
}
use servercc.Connectors.Manager.Invariant.{IsValid}
use servercc.Connectors.Manager.Forwarding.{
  Handled, Ended-Handled, EndInRange, end_id-done, forward_response_end-Ended,
  forward_request_end-Ended, forward_unwrapped-Handled,
}
use servercc.Connectors.Manager.Effect.{changed, unchanged}
use servercc.Connectors.Manager.Unchecked.{end_id-undefined}

lt-or-ge : (a b : ℕ) → (a < b) ⊎ (b ≤ a)
lt-or-ge a b = elim (Bool-cases (ltb a b)) [
  | inl e ↦ inl (ltb→lt a b e)
  | inr e ↦ inr (ground arith)
]

module _ (config : ChannelConfig) (env : Env) where
  open config use {max_channels}

  -- The call accesses memory out of bounds, or returns with a valid manager.
  abbrev pub IsSettled : State env → Outcome (Forwarded config env) → Type 0
  IsSettled s out = (out ≡ undefined) ⊎ Handled config env s out

  end-range :
      (m : Message)
      → (end_id config env m ≡ undefined)
        ⊎ ((4 ≤ length m.body) × (max_channels ≤ word32_of_bytes (take 4 m.body)))
        ⊎ EndInRange config env m
  end-range m = elim (lt-or-ge (length m.body) 4) [
    | inl short ↦ inl (end_id-undefined config env m short)
    | inr long ↦ elim (lt-or-ge (word32_of_bytes (take 4 m.body)) max_channels) [
      | inl lt ↦ inr (inr (long, lt))
      | inr ge ↦ inr (inl (long, ge))
    ]
  ]

  forward_response_end-IsSettled :
      (m : Message) (s : State env)
      → IsValid config env s
      → IsSettled s (forward_response_end config env m s)
  unfolding forward_response_end slot_at
  forward_response_end-IsSettled m s v = elim (end-range m) [
    | inl e ↦ inl (rw e)
    | inr (inl (long, ge)) ↦ inl (ground (arith, end_id-done config env m long))
    | inr (inr fits) ↦
        inr (
          Ended-Handled config env requests m s _
            (forward_response_end-Ended config env m s v fits))
  ]

  forward_request_end-IsSettled :
      (m : Message) (s : State env)
      → IsValid config env s
      → IsSettled s (forward_request_end config env m s)
  unfolding forward_request_end slot_at
  forward_request_end-IsSettled m s v = elim (end-range m) [
    | inl e ↦ inl (rw e)
    | inr (inl (long, ge)) ↦ inl (ground (arith, end_id-done config env m long))
    | inr (inr fits) ↦
        inr (
          Ended-Handled config env responses m s _
            (forward_request_end-Ended config env m s v fits))
  ]

  forward_unwrapped-IsSettled :
      (protocol id : ℕ) (m : Message) (s : State env)
      → IsValid config env s
      → IsSettled s (forward_unwrapped config env protocol id m s)
  unfolding forward_unwrapped forward_response forward_request slot_at
  forward_unwrapped-IsSettled protocol id m s v = elim (lt-or-ge id max_channels) [
    | inl lt ↦ inr (forward_unwrapped-Handled config env protocol id m s v lt)
    | inr ge ↦ elim (Bool-cases (protocol == config.response_protocol)) [
      | inl e ↦ inl (ground arith)
      | inr e ↦ elim (Bool-cases (protocol == config.request_protocol)) [
        | inl e' ↦ inl (ground arith)
        | inr e' ↦ inr (
          error invalid_argument "Invalid protocol",
          m.header.protocol,
          none,
          s,
          rw (e, e'),
          changed (unchanged refl),
          v,
        )
      ]
    ]
  ]

  forward_wrapped-IsSettled :
      (m : Message) (s : State env)
      → IsValid config env s
      → IsFramed m
      → IsSettled s (forward_wrapped config env m s)
  unfolding forward_wrapped
  forward_wrapped-IsSettled m s v framed = elim (unwrap_message-total uint32 m framed) [
    | inl e ↦ inr (
      error invalid_argument "Invalid message length",
      2 ^ 32 - 1,
      none,
      s,
      ground (arith, e),
      changed (unchanged refl),
      v,
    )
    | inr (id, inner, e) ↦ rw e (forward_unwrapped-IsSettled m.header.protocol id inner s v)
  ]

  -- Whatever message that counts its own body is forwarded by a valid manager, the call either
  -- accesses memory out of bounds or returns with a valid manager.
  pub forward_message-IsSettled :
      (m : Message) (s : State env)
      → IsValid config env s
      → IsFramed m
      → IsSettled s (forward_message config env m s)
  unfolding forward_message
  forward_message-IsSettled m s v framed =
      elim (Bool-cases (m.header.protocol == config.response_end_protocol)) [
        | inl e ↦ rw e (forward_response_end-IsSettled m s v)
        | inr e ↦ elim (Bool-cases (m.header.protocol == config.request_end_protocol)) [
          | inl e' ↦ rw (e, e') (forward_request_end-IsSettled m s v)
          | inr e' ↦ rw (e, e') (forward_wrapped-IsSettled m s v framed)
        ]
      ]
