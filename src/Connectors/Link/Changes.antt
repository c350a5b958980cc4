-- ===== src/Connectors/Link/Changes.antt =====
-- What the calls of a user change of a manager, beside what they send.
use servercc.Common.{
  ℕ, suc, ◌≡◌, inl, inr, refl, ap, subst, List, [], ◌∷◌, Option, none, some, Outcome, done,
  >>=-eq-done, Bool, length, zero, ◌>>=◌, arith, update, Option-cases,
}
use servercc.Types.Status.{Status}
use servercc.Types.Memory.{uint32}
use servercc.Types.Message.{Message}
use servercc.Connectors.Env.{Env, ChannelConfig}
use servercc.Connectors.Channel.{Channel, requests, read, read_for}
use servercc.Connectors.Manager.{State, create_request_channel}
use servercc.Connectors.Manager.Retire.{close-missing}
use servercc.Connectors.Manager.Closing.{close-Closed}
use servercc.Connectors.Manager.Opening.{
  opened, popped, create_request_channel-popped, RequestOpened,
  create_request_channel-RequestOpened,
}
use servercc.Connectors.Manager.Invariant.{IsValid}
use servercc.Connectors.Manager.Effect.{Change, buffered}
use servercc.Connectors.InternalRequest.{
  InternalRequest, receive_message, receive_message_for, terminate,
}

module _ (config : ChannelConfig) (env : Env) where
  open config use {max_channels}

  -- A read that returns changes the buffer of its channel only.
  pub read-buffered :
      (out : Outcome (Status × Option Message × env.Buffer)) (c : Channel env.Buffer)
      (got : Status × Option Message × Channel env.Buffer)
      → (out >>= λ x. done (x.0, x.1, record c { message_buffer = x.2 })) ≡ done got
      → (b : env.Buffer) × (got.2 ≡ record c { message_buffer = b })
  read-buffered out c got run =
      let (x, popped, e) =
        >>=-eq-done out (λ x. done (x.0, x.1, record c { message_buffer = x.2 })) run in
      (x.2, ground arith)

  -- What a read of the channel at `ref` stores back.
  abbrev pub stored :
      ℕ
      → State env
      → Status × Option Message × Channel env.Buffer
      → Outcome (Status × Option Message × State env)
  stored ref s (status, message, c) =
      done (status, message, record s { heap = update s.heap ref (some c) })

  pub received-Change :
      (out : Outcome (Status × Option Message × Channel env.Buffer)) (ref : ℕ)
      (c : Channel env.Buffer) (st : Status) (m : Option Message) (s s' : State env)
      → s.heap ref ≡ some c
      → ((got : Status × Option Message × Channel env.Buffer)
          → out ≡ done got
          → (b : env.Buffer) × (got.2 ≡ record c { message_buffer = b }))
      → (out >>= stored ref s) ≡ done (st, m, s')
      → Change config env s s'
  received-Change out ref c st m s s' h buffers run =
      let (got, read, e) = >>=-eq-done out (stored ref s) run in
      let (b, same) = buffers got read in buffered ref c b h (ground (arith, same, e))

  pub receive_message-Change :
      (r : InternalRequest) (st : Status) (m : Option Message) (s s' : State env)
      → receive_message config env r s ≡ done (st, m, s')
      → Change config env s s'
  unfolding receive_message read
  receive_message-Change r st m s s' run = elim (Option-cases (s.heap r.channel)) [
    | inl e ↦ absurd (ground arith)
    | inr (c, h) ↦
        received-Change (read config env c) r.channel c st m s s' h
          (read-buffered (env.pop c.message_buffer) c) (ground (arith, h, run))
  ]

  pub receive_message_for-Change :
      (expired : Bool) (r : InternalRequest) (st : Status) (m : Option Message) (s s' : State env)
      → receive_message_for config env expired r s ≡ done (st, m, s')
      → Change config env s s'
  unfolding receive_message_for read_for
  receive_message_for-Change expired r st m s s' run = elim (Option-cases (s.heap r.channel)) [
    | inl e ↦ absurd (ground arith)
    | inr (c, h) ↦
        received-Change (read_for config env expired c) r.channel c st m s s' h
          (read-buffered (env.pop_for expired c.message_buffer) c) (ground (arith, h, run))
  ]

  pub terminate-Change :
      (r : InternalRequest) (s s' : State env)
      → IsValid config env s
      → terminate config env r s ≡ done s'
      → Change config env s s'
  unfolding terminate
  terminate-Change r s s' v run = elim (Option-cases (s.heap r.channel)) [
    | inl e ↦ absurd (nothing_there e)
    | inr (c, h) ↦
        let (t, run', after) = close-Closed config env r.channel c s v h in
        subst (Change config env s) (ground arith) after.change
  ]
    where
      nothing_there : ¬ (s.heap r.channel ≡ none)
      nothing_there e = ground (arith, close-missing config env 2 r.channel s e)

  -- A request channel that is created has the identifier on top of the free list.
  pub create-opened :
      (st : Status) (channel : Option ℕ) (s s' : State env)
      → IsValid config env s
      → create_request_channel config env s ≡ done (st, channel, s')
      → (id permits : ℕ) × (rest : List ℕ) × (s.free_list_semaphore ≡ suc permits)
        × (s.free_list ≡ id ∷ rest)
        × (s' ≡ opened config env requests id (popped config env rest permits s))
  create-opened st channel s s' v run = creating s.free_list s.free_list_semaphore refl refl
    where
      Opened : Type 0
      Opened =
          (id permits : ℕ) × (rest : List ℕ) × (s.free_list_semaphore ≡ suc permits)
          × (s.free_list ≡ id ∷ rest)
          × (s' ≡ opened config env requests id (popped config env rest permits s))

      no_wait :
          s.free_list ≡ [] → ¬ RequestOpened config env s (create_request_channel config env s)
      no_wait ef (inl (empty, blocks)) = ground arith
      no_wait ef (inr (id, t, ran, unused, used, taken, v')) = ground arith

      creating :
          (free : List ℕ) (permits : ℕ)
          → s.free_list ≡ free
          → s.free_list_semaphore ≡ permits
          → Opened
      creating [] permits ef es =
          absurd (no_wait ef (create_request_channel-RequestOpened config env s v))
      creating (id ∷ rest) zero ef es = absurd (omega (arith, ap length ef, v.counted))
      creating (id ∷ rest) (suc permits) ef es = (
        id,
        permits,
        rest,
        es,
        ef,
        ground (arith, run, create_request_channel-popped config env id permits rest s v es ef),
      )
