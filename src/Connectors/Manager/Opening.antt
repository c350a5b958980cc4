-- ===== src/Connectors/Manager/Opening.antt =====
-- Creating request and response channels.
use servercc.Common.{
  ℕ, zero, suc, ◌<◌, ◌≡◌, ◌⊎◌, inl, inr, refl, sym, ap, ◌∙◌, false, List, [], ◌∷◌, Option, none,
  some, Outcome, done, blocked, arith, length, update, eq_self, Option-cases,
}
use servercc.Types.Status.{Status, ok_status, error, already_exists}
use servercc.Connectors.Env.{Env, ChannelConfig}
use servercc.Connectors.Channel.{Channel, Side, requests, responses, new_channel}
use servercc.Connectors.Manager.{
  State, allocate, slot_at, create_request_channel, create_response_channel,
}
use servercc.Connectors.Manager.Retire.{slot}
use servercc.Connectors.Manager.Invariant.{IsValid, Registered}

module _ (config : ChannelConfig) (env : Env) where
  open config use {max_channels}

  -- A new open channel at `id` of a side.
  abbrev pub opened : Side → ℕ → State env → State env
  opened requests id s = record (allocate config env requests id s).1 {
    request_channel = update s.request_channel id (some s.next_ref);
  }
  opened responses id s = record (allocate config env responses id s).1 {
    response_channel = update s.response_channel id (some s.next_ref);
  }

  abbrev pub popped : List ℕ → ℕ → State env → State env
  popped rest permits s = record s { free_list = rest; free_list_semaphore = permits }

  pub slot-opened_self :
      (side : Side) (id : ℕ) (s : State env) → slot (opened side id s) side id ≡ some s.next_ref
  unfolding allocate
  slot-opened_self requests id s = rw (eq_self id)
  slot-opened_self responses id s = rw (eq_self id)

  -- Of the channels registered after the opening, all but the new one were registered before.
  slot-opened :
      (side : Side) (id : ℕ) (s : State env) (side' : Side) (id' r : ℕ)
      → slot (opened side id s) side' id' ≡ some r
      → ((side' ≡ side) × (id' ≡ id) × (r ≡ s.next_ref)) ⊎ (slot s side' id' ≡ some r)
  unfolding allocate
  slot-opened requests id s requests id' r k = ground arith
  slot-opened requests id s responses id' r k = ground arith
  slot-opened responses id s requests id' r k = ground arith
  slot-opened responses id s responses id' r k = ground arith

  heap-opened :
      (side : Side) (id : ℕ) (s : State env)
      → (opened side id s).heap
        ≡ update s.heap s.next_ref (some (new_channel config env side id s.write_fd))
  unfolding allocate
  heap-opened requests id s = refl
  heap-opened responses id s = refl

  opened-Registered :
      (side : Side) (id : ℕ) (s : State env)
      → ((r : ℕ) (c : Channel env.Buffer) → s.heap r ≡ some c → r < s.next_ref)
      → (side' : Side) (id' r : ℕ) → (slot s side' id' ≡ some r → Registered s side' id' r)
      → slot (opened side id s) side' id' ≡ some r
      → Registered (opened side id s) side' id' r
  unfolding new_channel
  opened-Registered side id s allocated side' id' r before k =
      elim (slot-opened side id s side' id' r k) [
        | inl (es, ei, er) ↦ (
          new_channel config env side id s.write_fd,
          rw (heap-opened side id s, er, eq_self s.next_ref),
          sym es,
          sym ei,
          refl,
        )
        | inr old ↦
            let (c, held, rest) = registered_before (before old) in
            (
              c,
              rw (heap-opened side id s) (ground (arith, allocated r c held)),
              rest.0,
              rest.1,
              rest.2,
            )
      ]
    where
      registered_before :
          Registered s side' id' r
          → (c : Channel env.Buffer) × (s.heap r ≡ some c)
            × ((c.side ≡ side') × (c.id ≡ id') × (c.is_closed ≡ false))
      registered_before (c, held, of_side, of_id, is_open) = (c, held, (of_side, of_id, is_open))

  module _ (id permits : ℕ) (rest : List ℕ) (s : State env) (v : IsValid config env s)
      (semaphore : s.free_list_semaphore ≡ suc permits) (free : s.free_list ≡ id ∷ rest) where
    pub opened_request-IsValid : IsValid config env (opened requests id (popped rest permits s))
    unfolding allocate new_channel
    opened_request-IsValid = record {
      in_range = λ i k. ground (arith, free, v.in_range i);
      distinct_ids = ground (arith, free, v.distinct_ids);
      counted = omega (arith, semaphore, ap length free, v.counted);
      free_or_used = λ i k. ground (arith, free, v.distinct_ids, v.free_or_used i k);
      bounded = λ side i r k.
          bounded side i r (slot-opened requests id (popped rest permits s) side i r k);
      registered = λ side i r k.
          opened-Registered requests id (popped rest permits s) v.allocated side i r
            (registered side i r) k;
      open_registered = λ r c k e. open_registered c.side r c refl k e;
      allocated = λ r c k. ground (arith, v.allocated r c);
    }
      where
        slot-popped : (side : Side) (i : ℕ) → slot (popped rest permits s) side i ≡ slot s side i
        slot-popped requests i = refl
        slot-popped responses i = refl

        fits : id < max_channels
        fits = v.in_range id (ground (arith, free))

        bounded :
            (side : Side) (i r : ℕ)
            → ((side ≡ requests) × (i ≡ id) × (r ≡ s.next_ref))
              ⊎ (slot (popped rest permits s) side i ≡ some r)
            → i < max_channels
        bounded side i r (inl (es, ei, er)) = omega (arith, fits)
        bounded side i r (inr old) = v.bounded side i r (sym (slot-popped side i) ∙ old)

        registered :
            (side : Side) (i r : ℕ)
            → slot (popped rest permits s) side i ≡ some r
            → Registered (popped rest permits s) side i r
        registered side i r old = v.registered side i r (sym (slot-popped side i) ∙ old)

        open_registered :
            (side : Side) (r : ℕ) (c : Channel env.Buffer)
            → c.side ≡ side
            → (opened requests id (popped rest permits s)).heap r ≡ some c
            → c.is_closed ≡ false
            → slot (opened requests id (popped rest permits s)) side c.id ≡ some r
        open_registered requests r c es k e =
            ground (arith, free, fits, v.open_registered r c, v.free_or_used id fits)
        open_registered responses r c es k e = ground (arith, free, v.open_registered r c)

    pub create_request_channel-popped :
        create_request_channel config env s
        ≡ done (ok_status, some s.next_ref, opened requests id (popped rest permits s))
    unfolding create_request_channel allocate slot_at
    create_request_channel-popped = ground (arith, free, semaphore, v.in_range id)

  module _ (id : ℕ) (s : State env) (v : IsValid config env s) (fits : id < max_channels)
      (unused : s.response_channel id ≡ none) where
    pub opened_response-IsValid : IsValid config env (opened responses id s)
    unfolding allocate new_channel
    opened_response-IsValid = record {
      in_range = v.in_range;
      distinct_ids = v.distinct_ids;
      counted = v.counted;
      free_or_used = v.free_or_used;
      bounded = λ side i r k. bounded side i r (slot-opened responses id s side i r k);
      registered = λ side i r k.
          opened-Registered responses id s v.allocated side i r (v.registered side i r) k;
      open_registered = λ r c k e. open_registered c.side r c refl k e;
      allocated = λ r c k. ground (arith, v.allocated r c);
    }
      where
        bounded :
            (side : Side) (i r : ℕ)
            → ((side ≡ responses) × (i ≡ id) × (r ≡ s.next_ref)) ⊎ (slot s side i ≡ some r)
            → i < max_channels
        bounded side i r (inl (es, ei, er)) = omega (arith, fits)
        bounded side i r (inr old) = v.bounded side i r old

        open_registered :
            (side : Side) (r : ℕ) (c : Channel env.Buffer)
            → c.side ≡ side
            → (opened responses id s).heap r ≡ some c
            → c.is_closed ≡ false
            → slot (opened responses id s) side c.id ≡ some r
        open_registered requests r c es k e = ground (arith, v.open_registered r c)
        open_registered responses r c es k e = ground (arith, unused, v.open_registered r c)

  -- What a request for a channel comes to: a wait where no identifier is free, and otherwise a new
  -- open channel at an identifier that had none, which is no longer free.
  abbrev pub RequestOpened : State env → Outcome (Status × Option ℕ × State env) → Type 0
  RequestOpened s out =
      ((s.free_list ≡ []) × (out ≡ blocked))
      ⊎ ((id : ℕ) × (s' : State env) × (out ≡ done (ok_status, some s.next_ref, s'))
          × (s.request_channel id ≡ none)
          × (s'.request_channel id ≡ some s.next_ref)
          × (s.free_list ≡ id ∷ s'.free_list)
          × IsValid config env s')

  -- From a valid manager the call blocks where no identifier is free, and otherwise returns a new
  -- channel, registered under the identifier on top of the free list, which had no channel; the
  -- identifier is no longer free and the manager stays valid.
  pub create_request_channel-RequestOpened :
      (s : State env) → IsValid config env s → RequestOpened s (create_request_channel config env s)
  unfolding create_request_channel allocate slot_at
  create_request_channel-RequestOpened s v = opening s.free_list s.free_list_semaphore refl refl
    where
      opening :
          (free : List ℕ) (permits : ℕ)
          → s.free_list ≡ free
          → s.free_list_semaphore ≡ permits
          → RequestOpened s (create_request_channel config env s)
      opening [] zero ef es = inl (ef, ground arith)
      opening [] (suc permits) ef es = absurd (omega (arith, ap length ef, v.counted))
      opening (id ∷ rest) zero ef es = absurd (omega (arith, ap length ef, v.counted))
      opening (id ∷ rest) (suc permits) ef es = inr (
        id,
        opened requests id (popped rest permits s),
        create_request_channel-popped id permits rest s v es ef,
        ground (arith, v.free_or_used id fits),
        rw (eq_self id),
        ef,
        opened_request-IsValid id permits rest s v es ef,
      )
        where
          fits : id < max_channels
          fits = v.in_range id (ground arith)

  -- A response channel is created where there is none, and not twice.
  pub create_response_channel-IsValid :
      (id : ℕ) (s : State env)
      → IsValid config env s
      → id < max_channels
      → ((ref : ℕ) × (s.response_channel id ≡ some ref)
          × (create_response_channel config env id s
              ≡ done (error already_exists "Channel already exists", s)))
        ⊎ ((s.response_channel id ≡ none)
            × (create_response_channel config env id s ≡ done (ok_status, opened responses id s))
            × IsValid config env (opened responses id s))
  unfolding create_response_channel slot_at
  create_response_channel-IsValid id s v h = elim (Option-cases (s.response_channel id)) [
    | inl e ↦ inr (e, ground arith, opened_response-IsValid id s v h e)
    | inr (ref, e) ↦ inl (ref, e, ground arith)
  ]
