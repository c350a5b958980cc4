-- ===== src/Connectors/Link/Claims.antt =====
-- Which of the response channels at one end, and of the requests on the way to it, a request channel
-- at the other end still stands behind.
use servercc.Common.{ℕ, ◌≡◌, ◌⊎◌, inl, inr, List, [], ◌∷◌, ◌++◌, some}
use servercc.Types.Memory.{uint32}
use servercc.Types.Message.{Message}
use servercc.Connectors.Env.{Env, ChannelConfig}
use servercc.Connectors.Manager.{State}
use servercc.Connectors.Manager.Answering.{EndsRequest, IsRequest, Answers}

abbrev pub IsOpen : {env : Env} → State env → ℕ → Type 0
IsOpen s id = (ref : ℕ) × (s.request_channel id ≡ some ref)

module _ (config : ChannelConfig) where
  -- The channel is ended by one of the messages.
  abbrev pub Ends : ℕ → List Message → Type 0
  Ends id [] = ⊥
  Ends id (m ∷ ms) = EndsRequest config id m ⊎ Ends id ms

  pub Ends-left : (id : ℕ) (ms ms' : List Message) → Ends id ms → Ends id (ms ++ ms')
  Ends-left id [] ms' h = absurd h
  Ends-left id (m ∷ ms) ms' (inl e) = inl e
  Ends-left id (m ∷ ms) ms' (inr h) = inr (Ends-left id ms ms' h)

  pub Ends-right : (id : ℕ) (ms ms' : List Message) → Ends id ms' → Ends id (ms ++ ms')
  Ends-right id [] ms' h = h
  Ends-right id (m ∷ ms) ms' h = inr (Ends-right id ms ms' h)

  -- Behind each request of the messages there is its channel, or the end of it further back.
  abbrev pub Backed : (ℕ → Type 0) → List Message → Type 0
  Backed claimed [] = Unit
  Backed claimed (m ∷ ms) =
      ((id : ℕ) → IsRequest config id m → claimed id ⊎ Ends id ms) × Backed claimed ms

  Backed-append :
      (claimed claimed' : ℕ → Type 0) (ms sent : List Message)
      → Backed claimed ms
      → ((id : ℕ) → claimed id → claimed' id ⊎ Ends id sent)
      → Backed claimed' sent
      → Backed claimed' (ms ++ sent)
  Backed-append claimed claimed' [] sent b keeps b' = b'
  Backed-append claimed claimed' (m ∷ ms) sent (b, bs) keeps b' = (
    λ id request. elim (b id request) [
      | inl is_open ↦ elim (keeps id is_open) [
        | inl still ↦ inl still
        | inr ends ↦ inr (Ends-right id ms sent ends)
      ]
      | inr ends ↦ inr (Ends-left id ms sent ends)
    ],
    Backed-append claimed claimed' ms sent bs keeps b',
  )

  module _ {env : Env} where
    -- What a manager sends with a call: the end of each request channel that it closes, and no request
    -- but on the open ones.
    abbrev pub Owns : State env → State env → List Message → Type 0
    Owns s s' sent =
        ((id : ℕ) → IsOpen s id → IsOpen s' id ⊎ Ends id sent) × Backed (IsOpen s') sent

    -- Between the requests of one manager and the responses of another: no request on the way, and no
    -- response channel, is without a request channel or the end of it on the way.
    abbrev pub IsTidy : State env → State env → List Message → Type 0
    IsTidy requester responder ms =
        Backed (IsOpen requester) ms
        × ((id ref : ℕ)
            → responder.response_channel id ≡ some ref
            → IsOpen requester id ⊎ Ends id ms)

    pub requester-IsTidy :
        (q q' p : State env) (ms sent : List Message)
        → IsTidy q p ms
        → Owns q q' sent
        → IsTidy q' p (ms ++ sent)
    requester-IsTidy q q' p ms sent (b, claims) (keeps, b') = (
      Backed-append (IsOpen q) (IsOpen q') ms sent b keeps b',
      λ id ref e. elim (claims id ref e) [
        | inl is_open ↦ elim (keeps id is_open) [
          | inl still ↦ inl still
          | inr ends ↦ inr (Ends-right id ms sent ends)
        ]
        | inr ends ↦ inr (Ends-left id ms sent ends)
      ],
    )

    pub responder-IsTidy :
        (q p p' : State env) (ms : List Message)
        → IsTidy q p ms
        → ((id ref : ℕ)
            → p'.response_channel id ≡ some ref
            → (ref' : ℕ) × (p.response_channel id ≡ some ref'))
        → IsTidy q p' ms
    responder-IsTidy q p p' ms (b, claims) shrinks =
        (b, λ id ref e. let (ref', e') = shrinks id ref e in claims id ref' e')

    pub received-IsTidy :
        (q p p' : State env) (m : Message) (ms : List Message)
        → IsTidy q p (m ∷ ms)
        → Answers config m p p'
        → IsTidy q p' ms
    received-IsTidy q p p' m ms ((b, bs), claims) answers = (
      bs,
      λ id ref e. elim (answers id ref e) [
        | inl ((ref', e'), not_ended) ↦ elim (claims id ref' e') [
          | inl is_open ↦ inl is_open
          | inr (inl ended) ↦ absurd (not_ended ended)
          | inr (inr ends) ↦ inr ends
        ]
        | inr request ↦ b id request
      ],
    )
