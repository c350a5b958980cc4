-- ===== src/Connectors/Manager/Retire.antt =====
-- Closing a channel from either end of the mutual calls: through the channel, whose callback
-- removes it from the manager, and through the manager, which closes the channel that it removes.
use servercc.Common.{
  ℕ, suc, ◌<◌, ◌≡◌, refl, true, false, Option, none, some, Outcome, done, undefined, arith, update,
  eq_self, ap, ◌∙◌,
}
use servercc.Connectors.Env.{Env, ChannelConfig}
use servercc.Connectors.Channel.{Channel, Side, requests, responses, shut}
use servercc.Connectors.Manager.{
  State, slot_at, shut_at, release_id, close, remove_request_channel, remove_response_channel,
}

-- The entry of a channel's identifier in the array of its side.
abbrev pub slot : {env : Env} → State env → Side → ℕ → Option ℕ
slot s requests id = s.request_channel id
slot s responses id = s.response_channel id

module _ (config : ChannelConfig) (env : Env) where
  open config use {max_channels}

  -- The entry of an identifier taken out of the array of a side.
  abbrev pub cleared : Side → ℕ → State env → State env
  cleared requests id s = record s { request_channel = update s.request_channel id none }
  cleared responses id s = record s { response_channel = update s.response_channel id none }

  -- The identifier given back, where the manager gave it out.
  abbrev pub freed : Side → ℕ → State env → State env
  freed requests id s = release_id config env id s
  freed responses id s = s

  -- The state once the open channel `c` at `ref` is closed and removed.
  unfoldable pub retired : ℕ → Channel env.Buffer → State env → State env
  retired ref c s = freed c.side c.id (cleared c.side c.id (shut_at config env ref c s))

  -- The removal of a channel from the array of its side.
  abbrev pub remove_from : Side → ℕ → ℕ → State env → Outcome (State env)
  remove_from requests fuel id s = remove_request_channel config env fuel id s
  remove_from responses fuel id s = remove_response_channel config env fuel id s

  -- A second `close` changes nothing.
  pub close-closed :
      (fuel ref : ℕ) (c : Channel env.Buffer) (s : State env)
      → s.heap ref ≡ some c
      → c.is_closed ≡ true
      → close config env (suc fuel) ref s ≡ done s
  unfolding close
  close-closed fuel ref c s h e = ground arith

  -- Where there is no channel the call is undefined.
  pub close-missing :
      (fuel ref : ℕ) (s : State env)
      → s.heap ref ≡ none
      → close config env (suc fuel) ref s ≡ undefined
  unfolding close
  close-missing fuel ref s h = ground arith

  close-open :
      (fuel ref : ℕ) (c : Channel env.Buffer) (s : State env)
      → s.heap ref ≡ some c
      → c.is_closed ≡ false
      → close config env (suc fuel) ref s
        ≡ remove_from c.side fuel c.id (shut_at config env ref c s)
  unfolding close
  close-open fuel ref c s h e = ground arith

  pub remove_from-empty :
      (side : Side) (fuel id : ℕ) (s : State env)
      → slot s side id ≡ none
      → id < max_channels
      → remove_from side (suc fuel) id s ≡ done s
  unfolding remove_request_channel remove_response_channel slot_at
  remove_from-empty requests fuel id s e h = ground arith
  remove_from-empty responses fuel id s e h = ground arith

  remove_from-full :
      (side : Side) (fuel id ref : ℕ) (s s' : State env)
      → slot s side id ≡ some ref
      → id < max_channels
      → close config env fuel ref (cleared side id s) ≡ done s'
      → remove_from side (suc fuel) id s ≡ done (freed side id s')
  unfolding remove_request_channel remove_response_channel slot_at
  remove_from-full requests fuel id ref s s' e h done_with = ground arith
  remove_from-full responses fuel id ref s s' e h done_with = ground arith

  heap-shut_at :
      (ref : ℕ) (c : Channel env.Buffer) (s : State env)
      → (shut_at config env ref c s).heap ref ≡ some (shut config env c s.world).0
  unfolding shut_at
  heap-shut_at ref c s = rw (eq_self ref)

  slot-shut_at :
      (side : Side) (ref id : ℕ) (c : Channel env.Buffer) (s : State env)
      → slot (shut_at config env ref c s) side id ≡ slot s side id
  unfolding shut_at
  slot-shut_at requests ref id c s = refl
  slot-shut_at responses ref id c s = refl

  heap-cleared : (side : Side) (id : ℕ) (s : State env) → (cleared side id s).heap ≡ s.heap
  heap-cleared requests id s = refl
  heap-cleared responses id s = refl

  slot-cleared : (side : Side) (id : ℕ) (s : State env) → slot (cleared side id s) side id ≡ none
  slot-cleared requests id s = rw (eq_self id)
  slot-cleared responses id s = rw (eq_self id)

  cleared-shut_at :
      (side : Side) (id ref : ℕ) (c : Channel env.Buffer) (s : State env)
      → shut_at config env ref c (cleared side id s) ≡ cleared side id (shut_at config env ref c s)
  unfolding shut_at
  cleared-shut_at requests id ref c s = refl
  cleared-shut_at responses id ref c s = refl

  pub closed-shut :
      (c : Channel env.Buffer) (w : env.World) → (shut config env c w).0.is_closed ≡ true
  unfolding shut
  closed-shut c w = refl

  module _ (fuel ref : ℕ) (c : Channel env.Buffer) (s : State env) where
    -- Closing a registered open channel needs three calls, and retires it.
    pub close-retired :
        s.heap ref ≡ some c
        → c.is_closed ≡ false
        → slot s c.side c.id ≡ some ref
        → c.id < max_channels
        → close config env (suc (suc (suc fuel))) ref s ≡ done (retired ref c s)
    unfolding retired
    close-retired h e at lt =
        close-open (suc (suc fuel)) ref c s h e
        ∙ remove_from-full c.side (suc fuel) c.id ref (shut_at config env ref c s)
            (cleared c.side c.id (shut_at config env ref c s))
            (slot-shut_at c.side ref c.id c s ∙ at) lt
            (close-closed fuel ref (shut config env c s.world).0 _
              (rw (heap-cleared c.side c.id (shut_at config env ref c s)) (heap-shut_at ref c s))
              (closed-shut c s.world))

    -- So does removing it through the manager, with the same state for its outcome.
    pub remove_from-retired :
        s.heap ref ≡ some c
        → c.is_closed ≡ false
        → slot s c.side c.id ≡ some ref
        → c.id < max_channels
        → remove_from c.side (suc (suc (suc fuel))) c.id s ≡ done (retired ref c s)
    unfolding retired
    remove_from-retired h e at lt = remove_from-full c.side (suc (suc fuel)) c.id ref s _ at lt (
        close-open (suc fuel) ref c (cleared c.side c.id s) (rw (heap-cleared c.side c.id s) h) e
        ∙ remove_from-empty c.side fuel c.id (shut_at config env ref c (cleared c.side c.id s))
            (slot-shut_at c.side ref c.id c (cleared c.side c.id s) ∙ slot-cleared c.side c.id s) lt
        ∙ ap done (cleared-shut_at c.side c.id ref c s))
