-- ===== src/Connectors/Manager/Closing.antt =====
-- Closing and removing channels of a valid manager: the calls end, and what they leave.
use servercc.Common.{
  ℕ, zero, suc, ◌-◌, ◌≤◌, ◌<◌, ◌≡◌, inl, inr, refl, sym, subst, subst₂, ◌∙◌, true, false, none,
  some, done, arith, ◌==◌, Bool-cases, ==_iff, Option-cases,
}
use servercc.Connectors.Env.{Env, ChannelConfig}
use servercc.Connectors.Channel.{Channel, Side, requests, responses, shut}
use servercc.Connectors.Manager.{
  State, call_depth, shut_at, release_id, close, destroy_from, destroy_manager,
}
use servercc.Connectors.Manager.Retire.{
  slot, retired, remove_from, remove_from-empty, close-closed, close-retired, remove_from-retired,
  closed-shut,
}
use servercc.Connectors.Manager.Invariant.{IsValid, retired-IsValid}
use servercc.Connectors.Manager.Effect.{Change, unchanged, ended}

module _ (config : ChannelConfig) (env : Env) where
  open config use {max_channels}

  abbrev pub IsClosedAt : State env → ℕ → Type 0
  IsClosedAt s ref = (c : Channel env.Buffer) × (s.heap ref ≡ some c) × (c.is_closed ≡ true)

  -- What closing the channel at `ref` leaves.
  pub record Closed (ref : ℕ) (s s' : State env) : Type 0 where
    pub valid : IsValid config env s'
    pub closed : IsClosedAt s' ref
    pub change : Change config env s s'
    pub idempotent : close config env call_depth ref s' ≡ done s'

  closed-retired :
      (ref : ℕ) (c : Channel env.Buffer) (s : State env)
      → (retired config env ref c s).heap ref ≡ some (shut config env c s.world).0
  unfolding retired shut_at release_id
  closed-retired ref c s = ground arith

  -- A `close` of any channel of a valid manager ends within the fuel, leaves the manager valid and
  -- the channel closed, and a second one changes nothing.
  pub close-Closed :
      (ref : ℕ) (c : Channel env.Buffer) (s : State env)
      → IsValid config env s
      → s.heap ref ≡ some c
      → (s' : State env) × (close config env call_depth ref s ≡ done s') × Closed ref s s'
  close-Closed ref c s v h = elim (Bool-cases c.is_closed) [
    | inl e ↦ (
      s,
      close-closed config env 2 ref c s h e,
      record {
        valid = v;
        closed = (c, h, e);
        change = unchanged refl;
        idempotent = close-closed config env 2 ref c s h e;
      },
    )
    | inr e ↦
        let at : slot s c.side c.id ≡ some ref = v.open_registered ref c h e in
        let after : State env = retired config env ref c s in
        let c' : Channel env.Buffer = (shut config env c s.world).0 in
        (
          after,
          close-retired config env 0 ref c s h e at (v.bounded c.side c.id ref at),
          record {
            valid = retired-IsValid config env ref c s v h e;
            closed = (c', closed-retired ref c s, closed-shut config env c s.world);
            change = ended ref c h e refl;
            idempotent =
                close-closed config env 2 ref c' after (closed-retired ref c s)
                  (closed-shut config env c s.world);
          },
        )
  ]

  -- Closing an open channel of a valid manager through the channel, which then removes itself,
  -- and removing it through the manager, which closes it, have the same outcome.
  pub close-eq-remove_from :
      (ref : ℕ) (c : Channel env.Buffer) (s : State env)
      → IsValid config env s
      → s.heap ref ≡ some c
      → c.is_closed ≡ false
      → close config env call_depth ref s ≡ remove_from config env c.side call_depth c.id s
  close-eq-remove_from ref c s v h e =
      close-retired config env 0 ref c s h e at lt
      ∙ sym (remove_from-retired config env 0 ref c s h e at lt)
    where
      at : slot s c.side c.id ≡ some ref
      at = v.open_registered ref c h e

      lt : c.id < max_channels
      lt = v.bounded c.side c.id ref at

  -- What removing the channel at `id` leaves.
  pub record Removed (side : Side) (id : ℕ) (s s' : State env) : Type 0 where
    pub valid : IsValid config env s'
    pub change : Change config env s s'
    pub gone : slot s' side id ≡ none
    pub keeps_none : (side' : Side) (i : ℕ) → slot s side' i ≡ none → slot s' side' i ≡ none

  gone-retired :
      (ref : ℕ) (c : Channel env.Buffer) (s : State env)
      → slot (retired config env ref c s) c.side c.id ≡ none
  unfolding retired shut_at release_id
  gone-retired ref c s = gone c.side refl
    where
      gone : (side : Side) → c.side ≡ side → slot (retired config env ref c s) side c.id ≡ none
      gone requests e = ground arith
      gone responses e = ground arith

  keeps_none-retired :
      (ref : ℕ) (c : Channel env.Buffer) (s : State env) (side : Side) (i : ℕ)
      → slot s side i ≡ none
      → slot (retired config env ref c s) side i ≡ none
  unfolding retired shut_at release_id
  keeps_none-retired ref c s requests i h = ground arith
  keeps_none-retired ref c s responses i h = ground arith

  -- A removal at an identifier in range ends within the fuel and leaves the manager valid, with
  -- nothing at that identifier and nothing new elsewhere.
  pub remove_from-Removed :
      (side : Side) (id : ℕ) (s : State env)
      → IsValid config env s
      → id < max_channels
      → (s' : State env) × (remove_from config env side call_depth id s ≡ done s')
        × Removed side id s s'
  remove_from-Removed side id s v lt = elim (Option-cases (slot s side id)) [
    | inl e ↦ (
      s,
      remove_from-empty config env side 2 id s e lt,
      record { valid = v; change = unchanged refl; gone = e; keeps_none = λ side' i h. h },
    )
    | inr (ref, at) ↦
        let (c, held, of_side, of_id, is_open) = v.registered side id ref at in
        let at' : slot s c.side c.id ≡ some ref = v.open_registered ref c held is_open in
        (
          retired config env ref c s,
          subst₂
              (λ d i. remove_from config env d call_depth i s ≡ done (retired config env ref c s))
              of_side of_id
              (remove_from-retired config env 0 ref c s held is_open at'
                (v.bounded c.side c.id ref at')),
          record {
            valid = retired-IsValid config env ref c s v held is_open;
            change = ended ref c held is_open refl;
            gone =
                subst₂ (λ d i. slot (retired config env ref c s) d i ≡ none) of_side of_id
                  (gone-retired ref c s);
            keeps_none = keeps_none-retired ref c s;
          },
        )
  ]

  -- What the destructor leaves behind from identifier `first` on.
  record Emptied (first : ℕ) (s s' : State env) : Type 0 where
    valid : IsValid config env s'
    empty : (side : Side) (i : ℕ) → first ≤ i → i < max_channels → slot s' side i ≡ none
    keeps_none : (side : Side) (i : ℕ) → slot s side i ≡ none → slot s' side i ≡ none

  removals-Removed :
      (i : ℕ) (s s1 s2 : State env)
      → Removed responses i s s1
      → Removed requests i s1 s2
      → (side : Side) → slot s2 side i ≡ none
  removals-Removed i s s1 s2 r1 r2 requests = r2.gone
  removals-Removed i s s1 s2 r1 r2 responses = r2.keeps_none responses i r1.gone

  Emptied-extend :
      (left : ℕ) (s s1 s2 s3 : State env)
      → suc left ≤ max_channels
      → Removed responses (max_channels - suc left) s s1
      → Removed requests (max_channels - suc left) s1 s2
      → Emptied (max_channels - left) s2 s3
      → Emptied (max_channels - suc left) s s3
  Emptied-extend left s s1 s2 s3 h r1 r2 r3 = record {
    valid = r3.valid;
    empty = λ side j lo hi. elim (Bool-cases (max_channels - suc left == j)) [
      | inl e ↦ r3.keeps_none side j (
          subst (λ k. slot s2 side k ≡ none) ((==_iff _ j).0 e)
            (removals-Removed (max_channels - suc left) s s1 s2 r1 r2 side))
      | inr e ↦ r3.empty side j (ground arith) hi
    ];
    keeps_none = λ side j k. r3.keeps_none side j (r2.keeps_none side j (r1.keeps_none side j k));
  }

  destroy_from-Emptied :
      (left : ℕ) (s : State env)
      → IsValid config env s
      → left ≤ max_channels
      → (s' : State env) × (destroy_from config env left s ≡ done s')
        × Emptied (max_channels - left) s s'
  unfolding destroy_from
  destroy_from-Emptied zero s v h = (
    s,
    refl,
    record { valid = v; empty = λ side i lo hi. absurd (omega arith); keeps_none = λ side i k. k },
  )
  destroy_from-Emptied (suc left) s v h =
      let i = max_channels - suc left in
      let (s1, run1, r1) = remove_from-Removed responses i s v (omega arith) in
      let (s2, run2, r2) = remove_from-Removed requests i s1 r1.valid (omega arith) in
      let (s3, run3, r3) = destroy_from-Emptied left s2 r2.valid (omega arith) in
      (s3, rw (run1, run2) run3, Emptied-extend left s s1 s2 s3 h r1 r2 r3)

  -- The destructor of a valid manager ends, and leaves the arrays empty and every channel that
  -- was ever made closed.
  pub destroy_manager-closes :
      (s : State env)
      → IsValid config env s
      → (s' : State env) × (destroy_manager config env s ≡ done s')
        × ((side : Side) (i : ℕ) → i < max_channels → slot s' side i ≡ none)
        × ((ref : ℕ) (c : Channel env.Buffer) → s'.heap ref ≡ some c → c.is_closed ≡ true)
  unfolding destroy_manager
  destroy_manager-closes s v =
      let (s', run, r) = destroy_from-Emptied max_channels s v (omega arith) in
      (s', run, (λ side i h. r.empty side i (omega arith) h), all_closed s' r)
    where
      all_closed :
          (s' : State env)
          → Emptied (max_channels - max_channels) s s'
          → (ref : ℕ) (c : Channel env.Buffer) → s'.heap ref ≡ some c
          → c.is_closed ≡ true
      all_closed s' r ref c h = elim (Bool-cases c.is_closed) [
        | inl e ↦ e
        | inr e ↦
            let at : slot s' c.side c.id ≡ some ref = r.valid.open_registered ref c h e in
            let gone : slot s' c.side c.id ≡ none =
              r.empty c.side c.id (omega arith) (r.valid.bounded c.side c.id ref at) in
            cc
      ]
