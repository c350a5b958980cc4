-- ===== src/Connectors/Manager/Invariant.antt =====
-- The invariant of a channel manager: which identifiers are free, which channels are registered.
use servercc.Common.{
  ℕ, zero, suc, ◌<◌, ◌≡◌, refl, sym, ◌∙◌, ℤ, true, false, not, none, some, arith, length, contains,
  distinct, is_some, ltb, ◌==◌,
}
use servercc.Connectors.Env.{Env, ChannelConfig}
use servercc.Connectors.Channel.{Channel, Side, requests, responses, shut}
use servercc.Connectors.Manager.{State, new_manager, free_ids, shut_at, release_id}
use servercc.Connectors.Manager.Retire.{slot, retired}

-- The channel at `ref` is open and belongs at `id` of its side.
abbrev pub Registered : {env : Env} → State env → Side → ℕ → ℕ → Type 0
Registered {env} s side id ref =
    (c : Channel env.Buffer) × (s.heap ref ≡ some c)
    × (c.side ≡ side)
    × (c.id ≡ id)
    × (c.is_closed ≡ false)

module _ (config : ChannelConfig) (env : Env) where
  open config use {max_channels}

  -- The free list holds each identifier without a request channel once, the semaphore counts it,
  -- and the channels of the arrays are the open channels, each at its identifier.
  pub record IsValid (s : State env) : Type 0 where
    pub in_range : (id : ℕ) → contains s.free_list id ≡ true → id < max_channels
    pub distinct_ids : distinct s.free_list ≡ true
    pub counted : s.free_list_semaphore ≡ length s.free_list
    pub free_or_used :
        (id : ℕ)
        → id < max_channels
        → is_some (s.request_channel id) ≡ not (contains s.free_list id)
    pub bounded : (side : Side) (id ref : ℕ) → slot s side id ≡ some ref → id < max_channels
    pub registered :
        (side : Side) (id ref : ℕ) → slot s side id ≡ some ref → Registered s side id ref
    pub open_registered :
        (ref : ℕ) (c : Channel env.Buffer)
        → s.heap ref ≡ some c
        → c.is_closed ≡ false
        → slot s c.side c.id ≡ some ref
    pub allocated : (ref : ℕ) (c : Channel env.Buffer) → s.heap ref ≡ some c → ref < s.next_ref

contains-free_ids : (n id : ℕ) → contains (free_ids n) id ≡ ltb id n
unfolding free_ids
contains-free_ids zero id = ground arith
contains-free_ids (suc n) id = ground (arith, contains-free_ids n id)

distinct-free_ids : (n : ℕ) → distinct (free_ids n) ≡ true
unfolding free_ids
distinct-free_ids zero = refl
distinct-free_ids (suc n) = ground (arith, contains-free_ids n n, distinct-free_ids n)

length-free_ids : (n : ℕ) → length (free_ids n) ≡ n
unfolding free_ids
length-free_ids zero = refl
length-free_ids (suc n) = omega (arith, length-free_ids n)

slot-new_manager :
    (config : ChannelConfig) (env : Env) (fd : ℤ) (w : env.World) (side : Side) (id : ℕ)
    → slot (new_manager config env fd w) side id ≡ none
unfolding new_manager
slot-new_manager config env fd w requests id = refl
slot-new_manager config env fd w responses id = refl

slot_world :
    {env : Env} (s : State env) (w : env.World) (side : Side) (id : ℕ)
    → slot (record s { world = w }) side id ≡ slot s side id
slot_world s w requests id = refl
slot_world s w responses id = refl

module _ (config : ChannelConfig) (env : Env) where
  open config use {max_channels}

  -- The constructor establishes the invariant.
  pub new_manager-IsValid :
      (fd : ℤ) (w : env.World) → IsValid config env (new_manager config env fd w)
  unfolding new_manager
  new_manager-IsValid fd w = record {
    in_range = λ id h. ground (arith, contains-free_ids max_channels id);
    distinct_ids = distinct-free_ids max_channels;
    counted = omega (arith, length-free_ids max_channels);
    free_or_used = λ id h. ground (arith, contains-free_ids max_channels id);
    bounded = λ side id ref h. ground (arith, slot-new_manager config env fd w side id);
    registered = λ side id ref h. absurd (ground (arith, slot-new_manager config env fd w side id));
    open_registered = λ ref c h e. cc;
    allocated = λ ref c h. cc;
  }

  pub write_fd-new_manager : (fd : ℤ) (w : env.World) → (new_manager config env fd w).write_fd ≡ fd
  unfolding new_manager
  write_fd-new_manager fd w = refl

  -- The world is no part of a manager's invariant.
  pub entered-IsValid :
      (s : State env) (w : env.World)
      → IsValid config env s
      → IsValid config env (record s { world = w })
  entered-IsValid s w v = record {
    in_range = v.in_range;
    distinct_ids = v.distinct_ids;
    counted = v.counted;
    free_or_used = v.free_or_used;
    bounded = λ side id r k. v.bounded side id r (sym (slot_world s w side id) ∙ k);
    registered = λ side id r k. v.registered side id r (sym (slot_world s w side id) ∙ k);
    open_registered = λ r c k e. slot_world s w c.side c.id ∙ v.open_registered r c k e;
    allocated = v.allocated;
  }

  slot-retired :
      (ref : ℕ) (c : Channel env.Buffer) (s : State env)
      → IsValid config env s
      → s.heap ref ≡ some c
      → (side : Side) (id r : ℕ) → slot (retired config env ref c s) side id ≡ some r
      → (slot s side id ≡ some r) × ((ref == r) ≡ false)
  unfolding retired shut_at shut release_id
  slot-retired ref c s v h requests id r k = ground (arith, v.registered requests id r)
  slot-retired ref c s v h responses id r k = ground (arith, v.registered responses id r)

  -- Closing and removing an open channel keeps the invariant.
  pub retired-IsValid :
      (ref : ℕ) (c : Channel env.Buffer) (s : State env)
      → IsValid config env s
      → s.heap ref ≡ some c
      → c.is_closed ≡ false
      → IsValid config env (retired config env ref c s)
  unfolding retired shut_at shut release_id
  retired-IsValid ref c s v h e = record {
    in_range = λ id k. ground (arith, at, lt, v.in_range id);
    distinct_ids = ground (arith, at, lt, v.distinct_ids, v.free_or_used c.id);
    counted = ground (arith, v.counted);
    free_or_used = λ id k. ground (arith, at, v.free_or_used id k);
    bounded = λ side id r k. ground (arith, v.bounded side id r);
    registered = λ side id r k.
        let (k', other) = slot-retired ref c s v h side id r k in
        let (c', held, of_side, of_id, is_open) = v.registered side id r k' in
        (c', ground arith, of_side, of_id, is_open);
    open_registered = λ r c' k k'. ground (arith, at, v.open_registered r c');
    allocated = λ r c' k. ground (arith, v.allocated r c', v.allocated ref c h);
  }
    where
      at : slot s c.side c.id ≡ some ref
      at = v.open_registered ref c h e

      lt : c.id < max_channels
      lt = v.bounded c.side c.id ref at
