-- ===== src/Connectors/Manager/Count.antt =====
-- How many channels a manager has, and how calls change that.
use servercc.Common.{
  ℕ, zero, suc, ◌+◌, ◌≤◌, ◌<◌, ◌≡◌, refl, false, Option, none, some, arith, update, is_some,
  if◌then◌else◌,
}
use servercc.Connectors.Env.{Env, ChannelConfig}
use servercc.Connectors.Channel.{Channel, Side, requests, responses, shut}
use servercc.Connectors.Manager.{State, allocate, shut_at, release_id}
use servercc.Connectors.Manager.Retire.{slot, retired}
use servercc.Connectors.Manager.Invariant.{IsValid}
use servercc.Connectors.Manager.Opening.{opened}

-- The entries of an array below `n`.
abbrev entries : ℕ → (ℕ → Option ℕ) → ℕ
entries zero array = 0
entries (suc n) array = let rest = entries n array in if is_some (array n) then suc rest else rest

entries-same :
    (n id : ℕ) (x : Option ℕ) (array : ℕ → Option ℕ)
    → n ≤ id
    → entries n (update array id x) ≡ entries n array
entries-same zero id x array h = refl
entries-same (suc n) id x array h = ground (arith, entries-same n id x array)

entries-some :
    (n id : ℕ) (x : ℕ) (array : ℕ → Option ℕ)
    → entries n (update array id (some x)) ≤ suc (entries n array)
entries-some zero id x array = omega arith
entries-some (suc n) id x array =
    ground (arith, entries-same n id (some x) array, entries-some n id x array)

entries-none :
    (n id ref : ℕ) (array : ℕ → Option ℕ)
    → array id ≡ some ref
    → id < n
    → suc (entries n (update array id none)) ≡ entries n array
entries-none zero id ref array h lt = absurd (omega arith)
entries-none (suc n) id ref array h lt =
    ground (arith, entries-same n id none array, entries-none n id ref array h)

module _ (config : ChannelConfig) (env : Env) where
  open config use {max_channels}

  -- The channels that are registered with a manager.
  abbrev pub open_channels : State env → ℕ
  open_channels s = entries max_channels s.request_channel + entries max_channels s.response_channel

  pub open_channels-opened :
      (side : Side) (id : ℕ) (s : State env)
      → open_channels (opened config env side id s) ≤ suc (open_channels s)
  unfolding allocate
  open_channels-opened requests id s =
      omega (arith, entries-some max_channels id s.next_ref s.request_channel)
  open_channels-opened responses id s =
      omega (arith, entries-some max_channels id s.next_ref s.response_channel)

  pub open_channels-retired :
      (ref : ℕ) (c : Channel env.Buffer) (s : State env)
      → IsValid config env s
      → s.heap ref ≡ some c
      → c.is_closed ≡ false
      → suc (open_channels (retired config env ref c s)) ≡ open_channels s
  unfolding retired shut_at shut release_id
  open_channels-retired ref c s v h is_open = ground (
    arith,
    at,
    v.bounded c.side c.id ref at,
    entries-none max_channels c.id ref s.request_channel,
    entries-none max_channels c.id ref s.response_channel,
  )
    where
      at : slot s c.side c.id ≡ some ref
      at = v.open_registered ref c h is_open
