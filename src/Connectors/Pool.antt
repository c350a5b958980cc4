-- ===== src/Connectors/Pool.antt =====
-- What servercc/connectors/include/internal_channel_manager.h promises of the identifiers of request
-- channels: a set of free identifiers, from which one is lent to each channel that is created and to
-- which it returns when the channel is closed. In which order they are lent is left open: the free
-- list of the code is a representation of the set.
use mathlib.Core.Quot
use mathlib.Core.Quot.{Quot, Quot-set}
use mathlib.Core.Bool.{Bool-set}
use servercc.Common.{ℕ, ◌<◌, ◌≡◌, Bool, false, List, ◌∷◌, arith, contains}
use servercc.Connectors.Manager.{free_ids}

abbrev pub SameIds : List ℕ → List ℕ → Type 0
SameIds xs ys = (id : ℕ) → contains xs id ≡ contains ys id

abbrev pub Pool : Type 0
Pool = Quot SameIds

abbrev pub pool_of : List ℕ → Pool
pool_of xs = Quot.mk xs

unfoldable pub is_free : ℕ → Pool → Bool
is_free id = Quot.lift Bool-set (λ xs. contains xs id) (λ xs ys h. h id)

pub SameIds-cons : (id : ℕ) (xs ys : List ℕ) → SameIds xs ys → SameIds (id ∷ xs) (id ∷ ys)
SameIds-cons id xs ys h a = ground (arith, h a)

unfoldable pub add : ℕ → Pool → Pool
add id =
    Quot.lift Quot-set (λ xs. pool_of (id ∷ xs)) (λ xs ys h. Quot.sound (SameIds-cons id xs ys h))

-- The order in which identifiers are returned is not seen.
pub add_comm : (id id' : ℕ) (p : Pool) → add id (add id' p) ≡ add id' (add id p)
unfolding add
add_comm id id' = Quot.ind (λ p. Quot-set _ _) (λ xs. Quot.sound (λ a. ground arith))

-- An identifier is lent, or returned, or neither.
pub data PoolStep (capacity : ℕ) (p p' : Pool) : Type 0 where
  lends : (id : ℕ) → id < capacity → p ≡ add id p' → is_free id p' ≡ false → PoolStep capacity p p'
  returns : (id : ℕ) → id < capacity → is_free id p ≡ false → p' ≡ add id p → PoolStep capacity p p'
  keeps : p' ≡ p → PoolStep capacity p p'

-- The pools that a full one leads to.
pub data PoolReach (capacity : ℕ) : Pool → Type 0 where
  full : PoolReach capacity (pool_of (free_ids capacity))
  later : {p p' : Pool} → PoolReach capacity p → PoolStep capacity p p' → PoolReach capacity p'
