-- ===== src/Types/Memory.antt =====
-- The memory operations that servercc/types uses: `memcpy` into and out of a vector of bytes,
-- `resize`, and the images of copyable values. Words are stored least significant byte first.
pub mod Bounds
use servercc.Common.{
  ℕ, zero, suc, ◌+◌, ◌-◌, ◌*◌, ◌/◌, ◌%◌, ◌^◌, ◌<◌, ◌≡◌, refl, Bool, true, List, [], ◌∷◌, ◌++◌,
  Outcome, done, undefined, arith, length, get_or, take, drop, All, ltb, leb, if◌then◌else◌, ltb→lt,
}

abbrev pub IsByte : ℕ → Type 0
IsByte b = b < 256

-- `memcpy(target, data.data() + offset, n)`
unfoldable pub copy_from : List ℕ → ℕ → ℕ → Outcome (List ℕ)
copy_from data_bytes offset n =
    if leb (offset + n) (length data_bytes)
    then done (take n (drop offset data_bytes))
    else undefined

-- `memcpy(data.data() + offset, source, length source)`
unfoldable pub copy_into : List ℕ → ℕ → List ℕ → Outcome (List ℕ)
copy_into data_bytes offset source =
    if leb (offset + length source) (length data_bytes)
    then done (take offset data_bytes ++ (source ++ drop (offset + length source) data_bytes))
    else undefined

-- `data.resize(n)`. It is also what a zeroed buffer of `n` bytes holds after the given bytes have
-- been stored at its start.
unfoldable pub resize : ℕ → List ℕ → List ℕ
resize zero bs = []
resize (suc n) [] = 0 ∷ resize n []
resize (suc n) (b ∷ bs) = b ∷ resize n bs

abbrev pub word32_bytes : ℕ → List ℕ
word32_bytes w = w % 256 ∷ w / 256 % 256 ∷ w / 65536 % 256 ∷ w / 16777216 % 256 ∷ []

abbrev pub word32_of_bytes : List ℕ → ℕ
word32_of_bytes bs =
    get_or bs 0 0 + 256 * get_or bs 1 0 + 65536 * get_or bs 2 0 + 16777216 * get_or bs 3 0

abbrev pub word16_bytes : ℕ → List ℕ
word16_bytes w = w % 256 ∷ w / 256 % 256 ∷ []

abbrev pub word16_of_bytes : List ℕ → ℕ
word16_of_bytes bs = get_or bs 0 0 + 256 * get_or bs 1 0

-- A type that may be copied byte by byte.
pub record Copyable (T : Type 0) : Type 0 where
  pub size : ℕ
  pub is_value : T → Bool
  pub bytes : T → List ℕ
  pub of_bytes : List ℕ → T
  pub length-bytes : (v : T) → length (bytes v) ≡ size
  pub of_bytes-bytes : (v : T) → is_value v ≡ true → of_bytes (bytes v) ≡ v
  pub bytes-of_bytes : (bs : List ℕ) → length bs ≡ size → All IsByte bs → bytes (of_bytes bs) ≡ bs

pub word32_of_bytes-word32_bytes : (w : ℕ) → w < 2 ^ 32 → word32_of_bytes (word32_bytes w) ≡ w
word32_of_bytes-word32_bytes w h = omega arith

pub word16_of_bytes-word16_bytes : (w : ℕ) → w < 2 ^ 16 → word16_of_bytes (word16_bytes w) ≡ w
word16_of_bytes-word16_bytes w h = omega arith

pub word32_bytes-word32_of_bytes :
    (bs : List ℕ) → length bs ≡ 4 → All IsByte bs → word32_bytes (word32_of_bytes bs) ≡ bs
word32_bytes-word32_of_bytes (a ∷ b ∷ c ∷ d ∷ []) e h = ground arith
word32_bytes-word32_of_bytes [] e h = absurd (omega arith)
word32_bytes-word32_of_bytes (a ∷ []) e h = absurd (omega arith)
word32_bytes-word32_of_bytes (a ∷ b ∷ []) e h = absurd (omega arith)
word32_bytes-word32_of_bytes (a ∷ b ∷ c ∷ []) e h = absurd (omega arith)
word32_bytes-word32_of_bytes (a ∷ b ∷ c ∷ d ∷ x ∷ r) e h = absurd (omega arith)

-- `uint32_t`
instance abbrev pub uint32 : Copyable ℕ
uint32 = record {
  size = 4;
  is_value = λ w. ltb w (2 ^ 32);
  bytes = word32_bytes;
  of_bytes = word32_of_bytes;
  length-bytes = λ w. refl;
  of_bytes-bytes = λ w h. word32_of_bytes-word32_bytes w (ltb→lt w _ h);
  bytes-of_bytes = word32_bytes-word32_of_bytes;
}
