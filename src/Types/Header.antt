-- ===== src/Types/Header.antt =====
-- servercc/types/include/message_header.h
use servercc.Common.{
  ℕ, ◌^◌, ◌<◌, ◌≡◌, refl, List, ◌++◌, ◌∙◌, ap₂, arith, length, take, drop, All, length-take,
  length-drop, take-append-drop,
}
use servercc.Types.Memory.{word32_bytes, word32_of_bytes, IsByte, word32_bytes-word32_of_bytes}
use servercc.Types.Memory.Bounds.{All-take, All-drop}

-- Two 32-bit words.
pub record MessageHeader : Type 0 where
  pub length : ℕ
  pub protocol : ℕ

abbrev pub message_header_length : ℕ
message_header_length = 8

-- The packed struct in memory.
unfoldable pub header_bytes : MessageHeader → List ℕ
header_bytes h = word32_bytes h.length ++ word32_bytes h.protocol

unfoldable pub header_of_bytes : List ℕ → MessageHeader
header_of_bytes bs = record {
  length = word32_of_bytes (take 4 bs);
  protocol = word32_of_bytes (drop 4 bs);
}

-- Both words are in the range of their type.
pub record IsHeader (h : MessageHeader) : Type 0 where
  pub length_fits : h.length < 2 ^ 32
  pub protocol_fits : h.protocol < 2 ^ 32

pub length-header_bytes : (h : MessageHeader) → length (header_bytes h) ≡ message_header_length
unfolding header_bytes
length-header_bytes h = refl

pub header_of_bytes-header_bytes :
    (h : MessageHeader) → IsHeader h → header_of_bytes (header_bytes h) ≡ h
unfolding header_of_bytes header_bytes
header_of_bytes-header_bytes h v = ground arith

pub header_bytes-header_of_bytes :
    (bs : List ℕ)
    → length bs ≡ message_header_length
    → All IsByte bs
    → header_bytes (header_of_bytes bs) ≡ bs
unfolding header_of_bytes header_bytes
header_bytes-header_of_bytes bs e h =
    ap₂ ◌++◌
      (word32_bytes-word32_of_bytes (take 4 bs) (omega (arith, length-take 4 bs))
        (All-take IsByte 4 bs h))
      (word32_bytes-word32_of_bytes (drop 4 bs) (omega (arith, length-drop 4 bs))
        (All-drop IsByte 4 bs h))
    ∙ take-append-drop 4 bs
