-- ===== src/Types/Status.antt =====
-- The statuses that the code returns, and the macros of servercc/types/include/macros.h.
-- A status is read through its code and its message only.
use Prim.Native.String.{◌++◌ as ◌<>◌}
use servercc.Common.{String, Bool, true, false}

-- The codes that the code names.
pub data StatusCode : Type 0 where
  ok invalid_argument deadline_exceeded not_found already_exists failed_precondition : StatusCode
  internal unimplemented : StatusCode

pub record Status : Type 0 where
  pub code : StatusCode
  pub message : String

abbrev pub ok_status : Status
ok_status = record { code = ok; message = "" }

abbrev pub error : StatusCode → String → Status
error c text = record { code = c; message = text }

abbrev pub is_ok_code : StatusCode → Bool
is_ok_code ok = true
is_ok_code _ = false

abbrev pub is_ok : Status → Bool
is_ok s = is_ok_code s.code

-- The status that `ASSERT_OK` and `ASSERT_OK_AND_ASSIGN` return for a failed one.
abbrev pub with_context : String → Status → Status
with_context context s = record s { message = ◌<>◌ context (◌<>◌ ": " s.message) }
