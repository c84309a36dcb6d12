-- ===== src/Http/Errors.antt =====
-- The error codes and the reply of writeError in internal/httpapi/errors.go; texts are left out.
use frp_easy.Prelude.{ℕ, String}

pub data ErrorCode : Type 0 where
  setup_required already_initialized unauthenticated csrf_failed rate_limited : ErrorCode
  validation_failed conflict not_found bin_missing proc_busy internal not_ready : ErrorCode

-- the status, the code and the field of a refusal
pub record Refusal : Type 0 where
  pub status : ℕ
  pub code : ErrorCode
  pub field : String

abbrev pub refusal : ℕ → ErrorCode → String → Refusal
refusal s c f = record { status = s; code = c; field = f }
