-- ===== src/Llm.antt =====
-- internal/llm: the client of the model, and what it is asked.
pub mod Json
pub mod Schemas
pub mod Accepts
pub mod Prompts
pub mod Shapes
pub mod Outputs
pub mod Fitting
pub mod Bounded
pub mod Bounds
pub mod Stream
pub mod Answers
pub mod Meaning
pub mod Kept
pub mod Failures
pub mod Client
use self_imp_bin_eval.Base.{ℕ, ◌*◌, String, Bool, List, [], ◌∷◌}
use self_imp_bin_eval.Base.Int.{ℤ, pos}
use Prim.Native.Char.{code}

-- `[]byte`
abbrev pub Bytes : Type 0
Bytes = List ℕ

-- The bytes of a literal with ASCII characters.
abbrev pub ascii : String → Bytes
ascii String.[] = []
ascii (String.◌∷◌ c s) = code c ∷ ascii s

-- `8 << 20`
abbrev pub default_max_response_bytes : ℕ
default_max_response_bytes = 8388608

-- What is kept of a call of the model.
pub record Trace : Type 0 where
  pub request_body : Bytes
  pub response_body : Bytes
  pub http_status : ℤ
  pub response_bytes_read : ℤ
  pub response_truncated : Bool
