-- ===== src/Llm/Bounded.antt =====
-- internal/llm/client.go: readBoundedResponse.
use self_imp_bin_eval.Base.{
  ℕ, suc, zero, Bool, true, false, if◌then◌else◌, List, [], ◌∷◌, length, Option, none, some,
}
use self_imp_bin_eval.Base.Int.{ℤ, pos, ◌+ℤ◌, pos_part, leb_ℤ, ltb_ℤ, wrap64}
use self_imp_bin_eval.Errors.{Message}
use self_imp_bin_eval.Llm.{Bytes, default_max_response_bytes}

abbrev pub take {ℓ} : {A : Type ℓ} → ℕ → List A → List A
take zero xs = []
take (suc n) [] = []
take (suc n) (x ∷ xs) = x ∷ take n xs

-- What a body yields: its bytes, and after the last of them an error if it breaks off.
pub record Body : Type 0 where
  pub bytes : Bytes
  pub broken : Option Message

-- `io.ReadAll(io.LimitReader(r, n))`: the error is met only by a read after the last byte, which is
-- made only while fewer than `n` bytes were read.
abbrev pub read_at_most : ℤ → Body → Bytes × Option Message
read_at_most n body =
    (take (pos_part n) body.bytes, if ltb_ℤ (pos (length body.bytes)) n then body.broken else none)

-- The four results.
pub record Read : Type 0 where
  pub kept : Bytes
  pub observed : ℤ
  pub truncated : Bool
  pub error : Option Message

abbrev pub cut : ℤ → Bytes × Option Message → Read
cut limit (read, some e) = record {
  kept = [];
  observed = pos (length read);
  truncated = false;
  error = some e;
}
cut limit (read, none) =
    if ltb_ℤ limit (pos (length read))
    then record {
      kept = take (pos_part limit) read;
      observed = pos (length read);
      truncated = true;
      error = none;
    }
    else record { kept = read; observed = pos (length read); truncated = false; error = none }

abbrev pub limit_or_default : ℤ → ℤ
limit_or_default limit = if leb_ℤ limit (pos 0) then pos default_max_response_bytes else limit

unfoldable pub read_bounded_response : Body → ℤ → Read
read_bounded_response body limit =
    let l = limit_or_default limit in cut l (read_at_most (wrap64 (l +ℤ pos 1)) body)
