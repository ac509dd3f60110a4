-- ===== src/Llm/Bounds.antt =====
-- What the bounded read keeps of a response.
use self_imp_bin_eval.Base.{
  ◌≡◌, refl, ap, subst, sym, inl, inr, Option-cases, Bool-cases, ℕ, suc, zero, ◌+◌, ◌^◌, ◌≤◌, true,
  false, List, [], ◌∷◌, length, none, some, ◌↔◌, arith, ltb, if◌then◌else◌,
}
use self_imp_bin_eval.Base.Int.{pos, ◌+ℤ◌, wrap64-add}
use self_imp_bin_eval.Llm.Bounded.{take, Body, Read, cut, read_bounded_response}

abbrev min : ℕ → ℕ → ℕ
min m n = if ltb m n then m else n

length-take {ℓ} : {A : Type ℓ} (n : ℕ) (xs : List A) → length (take n xs) ≡ min n (length xs)
length-take zero xs = ground arith
length-take (suc n) [] = ground arith
length-take (suc n) (x ∷ xs) = ground (arith, length-take n xs)

take_of_short {ℓ} : {A : Type ℓ} (n : ℕ) (xs : List A) → length xs ≤ n → take n xs ≡ xs
take_of_short zero [] h = refl
take_of_short zero (x ∷ xs) h = absurd (omega arith)
take_of_short (suc n) [] h = refl
take_of_short (suc n) (x ∷ xs) h = ap (λ ys. x ∷ ys) (take_of_short n xs (omega arith))

take-take {ℓ} : {A : Type ℓ} (n : ℕ) (xs : List A) → take n (take (suc n) xs) ≡ take n xs
take-take zero xs = refl
take-take (suc n) [] = refl
take-take (suc n) (x ∷ xs) = ap (λ ys. x ∷ ys) (take-take n xs)

-- What a read of a body under a limit gives.
pub record IsBounded (body : Body) (limit : ℕ) (read : Read) : Type 0 where
  pub kept : length read.kept ≤ limit
  pub observed : read.observed ≡ pos (min (suc limit) (length body.bytes))
  pub truncated : (read.truncated ≡ true) ↔ (suc limit ≤ length body.bytes)
  pub complete : read.truncated ≡ true → read.error ≡ none
  pub whole : read.truncated ≡ false → read.error ≡ none → read.kept ≡ body.bytes
  pub start : read.error ≡ none → read.kept ≡ take limit body.bytes
  pub error : length body.bytes ≤ limit → read.error ≡ body.broken

read_truncated-IsBounded :
    (limit : ℕ) (body : Body) (r : Read)
    → suc limit ≤ length body.bytes
    → r ≡ record {
      kept = take limit body.bytes;
      observed = pos (suc limit);
      truncated = true;
      error = none;
    }
    → IsBounded body limit r
read_truncated-IsBounded limit body r h e = subst (IsBounded body limit) (sym e) (record {
  kept = ground (arith, length-take limit body.bytes);
  observed = ap pos (ground arith);
  truncated = (λ t. h, λ t. refl);
  complete = λ t. refl;
  whole = λ t. absurd cc;
  start = λ t. refl;
  error = λ t. absurd (omega arith);
})

read_whole-IsBounded :
    (limit : ℕ) (body : Body) (r : Read)
    → length body.bytes ≤ limit
    → r ≡ cut (pos limit) (body.bytes, body.broken)
    → IsBounded body limit r
read_whole-IsBounded limit body r h e = elim (Option-cases body.broken) [
  | inl n ↦
      let same : r ≡ record {
        kept = body.bytes;
        observed = pos (length body.bytes);
        truncated = false;
        error = none;
      } =
        ground (arith, e, n) in
      subst (IsBounded body limit) (sym same) (record {
        kept = h;
        observed = ap pos (ground arith);
        truncated = (λ t. absurd cc, λ t. absurd (omega arith));
        complete = λ t. refl;
        whole = λ t u. refl;
        start = λ t. sym (take_of_short limit body.bytes h);
        error = λ t. sym n;
      })
  | inr (m, n) ↦
      let same : r ≡ record {
        kept = [];
        observed = pos (length body.bytes);
        truncated = false;
        error = some m;
      } =
        ground (arith, e, n) in
      subst (IsBounded body limit) (sym same) (record {
        kept = omega arith;
        observed = ap pos (ground arith);
        truncated = (λ t. absurd cc, λ t. absurd (omega arith));
        complete = λ t. absurd cc;
        whole = λ t u. absurd cc;
        start = λ t. absurd cc;
        error = λ t. sym n;
      })
]

-- Under a positive limit, the read keeps at most that many bytes and counts at most one more. It is
-- truncated exactly if the body is longer than the limit, and then the start of the body is kept; if
-- not, the body is kept whole unless it broke off.
pub read_bounded_response-IsBounded :
    (body : Body) (limit : ℕ)
    → 1 ≤ limit
    → limit + 2 ≤ 2 ^ 63
    → IsBounded body limit (read_bounded_response body (pos limit))
unfolding read_bounded_response ◌+ℤ◌
read_bounded_response-IsBounded body limit h bound =
    let w = wrap64-add limit 1 (omega arith) in
    let l = length-take (suc limit) body.bytes in
    let t = take-take limit body.bytes in
    elim (Bool-cases (ltb limit (length body.bytes))) [
      | inl long ↦ read_truncated-IsBounded limit body _ (ground arith) (ground (arith, w, l, t))
      | inr short ↦
          let fits : length body.bytes ≤ limit = ground arith in
          read_whole-IsBounded limit body _ fits
            (ground (arith, w, take_of_short (suc limit) body.bytes (omega arith)))
    ]
