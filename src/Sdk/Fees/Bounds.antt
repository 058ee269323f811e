-- ===== src/Sdk/Fees/Bounds.antt =====
-- The estimate of a fee against the size of the batch.
use native.Mathlib.Nat.{
  add-mul-div_right, le-div_iff_mul-le, div-mul-le_self, mul-le-mul, mul-le-mul_left,
}
use aligned_layer.Prelude.{
  ℕ, ◌+◌, ◌*◌, ◌/◌, ◌%◌, ◌≤◌, ◌<◌, ◌≡◌, ap, ◌∙◌, arith, ◌==◌, done, panic, ◌>>=◌, u128_mod,
  usize_mod, u256_mul, if◌then◌else◌,
}
use aligned_layer.Sdk.Constants.{
  default_constant_gas_cost, additional_submission_gas_cost_per_proof,
  gas_price_percentage_multiplier, percentage_divider,
}
use aligned_layer.Sdk.Fees.{calculate_fee_per_proof_with_gas_price}

-- The gas of each proof of a batch of `n`.
abbrev pub gas_share : ℕ → ℕ
gas_share n = default_constant_gas_cost / n + additional_submission_gas_cost_per_proof

pub gas_share_lem :
    (n : ℕ)
    → 0 < n
    → n < usize_mod
    → (default_constant_gas_cost + additional_submission_gas_cost_per_proof * n % u128_mod)
        % u128_mod
        / n
      ≡ gas_share n
gas_share_lem n h k =
    let whole : (default_constant_gas_cost
            + additional_submission_gas_cost_per_proof * n % u128_mod)
          % u128_mod
        ≡ default_constant_gas_cost + additional_submission_gas_cost_per_proof * n =
      omega arith in
    ap (λ gas. gas / n) whole
    ∙ add-mul-div_right default_constant_gas_cost additional_submission_gas_cost_per_proof h

-- A larger batch has a smaller share.
pub gas_share_falls : (n m : ℕ) → 0 < n → n ≤ m → gas_share m ≤ gas_share n
gas_share_falls n m h k =
    let c = default_constant_gas_cost in
    let fits : c / m * n ≤ c = omega (arith, mul-le-mul_left (c / m) k, div-mul-le_self c m) in
    omega (arith, (le-div_iff_mul-le h).1 fits)

value_of :
    (n share gas_price fee : ℕ)
    → (if n == 0
        then panic
        else u256_mul share gas_price >>= λ gas_fee.
            u256_mul gas_fee gas_price_percentage_multiplier >>= λ product.
            done (product / percentage_divider))
      ≡ done fee
    → (0 < n) × (fee ≡ share * gas_price * 110 / 100)
value_of n share gas_price fee h = ground arith

-- What the estimate is, where nothing overflows.
pub estimate_value :
    (n gas_price fee : ℕ)
    → n < usize_mod
    → calculate_fee_per_proof_with_gas_price n gas_price ≡ done fee
    → (0 < n) × (fee ≡ gas_share n * gas_price * 110 / 100)
unfolding calculate_fee_per_proof_with_gas_price
estimate_value n gas_price fee k h =
    let gas : ℕ =
      (default_constant_gas_cost + additional_submission_gas_cost_per_proof * n % u128_mod)
      % u128_mod in
    let (pos, e) = value_of n (gas / n) gas_price fee h in
    (pos, e ∙ ap (λ share. share * gas_price * 110 / 100) (gas_share_lem n pos k))

-- If two estimates at the same gas price are computed for numbers of proofs that fit a `usize`,
-- then the estimate for the larger number is not higher.
pub calculate_fee_per_proof_with_gas_price-antitone :
    (n m gas_price : ℕ) {fee_n fee_m : ℕ}
    → n ≤ m
    → m < usize_mod
    → calculate_fee_per_proof_with_gas_price n gas_price ≡ done fee_n
    → calculate_fee_per_proof_with_gas_price m gas_price ≡ done fee_m
    → fee_m ≤ fee_n
calculate_fee_per_proof_with_gas_price-antitone n m gas_price {fee_n} {fee_m} le k hn hm =
    let (pos, en) = estimate_value n gas_price fee_n (omega arith) hn in
    let (_, em) = estimate_value m gas_price fee_m k hm in
    let share : gas_share m * gas_price ≤ gas_share n * gas_price =
      mul-le-mul (gas_share_falls n m pos le) (omega arith) in
    omega (arith, en, em, share)
