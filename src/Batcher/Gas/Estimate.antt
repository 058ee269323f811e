-- ===== src/Batcher/Gas/Estimate.antt =====
-- The estimate of the sdk (verification_layer/mod.rs) against the fee that a batch costs
-- (types/batch_queue.rs).
use native.Mathlib.Nat.{mul-le-mul, mul-le-mul_left, mul_assoc, div-mul-le_self, le-div_iff_mul-le}
use aligned_layer.Prelude.{
  ℕ, ◌+◌, ◌*◌, ◌/◌, ◌%◌, ◌≤◌, ◌<◌, ◌≡◌, ap, subst, ◌∙◌, arith, ◌==◌, done, panic, u128_mod,
  usize_mod, u256_mul, if◌then◌else◌,
}
use aligned_layer.Sdk.Constants.{
  default_constant_gas_cost, additional_submission_gas_cost_per_proof,
  gas_price_percentage_multiplier, percentage_divider,
}
use aligned_layer.Sdk.Fees.{calculate_fee_per_proof_with_gas_price}
use aligned_layer.Sdk.Fees.Bounds.{gas_share, gas_share_lem, gas_share_falls, estimate_value}
use aligned_layer.Batcher.Queue.{calculate_fee_per_proof}
use aligned_layer.Batcher.State.{Config, constant_gas_cost}

cost_of :
    (m share gas_price cost : ℕ)
    → (if m == 0 then panic else u256_mul share gas_price) ≡ done cost
    → (0 < m) × (cost ≡ share * gas_price)
cost_of m share gas_price cost h = ground arith

cost_value :
    (m gas_price cost : ℕ)
    → m < usize_mod
    → calculate_fee_per_proof m gas_price default_constant_gas_cost ≡ done cost
    → (0 < m) × (cost ≡ gas_share m * gas_price)
unfolding calculate_fee_per_proof
cost_value m gas_price cost k h =
    let gas : ℕ =
      (default_constant_gas_cost + additional_submission_gas_cost_per_proof * m % u128_mod)
      % u128_mod in
    let (pos, e) = cost_of m (gas / m) gas_price cost h in
    (pos, e ∙ ap (λ share. share * gas_price) (gas_share_lem m pos k))

-- To raise the price first rounds down more.
rounds_down : (share price : ℕ) → share * (price * 110 / 100) ≤ share * price * 110 / 100
rounds_down share price =
    let q = price * 110 / 100 in
    let low : q * 100 ≤ price * 110 = div-mul-le_self (price * 110) 100 in
    (le-div_iff_mul-le {k = 100} (omega arith)).1 (scaled share q price low)
  where
    scaled : (share q price : ℕ) → q * 100 ≤ price * 110 → share * q * 100 ≤ share * price * 110
    scaled share q price h =
        omega (arith, mul-le-mul_left share h, mul_assoc share q 100, mul_assoc share price 110)

-- If the batcher has the gas cost that the sdk assumes, the batch has at least the number of
-- proofs of the estimate and fits a `usize`, the gas price is not higher than the one of the
-- estimate, and both fees are computed, then the fee for each proof of the batch, at the gas
-- price that the batcher raises, is at most the estimate.
pub calculate_fee_per_proof_with_gas_price-covers :
    (c : Config) (n m price later : ℕ) {fee cost : ℕ}
    → constant_gas_cost c ≡ default_constant_gas_cost
    → n ≤ m
    → m < usize_mod
    → later ≤ price
    → calculate_fee_per_proof_with_gas_price n price ≡ done fee
    → calculate_fee_per_proof m
        (later * gas_price_percentage_multiplier / percentage_divider)
        (constant_gas_cost c)
      ≡ done cost
    → cost ≤ fee
calculate_fee_per_proof_with_gas_price-covers c n m price later {fee} {cost} std le k not_higher est
      made =
    let (pos, e) = estimate_value n price fee (omega arith) est in
    let (_, e') =
      cost_value m (later * 110 / 100) cost k
        (subst (λ g. calculate_fee_per_proof m (later * 110 / 100) g ≡ done cost) std made) in
    let shares : gas_share m * (later * 110 / 100) ≤ gas_share n * (price * 110 / 100) =
      mul-le-mul (gas_share_falls n m pos le) (omega arith) in
    omega (arith, e, e', shares, rounds_down (gas_share n) price)
