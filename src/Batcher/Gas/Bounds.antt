-- ===== src/Batcher/Gas/Bounds.antt =====
-- Bounds on the prices and fees that the batcher pays.
use native.Mathlib.Nat.{div-le_self}
use aligned_layer.Prelude.{
  ℕ, suc, ◌+◌, ◌*◌, ◌/◌, ◌%◌, ◌^◌, ◌≤◌, ◌<◌, ◌≡◌, refl, Bool, true, ◌&&◌, Option, none, some, List,
  [], ◌∷◌, arith, ltb, leb, done, >>=-eq-done, done-injective, le→leb, ne→eqb, u256_mul, u256_add,
  u256_add-eq-done, u256_mul-eq-done, if◌then◌else◌, u256_mod, u128_mod, subst,
}
use aligned_layer.Sdk.Constants.{
  gas_price_increment_percentage_per_iteration, override_gas_price_percentage_multiplier,
  additional_submission_gas_cost_per_proof, percentage_divider,
  respond_to_task_fee_limit_percentage_multiplier,
}
use aligned_layer.Batcher.Queue.{calculate_fee_per_proof}
use aligned_layer.Batcher.State.{Config, constant_gas_cost}
use aligned_layer.Batcher.Gas.{
  calculate_bumped_gas_price, cancel_prices, CreateNewTaskFeeParams, fee_params_of,
}

-- If the fees of a task are computed, then the fee for each proof is the one by which the queue
-- chooses a batch of that number at that gas price.
pub fee_params_of-calculate_fee_per_proof :
    (c : Config) (n gas_price : ℕ) (p : CreateNewTaskFeeParams)
    → fee_params_of c n gas_price ≡ done p
    → calculate_fee_per_proof n gas_price (constant_gas_cost c) ≡ done p.fee_per_proof
unfolding fee_params_of calculate_fee_per_proof
fee_params_of-calculate_fee_per_proof c n gas_price p h = ground arith

pub u256_mul-done : (a b : ℕ) → a * b < u256_mod → u256_mul a b ≡ done (a * b)
u256_mul-done a b h = ground arith

pub two_bound : (a g : ℕ) → a < 2 ^ 128 → g < 2 ^ 64 → a * g < 2 ^ 192
two_bound a g h k = grind arith

product_bound : (a b g : ℕ) → a < 2 ^ 128 → g < 2 ^ 64 → b < 2 ^ 62 → a * g * b < 2 ^ 254
product_bound a b g h k l = grind arith

pub fee_params_of_returns :
    (c : Config) (n gas_price : ℕ)
    → 0 < n
    → gas_price < 2 ^ 64
    → c.aggregator_gas_cost < 2 ^ 128
    → c.aggregator_fee_percentage_multiplier < 2 ^ 62
    → (p : CreateNewTaskFeeParams) × (fee_params_of c n gas_price ≡ done p)
      × (p.gas_price ≡ gas_price)
unfolding fee_params_of
fee_params_of_returns c n gas_price p h k l =
    let gas : ℕ =
      (constant_gas_cost c + additional_submission_gas_cost_per_proof * n % u128_mod) % u128_mod in
    let cost : c.aggregator_gas_cost * gas_price * c.aggregator_fee_percentage_multiplier
        < 2 ^ 254 =
      product_bound c.aggregator_gas_cost c.aggregator_fee_percentage_multiplier gas_price k h l in
    let gas_small : gas / n < 2 ^ 128 = omega (arith, div-le_self gas n) in
    let product = c.aggregator_gas_cost * gas_price * c.aggregator_fee_percentage_multiplier in
    (
      record {
        fee_for_aggregator = product / percentage_divider;
        fee_per_proof = gas / n * gas_price;
        gas_price = gas_price;
        respond_to_task_fee_limit =
            product / percentage_divider * respond_to_task_fee_limit_percentage_multiplier
            / percentage_divider;
      },
      rw
          (
            ne→eqb n 0 (λ e. omega arith),
            u256_mul-done (gas / n) gas_price
                (omega (arith, two_bound (gas / n) gas_price gas_small h)),
            u256_mul-done c.aggregator_gas_cost gas_price
                (omega (arith, two_bound c.aggregator_gas_cost gas_price k h)),
            u256_mul-done (c.aggregator_gas_cost * gas_price) c.aggregator_fee_percentage_multiplier
                (omega (arith, cost)),
            u256_mul-done (product / percentage_divider)
                respond_to_task_fee_limit_percentage_multiplier (omega (arith, cost)),
          )
          refl,
      refl,
    )

-- Each price is at least 120 percent of the one before it.
abbrev pub rises : ℕ → List ℕ → Bool
rises previous [] = true
rises previous (price ∷ prices) =
    leb (previous * 120 / percentage_divider) price && rises price prices

mul_mono : (a b c : ℕ) → b ≤ c → a * b ≤ a * c
mul_mono a b c h = grind arith

bumped :
    (previous current iteration price : ℕ)
    → calculate_bumped_gas_price previous current iteration ≡ done price
    → previous * 120 / percentage_divider ≤ price
unfolding calculate_bumped_gas_price
bumped previous current iteration price h =
    let (m, add, rest) =
      >>=-eq-done
        (u256_add override_gas_price_percentage_multiplier
          (gas_price_increment_percentage_per_iteration * iteration % 2 ^ 64))
        _ h in
    let (p, mul, rest') = >>=-eq-done (u256_mul previous m) _ rest in
    let (c, mul', fin) = >>=-eq-done (u256_mul current m) _ rest' in
    let higher : 120 ≤ m = omega (arith, (u256_add-eq-done _ _ m add).0) in
    let product : p ≡ previous * m = (u256_mul-eq-done previous m p mul).0 in
    let larger : previous * 120 ≤ p = omega (arith, product, mul_mono previous 120 m higher) in
    larger_price p c price (omega arith) (done-injective fin)
  where
    larger_price :
        (p c price : ℕ)
        → previous * 120 / percentage_divider ≤ p / percentage_divider
        → (if ltb (c / percentage_divider) (p / percentage_divider)
            then p / percentage_divider
            else c / percentage_divider)
          ≡ price
        → previous * 120 / percentage_divider ≤ price
    larger_price p c price l e = ground arith

-- If the prices of the attempts to cancel a transaction are computed, then each is at least 120
-- percent of the one before it, rounded down, and the first of the price of the transaction,
-- whatever the nodes answer in between.
pub cancel_prices_rise :
    (iteration previous : ℕ) (answers : List (Option ℕ)) {prices : List ℕ}
    → cancel_prices iteration previous answers ≡ done prices
    → rises previous prices ≡ true
unfolding cancel_prices
cancel_prices_rise iteration previous [] {prices} h =
    subst (λ ps. rises previous ps ≡ true) (done-injective h) refl
cancel_prices_rise iteration previous (none ∷ answers) h =
    cancel_prices_rise iteration previous answers h
cancel_prices_rise iteration previous (some current ∷ answers) {prices} h =
    let (price, run, rest) =
      >>=-eq-done (calculate_bumped_gas_price previous current iteration) _ h in
    let (others, run', fin) = >>=-eq-done (cancel_prices (suc iteration) price answers) _ rest in
    subst (λ ps. rises previous ps ≡ true) (done-injective fin)
      (rw (le→leb _ _ (bumped previous current iteration price run))
        (cancel_prices_rise (suc iteration) price answers run'))
