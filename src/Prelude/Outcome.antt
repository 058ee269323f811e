-- ===== src/Prelude/Outcome.antt =====
-- The outcome of running a piece of the program: it returns, it panics, or it waits for ever on
-- a lock that its own task holds.
use Prim.Native.Nat.{ℕ, ◌+◌, ◌-◌, ◌*◌, ◌%◌, ◌^◌, ◌≤◌, ◌<◌}
use mathlib.Core.Path.{◌≡◌, refl, ap}
use mathlib.Core.Option.{Option, none, some}
use native.Mathlib.Omega.{arith}
use aligned_layer.Prelude.Tests.{ltb, leb, if◌then◌else◌}

pub data Run {ℓ} (A : Type ℓ) : Type ℓ where
  done : A → Run A
  panic : Run A
  deadlock : Run A

infixl 5 ◌>>=◌ ◌>>◌
abbrev pub ◌>>=◌ {ℓ κ} : {A : Type ℓ} {B : Type κ} → Run A → (A → Run B) → Run B
done a >>= f = f a
panic >>= f = panic
deadlock >>= f = deadlock

abbrev pub ◌>>◌ {ℓ} : {B : Type ℓ} → Run (Unit {0}) → Run B → Run B
m >> k = m >>= λ _. k

-- `Option::unwrap`
abbrev pub unwrap {ℓ} : {A : Type ℓ} → Option A → Run A
unwrap none = panic
unwrap (some a) = done a

pub >>=-eq-done {ℓ κ} :
    {A : Type ℓ} {B : Type κ} (m : Run A) (f : A → Run B) {b : B}
    → (m >>= f) ≡ done b
    → (a : A) × (m ≡ done a) × (f a ≡ done b)
>>=-eq-done (done a) f h = (a, refl, h)
>>=-eq-done panic f h = cc
>>=-eq-done deadlock f h = cc

-- `Result<A, E>`
pub data Result {ℓ κ} (A : Type ℓ) (E : Type κ) : Type (ℓ ⊔ κ) where
  ok : A → Result A E
  err : E → Result A E

-- `Result::map_err`
abbrev pub map_err {ℓ κ μ} :
    {A : Type ℓ} {E : Type κ} {F : Type μ} → (E → F) → Result A E → Result A F
map_err f (ok a) = ok a
map_err f (err e) = err (f e)

-- `Option::ok_or`
abbrev pub ok_or {ℓ κ} : {A : Type ℓ} {E : Type κ} → E → Option A → Result A E
ok_or e none = err e
ok_or e (some a) = ok a

-- `U256` and `u128` hold 256 and 128 bits, `usize` 64. The operators of `U256` panic out of range;
-- those of the machine integers wrap around, as in a release build.
abbrev pub u256_mod : ℕ
u256_mod = 2 ^ 256

abbrev pub u128_mod : ℕ
u128_mod = 2 ^ 128

abbrev pub usize_mod : ℕ
usize_mod = 2 ^ 64

abbrev pub u256_max : ℕ
u256_max = 2 ^ 256 - 1

abbrev pub u256_add : ℕ → ℕ → Run ℕ
u256_add a b = if ltb (a + b) u256_mod then done (a + b) else panic

abbrev pub u256_sub : ℕ → ℕ → Run ℕ
u256_sub a b = if leb b a then done (a - b) else panic

abbrev pub u256_mul : ℕ → ℕ → Run ℕ
u256_mul a b = if ltb (a * b) u256_mod then done (a * b) else panic

abbrev pub usize_add : ℕ → ℕ → ℕ
usize_add a b = (a + b) % usize_mod

abbrev pub usize_sub : ℕ → ℕ → ℕ
usize_sub a b = (a + usize_mod - b) % usize_mod

pub done-injective {ℓ} : {A : Type ℓ} {a b : A} → done a ≡ done b → a ≡ b
done-injective {a = a} e = ap (λ m. elim m [ done x ↦ x | _ ↦ a ]) e

-- What a checked operation returned, and why it could.
pub u256_add-eq-done : (a b c : ℕ) → u256_add a b ≡ done c → (c ≡ a + b) × (a + b < u256_mod)
u256_add-eq-done a b c h = ground arith

pub u256_sub-eq-done : (a b c : ℕ) → u256_sub a b ≡ done c → (c ≡ a - b) × (b ≤ a)
u256_sub-eq-done a b c h = ground arith

pub u256_mul-eq-done : (a b c : ℕ) → u256_mul a b ≡ done c → (c ≡ a * b) × (a * b < u256_mod)
u256_mul-eq-done a b c h = ground arith
