-- ===== src/Aggregation/Commitment.antt =====
-- The commitments of the aggregation mode: those of the client, crates/sdk/src/aggregation_layer/types.rs,
-- those of the programs, aggregation_mode/aggregation_programs, and the hash of a parent node.
use aligned_layer.Prelude.{
  ℕ, ◌/◌, ◌%◌, ◌^◌, Bool, true, false, List, [], ◌∷◌, ◌++◌, ltb, ◌==◌, if◌then◌else◌, Result, ok,
  err,
}

pub data AggregationModeProvingSystem : Type 0 where
  sp1 risc0 : AggregationModeProvingSystem

-- `AggregationModeProvingSystem::as_u16`
abbrev pub as_u16 : AggregationModeProvingSystem → ℕ
as_u16 sp1 = 1
as_u16 risc0 = 2

-- `u16::to_be_bytes`
abbrev pub u16_to_be_bytes : ℕ → List ℕ
u16_to_be_bytes n = n / 256 % 256 ∷ n % 256 ∷ []

-- `u32::to_be_bytes`
abbrev pub u32_to_be_bytes : ℕ → List ℕ
u32_to_be_bytes n = n / 256 ^ 3 % 256 ∷ n / 256 ^ 2 % 256 ∷ n / 256 % 256 ∷ n % 256 ∷ []

unfoldable pub id_bytes : AggregationModeProvingSystem → List ℕ
id_bytes system = u16_to_be_bytes (as_u16 system)

-- `TryFrom<u8>`
unfoldable pub try_from : ℕ → Result AggregationModeProvingSystem (Unit {0})
try_from v = if v == 0 then ok sp1 else if v == 1 then ok risc0 else err tt

pub data AggregationModeVerificationData : Type 0 where
  sp1_data risc0_data : (program_id public_inputs : List ℕ) → AggregationModeVerificationData

-- `AggregationModeVerificationData::commitment`
unfoldable pub data_commitment : (List ℕ → List ℕ) → AggregationModeVerificationData → List ℕ
data_commitment keccak256 (sp1_data vk public_inputs) =
    keccak256 (id_bytes sp1 ++ vk ++ public_inputs)
data_commitment keccak256 (risc0_data image_id public_inputs) =
    keccak256 (id_bytes risc0 ++ image_id ++ public_inputs)

-- What a program of SP1 is given of a proof: the words of the verification key.
pub record Sp1VkAndPubInputs : Type 0 where
  pub vk : List ℕ
  pub public_inputs : List ℕ

pub record Risc0ImageIdAndPubInputs : Type 0 where
  pub image_id : List ℕ
  pub public_inputs : List ℕ

-- The bytes of the words, one after the other.
abbrev pub words_to_be_bytes : List ℕ → List ℕ
words_to_be_bytes [] = []
words_to_be_bytes (word ∷ words) = u32_to_be_bytes word ++ words_to_be_bytes words

-- `SP1VkAndPubInputs::commitment`
unfoldable pub sp1_commitment : (List ℕ → List ℕ) → Sp1VkAndPubInputs → List ℕ
sp1_commitment keccak256 d =
    keccak256 (u16_to_be_bytes 1 ++ words_to_be_bytes d.vk ++ d.public_inputs)

-- `Risc0ImageIdAndPubInputs::commitment`; the bytes of the image are hashed one by one.
unfoldable pub risc0_commitment : (List ℕ → List ℕ) → Risc0ImageIdAndPubInputs → List ℕ
risc0_commitment keccak256 d = keccak256 (u16_to_be_bytes 2 ++ d.image_id ++ d.public_inputs)

-- `child_1 < child_2`: the order of the first bytes that differ.
abbrev pub bytes_lt : List ℕ → List ℕ → Bool
bytes_lt [] [] = false
bytes_lt [] (_ ∷ _) = true
bytes_lt (_ ∷ _) [] = false
bytes_lt (a ∷ xs) (b ∷ bs) = let rest = bytes_lt xs bs in if a == b then rest else ltb a b

-- `hash_new_parent`, the same in each of the backends.
unfoldable pub hash_new_parent : (List ℕ → List ℕ) → List ℕ → List ℕ → List ℕ
hash_new_parent keccak256 child_1 child_2 =
    if bytes_lt child_1 child_2
    then keccak256 (child_1 ++ child_2)
    else keccak256 (child_2 ++ child_1)
