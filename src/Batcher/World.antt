-- ===== src/Batcher/World.antt =====
-- What the batcher needs from outside to post a batch: the packages, the nodes and the storage. A
-- question that is asked again at each attempt has an answer for each.
use Prim.Native.String.{String}
use aligned_layer.Prelude.{ℕ, Option, List, Result}
use aligned_layer.Sdk.Types.{VerificationData, BatchInclusionData}
use aligned_layer.Sdk.Merkle.{BatchTree}
use aligned_layer.Batcher.State.{Config, Answers}
use aligned_layer.Batcher.Gas.{CreateNewTaskFeeParams}
use aligned_layer.Batcher.Retry.{Backon, Asked, Call, Pending}

-- The arguments of `create_new_task` of the payment service.
pub record NewTask : Type 0 where
  pub batch_merkle_root : List ℕ
  pub batch_data_pointer : String
  pub proof_submitters : List ℕ
  pub fee_params : CreateNewTaskFeeParams

-- A bucket of the storage, the place that it is read from, and `s3::upload_object`.
pub record Bucket : Type 0 where
  pub download_endpoint : String
  pub upload_object : List ℕ → String → ℕ → Result (Unit {0}) String

pub record World : Type 1 where
  pub config : Config
  pub answers : Answers
  pub backon : Backon
  pub tree : BatchTree answers.keccak256
  -- `cbor_serialize`, of a batch and of an answer to a client.
  pub serialize_batch : List VerificationData → Result (List ℕ) String
  pub serialize_response : BatchInclusionData → Result (List ℕ) String
  -- `hex::encode`, and the text of bytes that a contract reverts with.
  pub encode : List ℕ → String
  pub to_string : List ℕ → String
  pub s3 : Bucket
  pub s3_secondary : Option Bucket
  pub gas_price : ℕ → Asked ℕ
  pub disabled_verifiers : Asked ℕ
  pub simulate_create_new_task : NewTask → ℕ → Call (Unit {0}) × Call (Unit {0})
  pub create_new_task : NewTask → ℕ → Call Pending × Call Pending
