-- ===== src/Model.antt =====
-- src/controlplane/model.go: the records of the control plane and its state tables.
-- A `time.Time` is a number of nanoseconds; the values of `any` that the code stores are `Value`s.
pub mod BranchState
pub mod EndpointState
pub mod Transition
use sovereign_core.Prelude.{ℕ, Text, Dict, ℤ, Bool, Option}

pub record Org : Type 0 where
  pub id : Text
  pub name : Text
  pub region : Text
  pub kms_key_id : Text
  pub billing_id : Text
  pub plan : Text
  pub created_at : ℕ

pub record Membership : Type 0 where
  pub org_id : Text
  pub user_id : Text
  pub role : Text

pub record Project : Type 0 where
  pub id : Text
  pub org_id : Text
  pub name : Text
  pub region : Text
  pub root_branch : Text
  pub created_at : ℕ

pub record Branch : Type 0 where
  pub id : Text
  pub org_id : Text
  pub project_id : Text
  pub parent_id : Text
  pub state : Text
  pub created_at : ℕ

-- `F` is float64.
pub record Endpoint (F : Type 0) : Type 0 where
  pub id : Text
  pub org_id : Text
  pub branch_id : Text
  pub state : Text
  pub autoscale_min : F
  pub autoscale_max : F
  pub suspend_after_s : ℤ
  pub connection_uri : Text
  pub created_at : ℕ

-- What the code puts under the type `any` of Operation.Result.
pub data Value : Type 0 where
  text : Text → Value
  int : ℤ → Value
  bool : Bool → Value

pub record Operation : Type 0 where
  pub id : Text
  pub org_id : Text
  pub kind : Text
  pub status : Text
  pub result : Option (Dict Value)
  pub error : Text
  pub created : ℕ

pub record MeteringEvent (F : Type 0) : Type 0 where
  pub org_id : Text
  pub kind : Text
  pub value : F
  pub at : ℕ
