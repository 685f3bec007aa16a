-- ===== src/Model/Interface.antt =====
-- `Reject`, `QuorumSpec` and the trait `Model` of src/model/mod.rs.
use ph_reactor.Base.{ℕ, String, Option, none, List}
use ph_reactor.Base.Result.{Result, ok}
use ph_reactor.Json.{Value}
use ph_reactor.Doc.Data.{Doc, ModelRef, Op}
use ph_reactor.Action.{Action}

-- The text of a rejection: one constructor for each message, with what the message quotes.
pub data Why : Type 0 where
  requires_field field_empty : Why
  missing_payload payload_type : String → String → Why
  too_deep single_key : Why
  field_is : String → Value → Value → Why
  must_not_be : String → Value → Why
  field_absent field_present : String → Why
  not_in_list in_list : String → String → Why
  actor_is : String → String → Why
  unknown_check unsupported : String → Why
  needs_field needs_string : String → Why
  one_write : String → Why
  field_type : String → String → Why
  private_channel : String → Value → Why

pub data Reject : Type 0 where
  unknown_kind : String → Reject
  bad_payload : Why → Reject
  precondition : Why → Reject
  bad_state : Why → Reject

abbrev pub Check : Type 0
Check = Result Reject (Unit {0})

pub record QuorumSpec : Type 0 where
  pub group : String
  pub min : ℕ
  pub field : String

-- A model is a pure interpreter.
pub record Model : Type 0 where
  pub ref_ : ModelRef
  pub validate_payload : String → Value → Check
  pub check_precondition : Doc → Action → Check
  pub reduce : Doc → Action → Result Reject (List Op)
  pub check_state : Doc → Check
  pub authorize : Doc → Action → Check
  pub quorum : String → Option QuorumSpec
  pub requires_space_member : String → Option String
  pub definition : Option Value

-- The trait's default methods.
abbrev pub no_authorization : Doc → Action → Check
no_authorization state action = ok tt

abbrev pub no_quorum : String → Option QuorumSpec
no_quorum kind = none

abbrev pub no_space : String → Option String
no_space kind = none
