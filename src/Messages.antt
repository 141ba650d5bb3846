-- ===== src/Messages.antt =====
-- The messages of common/proto/operation.proto and common/proto/common.proto that the modelled
-- code sends or receives. An enumeration of proto3 is open: `unknown` is any other number.
use spheromone.Prelude.{ℕ, Bool, false, List, []}
use spheromone.Text.{Text}
use spheromone.Common.Key.{BucketKeyAddress}
use spheromone.Trigger.Types.{PrimitiveType}

pub data KvsError : Type 0 where
  success bucket_ne key_ne session_ne kvs_nd type_nm bucket_exist req_timeout : KvsError

pub data DependencyType : Type 0 where
  direct many_to_one k_out_of_n periodic : DependencyType
  unknown : ℕ → DependencyType

pub record DataDependency : Type 0 where
  pub type : DependencyType
  pub src_functions : List Text
  pub tgt_functions : List Text
  pub description : Text

pub record AppRegistration : Type 0 where
  pub app_name : Text
  pub functions : List Text
  pub dependencies : List DataDependency

pub record Argument : Type 0 where
  pub body : Text
  pub arg_flag : ℕ
  pub data_address : Text

pub record FunctionRequest : Type 0 where
  pub name : Text
  pub arguments : List Argument

pub record FunctionCall : Type 0 where
  pub app_name : Text
  pub requests : List FunctionRequest
  pub source : Text
  pub request_id : Text
  pub resp_address : Text
  pub session_id : Text
  pub sync_data_status : Bool

abbrev pub empty_call : FunctionCall
empty_call = record {
  app_name = [];
  requests = [];
  source = [];
  request_id = [];
  resp_address = [];
  session_id = [];
  sync_data_status = false;
}

pub record FunctionCallResponse : Type 0 where
  pub app_name : Text
  pub request_id : Text
  pub output : Text
  pub error_no : ℕ

pub data BucketOperationType : Type 0 where
  create_bucket delete_bucket : BucketOperationType
  unknown : ℕ → BucketOperationType

pub record BucketOperationRequest : Type 0 where
  pub operation_type : BucketOperationType
  pub app_name : Text
  pub bucket_name : Text
  pub request_id : Text
  pub response_address : Text

pub record BucketOperationResponse : Type 0 where
  pub operation_type : BucketOperationType
  pub bucket_name : Text
  pub response_id : Text
  pub error : KvsError

pub data TriggerOperationType : Type 0 where
  add_trigger delete_trigger : TriggerOperationType
  unknown : ℕ → TriggerOperationType

pub record RerunHint : Type 0 where
  pub source_function : Text
  pub source_key : Text
  pub timeout : ℕ

pub record TriggerOperationRequest : Type 0 where
  pub operation_type : TriggerOperationType
  pub app_name : Text
  pub bucket_name : Text
  pub trigger_name : Text
  pub trigger_option : ℕ
  pub primitive_type : PrimitiveType
  pub primitive : Text
  pub request_id : Text
  pub response_address : Text
  pub hints : List RerunHint

pub record TriggerOperationResponse : Type 0 where
  pub operation_type : TriggerOperationType
  pub bucket_name : Text
  pub trigger_name : Text
  pub response_id : Text
  pub error : KvsError

pub record TriggerEntity : Type 0 where
  pub bucket_name : Text
  pub trigger_name : Text
  pub trigger_option : ℕ
  pub primitive_type : PrimitiveType
  pub primitive : Text
  pub session : Text
  pub hints : List RerunHint

abbrev pub empty_entity : TriggerEntity
empty_entity = record {
  bucket_name = [];
  trigger_name = [];
  trigger_option = 0;
  primitive_type = PrimitiveType.immediate;
  primitive = [];
  session = [];
  hints = [];
}

pub record UpdateCoordMsg : Type 0 where
  pub ip : Text
  pub thread_id : ℕ
  pub app_name : Text
  pub functions : List Text
  pub dependencies : List DataDependency
  pub triggers : List TriggerEntity
  pub msg_type : ℕ

abbrev pub empty_update : UpdateCoordMsg
empty_update = record {
  ip = [];
  thread_id = 0;
  app_name = [];
  functions = [];
  dependencies = [];
  triggers = [];
  msg_type = 0;
}

pub record KeyQueryRequest : Type 0 where
  pub addresses : List BucketKeyAddress
  pub request_id : Text
  pub response_address : Text

pub record KeyQueryResponse : Type 0 where
  pub addresses : List BucketKeyAddress
  pub response_id : Text
  pub error : KvsError

pub record KeyNotifyRequest : Type 0 where
  pub addresses : List BucketKeyAddress
  pub active_trigger_names : List Text
  pub request_id : Text
  pub response_address : Text

pub record UpdateStatusMessage : Type 0 where
  pub ip : Text
  pub avail_executors : ℕ
  pub functions : List Text

-- A message handed to the socket of an address, before protobuf writes it as bytes.
pub data Body : Type 0 where
  bucket_response : BucketOperationResponse → Body
  trigger_response : TriggerOperationResponse → Body
  update_coord : UpdateCoordMsg → Body
  key_query : KeyQueryRequest → Body
  key_query_response : KeyQueryResponse → Body
  function_call : FunctionCall → Body
  function_call_response : FunctionCallResponse → Body
  key_notify : KeyNotifyRequest → Body
  status_update : UpdateStatusMessage → Body

pub record Sent : Type 0 where
  pub to : Text
  pub body : Body
