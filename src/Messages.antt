-- ===== src/Messages.antt =====
-- The messages between modules and services, and Source/src/ModuleMessageMakers.cpp. The message
-- types are generated from a `.proto` file of another repository; modelled are the fields that the
-- program sets and reads. A message field that is not set is `none`, and is read as its default.
-- `Any` stands for `google::protobuf::Any`.
use Prim.Native.String.{String}
use process_manager_module.Base.{ℕ, Option, none, some}

pub data OperationCode : Type 0 where
  module_request : OperationCode
  other_operation_code : ℕ → OperationCode

pub data ResponseCode : Type 0 where
  success : ResponseCode
  other_response_code : ℕ → ResponseCode

pub record Header : Type 0 where
  pub sender_identifier : ℕ  -- int32_t, as a bit pattern
  pub operation_code : OperationCode
  pub transaction_code : ℕ  -- uint32_t

pub record Message (Any : Type 0) : Type 0 where
  pub header : Option Header
  pub request : Option Any
  pub response : Option ResponseCode
  pub subscription_request : Option String

-- `message.header()`: the default instance of a header that is not set.
abbrev pub header_or_default : Option Header → Header
header_or_default none = record {
  sender_identifier = 0;
  operation_code = other_operation_code 0;
  transaction_code = 0;
}
header_or_default (some h) = h

module _ {Any : Type 0} where
  unfoldable pub make_request_message : ℕ → Any → ℕ → Message Any
  make_request_message module_identifier any transaction_code = record {
    header = some (record {
      sender_identifier = module_identifier;
      operation_code = module_request;
      transaction_code = transaction_code;
    });
    request = some any;
    response = none;
    subscription_request = none;
  }

  unfoldable pub make_subscription_request_message : ℕ → String → ℕ → Message Any
  make_subscription_request_message module_identifier subscribed_type transaction_code = record {
    header = some (record {
      sender_identifier = module_identifier;
      operation_code = module_request;
      transaction_code = transaction_code;
    });
    request = none;
    response = none;
    subscription_request = some subscribed_type;
  }

  -- The transaction code that the server reads from a message.
  abbrev pub transaction_code_of : Message Any → ℕ
  transaction_code_of m = (header_or_default m.header).transaction_code
