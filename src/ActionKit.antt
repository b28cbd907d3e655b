-- ===== src/ActionKit.antt =====
-- The types of the action kit's interface that the actions fill and read, with the fields that the
-- program names; and the conversions of the extension kit, which are parameters.
use extension_container.Common.{ℕ, String, Bool, Option, List}
use extension_container.Common.Int.{ℤ}
use extension_container.Common.Dicts.{Dict}

pub data Level : Type 0 where
  info warn error : Level

pub record Message : Type 0 where
  pub level : Level
  pub message : String

pub data ErrorStatus : Type 0 where
  failed errored : ErrorStatus

pub record ActionKitError : Type 0 where
  pub title : String
  pub status : ErrorStatus
  pub detail : Option String

pub record PrepareResult : Type 0 where
  pub messages : List Message
  pub error : Option ActionKitError

pub record StatusResult : Type 0 where
  pub completed : Bool
  pub messages : List Message
  pub error : Option ActionKitError
  pub summary : Option String  -- its level is always a warning

-- `StartResult` and `StopResult` hold messages only.
abbrev pub Messages : Type 0
Messages = List Message

abbrev pub info_message : String → Message
info_message s = record { level = info; message = s }

pub record RestrictedEndpoint : Type 0 where
  pub name : String
  pub url : String
  pub cidr : String
  pub port_min : ℕ
  pub port_max : ℕ

pub record ExecutionContext : Type 0 where
  pub experiment_key : Option String
  pub execution_id : Option ℕ
  pub restricted_endpoints : Option (List RestrictedEndpoint)

-- The values of an `any` of the request's configuration: their type, the functions of `extutil`
-- on them (an absent key reads as a nil `any`), and Go's assertions `.(string)`, `.(float64)` with
-- the conversion of the float to an int; `none` is the panic of an assertion that fails.
pub record Values : Type 1 where
  pub Value : Type 0
  pub to_bool : Option Value → Bool
  pub to_int : Option Value → ℤ
  pub to_int64 : Option Value → ℤ
  pub to_uint : Option Value → ℕ
  pub to_string : Option Value → String
  pub to_string_array : Option Value → List String
  pub assert_string : Option Value → Option String
  pub assert_float_as_int : Option Value → Option ℤ
  pub format_s : Option Value → String  -- the verb %s of `fmt`

-- `PrepareActionRequestBody`.
pub record Request (V : Type 0) : Type 0 where
  pub target_attributes : Dict (List String)
  pub execution_id : String
  pub config : Dict V
  pub execution_context : Option ExecutionContext
