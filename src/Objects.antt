-- ===== src/Objects.antt =====
-- The objects that the packages cookbook/, filestore/, sandbox/, client/, user/,
-- node/, shovey/ and report/ keep in the data store, and the errors of gerror/error.go.
use goiardi.Base.{ℕ, Bool, Option, List}
use goiardi.Base.Text.{Text}
use goiardi.Base.Dict.{Dict}
use goiardi.Datastore.NilArrays.{Members, Items}

-- `[]map[string]interface{}`; `none` is the nil slice.
abbrev pub Division : Type 0
Division = Option (List Members)

pub record CookbookVersion : Type 0 where
  pub cookbook_name : Text
  pub name : Text
  pub version : Text
  pub chef_type : Text
  pub json_class : Text
  pub definitions : Division
  pub libraries : Division
  pub attributes : Division
  pub recipes : Division
  pub providers : Division
  pub resources : Division
  pub templates : Division
  pub root_files : Division
  pub files : Division
  pub is_frozen : Bool
  pub metadata : Members

-- `latest` is unexported. The fields `id` and `numVersions` serve the database only.
pub record Cookbook : Type 0 where
  pub name : Text
  pub versions : Dict Text CookbookVersion
  pub latest : Option CookbookVersion

-- `none` is the nil pointer.
pub record FileStore : Type 0 where
  pub chksum : Text
  pub data_bytes : Option Text

-- A time is its number of nanoseconds.
pub record Sandbox : Type 0 where
  pub id : Text
  pub creation_time : ℕ
  pub completed : Bool
  pub checksums : List Text

pub record Client : Type 0 where
  pub name : Text
  pub node_name : Text
  pub json_class : Text
  pub chef_type : Text
  pub validator : Bool
  pub orgname : Text
  pub pub_key : Text
  pub admin : Bool
  pub certificate : Text

pub record User : Type 0 where
  pub username : Text
  pub name : Text
  pub email : Text
  pub admin : Bool
  pub pub_key : Text
  pub passwd : Text
  pub salt : Option Text

-- `isDown` is unexported, so gob drops it.
pub record Node : Type 0 where
  pub name : Text
  pub chef_environment : Text
  pub run_list : List Text
  pub json_class : Text
  pub chef_type : Text
  pub automatic : Members
  pub normal : Members
  pub default : Members
  pub override : Members
  pub is_down : Bool

pub record NodeStatus : Type 0 where
  pub node : Node
  pub status : Text
  pub updated_at : ℕ

-- `Timeout` is a number of nanoseconds. The zero time is `none`.
pub record Shovey : Type 0 where
  pub run_id : Text
  pub node_names : List Text
  pub command : Text
  pub created_at : ℕ
  pub updated_at : ℕ
  pub status : Text
  pub timeout : ℕ
  pub quorum : Text

-- The field `ID` serves the database only.
pub record ShoveyRun : Type 0 where
  pub shovey_uuid : Text
  pub node_name : Text
  pub status : Text
  pub ack_time : Option ℕ
  pub end_time : Option ℕ
  pub error : Text
  pub exit_status : ℕ

pub record ShoveyRunStream : Type 0 where
  pub shovey_uuid : Text
  pub node_name : Text
  pub seq : ℕ
  pub output_type : Text
  pub output : Text
  pub is_last : Bool
  pub created_at : ℕ

-- The zero time is 0. `organizationID` is set to nothing else than 0.
pub record Report : Type 0 where
  pub run_id : Text
  pub start_time : ℕ
  pub end_time : ℕ
  pub total_res_count : ℕ
  pub status : Text
  pub run_list : Text
  pub resources : Items
  pub run_data : Members
  pub node_name : Text

-- What a stored `interface{}` holds.
pub data Object : Type 0 where
  a_cookbook : Cookbook → Object
  a_file : FileStore → Object
  a_sandbox : Sandbox → Object
  a_client : Client → Object
  a_user : User → Object
  a_node : Node → Object
  a_node_status : NodeStatus → Object
  a_shovey : Shovey → Object
  a_shovey_run : ShoveyRun → Object
  a_stream : ShoveyRunStream → Object
  a_report : Report → Object

pub record Gerror : Type 0 where
  pub message : Text
  pub status : ℕ

-- `(A, error)`
pub data Result {ℓ} (A : Type ℓ) : Type ℓ where
  ok : A → Result A
  err : Gerror → Result A

-- `util.Errorf`, whose status is 400. A plain `error`, which has no status, is given the same.
abbrev pub errorf : Text → Gerror
errorf message = record { message = message; status = 400 }
