-- ===== src/Config/Types.antt =====
-- The configuration's structs. A pointer is an `Option`, a count an ℕ, and a cache that a method
-- fills on its first call (`isJSON`, `compiled`, `keyProvider`) is left out.
use smirror.Prelude.{ℕ, ℤ, List, [], Bool, true, false, Option, none, Bytes}

-- auth/secret.go, auth/token.go, auth/credentials.go
pub record Secret : Type 0 where
  pub url : Bytes
  pub parameter : Bytes
  pub key : Bytes

pub record Credentials : Type 0 where
  pub secret : Secret
  pub token : Bytes
  pub raw_token : Bytes
  pub auth : Option Bytes

-- config/key.go
pub record CustomKey : Type 0 where
  pub secret : Secret
  pub aes256_key : Option Bytes

-- config/compression.go
pub record Compression : Type 0 where
  pub codec : Bytes
  pub uncompress : Bool

-- config/replace.go
pub record Replace : Type 0 where
  pub from : Bytes
  pub to : Bytes

-- config/field.go
pub record Field : Type 0 where
  pub name : Bytes
  pub position : Option ℕ
  pub data_type : Bytes
  pub source_date_format : Bytes
  pub source_date_layout : Bytes
  pub target_date_format : Bytes
  pub target_date_layout : Bytes

-- config/schema.go
pub record Schema : Type 0 where
  pub max_bad_records : Option ℕ
  pub format : Bytes
  pub delimiter : Bytes
  pub lazy_quotes : Bool
  pub field_count : ℕ
  pub fields : List Field

-- config/streaming.go
pub record Streaming : Type 0 where
  pub threshold_mb : ℕ
  pub threshold : ℕ
  pub part_size : ℕ
  pub part_size_mb : ℕ
  pub checksum_skip_threshold_mb : ℕ
  pub checksum_skip_threshold : ℕ

-- config/overflow.go
pub record Overflow : Type 0 where
  pub size_mb : ℕ
  pub dest_url : Bytes
  pub queue : Bytes
  pub project_id : Bytes
  pub topic : Bytes

-- config/split.go
pub record Partition : Type 0 where
  pub field : Bytes
  pub field_index : ℕ
  pub separator : Bytes
  pub modulus : ℕ
  pub hash : Bytes

pub record Split : Type 0 where
  pub max_lines : ℕ
  pub template : Bytes
  pub partition : Option Partition
  pub max_size : ℕ

-- config/transcoding/codec.go, config/transcoding/mapping.go, config/transcoding.go
pub record Codec : Type 0 where
  pub format : Bytes
  pub fields : List Bytes
  pub has_header : Bool
  pub delimiter : Bytes
  pub lazy_quotes : Bool
  pub schema_url : Bytes
  pub record_per_block : ℕ
  pub schema : Bytes

pub record Mapping : Type 0 where
  pub from : Bytes
  pub to : Bytes

pub record Transcoding : Type 0 where
  pub source : Codec
  pub dest : Codec
  pub path_mapping : List Mapping
  pub max_bad_records : Option ℕ
  pub autodetect : Bool

-- The embedded `matcher.Basic` of github.com/viant/afs: its prefix, and its `Match` method, which
-- is given a parent and a file name.
pub record Basic : Type 0 where
  pub prefix : Bytes
  pub matches : Bytes → Bytes → Bool

-- config/pattern
pub record Param : Type 0 where
  pub name : Bytes
  pub expression : Bytes

-- config/resource.go. The options of github.com/viant/afs are opaque texts.
pub record Resource : Type 0 where
  pub basic : Basic
  pub overflow : Option Overflow
  pub bucket : Bytes
  pub url : Bytes
  pub region : Bytes
  pub custom_key : Option CustomKey
  pub grant : Option Bytes
  pub acl : Option Bytes
  pub server_side_encryption : Option Bytes
  pub credentials : Option Credentials
  pub proxy : Option Bytes
  pub topic : Bytes
  pub queue : Bytes
  pub vendor : Bytes
  pub project_id : Bytes
  pub pattern : Bytes
  pub parameters : List Param

-- base/info.go
pub record Info : Type 0 where
  pub workflow : Bytes
  pub url : Bytes
  pub slack_channel : Bytes

-- job/action.go: the body of a notification is absent, a text, or the response of the job
pub data Body : Type 0 where
  no_body : Body
  text_body : Bytes → Body
  other_body : Bytes → Body
  response_body : Body

pub record Action : Type 0 where
  pub action : Bytes
  pub url : Bytes
  pub message : Bytes
  pub title : Bytes
  pub body : Body
  pub channels : List Bytes
  pub credentials : Option Credentials

pub record Actions : Type 0 where
  pub on_success : List Action
  pub on_failure : List Action

-- config/rule.go. The two resources stand for pointers that `Validate` has found to be set.
pub record Rule : Type 0 where
  pub info : Info
  pub disabled : Bool
  pub dest : Resource
  pub source : Resource
  pub replace : List Replace
  pub schema : Option Schema
  pub transcoder : Option Transcoding
  pub streaming : Option Streaming
  pub split : Option Split
  pub allow_empty : Bool
  pub actions : Actions
  pub compression : Option Compression
  pub preserve_depth : Option ℤ
  pub group : Bytes
  pub done_marker : Bytes

-- A decoded rule, whose pointers may be nil: `rule` then holds an empty resource in their place.
pub record Draft : Type 0 where
  pub has_source : Bool
  pub has_dest : Bool
  pub rule : Rule

abbrev pub no_matcher : Basic
no_matcher = record { prefix = []; matches = λ parent name. true }

-- `&Resource{}`
abbrev pub empty_resource : Resource
empty_resource = record {
  basic = no_matcher;
  overflow = none;
  bucket = [];
  url = [];
  region = [];
  custom_key = none;
  grant = none;
  acl = none;
  server_side_encryption = none;
  credentials = none;
  proxy = none;
  topic = [];
  queue = [];
  vendor = [];
  project_id = [];
  pattern = [];
  parameters = [];
}

-- `&Rule{}` with empty resources
abbrev pub empty_rule : Rule
empty_rule = record {
  info = record { workflow = []; url = []; slack_channel = [] };
  disabled = false;
  dest = empty_resource;
  source = empty_resource;
  replace = [];
  schema = none;
  transcoder = none;
  streaming = none;
  split = none;
  allow_empty = false;
  actions = record { on_success = []; on_failure = [] };
  compression = none;
  preserve_depth = none;
  group = [];
  done_marker = [];
}
