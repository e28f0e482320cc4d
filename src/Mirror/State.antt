-- ===== src/Mirror/State.antt =====
-- The state of a mirroring run: contract/request.go, contract/response.go, config.go, datafile.go and
-- the services of service.go, of which those outside the repository are parameters.
use smirror.Prelude.{ℕ, List, [], Bool, false, Option, none, Bytes, Error, Result, ok}
use smirror.Config.Types.{Credentials, Streaming, Resource, Rule, Transcoding, Actions}
use smirror.External.{Urls}
use smirror.Config.Expansion.{Expansions}
use smirror.Config.Key.{KeyLibrary}
use smirror.Splitter.Scan.{Token}
use smirror.Act.{Act, lift_error}
use smirror.Job.{NotifyRequest}

-- contract/request.go
pub record Request : Type 0 where
  pub url : Bytes
  pub attempt : ℕ

-- base/const.go
pub data Status : Type 0 where
  status_ok status_error status_no_match status_no_found status_overflow status_partial
        status_disabled :
      Status

-- contract/response.go, without the times
pub record Response : Type 0 where
  pub triggered_by : Bytes
  pub file_size : ℕ
  pub log_error : Bytes
  pub dest_urls : List Bytes
  pub message_ids : List Bytes
  pub rule : Option Rule
  pub rule_url : Bytes
  pub total_rules : ℕ
  pub status : Status
  pub error : Bytes
  pub schema_error : Bytes
  pub not_found_error : Bytes
  pub checksum_skip : Bool
  pub stream_option : Option (ℕ × ℕ)

unfoldable pub new_response : Bytes → Response
new_response url = record {
  triggered_by = url;
  file_size = 0;
  log_error = [];
  dest_urls = [];
  message_ids = [];
  rule = none;
  rule_url = [];
  total_rules = 0;
  status = status_ok;
  error = [];
  schema_error = [];
  not_found_error = [];
  checksum_skip = false;
  stream_option = none;
}

-- config.go
pub record Config : Type 0 where
  pub max_retries : ℕ
  pub source_scheme : Bytes
  pub project_id : Bytes
  pub slack_credentials : Option Credentials
  pub streaming : Streaming
  pub response_url : Bytes

-- What a reader delivers, and the error, if any, that it ends with.
pub record Stream : Type 0 where
  pub content : Bytes
  pub failure : Option Error

-- `storage.Object`
pub record Object : Type 0 where
  pub url : Bytes
  pub name : Bytes
  pub size : ℕ
  pub is_dir : Bool

-- A file of an archive that `Walk` visits.
pub record Entry : Type 0 where
  pub parent : Bytes
  pub name : Bytes
  pub is_dir : Bool
  pub stream : Stream

pub data StorageOption : Type 0 where
  secret_option : Bytes → StorageOption
  stream_option : ℕ → ℕ → StorageOption
  skip_checksum : StorageOption
  allow_empty : StorageOption

-- `Transfer` of transfer.go with the `Datafile` of datafile.go.
pub record Transfer : Type 0 where
  pub rule : Rule
  pub partition : Bytes
  pub split_counter : ℕ
  pub skip_checksum : Bool
  pub resource : Resource
  pub reader : Option Stream
  pub dest_url : Bytes
  pub gzip_dest : Bool

-- `afs.Service`, the secrets' options and the message buses; `W` is what they change.
pub record Services (W : Type 0) : Type 0 where
  pub object : W → Bytes → List StorageOption → Option Object × Option Error
  pub exists : W → Bytes → Bool
  pub open_url : W → Bytes → List StorageOption → Result Stream
  -- the files that `Walk` visits, and the error that ends the walk after them
  pub entries : W → Bytes → List StorageOption → List Entry × Option Error
  pub new_writer : Bytes → List StorageOption → W → Option Error × W
  pub close_writer : Bytes → Bytes → W → Option Error × W
  pub copy : Bytes → Bytes → W → Option Error × W
  pub move : Bytes → Bytes → W → Option Error × W
  pub delete : Bytes → W → Option Error × W
  pub upload : Bytes → Bytes → W → Option Error × W
  pub storage_options : W → Resource → Result (List StorageOption)
  pub init_secrets : List Resource → W → Option Error × W
  -- `pubsub.New` or `sqs.New`, and the project
  pub new_bus : Bytes → Bytes → W → Option Error × W
  -- `Publish`: the destination, the data and the source attribute
  pub publish : Bytes → Bytes → Option Bytes → W → Result (List Bytes) × W
  pub notify : Response → NotifyRequest → W → Option Error × W
  -- `uuid.New().String()`
  pub uuid : W → Bytes
  pub list : W → Bytes → Result (List Object)
  -- the order in which the routines of a replayer take the URLs
  pub replay_order : List Bytes → List Bytes
  -- `ReloadIfNeeded`, with the rules in force after it
  pub reload : List Rule → W → (Option Error × List Rule) × W

-- The event of an overflow's message: event/s3.go and event/storage.go, with a bucket and a path.
pub data Event : Type 0 where
  s3_event : Bytes → Bytes → Event
  storage_event : Bytes → Bytes → Event

-- What reads and writes text: the packages gzip, bufio, fmt and json, and the readers of
-- config/schema/reader.go and transcoder/reader.go.
pub record Codecs : Type 0 where
  pub gzip : Bytes → Bytes
  pub gunzip : Stream → Result Stream
  pub scan : Stream → List Token
  pub sprintf : Bytes → ℕ → Bytes
  pub format_resource : Resource → Bytes
  pub schema_reader : Rule → Stream → Result Stream
  pub transcoder : Transcoding → ℕ → Stream → Result Stream
  pub json_transfer : Transfer → Bytes
  pub json_rules : List Rule → Bytes
  pub json_response : Response → Result Bytes
  pub json_event : Event → Result Bytes
  -- `%+v` of an event
  pub format_event : Event → Bytes
  pub json_actions : Actions → Bytes

-- All that a run takes from outside.
pub record Environment (W : Type 0) : Type 0 where
  pub urls : Urls
  pub expansions : Expansions
  pub keys : KeyLibrary
  pub codecs : Codecs
  pub services : Services W

-- What `service` and the caller of a run share: the storage, the response and the message bus.
pub record Run (W : Type 0) : Type 0 where
  pub world : W
  pub response : Response
  pub bus_ready : Bool
  pub bus_vendor : Bytes
  pub rules : List Rule

-- A call that changes the storage.
unfoldable pub effect : {W : Type 0} → (W → Option Error × W) → Act (Run W) (Unit {0})
effect f s = let (e, w) = f s.world in lift_error e (record s { world = w })

-- A change of the response.
unfoldable pub respond : {W : Type 0} → (Response → Response) → Act (Run W) (Unit {0})
respond f s = (ok tt, record s { response = f s.response })
