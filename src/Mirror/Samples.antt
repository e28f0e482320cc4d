-- ===== src/Mirror/Samples.antt =====
-- Requests to a small storage, whose state is the list of the calls that changed it.
use smirror.Prelude.{
  pos, List, [], ◌∷◌, ◌++◌, false, Option, none, some, Bytes, Error, errorf, ok, err, ◌≡◌, refl,
}
use smirror.Text.Search.{codes, same}
use smirror.External.{Urls}
use smirror.Config.Types.{
  Overflow, Info, Action, Resource, Rule, Streaming, no_body, empty_resource, empty_rule,
}
use smirror.Config.Key.{Key, text, KeyLibrary}
use smirror.Config.Key.Equality.{key_keys}
use smirror.Config.Matching.{match_rules, match_from}
use smirror.Config.Expansion.{Expansions}
use smirror.Splitter.Scan.{token}
use smirror.Splitter.ByPartition.Table.{Buffer}
use smirror.Job.{Context, Effects, run_all, run_selected, do_and_report, do_action}
use smirror.Job.Runs.{run_all-unsupported}
use smirror.Mirror.State.{
  Object, Request, new_response, Config, Services, Codecs, Environment, Run, Transfer, effect,
  respond,
}
use smirror.Mirror.Transfers.{
  Ticket, transfer, mirror_asset, report_upload, upload, get_reader, read_all, finish_upload,
}
use smirror.Mirror.Transfers.Outcomes.{outcome}
use smirror.Mirror.Transfers.Assets.{mirror_asset-outcome}
use smirror.Mirror.Transfers.Deliveries.{transfer-IsDelivered, IsDelivered}
use smirror.Mirror.Overflows.{
  overflow_vendor, overflow_url, handle_overflow, set_status, copy_overflow, report_copy,
  open_overflow_bus, publish_overflow,
}
use smirror.Mirror.Ends.{finish_job}
use smirror.Mirror.Overflows.Results.{IsAnnounced, handle_overflow-announces}
use smirror.Mirror.Service.{mirror}
use smirror.Mirror.Service.Guards.{mirror-inert, no_match}
use smirror.Mirror.Attempts.{mirror_request}
use smirror.Mirror.Attempts.Bounds.{mirror_request-Settles, Settles}

abbrev pub Log : Type 0
Log = List Bytes

abbrev done : Bytes → Log → Option Error × Log
done call log = (none, log ++ call ∷ [])

abbrev lost : Error
lost = errorf (codes "connection reset by peer")

abbrev log_services : Services Log
log_services = record {
  object = λ log url options. (none, none);
  exists = λ log url. false;
  open_url = λ log url options. err lost;
  entries = λ log url options. ([], none);
  new_writer = λ url options log. done (codes "open") log;
  close_writer = λ url content log. done (codes "close") log;
  copy = λ from to log. done (codes "copy") log;
  move = λ from to log. done (codes "move") log;
  delete = λ url log. done (codes "delete") log;
  upload = λ url content log. done (codes "upload") log;
  storage_options = λ log r. ok [];
  init_secrets = λ rs log. (none, log);
  new_bus = λ vendor project log. (none, log);
  publish = λ dest content source log. (ok (codes "id" ∷ []), log);
  notify = λ response request log. done (codes "notify") log;
  uuid = λ log. codes "uuid";
  list = λ log url. ok [];
  replay_order = λ urls. urls;
  reload = λ rules log. ((none, rules), log);
}

abbrev plain_codecs : Codecs
plain_codecs = record {
  gzip = λ t. t;
  gunzip = λ s. ok s;
  scan = λ s. token s.content ∷ [];
  sprintf = λ t n. t;
  format_resource = λ r. [];
  schema_reader = λ r s. ok s;
  transcoder = λ t n s. ok s;
  json_transfer = λ t. [];
  json_rules = λ rs. [];
  json_response = λ r. ok [];
  json_event = λ e. ok [];
  format_event = λ e. [];
  json_actions = λ a. [];
}

abbrev plain_urls : Urls
plain_urls = record {
  host = λ u. [];
  path = λ u. u;
  base = λ u. ([], u);
  scheme = λ u. [];
  split = λ u. ([], u);
  join = λ a b. a ++ b;
}

abbrev no_expansions : Expansions
no_expansions = record { submatches = λ p t. ok []; expand_udf = λ t. t; expand_params = λ ps t. t }

abbrev plain_keys : KeyLibrary
plain_keys = record {
  json_field = λ name line. ok (text []);
  as_int = λ k. pos 0;
  as_string = λ k. [];
  murmur = λ s. s;
  fnv = λ s. s;
  md5 = λ s. s;
}

abbrev pub sample : Environment Log
sample = record {
  urls = plain_urls;
  expansions = no_expansions;
  keys = plain_keys;
  codecs = plain_codecs;
  services = log_services;
}

abbrev no_streaming : Streaming
no_streaming = record {
  threshold_mb = 0;
  threshold = 0;
  part_size = 0;
  part_size_mb = 0;
  checksum_skip_threshold_mb = 0;
  checksum_skip_threshold = 0;
}

-- a storage whose connection is lost each time the rules are looked up
abbrev lost_sample : Environment Log
lost_sample = record sample {
  services = record log_services { reload = λ rules log. ((some lost, rules), log) };
}

abbrev three_tries : Config
three_tries = record {
  max_retries = 3;
  source_scheme = codes "gs";
  project_id = [];
  slack_credentials = none;
  streaming = no_streaming;
  response_url = [];
}

abbrev in_order : List (Buffer Key Ticket) → List (Buffer Key Ticket)
in_order b = b

abbrev start : Run Log
start = record {
  world = [];
  response = new_response (codes "gs://a/b");
  bus_ready = false;
  bus_vendor = [];
  rules = [];
}

abbrev first_request : Request
first_request = record { url = codes "gs://a/b"; attempt = 0 }

abbrev copy_rule : Rule
copy_rule = record empty_rule { dest = record empty_resource { url = codes "s3://c" } }

abbrev copy_transfer : Transfer
copy_transfer = record {
  rule = copy_rule;
  partition = [];
  split_counter = 0;
  skip_checksum = false;
  resource = copy_rule.dest;
  reader = some (record { content = codes "x"; failure = none });
  dest_url = codes "s3://c/b";
  gzip_dest = false;
}

abbrev topic_dest : Resource
topic_dest = record empty_resource { topic = codes "t" }

abbrev delete_action : Action
delete_action = record {
  action = codes "delete";
  url = [];
  message = [];
  title = [];
  body = no_body;
  channels = [];
  credentials = none;
}

abbrev rename_action : Action
rename_action = record delete_action { action = codes "rename" }

abbrev log_effects : Effects Log
log_effects = record {
  delete = log_services.delete;
  move = log_services.move;
  upload = log_services.upload;
  notify = λ request log. done (codes "notify") log;
}

abbrev succeeded : Context
succeeded = record { error = none; relative_path = codes "b"; source_url = codes "gs://a/b" }

abbrev plain_info : Info
plain_info = record { workflow = []; url = []; slack_channel = [] }

mirror_request-Settles_example :
    Settles lost_sample three_tries first_request
      (mirror_request lost_sample three_tries in_order first_request start)
mirror_request-Settles_example =
    mirror_request-Settles lost_sample three_tries in_order first_request start

mirror-inert_example : (mirror sample three_tries in_order (codes "gs://a/b") start).1.world ≡ []
unfolding match_rules match_from
mirror-inert_example =
    mirror-inert sample three_tries in_order (codes "gs://a/b") start [] [] refl no_match

transfer-IsDelivered_example :
    IsDelivered sample copy_transfer start (transfer sample copy_transfer start).1
unfolding transfer report_upload upload get_reader effect respond read_all finish_upload
transfer-IsDelivered_example =
    transfer-IsDelivered sample copy_transfer start (transfer sample copy_transfer start).1 refl

run_all-unsupported_example :
    run_all plain_urls log_effects succeeded plain_info
      ((delete_action ∷ []) ++ rename_action ∷ delete_action ∷ [])
      []
    ≡ (err (errorf (codes "unsupported action: rename")), codes "delete" ∷ [])
unfolding same run_all do_and_report do_action
run_all-unsupported_example =
    run_all-unsupported plain_urls log_effects succeeded plain_info (delete_action ∷ [])
      rename_action (delete_action ∷ []) [] (codes "delete" ∷ []) refl refl refl refl

abbrev both_names : Overflow
both_names = record {
  size_mb = 1;
  dest_url = codes "gs://big";
  queue = codes "q";
  project_id = [];
  topic = codes "t";
}

abbrev big_file : Object
big_file = record { url = codes "gs://a/b"; name = codes "b"; size = 2000000; is_dir = false }

handle_overflow-announces_example :
    IsAnnounced sample both_names
      (overflow_url sample both_names (codes "gs://a/b"))
      start.response
      (handle_overflow sample big_file both_names copy_rule (codes "gs://a/b") start).1.response
unfolding handle_overflow set_status respond copy_overflow report_copy open_overflow_bus
    overflow_vendor publish_overflow finish_job run_selected run_all
handle_overflow-announces_example =
    handle_overflow-announces sample big_file both_names copy_rule (codes "gs://a/b") start
      (handle_overflow sample big_file both_names copy_rule (codes "gs://a/b") start).1 refl

mirror_asset-outcome_example :
    outcome (mirror_asset sample in_order copy_rule (codes "gs://a/b") start).1 ≡ outcome start
mirror_asset-outcome_example =
    mirror_asset-outcome sample in_order copy_rule (codes "gs://a/b") start
