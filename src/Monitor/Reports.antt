-- ===== src/Monitor/Reports.antt =====
-- mon/contract.go, dataflow.go, file.go and error.go: the response and how files are added to it. The
-- map of workflows has a pointer to each element of the list, which is found here by its workflow.
use smirror.Prelude.{
  ℕ, suc, ◌+◌, ◌-◌, ◌/◌, List, [], ◌∷◌, ◌++◌, Bool, ◌||◌, Option, none, some, ltb, ◌==◌, Bytes,
  if◌then◌else◌,
}
use smirror.Text.Search.{codes, same}
use smirror.Config.Types.{Rule, Info}

-- `storage.Object`
pub record Object : Type 0 where
  pub url : Bytes
  pub is_dir : Bool
  pub size : ℕ
  pub mod_time : ℕ

pub record File : Type 0 where
  pub url : Bytes
  pub age : Bytes
  pub modified : ℕ
  pub size : ℕ

pub record MirrorError : Type 0 where
  pub message : Bytes
  pub url : Bytes
  pub created : ℕ

pub record RuleInfo : Type 0 where
  pub info : Info
  pub processed_count : ℕ
  pub max_processed_size : ℕ
  pub min_processed_size : ℕ
  pub unprocessed_count : ℕ
  pub unprocessed : List File

-- the statuses of base/const.go that a check answers with
pub data Status : Type 0 where
  status_ok status_error status_unprocessed : Status

pub record Response : Type 0 where
  pub unprocessed_count : ℕ
  pub process_count : ℕ
  pub processed_bytes : ℕ
  pub error_count : ℕ
  pub rules : List RuleInfo
  pub errors : List MirrorError
  pub status : Status
  pub error : Bytes

unfoldable pub new_response : Response
new_response = record {
  unprocessed_count = 0;
  process_count = 0;
  processed_bytes = 0;
  error_count = 0;
  rules = [];
  errors = [];
  status = status_ok;
  error = [];
}

unfoldable pub new_workflow : Info → RuleInfo
new_workflow info = record {
  info = info;
  processed_count = 0;
  max_processed_size = 0;
  min_processed_size = 0;
  unprocessed_count = 0;
  unprocessed = [];
}

unfoldable pub add_error : Object → Bytes → Response → Response
add_error o message r = record r {
  errors = r.errors ++ record { message = message; url = o.url; created = o.mod_time } ∷ [];
  error_count = suc r.error_count;
}

-- the rule's information, or that of an unclassified file
unfoldable pub info_of : Option Rule → Info
info_of none = record { workflow = codes "unclassified"; url = []; slack_channel = [] }
info_of (some rule) = rule.info

-- the entry of a workflow, made if there is none, with a change
unfoldable pub change_workflow : Info → (RuleInfo → RuleInfo) → List RuleInfo → List RuleInfo
change_workflow info f [] = f (new_workflow info) ∷ []
change_workflow info f (w ∷ ws) =
    if same w.info.workflow info.workflow then f w ∷ ws else w ∷ change_workflow info f ws

unfoldable pub count_unprocessed : File → RuleInfo → RuleInfo
count_unprocessed file w = record w {
  unprocessed_count = suc w.unprocessed_count;
  unprocessed = w.unprocessed ++ file ∷ [];
}

abbrev pub second : ℕ
second = 1000000000

-- the entry of a file, with its age in whole seconds
abbrev pub new_file : (ℕ → Bytes) → ℕ → Object → File
new_file format_age now o = record {
  url = o.url;
  age = format_age ((now - o.mod_time) / second);
  modified = o.mod_time;
  size = o.size;
}

unfoldable pub add_unprocessed : (ℕ → Bytes) → ℕ → Option Rule → Object → Response → Response
add_unprocessed format_age now rule o r = record r {
  rules = change_workflow (info_of rule) (count_unprocessed (new_file format_age now o)) r.rules;
  unprocessed_count = suc r.unprocessed_count;
}

unfoldable pub count_processed : ℕ → RuleInfo → RuleInfo
count_processed size w = record w {
  processed_count = suc w.processed_count;
  max_processed_size = if ltb w.max_processed_size size then size else w.max_processed_size;
  min_processed_size =
      if ltb size w.min_processed_size || w.min_processed_size == 0
      then size
      else w.min_processed_size;
}

unfoldable pub add_processed : Option Rule → Object → Response → Response
add_processed rule o r = record r {
  rules = change_workflow (info_of rule) (count_processed o.size) r.rules;
  process_count = suc r.process_count;
  processed_bytes = r.processed_bytes + o.size;
}
