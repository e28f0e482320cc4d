-- ===== src/Monitor/Samples.antt =====
-- A storage with one file that waits and one that was processed.
use smirror.Prelude.{ℕ, [], ◌∷◌, true, false, ok}
use smirror.Text.Search.{codes}
use smirror.Proxy.Samples.{bucket_urls}
use smirror.Monitor.Reports.{Object}
use smirror.Monitor.{Request, Services, check_request}
use smirror.Monitor.Totals.{IsConsistent}
use smirror.Monitor.Checks.{check_request-IsConsistent}

abbrev waiting_file : Object
waiting_file = record { url = codes "gs://b/f"; is_dir = false; size = 3; mod_time = 7 }

abbrev one_file_services : Services ℕ ℕ
one_file_services = record {
  now = λ w. w;
  time_at = λ text. ok 5;
  exists = λ w url. true;
  list_files = λ w url before after. ok (waiting_file ∷ []);
  read_object = λ w o. ok [];
  load_routes = λ w url. ok 0;
  load_mirrors = λ routes w. (ok [], w);
  format_age = λ age. [];
}

abbrev daily_request : Request
daily_request = record {
  unprocessed_duration = [];
  unprocessed_modified_before = 0;
  processed_url = codes "gs://p";
  processed_recency = [];
  processed_modified_after = 0;
  error_recency = [];
  error_modified_after = 0;
  config_url = codes "gs://c";
  trigger_url = codes "gs://b";
  error_url = codes "gs://e";
}

check_request-IsConsistent_example :
    IsConsistent (check_request bucket_urls one_file_services daily_request 9000000000).0
check_request-IsConsistent_example =
    check_request-IsConsistent bucket_urls one_file_services daily_request 9000000000
