-- ===== src/Replaying/Samples.antt =====
-- A folder that cannot be listed.
use smirror.Prelude.{[], true, Error, errorf, ok, err, ◌≡◌, refl}
use smirror.Text.Search.{codes}
use smirror.Mirror.State.{status_ok}
use smirror.Mirror.Samples.{Log, sample}
use smirror.Replaying.{Request, Sources, replay_request}
use smirror.Replaying.Listings.{replay_request-list_failed}

abbrev closed : Error
closed = errorf (codes "access denied")

abbrev closed_sources : Sources Log
closed_sources = record {
  time_at = λ text. ok 5;
  exists = λ w url. true;
  list_files = λ w url before. err closed;
}

abbrev folder_request : Request
folder_request = record {
  trigger_url = codes "gs://b";
  unprocessed_duration = [];
  unprocessed_modified_before = 0;
}

replay_request-list_failed_example :
    replay_request sample closed_sources folder_request []
    ≡ (record { status = status_ok; error = [] }, [])
replay_request-list_failed_example =
    replay_request-list_failed sample closed_sources folder_request [] 5 closed refl refl refl refl
      refl
