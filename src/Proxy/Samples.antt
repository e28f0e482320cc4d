-- ===== src/Proxy/Samples.antt =====
-- A file that is copied, in a storage whose state is the list of the calls that changed it.
use smirror.Prelude.{List, [], ◌∷◌, ◌++◌, true, false, none, some, Bytes, errorf, ok, refl}
use smirror.Text.Search.{codes, same}
use smirror.External.{Urls}
use smirror.Config.Types.{Resource, empty_resource}
use smirror.Proxy.{
  Request, Service, Services, proxy_source, proxied_url, proxy, proxy_file, propagate, missing,
  settle, validate, find_source, trigger, add_triggered, add_copied, new_response,
}
use smirror.Proxy.Outcomes.{proxy_source-IsProxied, IsProxied}

abbrev Log : Type 0
Log = List Bytes

abbrev pub log_services : Services Log
log_services = record {
  storage_options = λ w resource. ok [];
  object = λ w url options. none;
  exists = λ w url. ok true;
  copy = λ source dest options w. (none, w ++ dest ∷ []);
  move = λ source dest options w. (none, w ++ dest ∷ []);
  new_session = λ w. some (errorf (codes "no credentials"));
  invoke = λ function payload w. (none, w ++ payload ∷ []);
  json_s3_event = λ records. ok [];
}

abbrev pub bucket_urls : Urls
bucket_urls = record {
  host = λ url. codes "b";
  path = λ url. codes "/f.csv";
  base = λ url. (codes "gs://b", codes "f.csv");
  scheme = λ url. codes "s3";
  split = λ url. (url, []);
  join = λ base element. base ++ b'/' ∷ element;
}

abbrev pub log_service : Service Log
log_service = record {
  urls = bucket_urls;
  services = log_services;
  source_matches = λ parent name. true;
}

abbrev source_file : Resource
source_file = record empty_resource { url = codes "gs://b/f.csv" }

abbrev copy_request : Request
copy_request = record {
  source = some source_file;
  dest = record empty_resource { url = codes "s3://d" };
  move = false;
  stream = true;
}

proxy_source-IsProxied_example :
    IsProxied log_service false
      (codes "gs://b/f.csv")
      (proxied_url log_service (codes "gs://b/f.csv") (codes "s3://d"))
      []
      (proxy_source log_service source_file copy_request []).0
      (proxy_source log_service source_file copy_request []).1
unfolding proxy_source proxy proxy_file propagate missing settle validate same find_source trigger
    add_triggered add_copied new_response
proxy_source-IsProxied_example =
    proxy_source-IsProxied log_service source_file copy_request [] refl refl
