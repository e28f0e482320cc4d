-- ===== src/Cron/Samples.antt =====
-- A storage with one file, polled twice. Its state is the time and the file of the processed ones.
use smirror.Prelude.{
  ℕ, zero, suc, ◌≤◌, List, [], Bool, ◌∷◌, ◌++◌, append-nil, append_assoc, true, false, Option, none,
  some, Bytes, errorf, Result, ok, err, map, if◌then◌else◌, ◌≡◌, refl, sym, ap, ◌∙◌, Result-cases,
  inl, inr, arith,
}
use smirror.Text.Search.{codes, same}
use smirror.Text.Paths.{split_path}
use smirror.Config.Expansion.{clone_with_url}
use smirror.Maps.{lookup, put}
use smirror.Config.Types.{empty_resource}
use smirror.Reload.{Listed, new_meta}
use smirror.Proxy.Samples.{bucket_urls}
use smirror.Proxy
use smirror.Cron.Rules.{Rule, Ruleset}
use smirror.Cron.Processed.{
  Processed, MetaStore, pending_resources, add_processed, load_state, store_state, new_processed,
  add, is_kept, prune, is_pending, process_map, put_all,
}
use smirror.Cron.Processed.Pending.{IsDurable, end}
use smirror.Cron.Polling.{
  Service, Services, Run, new_response, process_resource, get_resource_candidates, append_resources,
  append_listed, append_object, is_candidate, announce, notify_all, notify, note_proxied, merge,
  put_each,
}
use smirror.Cron.Polling.Finding.{append_resources-Finds, at_end, listed_itself, in_folder, matched}
use smirror.Cron.Polling.Again.{process_resource-again}

-- An encoding of the state: the URL's bytes raised by 1, a 0, and the time.
abbrev encode : List Processed → Bytes
encode [] = []
encode (p ∷ ps) = map suc p.url ++ (0 ∷ p.modified ∷ encode ps)

abbrev decode_from : Bytes → Bytes → List Processed
decode_from url [] = []
decode_from url (zero ∷ []) = []
decode_from url (zero ∷ t ∷ rest) = record { url = url; modified = t } ∷ decode_from [] rest
decode_from url (suc c ∷ rest) = decode_from (url ++ c ∷ []) rest

decode-url :
    (front url : Bytes) (t : ℕ) (rest : Bytes)
    → decode_from front (map suc url ++ (0 ∷ t ∷ rest))
      ≡ record { url = front ++ url; modified = t } ∷ decode_from [] rest
decode-url front [] t rest =
    ap (λ (u : Bytes). record { url = u; modified = t } ∷ decode_from [] rest)
      (sym (append-nil front))
decode-url front (c ∷ url) t rest =
    decode-url (front ++ c ∷ []) url t rest
    ∙ ap (λ (u : Bytes). record { url = u; modified = t } ∷ decode_from [] rest)
        (append_assoc front (c ∷ []) url)

decode-encode : (state : List Processed) → decode_from [] (encode state) ≡ state
decode-encode [] = refl
decode-encode (p ∷ ps) =
    decode-url [] p.url p.modified (encode ps)
    ∙ ap (λ (qs : List Processed). p ∷ qs) (decode-encode ps)

record World : Type 0 where
  time : ℕ
  state : Option Bytes
  calls : List Bytes

abbrev stored : Option Bytes → Result Bytes
stored none = err (errorf (codes "no state"))
stored (some content) = ok content

abbrev is_stored : World → Bytes → Bool
is_stored w url = elim w.state [ none ↦ false | some content ↦ true ]

abbrev world_store : MetaStore World
world_store = record {
  exists = is_stored;
  open_url = λ w url. stored w.state;
  decode = λ content. ok (decode_from [] content);
  encode = λ state. (encode state, none);
  upload = λ url content w. (none, record w { state = some content });
}

abbrev state_url : Bytes
state_url = codes "mem://meta"

saved_state :
    (content : Bytes) (w w' : World)
    → world_store.upload state_url content w ≡ (none, w')
    → (is_stored w' state_url ≡ true) × (stored w'.state ≡ ok content)
saved_state content w w' h =
    let kept : w'.state ≡ some content = λ i. ((sym h) i).1.state in (rw kept refl, rw kept refl)

world_store-IsDurable : IsDurable world_store state_url
world_store-IsDurable = record {
  saved = saved_state;
  decoded = λ state. ap ok (decode-encode state);
}

abbrev fresh_file : Listed
fresh_file = record { url = codes "f"; name = codes "f"; is_dir = false; mod_time = 90 }

abbrev world_services : Services World
world_services = record {
  now = λ w. w.time;
  list = λ w url options after. ok (fresh_file ∷ []);
  storage_options = λ w resource. ok [];
  init_secrets = λ resources w. (none, w);
  rule_files = λ w. record {
    exists = λ url. ok false;
    list = λ url. ok [];
    list_json = λ url. ok [];
    open_object = λ o. ok [];
    decode = λ content. ok [];
  };
  meta_store = world_store;
  order = λ objects. objects;
}

abbrev world_proxy : Proxy.Service World
world_proxy = record {
  urls = bucket_urls;
  services = record {
    storage_options = λ w resource. ok [];
    object = λ w url options. none;
    exists = λ w url. ok true;
    copy = λ source dest options w. (none, record w { calls = w.calls ++ dest ∷ [] });
    move = λ source dest options w. (none, record w { calls = w.calls ++ dest ∷ [] });
    new_session = λ w. none;
    invoke = λ function payload w. (none, w);
    json_s3_event = λ records. ok [];
  };
  source_matches = λ parent name. true;
}

abbrev polling : Service World
polling = record {
  urls = bucket_urls;
  services = world_services;
  proxy = world_proxy;
  meta_url = state_url;
  time_window = 20;
  max_depth = 2;
}

abbrev poll_rule : Rule
poll_rule = record {
  source = record empty_resource { url = codes "gs://b" };
  dest = record empty_resource { url = codes "s3://d" };
  move = false;
}

abbrev no_rules : Ruleset
no_rules = record {
  base_url = [];
  check_in_ms = 0;
  rules = poll_rule ∷ [];
  initial_rules = [];
  inited = true;
  project_id = [];
  meta = new_meta [] 0;
}

abbrev before_poll : Run World
before_poll = record {
  world = record { time = 100; state = none; calls = [] };
  response = new_response;
  resources = no_rules;
}

abbrev after_poll : Run World
after_poll = (process_resource polling poll_rule before_poll).1

kept_time :
    (now : ℕ) (objects : List Listed) (w : World)
    → (add_processed world_store state_url 40 now objects w).1.time ≡ w.time
unfolding add_processed store_state
kept_time now objects w = elim (Result-cases (load_state world_store state_url 40 w)) [
  | inl (e, failed) ↦ rw (failed, add_processed) refl
  | inr (state, loaded) ↦ rw (loaded, add_processed) refl
]

steady :
    (now : ℕ) (objects : List Listed) (w w' : World)
    → add_processed world_store state_url 40 now objects w ≡ (none, w')
    → w.time ≤ w'.time
steady now objects w w' h =
    let time : w'.time ≡ (add_processed world_store state_url 40 now objects w).1.time =
      λ i. ((sym h) i).1.time in
    omega (arith, time, kept_time now objects w)

first_poll :
    (process_resource polling poll_rule before_poll ≡ (ok (fresh_file ∷ []), after_poll))
    × (after_poll.world.time ≡ 100)
unfolding process_resource get_resource_candidates append_resources append_listed append_object
    is_candidate pending_resources load_state announce is_pending lookup process_map put_all
    notify_all notify note_proxied Proxy.proxy_source Proxy.settle clone_with_url merge put_each add
    add_processed is_kept new_processed prune store_state put Proxy.add_copied Proxy.add_triggered
    Proxy.find_source Proxy.missing Proxy.new_response Proxy.propagate Proxy.proxied_url Proxy.proxy
    Proxy.proxy_file Proxy.transfer_options Proxy.trigger Proxy.validate split_path same
first_poll = (refl, refl)

process_resource-again_example : process_resource polling poll_rule after_poll ≡ (ok [], after_poll)
unfolding get_resource_candidates append_resources append_listed append_object is_candidate
    split_path
process_resource-again_example =
    process_resource-again polling world_store-IsDurable poll_rule fresh_file [] (fresh_file ∷ [])
      before_poll after_poll after_poll steady first_poll.0 (tt, tt)
      (omega (arith, first_poll.1), tt) (end after_poll.world, tt) refl (([], [], refl), tt)

-- A folder that lists itself first, a folder below it, and a file in each.
abbrev folder_at : Bytes → Listed
folder_at url = record { url = url; name = url; is_dir = true; mod_time = 1 }

abbrev list_tree : Bytes → Result (List Listed)
list_tree url =
    if same url (codes "b")
    then ok (folder_at (codes "b") ∷ folder_at (codes "b/x") ∷ fresh_file ∷ [])
    else ok (fresh_file ∷ [])

append_resources-Finds_example :
    (n : ℕ) × ((m : ℕ)
      → n ≤ m
      → append_resources polling m list_tree poll_rule.source.basic (codes "b")
        ≡ ok (fresh_file ∷ fresh_file ∷ []))
unfolding same is_candidate
append_resources-Finds_example =
    append_resources-Finds polling list_tree poll_rule.source.basic (codes "b")
      (folder_at (codes "b") ∷ folder_at (codes "b/x") ∷ fresh_file ∷ [])
      (fresh_file ∷ fresh_file ∷ []) refl
      (listed_itself (folder_at (codes "b")) refl (
        in_folder (folder_at (codes "b/x")) (fresh_file ∷ []) (fresh_file ∷ []) refl refl
          (matched fresh_file refl refl at_end) (matched fresh_file refl refl at_end)))
