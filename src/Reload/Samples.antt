-- ===== src/Reload/Samples.antt =====
-- Listings of small folders.
use smirror.Prelude.{[], ◌∷◌, true, false, ◌≡◌, refl}
use smirror.Text.Search.{codes, same}
use smirror.Text.Paths.{ext}
use smirror.Reload.{Listed, Meta, new_meta, has_changes, is_route, record_routes}
use smirror.Reload.Changes.{has_changes_always, has_changes_steady}

abbrev rule_file : Listed
rule_file = record {
  url = codes "gs://c/r.json";
  name = codes "r.json";
  is_dir = false;
  mod_time = 1;
}

abbrev folder : Listed
folder = record { url = codes "gs://c"; name = codes "c"; is_dir = true; mod_time = 1 }

abbrev rules_meta : Meta
rules_meta = new_meta (codes "gs://c") 0

has_changes_always_example :
    has_changes
      (record rules_meta { routes = record_routes (folder ∷ rule_file ∷ []) [] })
      (folder ∷ rule_file ∷ [])
    ≡ true
unfolding is_route
has_changes_always_example = has_changes_always rules_meta (folder ∷ rule_file ∷ []) refl

has_changes_steady_example :
    has_changes (record rules_meta { routes = record_routes (rule_file ∷ []) [] }) (rule_file ∷ [])
    ≡ false
unfolding is_route ext same
has_changes_steady_example = has_changes_steady rules_meta (rule_file ∷ []) (refl, tt) (tt, tt)
