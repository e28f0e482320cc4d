-- ===== src/Config/Loading/Samples.antt =====
-- A folder with a rule and with a file that is no JSON.
use smirror.Prelude.{
  List, [], ◌∷◌, ◌++◌, map, true, false, Option, none, some, Bytes, errorf, ok, err, ◌==◌,
  if◌then◌else◌, ◌≡◌, refl,
}
use smirror.Text.Search.{codes, same, has_suffix}
use smirror.Text.Paths.{ext}
use smirror.Config.Types.{Draft, empty_rule}
use smirror.Config.Compression.{init_compression, has_split, has_transformer}
use smirror.SchemaReader.Samples.{text_toolbox}
use smirror.Proxy.Samples.{bucket_urls}
use smirror.Reload.{Listed, is_route}
use smirror.Config.Loading.{Sources, load_files, with_url, load_rules, init_rule, name_rule}
use smirror.Config.Loading.Failures.{inited, undecoded, sound, next, no_more, load_files-AddsEach}

abbrev decoded : Bytes → Option Draft
decoded [] = none
decoded (c ∷ content) =
    if c == b'{'
    then some (record { has_source = true; has_dest = true; rule = empty_rule })
    else none

abbrev folder_sources : Sources (List Bytes) Bytes Bytes
folder_sources = record {
  exists = λ w url. ok true;
  delete = λ url w. w ++ url ∷ [];
  list = λ w url. ok [];
  open_object = λ w o. ok (ok o.url);
  open_url = λ w url. ok (ok url);
  yaml_map = λ content. none;
  json_maps = λ content. err (errorf (codes "invalid character"));
  assign_rule = λ m. (record { has_source = true; has_dest = true; rule = empty_rule }, none);
  assign_rules = λ ms. ([], none);
  json_rule = decoded;
  json_rules = λ content. err (errorf (codes "invalid character"));
  working_directory = [];
}

abbrev rule_file : Bytes → Listed
rule_file content = record { url = content; name = codes "r.json"; is_dir = false; mod_time = 1 }

abbrev two_files : List Listed
two_files = rule_file (codes "!") ∷ rule_file (codes "{}") ∷ []

abbrev accepted : Draft
accepted = record { has_source = true; has_dest = true; rule = empty_rule }

load_files-AddsEach_example :
    load_files bucket_urls folder_sources text_toolbox [] two_files []
    ≡ some (
        map
          (λ d.
            name_rule bucket_urls folder_sources text_toolbox
              (rule_file (codes "{}"))
              (inited bucket_urls folder_sources text_toolbox [] d))
          (with_url bucket_urls folder_sources text_toolbox (codes "{}") accepted ∷ []))
unfolding load_rules init_rule ext same has_suffix init_compression has_split has_transformer
    is_route
load_files-AddsEach_example = load_files-AddsEach bucket_urls folder_sources text_toolbox [] [] (
    next
      (undecoded (rule_file (codes "!")) (codes "!") (errorf (codes "invalid character")) refl refl
        refl)
      (next
        (sound (rule_file (codes "{}"))
          (with_url bucket_urls folder_sources text_toolbox (codes "{}") accepted ∷ []) refl
          (codes "{}", accepted, [], refl, refl, refl) ((refl, refl, refl), tt))
        no_more))
