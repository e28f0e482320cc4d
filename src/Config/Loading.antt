-- ===== src/Config/Loading.antt =====
-- How config/ruleset.go loads the rules of a folder, with `Init` and `Validate` of config/rule.go.
pub mod Failures
pub mod Samples
use smirror.Prelude.{
  ℕ, ◌-◌, ◌*◌, List, [], ◌∷◌, ◌++◌, Bool, true, false, ◌&&◌, ◌||◌, not, Option, none, some, ◌==◌,
  Bytes, Error, errorf, wrap, Result, ok, err, is_empty, length, take, map, if◌then◌else◌,
}
use smirror.Text.Search.{codes, same, has_prefix, has_suffix}
use smirror.Text.Paths.{ext}
use smirror.External.{Urls}
use smirror.Config.Types.{Rule, Draft, Schema, Field, Transcoding, Codec, Streaming}
use smirror.Config.Compression.{init_compression}
use smirror.Config.Streaming
use smirror.SchemaReader.Fields.{Toolbox, init_field}
use smirror.Transcoder.Settings
use smirror.Reload.{Listed, Meta, new_meta, has_changed, is_route}

-- `afs.Service` and the decoders; `W` is the storage, `Y` a decoded YAML map, `M` a list of maps.
pub record Sources (W Y M : Type 0) : Type 0 where
  pub exists : W → Bytes → Result Bool
  pub delete : Bytes → W → W
  pub list : W → Bytes → Result (List Listed)
  -- `Open`, and `ReadAll` of what it gives
  pub open_object : W → Listed → Result (Result Bytes)
  pub open_url : W → Bytes → Result (Result Bytes)
  pub yaml_map : Bytes → Option Y
  pub json_maps : Bytes → Result M
  pub assign_rule : Y → Draft × Option Error
  pub assign_rules : M → List Draft × Option Error
  pub json_rule : Bytes → Option Draft
  pub json_rules : Bytes → Result (List Draft)
  -- `os.Getwd()`
  pub working_directory : Bytes

-- What becomes of a file: its rules, an error, or a panic for want of a first rule.
pub data Loaded : Type 0 where
  rules_of : List Rule → Loaded
  failed : Error → Loaded
  panicked : Loaded

pub record Ruleset : Type 0 where
  pub base_url : Bytes
  pub check_in_ms : ℕ
  pub rules : List Rule
  pub initial_rules : List Rule
  pub inited : Bool
  pub meta : Meta

unfoldable pub validate_rule : Draft → Option Error
validate_rule d =
    if not d.has_source
    then some (errorf (codes "source was empty"))
    else (if not d.has_dest then some (errorf (codes "dest was empty")) else none)

unfoldable pub validate : List Draft → Option Error
validate [] = none
validate (d ∷ ds) = elim (validate_rule d) [ some e ↦ some e | none ↦ validate ds ]

module _ {W Y M V T : Type 0} (urls : Urls) (sources : Sources W Y M) (toolbox : Toolbox V T) where
  -- the first of the URLs below two folders that exists
  unfoldable pub normalize_url : W → Bytes → Bytes → Bytes
  normalize_url w url parent_url =
      let local : Bytes = urls.join (codes "file://" ++ sources.working_directory) url in
      let owned : Bytes = urls.join (urls.split parent_url).0 url in
      if not (is_empty (urls.scheme url)) || has_prefix url (codes "/")
      then url
      else (elim (sources.exists w local) [
        | ok true ↦ local
        | _ ↦ elim (sources.exists w owned) [ ok true ↦ owned | _ ↦ url ]
      ])

  abbrev pub init_schema : Option Schema → Option Schema
  init_schema none = none
  init_schema (some s) = some (record s { fields = map (init_field toolbox) s.fields })

  abbrev pub init_streaming : Option Streaming → Option Streaming
  init_streaming none = none
  init_streaming (some s) = some (Streaming.init s)

  abbrev pub normalized : W → Bytes → Transcoding → Transcoding
  normalized w parent_url t = if is_empty t.dest.schema_url then t else record t {
    dest = record t.dest { schema_url = normalize_url w t.dest.schema_url parent_url };
  }

  -- the transcoder's part of `Init`
  abbrev pub init_transcoder : W → Bytes → Option Transcoding → Option Error × Option Transcoding
  init_transcoder w parent_url none = (none, none)
  init_transcoder w parent_url (some t) =
      let (e, t') = Settings.init (sources.open_url w) (normalized w parent_url t) in (e, some t')

  -- `Rule.Init`
  unfoldable pub init_rule : W → Rule → Option Error × Rule
  init_rule w r =
      let (e, transcoder) = init_transcoder w r.info.url r.transcoder in
      (
        e,
        record r {
          compression = init_compression r;
          streaming = init_streaming r.streaming;
          schema = init_schema r.schema;
          transcoder = transcoder;
        },
      )

  -- `Ruleset.Init`: the rules, or the first error
  unfoldable pub init_rules : W → List Draft → Result (List Draft)
  init_rules w [] = ok []
  init_rules w (d ∷ ds) = elim (init_rule w d.rule).0 [
    | some e ↦ err e
    | none ↦ elim (init_rules w ds) [
      | err e ↦ err e
      | ok rest ↦ ok (record d { rule = (init_rule w d.rule).1 } ∷ rest)
    ]
  ]

  abbrev pub or_error : List Draft × Option Error → Result (List Draft)
  or_error (ds, none) = ok ds
  or_error (ds, some e) = err e

  -- `loadRules`
  unfoldable pub load_rules : Bytes → Bytes → Result (List Draft)
  load_rules content extension =
      if is_empty extension
      then ok []
      else (if same extension (codes ".yaml")
          then (elim (sources.yaml_map content) [
            | some rule_map ↦ let (d, e) = sources.assign_rule rule_map in or_error (d ∷ [], e)
            | none ↦ elim (sources.json_maps content) [
              | err e ↦ err e
              | ok maps ↦ or_error (sources.assign_rules maps)
            ]
          ])
          else (elim (sources.json_rule content) [
            | some d ↦ ok (d ∷ [])
            | none ↦ sources.json_rules content
          ]))

  abbrev pub with_url : Bytes → Draft → Draft
  with_url url d = record d { rule = record d.rule { info = record d.rule.info { url = url } } }

  -- a file's name without .json
  unfoldable pub workflow_name : Bytes → Bytes
  workflow_name name = if has_suffix name (codes ".json") then take (length name - 5) name else name

  -- the URL of the file, and its name for a missing workflow
  unfoldable pub name_rule : Listed → Draft → Rule
  name_rule o d = record d.rule {
    info = record d.rule.info {
      url = o.url;
      workflow =
          if is_empty d.rule.info.workflow then workflow_name o.name else d.rule.info.workflow;
    };
  }

  -- the initialised rules of a file, if they are valid
  unfoldable pub accept_rules : Listed → Result (List Draft) → Loaded
  accept_rules o (err e) = failed (wrap (codes "invalid rule: " ++ o.url) e)
  accept_rules o (ok drafts) = elim (validate drafts) [
    | some e ↦ failed (wrap (codes "invalid rule: " ++ o.url) e)
    | none ↦ rules_of (map (name_rule o) drafts)
  ]

  unfoldable pub prepare_rules : W → Listed → List Draft → Loaded
  prepare_rules w o [] = panicked
  prepare_rules w o (d ∷ ds) = accept_rules o (init_rules w (with_url o.url d ∷ ds))

  unfoldable pub load_resources : W → Listed → Loaded
  load_resources w o = elim (sources.open_object w o) [
    | err e ↦ failed (errorf (codes "failed to open: " ++ o.url ++ codes ", " ++ e.message))
    | ok (err e) ↦ failed e
    | ok (ok content) ↦ elim (load_rules content (ext o.name)) [
      | err e ↦ failed (wrap (codes "failed to load rules: " ++ o.url) e)
      | ok drafts ↦ prepare_rules w o drafts
    ]
  ]

  abbrev pub load_next : Loaded → List Rule → (List Rule → Option (List Rule)) → Option (List Rule)
  load_next (rules_of more) rules rest = rest (rules ++ more)
  load_next (failed e) rules rest = rest rules
  load_next panicked rules rest = none

  -- The loop over the files, which prints the errors: the rules, or none if it panics.
  unfoldable pub load_files : W → List Listed → List Rule → Option (List Rule)
  load_files w [] rules = some rules
  load_files w (o ∷ objects) rules =
      let rest = load_files w objects in
      if is_route o then load_next (load_resources w o) rules rest else rest rules

  abbrev pub cache_url : Bytes
  cache_url = codes "s3://viant-dataflow-config/StorageMirror/_.cache"

  -- `loadAllResources`: the error and the rules, or none if it panics; a fixed file is deleted first
  unfoldable pub load_all_resources : Ruleset → W → Option (Option Error × List Rule) × W
  load_all_resources r w =
      if is_empty r.base_url
      then (some (none, r.rules), w)
      else (elim (sources.exists w r.base_url) [
        | err e ↦ (some (some e, r.initial_rules), w)
        | ok false ↦ (some (none, r.initial_rules), w)
        | ok true ↦
            let w' = sources.delete cache_url w in
            elim (sources.list w' r.base_url) [
              | err e ↦ (some (some e, r.initial_rules), w')
              | ok objects ↦ elim (load_files w' objects r.initial_rules) [
                | none ↦ (none, w')
                | some rules ↦ (some (none, rules), w')
              ]
            ]
      ])

  -- `initRules`: the declared rules are kept once
  unfoldable pub keep_initial : (List Rule → List Draft) → Ruleset → Option Error × Ruleset
  keep_initial drafts r = if r.inited then (none, r) else (elim (validate (drafts r.rules)) [
    | some e ↦ (some e, record r { inited = true })
    | none ↦ (none, record r { inited = true; initial_rules = r.rules })
  ])

  abbrev pub with_rules :
      Ruleset → Option (Option Error × List Rule) × W → Option (Option Error × Ruleset) × W
  with_rules r (none, w) = (none, w)
  with_rules r (some (e, rules), w) = (some (e, record r { rules = rules }), w)

  -- `Load`
  unfoldable pub load : (List Rule → List Draft) → Ruleset → W → Option (Option Error × Ruleset) × W
  load drafts r w = elim (keep_initial drafts r).0 [
    | some e ↦ (some (some e, (keep_initial drafts r).1), w)
    | none ↦
        let r' : Ruleset = record (keep_initial drafts r).1 {
          meta = new_meta r.base_url (r.check_in_ms * 1000000);
        } in
        with_rules r' (load_all_resources r' w)
  ]

  abbrev pub changed_rules :
      Option (Option Error × Ruleset) × W → Option ((Bool × Option Error) × Ruleset) × W
  changed_rules (none, w) = (none, w)
  changed_rules (some (e, r), w) = (some ((true, e), r), w)

  -- `ReloadIfNeeded` at a time: whether there was a change, the error, and the rules
  unfoldable pub reload_if_needed : ℕ → Ruleset → W → Option ((Bool × Option Error) × Ruleset) × W
  reload_if_needed now r w =
      let (changed, meta) = has_changed now (sources.list w r.base_url) r.meta in
      let r' : Ruleset = record r { meta = meta } in
      elim changed [
        | err e ↦ (some ((false, some e), r'), w)
        | ok false ↦ (some ((false, none), r'), w)
        | ok true ↦ changed_rules (with_rules r' (load_all_resources r' w))
      ]
