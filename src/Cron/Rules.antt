-- ===== src/Cron/Rules.antt =====
-- cron/config: the rules of a poll and the files they are loaded from.
use smirror.Prelude.{
  ℕ, ◌*◌, List, [], ◌∷◌, ◌++◌, Bool, true, false, Option, none, some, ◌==◌, Bytes, Error, errorf,
  wrap, Result, ok, err, is_empty, map, if◌then◌else◌,
}
use smirror.Text.Search.{codes}
use smirror.Config.Types.{Resource}
use smirror.Config.Expansion.{init_resource}
use smirror.Reload.{Listed, Meta, new_meta, has_changed}

-- cron/config/resource.go
pub record Rule : Type 0 where
  pub source : Resource
  pub dest : Resource
  pub move : Bool

pub record Ruleset : Type 0 where
  pub base_url : Bytes
  pub check_in_ms : ℕ
  pub rules : List Rule
  pub initial_rules : List Rule
  pub inited : Bool
  pub project_id : Bytes
  pub meta : Meta

-- cron/config/window.go
pub record TimeWindow : Type 0 where
  pub duration : ℕ
  pub duration_in_sec : ℕ

unfoldable pub init_window : TimeWindow → TimeWindow
init_window t =
    if t.duration_in_sec == 0 then t else record t { duration = t.duration_in_sec * 1000000000 }

unfoldable pub validate_window : TimeWindow → Option Error
validate_window t =
    if t.duration == 0 then some (errorf (codes "time duration was empty")) else none

-- What a load takes from the storage at one time.
pub record RuleFiles : Type 0 where
  pub exists : Bytes → Result Bool
  -- all objects, and those whose name ends in .json
  pub list : Bytes → Result (List Listed)
  pub list_json : Bytes → Result (List Listed)
  pub open_object : Listed → Result Bytes
  pub decode : Bytes → Result (List Rule)

unfoldable pub check_rules : Bytes → List Rule → Option Error
check_rules url [] = none
check_rules url (r ∷ rs) =
    if is_empty r.source.url
    then some (errorf (codes "source.url was empty: " ++ url))
    else (if is_empty r.dest.url
        then some (errorf (codes "dest.url was empty: " ++ url))
        else check_rules url rs)

unfoldable pub init_rules : Ruleset → Ruleset
init_rules r = if r.inited then r else record r { inited = true; initial_rules = r.rules }

module _ (files : RuleFiles) where
  -- the rules of one file
  unfoldable pub load_resources : Listed → Result (List Rule)
  load_resources o = elim (files.open_object o) [
    | err e ↦ err e
    | ok content ↦ elim (files.decode content) [
      | err e ↦ err (wrap (codes "failed to decode: " ++ o.url) e)
      | ok rules ↦ elim (check_rules o.url rules) [ some e ↦ err e | none ↦ ok rules ]
    ]
  ]

  -- The loop over the files: the error of one ends it, and the rules in front of it stay.
  unfoldable pub load_files : List Listed → List Rule → Option Error × List Rule
  load_files [] rules = (none, rules)
  load_files (o ∷ objects) rules =
      let rest = load_files objects in
      if o.is_dir then rest rules else (elim (load_resources o) [
        | err e ↦ (some e, rules)
        | ok loaded ↦ rest (rules ++ loaded)
      ])

  -- the rules that are in force after `loadAllResources`, with its error
  unfoldable pub load_all_resources : Ruleset → Option Error × List Rule
  load_all_resources r =
      if is_empty r.base_url then (none, r.rules) else (elim (files.exists r.base_url) [
        | err e ↦ (some e, r.initial_rules)
        | ok false ↦ (none, r.initial_rules)
        | ok true ↦ elim (files.list_json r.base_url) [
          | err e ↦ (some e, r.initial_rules)
          | ok objects ↦ load_files objects r.initial_rules
        ]
      ])

  unfoldable pub init_rule : Bytes → Rule → Rule
  init_rule project r = record r {
    source = init_resource project r.source;
    dest = init_resource project r.dest;
  }

  unfoldable pub load_and_init : Ruleset → Option Error × Ruleset
  load_and_init r = elim (load_all_resources r).0 [
    | some e ↦ (some e, record r { rules = (load_all_resources r).1 })
    | none ↦ (none, record r { rules = map (init_rule r.project_id) (load_all_resources r).1 })
  ]

  unfoldable pub init : Bytes → Ruleset → Option Error × Ruleset
  init project r = load_and_init (record (init_rules r) {
    project_id = project;
    meta = new_meta r.base_url (r.check_in_ms * 1000000);
  })

  -- `ReloadIfNeeded` at a time: whether there was a change, and the error
  unfoldable pub reload_if_needed : ℕ → Ruleset → (Bool × Option Error) × Ruleset
  reload_if_needed now r =
      let (changed, meta) = has_changed now (files.list r.base_url) r.meta in
      elim changed [
        | err e ↦ ((false, some e), record r { meta = meta })
        | ok false ↦ ((false, none), record r { meta = meta })
        | ok true ↦
            let (e, loaded) = load_and_init (record r { meta = meta }) in ((true, e), loaded)
      ]
