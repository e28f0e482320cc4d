-- ===== src/Mirror/Service.antt =====
-- `mirror` of service.go: one round over a request.
pub mod Guards
use smirror.Prelude.{
  ℕ, zero, suc, ◌+◌, ◌-◌, List, [], ◌∷◌, ◌++◌, Bool, true, false, not, ◌&&◌, ◌||◌, Option, none,
  some, ltb, if◌then◌else◌, Bytes, Error, errorf, wrap, Result, ok, err, is_empty, length,
}
use smirror.Text.Search.{codes, same, contains}
use smirror.Config.Types.{Overflow, Streaming, Rule}
use smirror.Config.Streaming.{overflow_size, message_dest}
use smirror.Config.Expansion.{clone_with_url}
use smirror.Config.RuleNames.{rule_name}
use smirror.Config.Matching.{match_rules}
use smirror.Config.Key.{Key}
use smirror.Splitter.ByPartition.Table.{Buffer}
use smirror.Act.{Act, pure, fail, lift, lift_error, get, ◌>>=◌, ◌>>◌, wrapping, error_of}
use smirror.Job.{Context, Effects, run_selected}
use smirror.Mirror.State.{
  Request, Status, status_error, status_no_match, status_no_found, status_overflow, status_partial,
  status_disabled, Response, new_response, Config, Object, Environment, Event, s3_event,
  storage_event, Run, effect, respond,
}
use smirror.Mirror.Messages.{is_not_found, is_retry_error}
use smirror.Mirror.Transfers.{Ticket, mirror_asset}
use smirror.Mirror.Replay.{replay}
use smirror.Mirror.Rules.{init_rule}
use smirror.Mirror.Ends.{finish_job}
use smirror.Mirror.Overflows.{handle_overflow, set_status}

-- the rule of `rule.Streaming`, or the configuration's
abbrev pub streaming_of : Config → Rule → Streaming
streaming_of config r = elim r.streaming [ none ↦ config.streaming | some s ↦ s ]

-- the response's size fields, from the object's size
unfoldable pub note_streaming : Streaming → ℕ → Response → Response
note_streaming streaming size r = record r {
  checksum_skip = ltb streaming.checksum_skip_threshold size;
  stream_option =
      if ltb streaming.threshold size then some (streaming.part_size, size) else r.stream_option;
}

-- `response.TotalRules = len(s.config.Mirrors.Rules)`
unfoldable pub respond_total : {W : Type 0} → Act (Run W) (Unit {0})
respond_total s =
    (ok tt, record s { response = record s.response { total_rules = length s.rules } })

module _ {W : Type 0} (env : Environment W) (config : Config) where
  -- The order in which Go visits a map's keys.
  module _ (order : List (Buffer Key Ticket) → List (Buffer Key Ticket)) where
    -- The transfer of an asset, then the actions, on either outcome of it.
    unfoldable pub run_job : Rule → Bytes → Act (Run W) (Unit {0})
    run_job r url s =
        let (result, s') = mirror_asset env order r url s in
        finish_job env r url (error_of result) s'

    unfoldable pub mirror_object : Rule → Object → Bytes → Act (Run W) (Unit {0})
    mirror_object r object url = do
      respond (note_streaming (streaming_of config r) object.size)
      run_job r url

    -- The done marker: its own arrival replays its folder, and before that the transfer waits.
    unfoldable pub mirror_when_done : Rule → Object → Bytes → Act (Run W) (Unit {0})
    mirror_when_done r object url s =
        if is_empty r.done_marker
        then mirror_object r object url s
        else if same object.name r.done_marker
        then effect (replay env (env.urls.split url).0 r.done_marker) s
        else if env.services.exists s.world (env.urls.join (env.urls.split url).0 r.done_marker)
        then mirror_object r object url s
        else set_status status_partial s

    -- `overflow.Size() < object.Size()`
    unfoldable pub overflows : Rule → Object → Option Overflow
    overflows r object = elim r.source.overflow [
      | none ↦ none
      | some o ↦ if ltb (overflow_size o) object.size then some o else none
    ]

    unfoldable pub mirror_found : Rule → Object → Bytes → Act (Run W) (Unit {0})
    mirror_found r object url = do
      respond (λ a. record a { file_size = object.size })
      elim (overflows r object) [
        | some o ↦ handle_overflow env object o r url
        | none ↦ mirror_when_done r object url
      ]

    -- `fmt.Sprintf("does not exist: %v", err)`
    abbrev pub missing : Option Error → Response → Response
    missing e a = record a {
      status = status_no_found;
      not_found_error =
          codes "does not exist: " ++ elim e [ none ↦ codes "<nil>" | some cause ↦ cause.message ];
    }

    unfoldable pub mirror_rule : Rule → Bytes → Act (Run W) (Unit {0})
    mirror_rule matched url = do
      r ←
          wrapping (codes "frailed to initialise rule: " ++ matched.info.workflow)
            (init_rule env config matched)
      respond (λ a. record a { rule = some r })
      run ← get
      options ← lift (env.services.storage_options run.world (clone_with_url r.source url))
      let (object, e) = env.services.object run.world url options
      elim object [ none ↦ respond (missing e) | some o ↦ mirror_found r o url ]

    -- the three cases of the matched rules
    unfoldable pub mirror_matched : List Rule → Bytes → Act (Run W) (Unit {0})
    mirror_matched (r ∷ r2 ∷ rules) url = fail (
        errorf (
          codes "multi rule match currently not supported: "
          ++ env.codecs.json_rules (r ∷ r2 ∷ rules)))
    mirror_matched [] url = do respond_total; set_status status_no_match
    mirror_matched (r ∷ []) url = do
      respond_total
      if r.disabled then set_status status_disabled else mirror_rule r url

    -- `s.config.Mirrors.ReloadIfNeeded`
    unfoldable pub reload : Act (Run W) (Unit {0})
    reload s =
        let ((e, rules), w) = env.services.reload s.rules s.world in
        lift_error e (record s { world = w; rules = rules })

    -- `service.mirror`
    unfoldable pub mirror : Bytes → Act (Run W) (Unit {0})
    mirror url = do reload; run ← get; mirror_matched (match_rules env.urls run.rules url) url
