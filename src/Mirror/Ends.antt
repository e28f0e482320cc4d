-- ===== src/Mirror/Ends.antt =====
-- The end of a job in service.go: the actions, and the log of the response.
use smirror.Prelude.{◌++◌, Option, none, some, if◌then◌else◌, Bytes, Error, wrap, Result, ok, err}
use smirror.Text.Search.{codes, contains}
use smirror.Config.Types.{Rule}
use smirror.Config.RuleNames.{rule_name}
use smirror.Act.{Act}
use smirror.Job.{Effects, run_selected}
use smirror.Mirror.State.{Response, Config, Environment, Run}

module _ {W : Type 0} (env : Environment W) where
  -- the actions' calls, as the service hands them on
  abbrev pub effects : Response → Effects W
  effects response = record {
    delete = env.services.delete;
    move = env.services.move;
    upload = env.services.upload;
    notify = env.services.notify response;
  }

  -- what a job's end makes of the actions' error: the job's error goes first
  abbrev pub report_actions :
      Bytes → Option Error → Result (Unit {0}) × W → Run W → Result (Unit {0}) × Run W
  report_actions json none (ok _, w) s = (ok tt, record s { world = w })
  report_actions json none (err e, w) s =
      (err (wrap (codes "failed to run post actions: " ++ json) e), record s { world = w })
  report_actions json (some e) (_, w) s = (err e, record s { world = w })

  -- `Actions.Run` at the end of a job, with the job's error
  unfoldable pub finish_job : Rule → Bytes → Option Error → Act (Run W) (Unit {0})
  finish_job r url failure s =
      report_actions (env.codecs.json_actions r.actions) failure
        (run_selected env.urls (effects s.response) r.actions
          (record { error = failure; relative_path = rule_name env.urls r url; source_url = url })
          r.info s.world)
        s

module _ {W : Type 0} (env : Environment W) (config : Config) where
  abbrev pub with_rule_url : Response → Response
  with_rule_url a = record a { rule_url = elim a.rule [ none ↦ a.rule_url | some r ↦ r.info.url ] }

  -- the result of writing the response: an error stands in it
  abbrev pub report_log : Response → Option Error × W → Run W → Run W
  report_log a (none, w) s = record s { world = w; response = a }
  report_log a (some e, w) s = record s { world = w; response = record a { log_error = e.message } }

  abbrev pub log_json : Response → Result Bytes → Run W → Run W
  log_json a (err e) s = record s { response = record a { log_error = e.message } }
  log_json a (ok json) s =
      report_log a
        (env.services.upload
          (env.urls.join config.response_url (env.services.uuid s.world ++ codes ".json")) json
          s.world)
        s

  -- a response without its rule, as JSON in a new file
  unfoldable pub write_log : Response → Run W → Run W
  write_log a s = log_json a (env.codecs.json_response a) s

  -- `logResponse`: a response that could trigger the next one is not written.
  unfoldable pub log_response : Run W → Run W
  log_response s =
      if contains s.response.triggered_by config.response_url
      then record s { response = with_rule_url s.response }
      else write_log (record (with_rule_url s.response) { rule = none }) s
