-- ===== src/Mirror/Attempts.antt =====
-- `Mirror` of service.go: the rounds over a request.
pub mod Bounds
use smirror.Prelude.{
  ℕ, zero, suc, ◌+◌, ◌-◌, List, [], ◌∷◌, ◌++◌, Bool, true, false, not, ◌&&◌, ◌||◌, Option, none,
  some, ltb, if◌then◌else◌, Bytes, Error, errorf, wrap, Result, ok, err, is_empty, length,
}
use smirror.Text.Search.{codes, same, contains}
use smirror.Config.Types.{Overflow, Streaming, Rule}
use smirror.Config.Streaming.{overflow_size, message_dest}
use smirror.Config.Expansion.{clone_with_url}
use smirror.Config.RuleNames.{rule_name}
use smirror.Config.Matching.{match_rules}
use smirror.Config.Key.{Key}
use smirror.Splitter.ByPartition.Table.{Buffer}
use smirror.Act.{Act, pure, fail, lift, lift_error, get, ◌>>=◌, ◌>>◌, wrapping, error_of}
use smirror.Job.{Context, Effects, run_selected}
use smirror.Mirror.State.{
  Request, Status, status_error, status_no_match, status_no_found, status_overflow, status_partial,
  status_disabled, Response, new_response, Config, Object, Environment, Event, s3_event,
  storage_event, Run, effect, respond,
}
use smirror.Mirror.Messages.{is_not_found, is_retry_error}
use smirror.Mirror.Transfers.{Ticket, mirror_asset}
use smirror.Mirror.Replay.{replay}
use smirror.Mirror.Rules.{init_rule}
use smirror.Mirror.Ends.{log_response}
use smirror.Mirror.Service.{mirror}

module _ {W : Type 0} (env : Environment W) (config : Config) where
  -- The order in which Go visits a map's keys.
  module _ (order : List (Buffer Key Ticket) → List (Buffer Key Ticket)) where
    -- What `Mirror` does with the result of `mirror`.
    abbrev pub note_result : Result (Unit {0}) × Run W → Run W
    note_result (ok _, s) = s
    note_result (err e, s) = record s {
      response = record s.response { status = status_error; error = e.message };
    }

    abbrev pub log_if_set : Run W → Run W
    log_if_set s = if is_empty config.response_url then s else log_response env config s

    -- `mirror` and the first log, on a new response
    unfoldable pub attempt_once : Bytes → Run W → Run W
    attempt_once url s =
        log_if_set
          (note_result (mirror env config order url (record s { response = new_response url })))

    abbrev pub as_not_found : Response → Response
    as_not_found a = record a { status = status_no_found; not_found_error = a.error; error = [] }

    -- What follows the first log; `retry` is the recursive call.
    unfoldable pub settle :
        Request → Run W → (Run W → Option (Request × Run W)) → Option (Request × Run W)
    settle request s retry =
        if is_empty s.response.error
        then some (request, s)
        else if is_not_found s.response.error
        then some (request, log_if_set (record s { response = as_not_found s.response }))
        else if is_retry_error s.response.error && ltb request.attempt config.max_retries
        then retry s
        else some (request, log_if_set s)

    -- `Mirror`, on fuel: the request, whose `Attempt` counts the rounds, and the last response.
    unfoldable pub mirror_attempts : ℕ → Request → Run W → Option (Request × Run W)
    mirror_attempts zero request s = none
    mirror_attempts (suc fuel) request s =
        let next : Request = record request { attempt = suc request.attempt } in
        settle next (attempt_once request.url s) (mirror_attempts fuel next)

    -- `Mirror`: as many rounds as retries, and one more, are enough.
    unfoldable pub mirror_request : Request → Run W → Option (Request × Run W)
    mirror_request request s = mirror_attempts (suc config.max_retries) request s
