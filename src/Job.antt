-- ===== src/Job.antt =====
-- job/action.go, job/actions.go and job/context.go: the actions that follow a job.
pub mod Runs
use smirror.Prelude.{
  List, [], ◌∷◌, ◌++◌, Bool, true, false, not, ◌&&◌, Option, none, some, if◌then◌else◌, Bytes,
  Error, errorf, Result, ok, err, is_empty, wrap,
}
use smirror.Text.Search.{codes, same, contains, replace}
use smirror.External.{Urls}
use smirror.Config.Types.{
  Credentials, Info, Action, Actions, Body, text_body, response_body, no_body, other_body,
}
use smirror.Act.{Act, lift_error, fail, pure, ◌>>=◌, ◌>>◌}

-- job/context.go
pub record Context : Type 0 where
  pub error : Option Error
  pub relative_path : Bytes
  pub source_url : Bytes

-- job/notify.go
pub record NotifyRequest : Type 0 where
  pub channels : List Bytes
  pub title : Bytes
  pub message : Bytes
  pub body : Body
  pub credentials : Option Credentials

-- What the actions call: the storage and the notifier.
pub record Effects (W : Type 0) : Type 0 where
  pub delete : Bytes → W → Option Error × W
  pub move : Bytes → Bytes → W → Option Error × W
  pub upload : Bytes → Bytes → W → Option Error × W
  pub notify : NotifyRequest → W → Option Error × W

-- A call whose only result is its error.
abbrev pub call : {W : Type 0} → (W → Option Error × W) → Act W (Unit {0})
call f w = let (e, w') = f w in lift_error e w'

module _ (urls : Urls) where
  -- `Action.DestURL`
  unfoldable pub dest_url : Action → Bytes → Bytes
  dest_url a path =
      urls.join a.url (if contains path (codes "://") then (urls.base path).1 else path)

  module _ {W : Type 0} (fx : Effects W) where
    unfoldable pub write_error : Action → Context → Error → Act W (Unit {0})
    write_error a ctx e = call (fx.upload (dest_url a ctx.source_url ++ codes "-error") e.message)

    -- `$Response` stands for the job's response
    abbrev pub action_body : Body → Body
    action_body no_body = no_body
    action_body (text_body t) = if same t (codes "$Response") then response_body else text_body t
    action_body (other_body t) = other_body t
    action_body response_body = response_body

    unfoldable pub notify_request : Action → Context → Info → NotifyRequest
    notify_request a ctx info = record {
      channels =
          if is_empty a.channels && not (is_empty info.slack_channel)
          then info.slack_channel ∷ []
          else a.channels;
      title = replace a.title (codes "$SourceURL") ctx.source_url 1;
      message = replace a.message (codes "$SourceURL") ctx.source_url 1;
      body = action_body a.body;
      credentials = a.credentials;
    }

    -- where `ActionMove` moves the source to
    unfoldable pub move_url : Action → Context → Bytes
    move_url a ctx =
        urls.join (urls.split (dest_url a ctx.relative_path)).0 (urls.split ctx.source_url).1

    -- `Action.Do`
    unfoldable pub do_action : Context → Info → Action → Act W (Unit {0})
    do_action ctx info a =
        if same a.action (codes "delete")
        then call (fx.delete ctx.source_url)
        else if same a.action (codes "notify")
        then call (fx.notify (notify_request a ctx info))
        else if same a.action (codes "move")
        then call (fx.move ctx.source_url (move_url a ctx))
        else fail (errorf (codes "unsupported action: " ++ a.action))

    -- an action, and the error's file when the job failed
    unfoldable pub do_and_report : Context → Info → Action → Act W (Unit {0})
    do_and_report ctx info a = do
      do_action ctx info a
      elim ctx.error [ none ↦ pure tt | some e ↦ write_error a ctx e ]

    unfoldable pub run_all : Context → Info → List Action → Act W (Unit {0})
    run_all ctx info [] = pure tt
    run_all ctx info (a ∷ actions) = do do_and_report ctx info a; run_all ctx info actions

    -- `Actions.run`
    unfoldable pub run_selected : Actions → Context → Info → Act W (Unit {0})
    run_selected actions ctx info =
        run_all ctx info
          (elim ctx.error [ none ↦ actions.on_success | some e ↦ actions.on_failure ])
