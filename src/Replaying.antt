-- ===== src/Replaying.antt =====
-- replay/service.go with contract.go: the files below a URL that are older than a duration are moved
-- away and back, by the replayer of base/mover.go (`Mirror.Replay`).
pub mod Listings
pub mod Samples
use smirror.Prelude.{
  List, [], ◌∷◌, ◌++◌, Bool, true, false, not, Option, none, some, ℕ, Bytes, Error, errorf, wrap,
  Result, ok, err, is_empty, map, select, if◌then◌else◌,
}
use smirror.Text.Search.{codes}
use smirror.Monitor.{past}
use smirror.Mirror.State.{Object, Environment, Status, status_ok, status_error}
use smirror.Mirror.Replay.{replay_all}

pub record Request : Type 0 where
  pub trigger_url : Bytes
  pub unprocessed_duration : Bytes
  pub unprocessed_modified_before : ℕ

-- The field for the replayed URLs stays empty, and is left out.
pub record Response : Type 0 where
  pub status : Status
  pub error : Bytes

-- `toolbox.TimeAt`, and the files below a URL that were modified before a time
pub record Sources (W : Type 0) : Type 0 where
  pub time_at : Bytes → Result ℕ
  pub exists : W → Bytes → Bool
  pub list_files : W → Bytes → ℕ → Result (List Object)

unfoldable pub validate : Request → Option Error
validate r = if is_empty r.trigger_url then some (errorf (codes "triggerURL was empty")) else none

module _ {W : Type 0} (env : Environment W) (sources : Sources W) where
  unfoldable pub init : Request → Result Request
  init r = elim (sources.time_at (past r.unprocessed_duration)) [
    | err e ↦ err (wrap (codes "invalid UnprocessedDuration: " ++ past r.unprocessed_duration) e)
    | ok before ↦ ok (record r {
      unprocessed_duration = past r.unprocessed_duration;
      unprocessed_modified_before = before;
    })
  ]

  unfoldable pub list : W → Bytes → ℕ → Result (List Object)
  list w url before = if sources.exists w url then sources.list_files w url before else ok []

  -- what a listing gives: its error is not looked at
  abbrev pub listed : Result (List Object) → List Object
  listed (ok objects) = objects
  listed (err e) = []

  -- the URLs that are scheduled
  abbrev pub scheduled : List Object → List Bytes
  scheduled objects =
      map (λ o. o.url) (select (λ o. not (is_empty o.url)) (select (λ o. not o.is_dir) objects))

  unfoldable pub replay_valid : Request → W → Option Error × W
  replay_valid r w =
      replay_all env
        (env.services.replay_order
          (scheduled (listed (list w r.trigger_url r.unprocessed_modified_before))))
        w

  unfoldable pub replay : Request → W → Option Error × W
  replay r w = elim (init r) [
    | err e ↦ (some e, w)
    | ok r' ↦ elim (validate r') [ some e ↦ (some e, w) | none ↦ replay_valid r' w ]
  ]

  unfoldable pub respond : Option Error × W → Response × W
  respond (none, w) = (record { status = status_ok; error = [] }, w)
  respond (some e, w) = (record { status = status_error; error = e.message }, w)

  -- `Replay`
  unfoldable pub replay_request : Request → W → Response × W
  replay_request r w = respond (replay r w)
