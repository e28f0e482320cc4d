-- ===== src/Replaying/Listings.antt =====
-- What a replay makes of the listing of its folder.
use smirror.Prelude.{[], none, Bytes, Error, ok, err, ◌≡◌, refl, is_empty, true, false, ℕ}
use smirror.Mirror.State.{Environment, status_ok}
use smirror.Mirror.Replay.{replay_all}
use smirror.Monitor.{past}
use smirror.Replaying.{
  Request, Sources, validate, init, list, replay_valid, replay, respond, replay_request,
}

module _ {W : Type 0} (env : Environment W) (sources : Sources W) where
  abbrev timed_request : Request → ℕ → Request
  timed_request r before = record r {
    unprocessed_duration = past r.unprocessed_duration;
    unprocessed_modified_before = before;
  }

  init-timed :
      (r : Request) (before : ℕ)
      → sources.time_at (past r.unprocessed_duration) ≡ ok before
      → init env sources r ≡ ok (timed_request r before)
  unfolding init
  init-timed r before timed = rw (timed, init) refl

  validate-named : (r : Request) → is_empty r.trigger_url ≡ false → validate r ≡ none
  unfolding validate
  validate-named r named = rw (named, validate) refl

  list-failed :
      (w : W) (url : Bytes) (before : ℕ) (e : Error)
      → sources.exists w url ≡ true
      → sources.list_files w url before ≡ err e
      → list env sources w url before ≡ err e
  unfolding list
  list-failed w url before e there failed = rw (there, list) failed

  replay_valid-failed :
      (r : Request) (w : W) (e : Error)
      → list env sources w r.trigger_url r.unprocessed_modified_before ≡ err e
      → env.services.replay_order [] ≡ []
      → replay_valid env sources r w ≡ (none, w)
  unfolding replay_valid replay_all
  replay_valid-failed r w e failed idle = rw (failed, replay_valid) (rw (idle, replay_all) refl)

  -- A replay whose folder exists and cannot be listed reports success and moves nothing.
  pub replay_request-list_failed :
      (r : Request) (w : W) (before : ℕ) (e : Error)
      → is_empty r.trigger_url ≡ false
      → sources.time_at (past r.unprocessed_duration) ≡ ok before
      → sources.exists w r.trigger_url ≡ true
      → sources.list_files w r.trigger_url before ≡ err e
      → env.services.replay_order [] ≡ []
      → replay_request env sources r w ≡ (record { status = status_ok; error = [] }, w)
  unfolding replay_request replay respond
  replay_request-list_failed r w before e named timed there failed idle =
      rw (init-timed r before timed, replay)
        (rw (validate-named (timed_request r before) named, replay)
          (rw
            (
              replay_valid-failed (timed_request r before) w e
                  (list-failed w r.trigger_url before e there failed) idle,
              respond,
            )
            refl))
