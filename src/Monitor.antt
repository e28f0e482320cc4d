-- ===== src/Monitor.antt =====
-- mon/service.go with contract.go, dataflow.go, file.go and error.go: the report on the files that the
-- mirror service has processed, has not processed, and has failed on. A time is a number of nanoseconds.
pub mod Reports
pub mod Totals
pub mod Checks
pub mod Samples
use smirror.Prelude.{
  ℕ, zero, suc, ◌+◌, ◌-◌, ◌/◌, List, [], ◌∷◌, ◌++◌, Bool, true, false, ◌&&◌, ◌||◌, not, Option,
  none, some, ltb, ◌==◌, Bytes, Error, errorf, wrap, Result, ok, err, is_empty, length,
  if◌then◌else◌,
}
use smirror.Text.Search.{codes, same, contains, has_suffix, to_lower}
use smirror.External.{Urls}
use smirror.Act.{
  Act, pure, fail, lift, lift_error, get, modify, continue, ◌>>=◌, ◌>>◌, wrapping, wrapped,
}
use smirror.Config.Types.{Rule, Info}
use smirror.Config.Matching.{match_rules}
use smirror.Monitor.Reports.{
  Object, Response, new_response, add_error, add_unprocessed, add_processed, Status, status_ok,
  status_error, status_unprocessed,
}

-- contract.go
pub record Request : Type 0 where
  pub unprocessed_duration : Bytes
  pub unprocessed_modified_before : ℕ
  pub processed_url : Bytes
  pub processed_recency : Bytes
  pub processed_modified_after : ℕ
  pub error_recency : Bytes
  pub error_modified_after : ℕ
  pub config_url : Bytes
  pub trigger_url : Bytes
  pub error_url : Bytes

-- `afs.Service`, the routes' decoder, and the loading of rules (`Config.Loading`); `W` is the storage,
-- `R` the decoded routes.
pub record Services (W R : Type 0) : Type 0 where
  pub now : W → ℕ
  -- `toolbox.TimeAt`
  pub time_at : Bytes → Result ℕ
  pub exists : W → Bytes → Bool
  -- the files below a URL, modified before and after a time
  pub list_files : W → Bytes → Option ℕ → Option ℕ → Result (List Object)
  -- `Open` and `ReadAll`
  pub read_object : W → Object → Result Bytes
  pub load_routes : W → Bytes → Result R
  pub load_mirrors : R → W → Result (List Rule) × W
  -- the text of an age, a number of whole seconds
  pub format_age : ℕ → Bytes

pub record Run (W : Type 0) : Type 0 where
  pub world : W
  pub response : Response

abbrev hour : Bytes
hour = codes "1hour"

-- a duration, or the default, with the word for the past
unfoldable pub past : Bytes → Bytes
past duration =
    let given : Bytes = if is_empty duration then hour else duration in
    if contains (to_lower given) (codes "ago") || contains (to_lower given) (codes "past")
    then given
    else given ++ codes "Ago"

unfoldable pub validate : Request → Option Error
validate r =
    if is_empty r.config_url
    then some (errorf (codes "configURL was empty"))
    else (if is_empty r.trigger_url then some (errorf (codes "triggerURL was empty")) else none)

module _ {W R : Type 0} (urls : Urls) (services : Services W R) where
  -- the time of a duration, with the error's name for it
  unfoldable pub time_of : Bytes → Bytes → Result ℕ
  time_of name duration = elim (services.time_at duration) [
    | ok t ↦ ok t
    | err e ↦ err (wrap (codes "invalid " ++ name ++ codes ": " ++ duration) e)
  ]

  -- `Request.Init`
  unfoldable pub init_request : Request → Result Request
  init_request r = elim (time_of (codes "UnprocessedDuration") (past r.unprocessed_duration)) [
    | err e ↦ err e
    | ok before ↦ elim (time_of (codes "ErrorRecency") (past r.processed_recency)) [
      | err e ↦ err e
      | ok processed ↦ elim (time_of (codes "ErrorRecency") (past r.error_recency)) [
        | err e ↦ err e
        | ok failed ↦ ok (record r {
          unprocessed_duration = past r.unprocessed_duration;
          unprocessed_modified_before = before;
          processed_recency = past r.processed_recency;
          processed_modified_after = processed;
          error_recency = past r.error_recency;
          error_modified_after = failed;
        })
      ]
    ]
  ]

  unfoldable pub list : W → Bytes → Option ℕ → Option ℕ → Result (List Object)
  list w url before after =
      if services.exists w url then services.list_files w url before after else ok []

  -- The loop over the error files. The message that is read is not the one that is added: that stays
  -- empty.
  unfoldable pub add_errors : List Object → Act (Run W) (Unit {0})
  add_errors [] s = (ok tt, s)
  add_errors (o ∷ objects) s =
      let rest = add_errors objects in
      if o.is_dir
      then rest s
      else (if has_suffix o.url (codes "-error")
          then continue (services.read_object s.world o, s)
              (λ _ s1. rest (record s1 { response = add_error o [] s1.response }))
          else rest (record s { response = add_error o [] s.response }))

  unfoldable pub check_errors : Request → Act (Run W) (Unit {0})
  check_errors r s = elim (list s.world r.error_url none (some r.error_modified_after)) [
    | err e ↦ (err (wrap (codes "failed to check errors: " ++ r.error_url) e), s)
    | ok objects ↦ continue (add_errors objects s) (λ _ s1. (
      ok tt,
      record s1 { response = record s1.response { error_count = length s1.response.errors } },
    ))
  ]

  abbrev pub only : List Rule → Option Rule
  only [] = none
  only (r ∷ []) = some r
  only (r ∷ q ∷ rules) = none

  -- the rule of a file, if exactly one matches it
  unfoldable pub rule_for : List Rule → Object → Option Rule
  rule_for rules o = only (match_rules urls rules o.url)

  unfoldable pub add_all_processed : List Rule → List Object → Response → Response
  add_all_processed rules [] r = r
  add_all_processed rules (o ∷ objects) r =
      let rest = add_all_processed rules objects in
      if o.is_dir then rest r else rest (add_processed (rule_for rules o) o r)

  unfoldable pub add_all_unprocessed : ℕ → List Rule → List Object → Response → Response
  add_all_unprocessed now rules [] r = r
  add_all_unprocessed now rules (o ∷ objects) r =
      let rest = add_all_unprocessed now rules objects in
      if o.is_dir
      then rest r
      else rest (add_unprocessed services.format_age now (rule_for rules o) o r)

  -- `loadRoutes` and the loading of its rules
  unfoldable pub rules_at : Bytes → Bytes → Act (Run W) (List Rule)
  rules_at text config_url s = elim (services.load_routes s.world config_url) [
    | err e ↦ (err (wrap (text ++ config_url) e), s)
    | ok routes ↦
        let (rules, w) = services.load_mirrors routes s.world in (rules, record s { world = w })
  ]

  unfoldable pub note_processed : Request → List Rule → Act (Run W) (Unit {0})
  note_processed r rules s =
      elim (list s.world r.processed_url none (some r.processed_modified_after)) [
        | err e ↦ (err (wrap (codes "failed to check processed: " ++ r.processed_url) e), s)
        | ok objects ↦ (ok tt, record s { response = add_all_processed rules objects s.response })
      ]

  unfoldable pub check_processed : Request → Act (Run W) (Unit {0})
  check_processed r s =
      continue (rules_at (codes "failed to load routes: configf from URL :") r.config_url s)
        (note_processed r)

  unfoldable pub note_unprocessed : Request → List Rule → Act (Run W) (Unit {0})
  note_unprocessed r rules s =
      elim (list s.world r.trigger_url (some r.unprocessed_modified_before) none) [
        | err e ↦ (err (wrap (codes "failed to check unprocessed: " ++ r.trigger_url) e), s)
        | ok objects ↦ (
          ok tt,
          record s {
            response = add_all_unprocessed (services.now s.world) rules objects s.response;
          },
        )
      ]

  unfoldable pub check_unprocessed : Request → Act (Run W) (Unit {0})
  check_unprocessed r s =
      continue (rules_at (codes "failed to load routes: ") r.config_url s) (note_unprocessed r)

  -- a check of a URL, unless that is empty
  abbrev pub unless_empty : Bytes → Act (Run W) (Unit {0}) → Act (Run W) (Unit {0})
  unless_empty url m s = if is_empty url then (ok tt, s) else m s

  -- `check` behind `Init`
  unfoldable pub check_all : Request → Act (Run W) (Unit {0})
  check_all r s = continue (unless_empty r.error_url (check_errors r) s) (λ _ s1.
      continue (unless_empty r.processed_url (check_processed r) s1)
        (λ _ s2. check_unprocessed r s2))

  unfoldable pub check : Request → Act (Run W) (Unit {0})
  check r s = elim (init_request r) [ err e ↦ (err e, s) | ok r' ↦ check_all r' s ]

  -- the status of a check without an error
  unfoldable pub classify : Response → Response
  classify r =
      if ltb 0 r.unprocessed_count
      then record r { status = status_unprocessed }
      else (elim r.errors [
        | [] ↦ r
        | e ∷ es ↦ record r { status = status_error; error = e.message }
      ])

  unfoldable pub settle : Result (Unit {0}) × Run W → Response × W
  settle (err e, s) = (record s.response { error = e.message; status = status_error }, s.world)
  settle (ok _, s) = (classify s.response, s.world)

  -- `Check`
  unfoldable pub check_request : Request → W → Response × W
  check_request r w = settle (check r (record { world = w; response = new_response }))
