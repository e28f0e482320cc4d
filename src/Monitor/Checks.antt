-- ===== src/Monitor/Checks.antt =====
-- What a check reports: mon/service.go.
use smirror.Prelude.{
  ℕ, List, [], ◌∷◌, Bool, true, false, none, some, ltb, Bytes, Result, ok, err, length, ◌≡◌, refl,
  ◌⊎◌, Bool-cases, Result-cases, inl, inr, if◌then◌else◌, is_empty, arith,
}
use smirror.Text.Search.{codes, has_suffix}
use smirror.External.{Urls}
use smirror.Config.Types.{Rule}
use smirror.Act.{Act, continue}
use smirror.Monitor.Reports.{
  Object, MirrorError, Status, Response, new_response, add_error, status_ok, status_error,
  status_unprocessed,
}
use smirror.Monitor.Totals.{
  IsConsistent, add_unprocessed-IsConsistent, add_processed-IsConsistent, add_error-IsConsistent,
  new_response-IsConsistent,
}
use smirror.Monitor.{
  Request, Services, Run, init_request, list, add_errors, check_errors, rule_for, add_all_processed,
  add_all_unprocessed, rules_at, note_processed, check_processed, note_unprocessed,
  check_unprocessed, unless_empty, check_all, check, classify, settle, check_request,
}

module _ {W R : Type 0} (urls : Urls) (services : Services W R) where
  -- The response of a state is consistent, whether or not there is an error.
  abbrev Holds : {A : Type 0} → Result A × Run W → Type 0
  Holds (ok a, s) = IsConsistent s.response
  Holds (err e, s) = IsConsistent s.response

  continue-Holds :
      {A B : Type 0} (r : Result A × Run W) (f : A → Act (Run W) B)
      → Holds r
      → ((a : A) (s : Run W) → IsConsistent s.response → Holds (f a s))
      → Holds (continue r f)
  continue-Holds (ok a, s) f h k = k a s h
  continue-Holds (err e, s) f h k = h

  lift-Holds : {A : Type 0} (r : Result A) (s : Run W) → IsConsistent s.response → Holds (r, s)
  lift-Holds (ok a) s h = h
  lift-Holds (err e) s h = h

  if-Holds :
      {A : Type 0} (b : Bool) (x y : Result A × Run W)
      → Holds x
      → Holds y
      → Holds (if b then x else y)
  if-Holds true x y h k = h
  if-Holds false x y h k = k

  add_errors-Holds :
      (objects : List Object) (s : Run W)
      → IsConsistent s.response
      → Holds (add_errors urls services objects s)
  unfolding add_errors
  add_errors-Holds [] s h = h
  add_errors-Holds (o ∷ objects) s h = if-Holds o.is_dir _ _ (add_errors-Holds objects s h) (
      if-Holds (has_suffix o.url (codes "-error")) _ _
        (continue-Holds (services.read_object s.world o, s) _
          (lift-Holds (services.read_object s.world o) s h)
          (λ content s1 h1.
            add_errors-Holds objects (record s1 { response = add_error o [] s1.response })
              (add_error-IsConsistent o [] s1.response h1)))
        (add_errors-Holds objects (record s { response = add_error o [] s.response })
          (add_error-IsConsistent o [] s.response h)))

  recount :
      (r : Response) → IsConsistent r → IsConsistent (record r { error_count = length r.errors })
  recount r h = record {
    unprocessed = h.unprocessed;
    processed = h.processed;
    counted = h.counted;
    distinct = h.distinct;
    errors = refl;
  }

  check_errors-Holds :
      (r : Request) (s : Run W) → IsConsistent s.response → Holds (check_errors urls services r s)
  unfolding check_errors
  check_errors-Holds r s h =
      elim (Result-cases
        (list urls services s.world r.error_url none (some r.error_modified_after))) [
          | inl (e, failed) ↦ rw (failed, check_errors) h
          | inr (objects, listed) ↦
              rw (listed, check_errors)
                (continue-Holds (add_errors urls services objects s) _
                  (add_errors-Holds objects s h) (λ _ s1 h1. recount s1.response h1))
        ]

  if-IsConsistent :
      (b : Bool) (x y : Response)
      → IsConsistent x
      → IsConsistent y
      → IsConsistent (if b then x else y)
  if-IsConsistent true x y h k = h
  if-IsConsistent false x y h k = k

  add_all_processed-IsConsistent :
      (rules : List Rule) (objects : List Object) (r : Response)
      → IsConsistent r
      → IsConsistent (add_all_processed urls services rules objects r)
  unfolding add_all_processed
  add_all_processed-IsConsistent rules [] r h = h
  add_all_processed-IsConsistent rules (o ∷ objects) r h =
      if-IsConsistent o.is_dir _ _ (add_all_processed-IsConsistent rules objects r h) (
        add_all_processed-IsConsistent rules objects _
          (add_processed-IsConsistent (rule_for urls services rules o) o r h))

  add_all_unprocessed-IsConsistent :
      (now : ℕ) (rules : List Rule) (objects : List Object) (r : Response)
      → IsConsistent r
      → IsConsistent (add_all_unprocessed urls services now rules objects r)
  unfolding add_all_unprocessed
  add_all_unprocessed-IsConsistent now rules [] r h = h
  add_all_unprocessed-IsConsistent now rules (o ∷ objects) r h =
      if-IsConsistent o.is_dir _ _ (add_all_unprocessed-IsConsistent now rules objects r h) (
        add_all_unprocessed-IsConsistent now rules objects _ (
          add_unprocessed-IsConsistent services.format_age now (rule_for urls services rules o) o r
            h))

  rules_at-Holds :
      (text url : Bytes) (s : Run W)
      → IsConsistent s.response
      → Holds (rules_at urls services text url s)
  unfolding rules_at
  rules_at-Holds text url s h = elim (Result-cases (services.load_routes s.world url)) [
    | inl (e, failed) ↦ rw (failed, rules_at) h
    | inr (routes, loaded) ↦
        rw (loaded, rules_at)
          (lift-Holds (services.load_mirrors routes s.world).0
            (record s { world = (services.load_mirrors routes s.world).1 }) h)
  ]

  check_processed-Holds :
      (r : Request) (s : Run W)
      → IsConsistent s.response
      → Holds (check_processed urls services r s)
  unfolding check_processed note_processed
  check_processed-Holds r s h =
      continue-Holds
        (rules_at urls services (codes "failed to load routes: configf from URL :") r.config_url s)
        _ (rules_at-Holds _ r.config_url s h)
        (λ rules s1 h1.
          elim (Result-cases
            (list urls services s1.world r.processed_url none (some r.processed_modified_after))) [
              | inl (e, failed) ↦ rw (failed, note_processed) h1
              | inr (objects, listed) ↦
                  rw (listed, note_processed)
                    (add_all_processed-IsConsistent rules objects s1.response h1)
            ])

  check_unprocessed-Holds :
      (r : Request) (s : Run W)
      → IsConsistent s.response
      → Holds (check_unprocessed urls services r s)
  unfolding check_unprocessed note_unprocessed
  check_unprocessed-Holds r s h =
      continue-Holds (rules_at urls services (codes "failed to load routes: ") r.config_url s) _
        (rules_at-Holds _ r.config_url s h)
        (λ rules s1 h1.
          elim (Result-cases
            (list urls services s1.world r.trigger_url (some r.unprocessed_modified_before) none)) [
              | inl (e, failed) ↦ rw (failed, note_unprocessed) h1
              | inr (objects, listed) ↦
                  rw (listed, note_unprocessed)
                    (add_all_unprocessed-IsConsistent (services.now s1.world) rules objects
                      s1.response h1)
            ])

  unless_empty-Holds :
      (url : Bytes) (m : Act (Run W) (Unit {0})) (s : Run W)
      → IsConsistent s.response
      → Holds (m s)
      → Holds (unless_empty urls services url m s)
  unless_empty-Holds url m s h k = if-Holds (is_empty url) (ok tt, s) (m s) h k

  check_all-Holds :
      (r : Request) (s : Run W) → IsConsistent s.response → Holds (check_all urls services r s)
  unfolding check_all
  check_all-Holds r s h =
      continue-Holds (unless_empty urls services r.error_url (check_errors urls services r) s) _
        (unless_empty-Holds r.error_url (check_errors urls services r) s h
          (check_errors-Holds r s h))
        (λ _ s1 h1.
          continue-Holds
            (unless_empty urls services r.processed_url (check_processed urls services r) s1) _
            (unless_empty-Holds r.processed_url (check_processed urls services r) s1 h1
              (check_processed-Holds r s1 h1))
            (λ _ s2 h2. check_unprocessed-Holds r s2 h2))

  check-Holds :
      (r : Request) (s : Run W) → IsConsistent s.response → Holds (check urls services r s)
  unfolding check
  check-Holds r s h = elim (Result-cases (init_request urls services r)) [
    | inl (e, failed) ↦ rw (failed, check) h
    | inr (r', timed) ↦ rw (timed, check) (check_all-Holds r' s h)
  ]

  with_status :
      (r : Response) (st : Status) (text : Bytes)
      → IsConsistent r
      → IsConsistent (record r { status = st; error = text })
  with_status r st text h = record {
    unprocessed = h.unprocessed;
    processed = h.processed;
    counted = h.counted;
    distinct = h.distinct;
    errors = h.errors;
  }

  List-cases :
      (es : List MirrorError)
      → (es ≡ []) ⊎ ((e : MirrorError) × (rest : List MirrorError) × (es ≡ e ∷ rest))
  List-cases [] = inl refl
  List-cases (e ∷ rest) = inr (e, rest, refl)

  classify-IsConsistent : (r : Response) → IsConsistent r → IsConsistent (classify urls services r)
  unfolding classify
  classify-IsConsistent r h = elim (Bool-cases (ltb 0 r.unprocessed_count)) [
    | inl waiting ↦ rw waiting (with_status r status_unprocessed r.error h)
    | inr idle ↦ elim (List-cases r.errors) [
      | inl clean ↦ rw idle (rw (clean, classify) h)
      | inr (e, rest, broken) ↦
          rw idle (rw (broken, classify) (with_status r status_error e.message h))
    ]
  ]

  settle-IsConsistent :
      (r : Result (Unit {0}) × Run W) → Holds r → IsConsistent (settle urls services r).0
  unfolding settle
  settle-IsConsistent (ok _, s) h = classify-IsConsistent s.response h
  settle-IsConsistent (err e, s) h = with_status s.response status_error e.message h

  -- Whatever the storage answers, and also where a check ends with an error, the report's totals are
  -- those of its workflows, of which no two are the same; a workflow lists as many unprocessed files as
  -- it counts, its least size is not above its greatest one, and the errors are counted.
  pub check_request-IsConsistent :
      (r : Request) (w : W) → IsConsistent (check_request urls services r w).0
  unfolding check_request
  check_request-IsConsistent r w =
      settle-IsConsistent (check urls services r (record { world = w; response = new_response }))
        (check-Holds r (record { world = w; response = new_response }) new_response-IsConsistent)

  -- nothing is left unprocessed, and nothing failed
  abbrev pub IsClean : Response → Type 0
  IsClean r = (r.unprocessed_count ≡ 0) × (r.errors ≡ [])

  classify-IsClean :
      (r : Response)
      → (classify urls services r).status ≡ status_ok
      → IsClean (classify urls services r)
  unfolding classify
  classify-IsClean r passed = elim (Bool-cases (ltb 0 r.unprocessed_count)) [
    | inl waiting ↦
        let stop : status_unprocessed ≡ status_ok = rw waiting at passed in ground (arith, stop)
    | inr idle ↦ elim (List-cases r.errors) [
      | inl clean ↦ rw idle (rw (clean, classify) (ground arith, clean))
      | inr (e, rest, broken) ↦
          let stop : status_error ≡ status_ok = rw (broken, classify) at (rw idle at passed) in
          ground (arith, stop)
    ]
  ]

  settle-IsClean :
      (r : Result (Unit {0}) × Run W)
      → (settle urls services r).0.status ≡ status_ok
      → IsClean (settle urls services r).0
  unfolding settle
  settle-IsClean (ok _, s) passed = classify-IsClean s.response passed
  settle-IsClean (err e, s) passed = ground (arith, passed)

  -- A report with the status ok counts no unprocessed file and lists no error.
  check_request-IsClean :
      (r : Request) (w : W)
      → (check_request urls services r w).0.status ≡ status_ok
      → IsClean (check_request urls services r w).0
  unfolding check_request
  check_request-IsClean r w passed = settle-IsClean _ passed
