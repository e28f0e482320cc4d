-- ===== src/Mirror/Attempts/Bounds.antt =====
-- `Mirror` of service.go ends, and how often it tries.
use smirror.Prelude.{
  ℕ, zero, suc, ◌+◌, ◌≤◌, ◌<◌, List, Bool, true, false, ◌&&◌, Option, none, some, ltb, Bytes,
  Result, ok, err, is_empty, [], ◌∷◌, if◌then◌else◌, ◌≡◌, ◌⊎◌, inl, refl, arith, Error,
}
use smirror.Text.Search.{contains}
use smirror.Config.Key.{Key}
use smirror.Splitter.ByPartition.Table.{Buffer}
use smirror.Mirror.State.{Request, Response, Config, Environment, Run}
use smirror.Mirror.Messages.{is_not_found, is_retry_error}
use smirror.Mirror.Transfers.{Ticket}
use smirror.Mirror.Ends.{log_response, write_log, report_log, log_json}
use smirror.Mirror.Attempts.{mirror_attempts, mirror_request, settle, log_if_set}

is_not_found_empty : is_not_found [] ≡ false
unfolding is_not_found
is_not_found_empty = refl

is_retry_error_empty : is_retry_error [] ≡ false
unfolding is_retry_error
is_retry_error_empty = refl

is_empty→nil : (m : Bytes) → is_empty m ≡ true → m ≡ []
is_empty→nil [] h = refl
is_empty→nil (c ∷ m) h = ground arith

module _ {W : Type 0} (env : Environment W) (config : Config) where
  report_log-error :
      (a : Response) (r : Option Error × W) (s : Run W)
      → (report_log env config a r s).response.error ≡ a.error
  report_log-error a (none, w) s = refl
  report_log-error a (some e, w) s = refl

  -- Two ways to go on that end with the same error.
  if-error :
      (b : Bool) (x y : Run W) (m : Bytes)
      → x.response.error ≡ m
      → y.response.error ≡ m
      → (if b then x else y).response.error ≡ m
  if-error true x y m h k = h
  if-error false x y m h k = k

  log_json-error :
      (a : Response) (j : Result Bytes) (s : Run W)
      → (log_json env config a j s).response.error ≡ a.error
  log_json-error a (err e) s = refl
  log_json-error a (ok json) s = report_log-error a _ s

  write_log-error : (a : Response) (s : Run W) → (write_log env config a s).response.error ≡ a.error
  unfolding write_log
  write_log-error a s = log_json-error a (env.codecs.json_response a) s

  -- The log leaves the response's error as it is.
  log_response-error : (s : Run W) → (log_response env config s).response.error ≡ s.response.error
  unfolding log_response
  log_response-error s =
      if-error (contains s.response.triggered_by config.response_url) _ _ _ refl
        (write_log-error _ s)

  log_if_set-error :
      (order : List (Buffer Key Ticket) → List (Buffer Key Ticket)) (s : Run W)
      → (log_if_set env config order s).response.error ≡ s.response.error
  log_if_set-error order s =
      if-error (is_empty config.response_url) _ _ _ refl (log_response-error s)

  -- How a request ends: not with an error that says "not found", and with one to retry only where no
  -- retry is left.
  abbrev pub IsSettled : Request × Run W → Type 0
  IsSettled (q, s) =
      (is_not_found s.response.error ≡ false)
      × ((is_retry_error s.response.error ≡ false) ⊎ (config.max_retries ≤ q.attempt))

  -- The rounds from a request: one at least, and none after the last retry.
  abbrev pub IsWithin : Request → Request → Type 0
  IsWithin first last =
      (first.attempt < last.attempt)
      × ((last.attempt ≤ suc first.attempt) ⊎ (last.attempt ≤ config.max_retries))

  abbrev pub Settles : Request → Option (Request × Run W) → Type 0
  Settles first result =
      (o : Request × Run W) × (result ≡ some o) × IsSettled o × IsWithin first o.0

  if-Settles :
      (first : Request) (b : Bool) (x y : Option (Request × Run W))
      → (b ≡ true → Settles first x)
      → (b ≡ false → Settles first y)
      → Settles first (if b then x else y)
  if-Settles first true x y h k = h refl
  if-Settles first false x y h k = k refl

  retry_test : (a : Bool) (n m : ℕ) → (a && ltb n m) ≡ true → n < m
  retry_test a n m h = ground arith

  no_retry_test : (a : Bool) (n m : ℕ) → (a && ltb n m) ≡ false → (a ≡ false) ⊎ (m ≤ n)
  no_retry_test a n m h = ground arith

  -- One more round widens the count.
  widen :
      (first : Request) (result : Option (Request × Run W))
      → suc first.attempt < config.max_retries
      → Settles (record first { attempt = suc first.attempt }) result
      → Settles first result
  widen first result below (o, found, settled, (more, within)) =
      (o, found, settled, (omega arith, ground arith))

  -- A round that is the last one.
  last_round :
      (first : Request) (s : Run W) (m : Bytes)
      → s.response.error ≡ m
      → is_not_found m ≡ false
      → (is_retry_error m ≡ false) ⊎ (config.max_retries ≤ suc first.attempt)
      → Settles first (some (record first { attempt = suc first.attempt }, s))
  last_round first s m same_error other last = (
    (record first { attempt = suc first.attempt }, s),
    refl,
    (rw same_error other, rw same_error last),
    (omega arith, inl (omega arith)),
  )

  module _ (order : List (Buffer Key Ticket) → List (Buffer Key Ticket)) where
    settle-Settles :
        (first : Request) (s : Run W) (retry : Run W → Option (Request × Run W))
        → (suc first.attempt < config.max_retries
            → Settles (record first { attempt = suc first.attempt }) (retry s))
        → Settles first
            (settle env config order (record first { attempt = suc first.attempt }) s retry)
    unfolding settle
    settle-Settles first s retry on_retry =
        if-Settles first (is_empty s.response.error) _ _
          (λ empty.
            last_round first s [] (is_empty→nil _ empty) is_not_found_empty
              (inl is_retry_error_empty))
          (λ full.
            if-Settles first (is_not_found s.response.error) _ _
              (λ missing.
                last_round first _ [] (log_if_set-error order _) is_not_found_empty
                  (inl is_retry_error_empty))
              (λ other.
                if-Settles first _ _ _
                  (λ again.
                    widen first _ (retry_test _ _ _ again) (on_retry (retry_test _ _ _ again)))
                  (λ last.
                    last_round first _ s.response.error (log_if_set-error order s) other
                      (no_retry_test _ _ _ last))))

    -- With fuel for the retries that are left, `Mirror` returns.
    mirror_attempts-Settles :
        (fuel : ℕ) (first : Request) (s : Run W)
        → config.max_retries ≤ fuel + first.attempt
        → Settles first (mirror_attempts env config order (suc fuel) first s)
    unfolding mirror_attempts
    mirror_attempts-Settles zero first s enough = settle-Settles first _ _ (λ below. ground arith)
    mirror_attempts-Settles (suc fuel) first s enough =
        settle-Settles first _ _ (λ below. mirror_attempts-Settles fuel _ _ (omega arith))

    -- `Mirror` returns, whatever the storage and the message bus answer. It tries at least once, and
    -- more than once only up to the configured number of attempts. The response's error then does
    -- not say that something was not found, which has a field of its own; and it names a failure to
    -- retry only where no attempt is left.
    pub mirror_request-Settles :
        (first : Request) (s : Run W) → Settles first (mirror_request env config order first s)
    unfolding mirror_request
    mirror_request-Settles first s =
        mirror_attempts-Settles config.max_retries first s (omega arith)
