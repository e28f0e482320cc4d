-- ===== src/Proxy/Statuses.antt =====
-- The status and the error of the answer to a proxied event.
use smirror.Prelude.{
  [], Bool, true, false, Bytes, Result, ok, err, ◌≡◌, ◌⊎◌, inl, inr, ap, refl, Bool-cases,
  Option-cases, Result-cases,
}
use smirror.Text.Search.{codes, same}
use smirror.Text.Paths.{split_path}
use smirror.Config.Types.{Resource}
use smirror.Act.{OnOk, OnOk-map, OnOk-lift_error}
use smirror.Proxy.{
  Request, Response, status_ok, status_error, new_response, Service, Run, add_invoked, proxy,
  invoke_lambda, new_s3_event_for_url, validate, settle, proxy_source,
}
use smirror.Proxy.Outcomes.{one_file, proxy-IsProxied}

module _ {W : Type 0} (service : Service W) where
  -- no error is noted
  abbrev IsClean : Response → Type 0
  IsClean r = (r.status ≡ status_ok) × (r.error ≡ [])

  one_file-IsClean :
      (is_move : Bool) (key value : Bytes) (r : Response)
      → r ≡ one_file is_move key value
      → IsClean r
  unfolding new_response
  one_file-IsClean true key value r h =
      (ap (λ (q : Response). q.status) h, ap (λ (q : Response). q.error) h)
  one_file-IsClean false key value r h =
      (ap (λ (q : Response). q.status) h, ap (λ (q : Response). q.error) h)

  invoke_lambda-IsClean :
      (source : Resource) (request : Request) (w : W)
      → OnOk
          (λ _ s. IsClean s.response)
          (invoke_lambda service source request (record { world = w; response = new_response }))
  unfolding invoke_lambda new_response add_invoked
  invoke_lambda-IsClean source request w = elim (Option-cases (service.services.new_session w)) [
    | inr (e, closed) ↦ rw (closed, invoke_lambda) tt
    | inl opened ↦
        elim (Result-cases
          (service.services.json_s3_event (new_s3_event_for_url service.urls source.url))) [
            | inl (e, failed) ↦ rw (opened, invoke_lambda) (rw (failed, invoke_lambda) tt)
            | inr (payload, encoded) ↦
                rw (opened, invoke_lambda)
                  (rw (encoded, invoke_lambda)
                    (OnOk-lift_error (λ _ s. IsClean s.response)
                      (service.services.invoke (service.urls.host request.dest.url) payload w).0 _
                      (refl, refl)))
          ]
  ]

  proxy-IsClean :
      (source : Resource) (request : Request) (w : W)
      → OnOk
          (λ _ s. IsClean s.response)
          (proxy service source request (record { world = w; response = new_response }))
  unfolding proxy
  proxy-IsClean source request w =
      elim (Bool-cases (same (service.urls.scheme request.dest.url) (codes "lambda"))) [
        | inl function ↦ elim (Option-cases (validate request)) [
          | inl valid ↦ rw (valid, proxy) (rw function (invoke_lambda-IsClean source request w))
          | inr (e, invalid) ↦ rw (invalid, proxy) tt
        ]
        | inr plain ↦
            OnOk-map _ _
              (proxy service source request (record { world = w; response = new_response }))
              (λ _ s h. one_file-IsClean request.move source.url h.0 s.response h.1)
              (proxy-IsProxied service source request w plain)
      ]

  settle-status :
      (r : Result (Unit {0}) × Run W)
      → OnOk (λ _ s. IsClean s.response) r
      → ((settle service r).0.status ≡ status_error) ⊎ IsClean (settle service r).0
  unfolding settle
  settle-status (ok _, s) h = inr h
  settle-status (err e, s) h = inl refl

  -- A response that has an error text has the status of an error, also when a function was invoked.
  proxy_source-status :
      (source : Resource) (request : Request) (w : W)
      → ((proxy_source service source request w).0.status ≡ status_error)
        ⊎ ((proxy_source service source request w).0.error ≡ [])
  unfolding proxy_source new_response
  proxy_source-status source request w =
      elim (Bool-cases (
        service.source_matches (split_path (service.urls.path source.url)).0
          (split_path (service.urls.path source.url)).1)) [
            | inl matched ↦ rw matched (elim (settle-status _ (proxy-IsClean source request w)) [
              | inl failed ↦ inl failed
              | inr (_, clean) ↦ inr clean
            ])
            | inr other ↦ rw other (inr refl)
          ]
