-- ===== src/Proxy/Outcomes.antt =====
-- What a proxied event reports.
use smirror.Prelude.{
  List, [], ◌∷◌, Bool, true, false, Option, none, some, Bytes, Error, Result, ok, err, ◌≡◌, ◌⊎◌,
  inl, inr, refl, Bool-cases, Option-cases, Result-cases, arith,
}
use smirror.Text.Search.{codes, same, same_self}
use smirror.Text.Paths.{split_path}
use smirror.Maps.{put}
use smirror.Config.Types.{Resource}
use smirror.Act.{OnOk}
use smirror.Proxy.{
  Request, Response, status_ok, status_no_match, new_response, Service, Run, TransferOption,
  add_triggered, add_moved, add_copied, trigger, missing, propagate, proxied_url, find_source,
  transfer_options, proxy_file, proxy, validate, settle, proxy_source,
}

-- a new response with one entry, among the moved or among the copied
abbrev pub one_file : Bool → Bytes → Bytes → Response
one_file true key value = record new_response { moved = (key, value) ∷ [] }
one_file false key value = record new_response { copied = (key, value) ∷ [] }

module _ {W : Type 0} (service : Service W) where
  -- A transfer of the source from the storage `w` led to the storage `after` and is reported as `value`:
  -- its destination, or, of a failed one, that the source is gone.
  abbrev pub IsReported : Bool → Bytes → Bytes → W → W → Bytes → Type 0
  IsReported is_move source dest w after value =
      ((options : List TransferOption) × (trigger service is_move source dest options w
          ≡ (none, after))
        × (value ≡ dest))
      ⊎ ((options : List TransferOption) × (e : Error) × (trigger service is_move source dest
              options w
            ≡ (some e, after))
          × (service.services.exists after source ≡ ok false)
          × (value ≡ codes "notFound"))

  abbrev pub IsProxied : Bool → Bytes → Bytes → W → Response → W → Type 0
  IsProxied is_move source dest w r after =
      (value : Bytes) × (r ≡ one_file is_move source value)
      × IsReported is_move source dest w after value

  triggered_once :
      (is_move : Bool) (key value : Bytes)
      → add_triggered is_move key value new_response ≡ one_file is_move key value
  unfolding add_triggered add_moved add_copied put new_response
  triggered_once true key value = refl
  triggered_once false key value = refl

  triggered_twice :
      (is_move : Bool) (key first value : Bytes)
      → add_triggered is_move key value (add_triggered is_move key first new_response)
        ≡ one_file is_move key value
  unfolding add_triggered add_moved add_copied put new_response
  triggered_twice true key first value = rw same_self
  triggered_twice false key first value = rw same_self

  -- the answer to a transfer, by its error and by what is found afterwards
  missing-IsProxied :
      (is_move : Bool) (source dest : Bytes) (options : List TransferOption) (w after : W)
      (failed : Option Error) (found : Result Bool)
      → trigger service is_move source dest options w ≡ (failed, after)
      → service.services.exists after source ≡ found
      → OnOk
          (λ _ s. IsProxied is_move source dest w s.response s.world)
          (missing service is_move source failed found
            (record { world = after; response = add_triggered is_move source dest new_response }))
  unfolding missing
  missing-IsProxied is_move source dest options w after none found h k =
      (dest, triggered_once is_move source dest, inl (options, h, refl))
  missing-IsProxied is_move source dest options w after (some e) (ok false) h k = (
    codes "notFound",
    triggered_twice is_move source dest (codes "notFound"),
    inr (options, e, h, k, refl),
  )
  missing-IsProxied is_move source dest options w after (some e) (ok true) h k = tt
  missing-IsProxied is_move source dest options w after (some e) (err f) h k = tt

  propagate-IsProxied :
      (is_move : Bool) (source dest : Bytes) (options : List TransferOption) (w : W)
      → OnOk
          (λ _ s. IsProxied is_move source dest w s.response s.world)
          (propagate service is_move source dest options
            (record { world = w; response = new_response }))
  unfolding propagate
  propagate-IsProxied is_move source dest options w =
      missing-IsProxied is_move source dest options w _ _ _ refl refl

  proxy_file-IsProxied :
      (source : Resource) (request : Request) (w : W)
      → OnOk
          (λ _ s.
            IsProxied request.move source.url
              (proxied_url service source.url request.dest.url)
              w
              s.response
              s.world)
          (proxy_file service source request (record { world = w; response = new_response }))
  unfolding proxy_file
  proxy_file-IsProxied source request w =
      elim (Result-cases (service.services.storage_options w source)) [
        | inl (e, failed) ↦ rw (failed, proxy_file) tt
        | inr (source_options, found) ↦
            elim (Result-cases (service.services.storage_options w request.dest)) [
              | inl (e, failed) ↦ rw (found, proxy_file) (rw (failed, proxy_file) tt)
              | inr (dest_options, allowed) ↦
                  elim (Result-cases (find_source service request source source_options w)) [
                    | inl (e, failed) ↦
                        rw (found, proxy_file)
                          (rw (allowed, proxy_file) (rw (failed, proxy_file) tt))
                    | inr (_, seen) ↦
                        rw (found, proxy_file)
                          (rw (allowed, proxy_file)
                            (rw (seen, proxy_file)
                              (propagate-IsProxied request.move source.url
                                (proxied_url service source.url request.dest.url)
                                (transfer_options source_options dest_options) w)))
                  ]
            ]
      ]

  pub proxy-IsProxied :
      (source : Resource) (request : Request) (w : W)
      → same (service.urls.scheme request.dest.url) (codes "lambda") ≡ false
      → OnOk
          (λ _ s.
            IsProxied request.move source.url
              (proxied_url service source.url request.dest.url)
              w
              s.response
              s.world)
          (proxy service source request (record { world = w; response = new_response }))
  unfolding proxy
  proxy-IsProxied source request w plain = elim (Option-cases (validate request)) [
    | inl valid ↦
        rw (valid, proxy)
          (rw plain
            (elim (Bool-cases
              (same (service.urls.scheme request.dest.url) (codes "cloudfunction"))) [
                | inl cloud ↦ rw cloud tt
                | inr file ↦ rw file (proxy_file-IsProxied source request w)
              ]))
    | inr (e, invalid) ↦ rw (invalid, proxy) tt
  ]

  settle-OnOk :
      (P : Unit {0} → Run W → Type 0) (r : Result (Unit {0}) × Run W)
      → OnOk P r
      → (settle service r).0.status ≡ status_ok
      → P tt (record { world = (settle service r).1; response = (settle service r).0 })
  unfolding settle
  settle-OnOk P (ok _, s) h k = h
  settle-OnOk P (err e, s) h k = ground (arith, k)

  -- An event that is answered with the status ok, and whose destination is no function of Lambda, has
  -- its file transferred once: the response has one entry, among the moved files if the request is to
  -- move and among the copied ones otherwise. It stands under the source's URL and is the destination's
  -- URL if the transfer succeeded, and "notFound" if it failed and the source is gone.
  pub proxy_source-IsProxied :
      (source : Resource) (request : Request) (w : W)
      → same (service.urls.scheme request.dest.url) (codes "lambda") ≡ false
      → (proxy_source service source request w).0.status ≡ status_ok
      → IsProxied request.move source.url
          (proxied_url service source.url request.dest.url)
          w
          (proxy_source service source request w).0
          (proxy_source service source request w).1
  unfolding proxy_source
  proxy_source-IsProxied source request w plain done =
      elim (Bool-cases (
        service.source_matches (split_path (service.urls.path source.url)).0
          (split_path (service.urls.path source.url)).1)) [
            | inl matched ↦ rw matched (
                settle-OnOk
                  (λ _ s.
                    IsProxied request.move source.url
                      (proxied_url service source.url request.dest.url) w s.response s.world)
                  (proxy service source request (record { world = w; response = new_response }))
                  (proxy-IsProxied source request w plain) (rw matched at done))
            | inr other ↦
                let stop : status_no_match ≡ status_ok = rw other at done in ground (arith, stop)
          ]
