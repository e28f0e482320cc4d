-- ===== src/Mirror/Transfers/Deliveries.antt =====
-- What a transfer of service.go that succeeds leaves in the response.
use smirror.Prelude.{
  List, [], ◌∷◌, ◌++◌, not, ◌||◌, Option, some, Bytes, Error, Result, ok, err, is_empty, Bool, true,
  false, arith, ◌≡◌, ◌⊎◌, inl, inr, refl, ap,
}
use smirror.Text.Search.{codes, same}
use smirror.Act.{
  OnOk, OnOk-continue, OnOk-map, OnOk-result, OnOk-lift, OnOk-wrapped, OnOk-lift_error, OnOk-if,
  OnOk-if_result, OnOk-lift_then,
}
use smirror.Mirror.State.{Stream, Response, Transfer, Environment, Run, effect, respond}
use smirror.Mirror.Transfers.{
  get_reader, upload, upload_options, read_all, transfer, report_upload, publish, publish_dest,
  record_publication,
}

module _ {W : Type 0} (env : Environment W) where
  -- the response of a state
  abbrev pub Has : {A : Type 0} → Response → A → Run W → Type 0
  Has r a s = s.response ≡ r

  effect-Has :
      (r : Response) (f : W → Option Error × W) (s : Run W)
      → s.response ≡ r
      → OnOk (Has r) (effect f s)
  unfolding effect
  effect-Has r f s e = OnOk-lift_error (Has r) (f s.world).0 _ e

  abbrev pub with_url : Response → Bytes → Response
  with_url r url = record r { dest_urls = r.dest_urls ++ url ∷ [] }

  -- An upload that succeeds adds the destination to the response's, and changes nothing else in it.
  upload-Has :
      (t : Transfer) (s : Run W) → OnOk (Has (with_url s.response t.dest_url)) (upload env t s)
  unfolding upload respond
  upload-Has t s =
      OnOk-continue (Has s.response) end _ _
        (OnOk-wrapped (Has s.response) (codes "failed to get reader for: " ++ t.resource.url) _
          (OnOk-lift (Has s.response) (get_reader env t) s (λ _. refl)))
        (λ reader s1 e1.
          OnOk-continue (Has s.response) end _ _
            (OnOk-lift (Has s.response) (env.services.storage_options s1.world t.resource) s1
              (λ _. e1))
            (λ options s2 e2.
              OnOk-continue (Has s.response) end _ _
                (effect-Has s.response
                  (env.services.new_writer t.dest_url
                    (options ++ upload_options t.rule t.skip_checksum s1.response.file_size))
                  s2 e2)
                (λ _ s3 e3.
                  OnOk-continue (Has (with_url s.response t.dest_url)) end _ _
                    (OnOk-lift (Has (with_url s.response t.dest_url)) (read_all env reader) _
                      (λ _. ap (λ r. with_url r t.dest_url) e3))
                    (λ content s4 e4. effect-Has (with_url s.response t.dest_url) _ s4 e4))))
    where
      end : Unit {0} → Run W → Type 0
      end = Has (with_url s.response t.dest_url)

  report_upload-Has :
      (url : Bytes) (r : Response) (result : Result (Unit {0}) × Run W)
      → OnOk (Has r) result
      → OnOk (Has r) (report_upload env url result)
  unfolding report_upload
  report_upload-Has url r (ok _, s) h = h
  report_upload-Has url r (err e, s) h = tt

  -- the state after a publication
  abbrev pub with_ids : Run W → List Bytes → W → Run W
  with_ids s ids w = record s {
    world = w;
    response = record s.response { message_ids = s.response.message_ids ++ ids };
  }

  record_publication-Has :
      (topic : Bytes) (result : Result (List Bytes) × W) (s : Run W)
      → OnOk
          (λ _ s'. (ids : List Bytes) × (w : W) × (result ≡ (ok ids, w)) × (s' ≡ with_ids s ids w))
          (record_publication env topic result s)
  unfolding record_publication respond
  record_publication-Has topic (ok ids, w) s = (ids, w, refl, refl)
  record_publication-Has topic (err e, w) s = tt

  -- The destination is a topic or a queue.
  abbrev pub is_message : Transfer → Bool
  is_message t = not (is_empty t.resource.topic) || not (is_empty t.resource.queue)

  -- The content of the transfer's reader was published under some ids, which the response has got.
  abbrev pub IsPublished : Transfer → Run W → Run W → Type 0
  IsPublished t s s' =
      (reader : Stream) × (content : Bytes) × (ids : List Bytes) × (w : W) × (get_reader env t
        ≡ ok reader)
      × (read_all env reader ≡ ok content)
      × (env.services.publish (publish_dest env t) content (some t.dest_url) s.world ≡ (ok ids, w))
      × (s' ≡ with_ids s ids w)

  -- What a delivery comes to: a publication for a topic or a queue, and a destination URL otherwise.
  abbrev pub IsDelivered : Transfer → Run W → Run W → Type 0
  IsDelivered t s s' =
      ((is_message t ≡ true) × IsPublished t s s')
      ⊎ ((is_message t ≡ false)
          × (is_empty t.resource.url ≡ false)
          × (s'.response ≡ with_url s.response t.dest_url))

  publish-delivers :
      (t : Transfer) (s : Run W) → OnOk (λ _ s'. IsPublished t s s') (publish env t s)
  unfolding publish
  publish-delivers t s = OnOk-lift_then end (get_reader env t) s _ (λ reader made.
      OnOk-lift_then end (read_all env reader) s _ (λ content got.
        OnOk-if end (same s.bus_vendor (codes "pubsub") || same s.bus_vendor (codes "sqs"))
          (record_publication env t.resource.topic (sent content)) _ s
          (λ _.
            OnOk-map _ end (record_publication env t.resource.topic (sent content) s)
              (λ _ s' (ids, w, ran, after). (reader, content, ids, w, made, got, ran, after))
              (record_publication-Has t.resource.topic (sent content) s))
          (λ _. tt)))
    where
      sent : Bytes → Result (List Bytes) × W
      sent content = env.services.publish (publish_dest env t) content (some t.dest_url) s.world

      end : Unit {0} → Run W → Type 0
      end = λ _ s'. IsPublished t s s'

  transfer-delivers :
      (t : Transfer) (s : Run W) → OnOk (λ _ s'. IsDelivered t s s') (transfer env t s)
  unfolding transfer
  transfer-delivers t s =
      OnOk-if_result end (is_message t) (publish env t s) _
        (λ message.
          OnOk-map _ end (publish env t s) (λ _ _ sent. inl (message, sent)) (publish-delivers t s))
        (λ other.
          OnOk-if_result end (not (is_empty t.resource.url)) _ _
            (λ file.
              OnOk-map _ end _ (λ _ _ e. inr (other, ground (arith, file), e))
                (report_upload-Has t.dest_url _ (upload env t s) (upload-Has t s)))
            (λ _. tt))
    where
      end : Unit {0} → Run W → Type 0
      end = λ _ s'. IsDelivered t s s'

  -- A transfer that succeeds to a topic or a queue has published the content of its reader, and has
  -- added the ids that the message bus gave to the response; one to another destination has added its
  -- URL. Nothing else in the response is changed.
  pub transfer-IsDelivered :
      (t : Transfer) (s s' : Run W) → transfer env t s ≡ (ok tt, s') → IsDelivered t s s'
  transfer-IsDelivered t s s' p =
      OnOk-result (λ _ m. IsDelivered t s m) _ tt s' (transfer-delivers t s) p
