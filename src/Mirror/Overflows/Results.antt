-- ===== src/Mirror/Overflows/Results.antt =====
-- What the handling of an overflow in service.go comes to.
use smirror.Prelude.{
  List, [], ◌∷◌, ◌++◌, Option, none, some, Bytes, Error, Result, ok, err, is_empty, ◌≡◌, refl, ap,
}
use smirror.Config.Types.{Overflow, Rule}
use smirror.Config.Streaming.{message_dest}
use smirror.Act.{pure, continue, OnOk, OnOk-continue, OnOk-map, OnOk-result, OnOk-if}
use smirror.Mirror.State.{Response, status_overflow, Object, Event, Environment, Run, respond}
use smirror.Config.RuleNames.{rule_name}
use smirror.Job.{run_selected}
use smirror.Mirror.Ends.{finish_job, report_actions, effects}
use smirror.Mirror.Overflows.{
  overflow_vendor, set_status, copy_overflow, report_copy, report_bus, overflow_url,
  open_overflow_bus, publish_overflow, handle_overflow, report_publication, open_vendor, marshalled,
  marshal_event, message_event,
}

module _ {W : Type 0} (env : Environment W) where
  abbrev pub Has : {A : Type 0} → Response → A → Run W → Type 0
  Has r a s = s.response ≡ r

  report_copy-Has :
      (r : Response) (result : Option Error × W) (s : Run W)
      → s.response ≡ r
      → OnOk (Has r) (report_copy env result s)
  unfolding report_copy
  report_copy-Has r (none, w) s e = e
  report_copy-Has r (some _, w) s e = tt

  report_bus-Has :
      (r : Response) (result : Option Error × W) (s : Run W)
      → s.response ≡ r
      → OnOk (Has r) (report_bus env result s)
  report_bus-Has r (none, w) s e = e
  report_bus-Has r (some _, w) s e = tt

  open_vendor-Has :
      (r : Response) (vendor : Option (Bytes × Bytes)) (s : Run W)
      → s.response ≡ r
      → OnOk (Has r) (open_vendor env vendor s)
  open_vendor-Has r none s e = tt
  open_vendor-Has r (some (vendor, project)) s e =
      report_bus-Has r (env.services.new_bus vendor project s.world) s e

  open_bus-Has :
      (r : Response) (o : Overflow) (s : Run W)
      → s.response ≡ r
      → OnOk (Has r) (open_overflow_bus env o s)
  unfolding open_overflow_bus
  open_bus-Has r o s e = open_vendor-Has r (overflow_vendor o) s e

  -- The response of an overflow that was announced under some ids.
  abbrev pub announced : Response → Bytes → List Bytes → Response
  announced r url ids = record r {
    status = status_overflow;
    dest_urls = r.dest_urls ++ url ∷ [];
    message_ids = ids;
  }

  -- The message of an event was published at some state of the storage, under some ids, which the
  -- response has got beside the status of an overflow and the URL.
  abbrev pub IsAnnounced : Overflow → Bytes → Response → Response → Type 0
  IsAnnounced o url r r' =
      (text : Bytes) × (ids : List Bytes) × (w w' : W) × (env.codecs.json_event
          (message_event env o url)
        ≡ ok text)
      × (env.services.publish (message_dest o) text none w ≡ (ok ids, w'))
      × (r' ≡ announced r url ids)

  report_publication-Has :
      (r : Response) (result : Result (List Bytes)) (w : W) (s : Run W)
      → s.response ≡ r
      → OnOk
          (λ _ s'.
            (ids : List Bytes) × (result ≡ ok ids) × (s'.response ≡ record r { message_ids = ids }))
          (report_publication env result w s)
  report_publication-Has r (ok ids) w s e =
      (ids, refl, ap (λ (a : Response). record a { message_ids = ids }) e)
  report_publication-Has r (err _) w s e = tt

  report_actions-Has :
      (json : Bytes) (failure : Option Error) (result : Result (Unit {0}) × W) (s : Run W)
      (r : Response)
      → s.response ≡ r
      → OnOk (Has r) (report_actions env json failure result s)
  report_actions-Has json none (ok _, w) s r e = e
  report_actions-Has json none (err _, w) s r e = tt
  report_actions-Has json (some _) (_, w) s r e = tt

  finish_job-Has :
      (r : Rule) (url : Bytes) (s : Run W) (a : Response)
      → s.response ≡ a
      → OnOk (Has a) (finish_job env r url none s)
  unfolding finish_job
  finish_job-Has r url s a e =
      report_actions-Has (env.codecs.json_actions r.actions) none
        (run_selected env.urls (effects env s.response) r.actions
          (record { error = none; relative_path = rule_name env.urls r url; source_url = url })
          r.info s.world)
        s a e

  -- the ids that a publication gave
  abbrev HasIds : Overflow → Bytes → Response → Unit {0} → Run W → Type 0
  HasIds o text a _ s' =
      (ids : List Bytes) × (w w' : W) × (env.services.publish (message_dest o) text none w
        ≡ (ok ids, w'))
      × (s'.response ≡ record a { message_ids = ids })

  publish_finish-HasIds :
      (o : Overflow) (r : Rule) (url text : Bytes) (s : Run W) (a : Response)
      → s.response ≡ a
      → OnOk
          (HasIds o text a)
          (continue (publish_overflow env o text s) (λ _. finish_job env r url none))
  unfolding publish_overflow
  publish_finish-HasIds o r url text s a e =
      OnOk-continue _ (HasIds o text a) (publish_overflow env o text s)
        (λ _. finish_job env r url none)
        (report_publication-Has a (sent s.world).0 (sent s.world).1 s e)
        (λ _ s' (ids, gave, e').
          OnOk-map (Has (record a { message_ids = ids })) (HasIds o text a)
            (finish_job env r url none s')
            (λ _ _ q. (ids, s.world, (sent s.world).1, (λ i. (gave i, (sent s.world).1)), q))
            (finish_job-Has r url s' (record a { message_ids = ids }) e'))
    where
      sent : W → Result (List Bytes) × W
      sent w = env.services.publish (message_dest o) text none w

  marshalled-Has :
      (r : Response) (event : Event) (text : Result Bytes) (s : Run W)
      → s.response ≡ r
      → OnOk (λ t m. (text ≡ ok t) × (m.response ≡ r)) (marshalled env event text s)
  marshalled-Has r event (ok t) s e = (refl, e)
  marshalled-Has r event (err _) s e = tt

  handle_overflow-IsAnnounced :
      (object : Object) (o : Overflow) (r : Rule) (url : Bytes) (s : Run W)
      → OnOk
          (λ _ s'. IsAnnounced o (overflow_url env o object.url) s.response s'.response)
          (handle_overflow env object o r url s)
  unfolding handle_overflow set_status respond publish_overflow copy_overflow finish_job
  handle_overflow-IsAnnounced object o r url s =
      OnOk-continue (Has begun) end _ _
        (OnOk-if (Has begun) (is_empty o.dest_url) (pure tt)
          (copy_overflow env object.url (overflow_url env o object.url)) _ (λ _. refl)
          (λ _. report_copy-Has begun _ _ refl))
        (λ _ s1 e1.
          OnOk-continue (Has (placed begun)) end _ _
            (open_bus-Has (placed begun) o _ (ap placed e1))
            (λ _ s2 e2.
              OnOk-continue
                (λ t m.
                  (env.codecs.json_event (message_event env o at) ≡ ok t)
                  × (m.response ≡ placed begun))
                end (marshal_event env (message_event env o at) s2)
                (λ text s3.
                  continue (publish_overflow env o text s3) (λ _. finish_job env r url none))
                (marshalled-Has (placed begun) (message_event env o at)
                  (env.codecs.json_event (message_event env o at)) s2 e2)
                (λ text s3 (made, e3).
                  OnOk-map (HasIds o text (placed begun)) end _
                    (λ _ _ (ids, w, w', sent, e4). (text, ids, w, w', made, sent, e4))
                    (publish_finish-HasIds o r url text s3 (placed begun) e3))))
    where
      at : Bytes
      at = overflow_url env o object.url

      begun : Response
      begun = record s.response { status = status_overflow }

      placed : Response → Response
      placed a = record a { dest_urls = a.dest_urls ++ at ∷ [] }

      end : Unit {0} → Run W → Type 0
      end = λ _ s'. IsAnnounced o at s.response s'.response

  -- An overflow that is handled without an error has its event published, at the overflow's topic or
  -- queue, and leaves the response with the status of an overflow, the URL of the file, which is that
  -- of the copy if there is one, as a further destination, and in place of its ids those that this
  -- publication gave; it changes nothing else in it.
  pub handle_overflow-announces :
      (object : Object) (o : Overflow) (r : Rule) (url : Bytes) (s s' : Run W)
      → handle_overflow env object o r url s ≡ (ok tt, s')
      → IsAnnounced o (overflow_url env o object.url) s.response s'.response
  handle_overflow-announces object o r url s s' p =
      OnOk-result (λ _ m. IsAnnounced o (overflow_url env o object.url) s.response m.response) _ tt
        s' (handle_overflow-IsAnnounced object o r url s) p
