-- ===== src/Mirror/Overflows.antt =====
-- `handleOverflow` and `overflowBusService` of service.go, and `MessageEvent` of config/overflow.go.
pub mod Results
use smirror.Prelude.{
  Result, List, [], ◌∷◌, ◌++◌, not, Option, none, some, if◌then◌else◌, Bytes, Error, errorf, ok,
  err, is_empty,
}
use smirror.Text.Search.{codes}
use smirror.Config.Types.{Overflow, Rule}
use smirror.Config.Streaming.{message_dest}
use smirror.Act.{Act, pure, fail, ◌>>=◌, ◌>>◌}
use smirror.Mirror.State.{
  Status, status_overflow, Object, Environment, Event, s3_event, storage_event, Run, respond,
}
use smirror.Mirror.Ends.{finish_job}

-- `overflowBusService`: the vendor and the project, if the overflow names a queue or a topic
unfoldable pub overflow_vendor : Overflow → Option (Bytes × Bytes)
overflow_vendor o =
    if not (is_empty o.queue)
    then some (codes "sqs", [])
    else if not (is_empty o.topic)
    then some (codes "pubsub", o.project_id)
    else none

unfoldable pub set_status : {W : Type 0} → Status → Act (Run W) (Unit {0})
set_status status = respond (λ r. record r { status = status })

module _ {W : Type 0} (env : Environment W) where
  -- `Overflow.MessageEvent`
  unfoldable pub message_event : Overflow → Bytes → Event
  message_event o url =
      let (base, path) = env.urls.base url in
      if not (is_empty o.queue)
      then s3_event (env.urls.host base) path
      else storage_event (env.urls.host base) path

  -- the copy of an overflow; a failure stands in the response too
  unfoldable pub report_copy : Option Error × W → Act (Run W) (Unit {0})
  report_copy (none, w) s = (ok tt, record s { world = w })
  report_copy (some e, w) s =
      (err e, record s { world = w; response = record s.response { error = e.message } })

  unfoldable pub copy_overflow : Bytes → Bytes → Act (Run W) (Unit {0})
  copy_overflow url dest_url s = report_copy (env.services.copy url dest_url s.world) s

  unfoldable pub overflow_url : Overflow → Bytes → Bytes
  overflow_url o url =
      if is_empty o.dest_url then url else env.urls.join o.dest_url (env.urls.base url).1

  abbrev pub report_bus : Option Error × W → Act (Run W) (Unit {0})
  report_bus (none, w) s = (ok tt, record s { world = w })
  report_bus (some e, w) s =
      (err (errorf (codes "msg bus service was empty")), record s { world = w })

  abbrev pub open_vendor : Option (Bytes × Bytes) → Act (Run W) (Unit {0})
  open_vendor none s = (err (errorf (codes "msg bus service was empty")), s)
  open_vendor (some (vendor, project)) s =
      report_bus (env.services.new_bus vendor project s.world) s

  unfoldable pub open_overflow_bus : Overflow → Act (Run W) (Unit {0})
  open_overflow_bus o s = open_vendor (overflow_vendor o) s

  -- `response.MessageIDs = output.MessageIDs`, unless publishing has failed
  abbrev pub report_publication : Result (List Bytes) → W → Act (Run W) (Unit {0})
  report_publication (err e) w s = (err e, record s { world = w })
  report_publication (ok ids) w s =
      (ok tt, record s { world = w; response = record s.response { message_ids = ids } })

  unfoldable pub publish_overflow : Overflow → Bytes → Act (Run W) (Unit {0})
  publish_overflow o text s =
      let (result, w) = env.services.publish (message_dest o) text none s.world in
      report_publication result w s

  abbrev pub marshalled : Event → Result Bytes → Act (Run W) Bytes
  marshalled event (ok t) s = (ok t, s)
  marshalled event (err e) s =
      (err (errorf (codes "failed to marshal message: " ++ env.codecs.format_event event)), s)

  abbrev pub marshal_event : Event → Act (Run W) Bytes
  marshal_event event s = marshalled event (env.codecs.json_event event) s

  unfoldable pub handle_overflow : Object → Overflow → Rule → Bytes → Act (Run W) (Unit {0})
  handle_overflow object o r url = do
    set_status status_overflow
    if is_empty o.dest_url then pure tt else copy_overflow object.url (overflow_url o object.url)
    respond (λ a. record a { dest_urls = a.dest_urls ++ overflow_url o object.url ∷ [] })
    open_overflow_bus o
    text ← marshal_event (message_event o (overflow_url o object.url))
    publish_overflow o text
    finish_job env r url none
