-- ===== src/Mirror/Transfers/Outcomes.antt =====
-- What a transfer of service.go leaves alone in the response.
use smirror.Prelude.{
  List, [], ◌++◌, Bool, true, false, not, ◌||◌, Option, none, some, Bytes, Error, Result, ok, err,
  is_empty, ◌≡◌, Bool-cases, Option-cases, Result-cases, inl, inr, if◌then◌else◌,
}
use smirror.Text.Search.{codes, same}
use smirror.Config.Types.{Rule, Split}
use smirror.Config.Key.{Key, text, key_of}
use smirror.Config.Key.Equality.{key_keys}
use smirror.Config.Expansion.{expand_url}
use smirror.Splitter.Invariant.{split_tokens-keeps}
use smirror.Splitter.ByPartition.Table.{Buffer}
use smirror.Writer.{Writer, close}
use smirror.Act.{Act, continue, lift_error, wrapped}
use smirror.Mirror.State.{Status, Stream, Transfer, Environment, Run, effect, respond}
use smirror.Mirror.Transfers.{
  Ticket, get_reader, new_reader, upload, upload_options, read_all, publish, publish_dest,
  record_publication, report_upload, transfer, transfer_stream, Chunks, chunk_writer,
  chunk_listener, transfer_chunk, as_error, end_split, transfer_chunk_stream, transfer_any,
}

-- the error and the status of a run's response
abbrev pub outcome : {W : Type 0} → Run W → Bytes × Status
outcome s = (s.response.error, s.response.status)

module _ {W : Type 0} (o : Bytes × Status) where
  -- The outcome is `o`.
  abbrev pub Kept : {A : Type 0} → Result A × Run W → Type 0
  Kept (ok a, s) = outcome s ≡ o
  Kept (err e, s) = outcome s ≡ o

  pub Kept-outcome : {A : Type 0} (r : Result A × Run W) → Kept r → outcome r.1 ≡ o
  Kept-outcome (ok a, s) h = h
  Kept-outcome (err e, s) h = h

  pub lift-Kept : {A : Type 0} (r : Result A) (s : Run W) → outcome s ≡ o → Kept (r, s)
  lift-Kept (ok a) s h = h
  lift-Kept (err e) s h = h

  pub continue-Kept :
      {A B : Type 0} (r : Result A × Run W) (f : A → Act (Run W) B)
      → Kept r
      → ((a : A) (s : Run W) → outcome s ≡ o → Kept (f a s))
      → Kept (continue r f)
  continue-Kept (ok a, s) f h k = k a s h
  continue-Kept (err e, s) f h k = h

  lift_error-Kept : (e : Option Error) (s : Run W) → outcome s ≡ o → Kept (lift_error e s)
  lift_error-Kept none s h = h
  lift_error-Kept (some e) s h = h

  effect-Kept : (f : W → Option Error × W) (s : Run W) → outcome s ≡ o → Kept (effect f s)
  unfolding effect
  effect-Kept f s h = lift_error-Kept (f s.world).0 _ h

  pub wrapped-Kept : {A : Type 0} (t : Bytes) (r : Result A × Run W) → Kept r → Kept (wrapped t r)
  wrapped-Kept t (ok a, s) h = h
  wrapped-Kept t (err e, s) h = h

  if-Kept :
      {A : Type 0} (b : Bool) (x y : Result A × Run W) → Kept x → Kept y → Kept (if b then x else y)
  if-Kept true x y h k = h
  if-Kept false x y h k = k

module _ {W : Type 0} (env : Environment W) (o : Bytes × Status) where
  upload-Kept : (t : Transfer) (s : Run W) → outcome s ≡ o → Kept o (upload env t s)
  unfolding upload respond
  upload-Kept t s h =
      continue-Kept o _ _
        (wrapped-Kept o (codes "failed to get reader for: " ++ t.resource.url) _
          (lift-Kept o (get_reader env t) s h))
        (λ reader s1 h1.
          continue-Kept o _ _ (lift-Kept o (env.services.storage_options s1.world t.resource) s1 h1)
            (λ options s2 h2.
              continue-Kept o _ _
                (effect-Kept o
                  (env.services.new_writer t.dest_url
                    (options ++ upload_options t.rule t.skip_checksum s1.response.file_size))
                  s2 h2)
                (λ _ s3 h3.
                  continue-Kept o _ _ (lift-Kept o (read_all env reader) _ h3)
                    (λ content s4 h4. effect-Kept o _ s4 h4))))

  record_publication-Kept :
      (topic : Bytes) (r : Result (List Bytes) × W) (s : Run W)
      → outcome s ≡ o
      → Kept o (record_publication env topic r s)
  unfolding record_publication respond
  record_publication-Kept topic (ok ids, w) s h = h
  record_publication-Kept topic (err e, w) s h = h

  publish-Kept : (t : Transfer) (s : Run W) → outcome s ≡ o → Kept o (publish env t s)
  unfolding publish
  publish-Kept t s h = continue-Kept o _ _ (lift-Kept o (get_reader env t) s h) (λ reader s1 h1.
      continue-Kept o _ _ (lift-Kept o (read_all env reader) s1 h1) (λ content s2 h2.
        elim (Bool-cases
          (same s2.bus_vendor (codes "pubsub") || same s2.bus_vendor (codes "sqs"))) [
            | inl known ↦ rw known (
                record_publication-Kept t.resource.topic
                  (env.services.publish (publish_dest env t) content (some t.dest_url) s2.world) s2
                  h2)
            | inr unknown ↦ rw unknown h2
          ]))

  report_upload-Kept :
      (url : Bytes) (r : Result (Unit {0}) × Run W) → Kept o r → Kept o (report_upload env url r)
  unfolding report_upload
  report_upload-Kept url (ok _, s) h = h
  report_upload-Kept url (err e, s) h = elim (Bool-cases e.is_schema) [
    | inl typed ↦ rw typed h
    | inr plain ↦ rw plain h
  ]

  transfer-Kept : (t : Transfer) (s : Run W) → outcome s ≡ o → Kept o (transfer env t s)
  unfolding transfer
  transfer-Kept t s h =
      elim (Bool-cases (not (is_empty t.resource.topic) || not (is_empty t.resource.queue))) [
        | inl message ↦ rw message (publish-Kept t s h)
        | inr other ↦ elim (Bool-cases (not (is_empty t.resource.url))) [
          | inl file ↦
              rw (other, file) (report_upload-Kept t.dest_url (upload env t s) (upload-Kept t s h))
          | inr nowhere ↦ rw (other, nowhere) h
        ]
      ]

  transfer_stream-Kept :
      (r : Rule) (url : Bytes) (stream : Stream) (s : Run W)
      → outcome s ≡ o
      → Kept o (transfer_stream env r url stream s)
  unfolding transfer_stream
  transfer_stream-Kept r url stream s h =
      continue-Kept o _ _
        (wrapped-Kept o (codes "failed to create reader") _
          (lift-Kept o (new_reader env r url stream) s h))
        (λ reader s1 h1.
          continue-Kept o _ _
            (wrapped-Kept o (codes "failed to expanded URL") _
              (lift-Kept o (expand_url env.urls env.expansions r.dest url) s1 h1))
            (λ base s2 h2. transfer-Kept _ s2 h2))

  as_error-outcome : (r : Result (Unit {0}) × Run W) → Kept o r → outcome (as_error env r).1 ≡ o
  as_error-outcome (ok _, s) h = h
  as_error-outcome (err e, s) h = h

  transfer_chunk-Kept :
      (r : Rule) (url : Bytes) (ticket : Ticket) (reader : Option Bytes) (s : Run W)
      → outcome s ≡ o
      → Kept o (transfer_chunk env r url ticket reader s)
  unfolding transfer_chunk
  transfer_chunk-Kept r url ticket reader s h =
      elim (Result-cases (expand_url env.urls env.expansions r.dest url)) [
        | inl (e, failed) ↦ rw (failed, transfer_chunk) h
        | inr (base, found) ↦ elim (Option-cases reader) [
          | inl empty ↦ rw (found, transfer_chunk) (rw (empty, transfer_chunk) h)
          | inr (written, filled) ↦
              rw (found, transfer_chunk) (rw (filled, transfer_chunk) (transfer-Kept _ s h))
        ]
      ]

  chunk_listener-outcome :
      (r : Rule) (url : Bytes) (w : Writer Ticket) (s : Chunks env)
      → outcome s.1 ≡ o
      → outcome (chunk_listener env r url w s).1.1 ≡ o
  unfolding chunk_listener
  chunk_listener-outcome r url w (counter, s) h =
      as_error-outcome (transfer_chunk env r url w.ticket w.reader s)
        (transfer_chunk-Kept r url w.ticket w.reader s h)

  chunk_writer-outcome :
      (r : Rule) (split : Split) (url : Bytes) (key : Key) (s : Chunks env)
      → outcome s.1 ≡ o
      → outcome (chunk_writer env r split url key s).1.1 ≡ o
  unfolding chunk_writer
  chunk_writer-outcome r split url key (counter, s) h = h

  close-outcome :
      (r : Rule) (url : Bytes) (w : Writer Ticket) (s : Chunks env)
      → outcome s.1 ≡ o
      → outcome (close env.codecs.gzip (chunk_listener env r url) w s).1.1 ≡ o
  unfolding close
  close-outcome r url w s h = chunk_listener-outcome r url _ s h

  end_split-Kept : (r : Option Error × Chunks env) → outcome r.1.1 ≡ o → Kept o (end_split env r)
  end_split-Kept (none, (counter, s)) h = h
  end_split-Kept (some e, (counter, s)) h = h

  module _ (order : List (Buffer Key Ticket) → List (Buffer Key Ticket)) where
    transfer_chunk_stream-Kept :
        (r : Rule) (split : Split) (url : Bytes) (stream : Stream) (s : Run W)
        → outcome s ≡ o
        → Kept o (transfer_chunk_stream env order r split url stream s)
    unfolding transfer_chunk_stream
    transfer_chunk_stream-Kept r split url stream s h =
        elim (Result-cases (new_reader env r url stream)) [
          | inl (e, failed) ↦ rw (failed, transfer_chunk_stream) h
          | inr (reader, made) ↦
              rw (made, transfer_chunk_stream)
                (end_split-Kept _ (
                  split_tokens-keeps (chunk_writer env r split url)
                    (close env.codecs.gzip (chunk_listener env r url)) (λ c. outcome c.1 ≡ o)
                    (chunk_writer-outcome r split url) (close-outcome r url) (text [])
                    (key_of env.keys) order split (env.codecs.scan reader) (0, s) h))
        ]

    pub transfer_any-Kept :
        (r : Rule) (url : Bytes) (stream : Stream) (s : Run W)
        → outcome s ≡ o
        → Kept o (transfer_any env order r url stream s)
    unfolding transfer_any
    transfer_any-Kept r url stream s h = elim (Option-cases r.split) [
      | inl whole ↦ rw (whole, transfer_any) (transfer_stream-Kept r url stream s h)
      | inr (split, parts) ↦
          rw (parts, transfer_any) (transfer_chunk_stream-Kept r split url stream s h)
    ]
