-- ===== src/Mirror/Transfers.antt =====
-- The part of service.go that carries a source's text to its destination, with reader.go, transfer.go
-- and datafile.go. A writer's text reaches the storage when the writer is closed, and writing to it
-- before that does not fail.
pub mod Deliveries
pub mod Outcomes
pub mod Assets
use smirror.Prelude.{
  ℕ, suc, List, [], ◌∷◌, ◌++◌, Bool, true, false, not, ◌&&◌, ◌||◌, Option, none, some, ltb,
  if◌then◌else◌, Bytes, Error, errorf, wrap, Result, ok, err, is_empty, is_schema_error,
}
use smirror.Text.Search.{codes, same, replace}
use smirror.Text.Paths.{ext, join_path}
use smirror.Config.Types.{Compression, Rule, Resource, Split, Streaming}
use smirror.Config.Compression.{
  gzip_codec, is_set, has_transformer, source_compression, shall_archive_walk, archive_walk_url,
}
use smirror.Config.RuleNames.{rule_name}
use smirror.Config.ChunkNames.{chunk_name}
use smirror.Config.Expansion.{expand_url, clone_with_url}
use smirror.Config.Key.{Key, text, key_of, key_text}
use smirror.Config.Key.Equality.{key_keys}
use smirror.Splitter.{split_tokens}
use smirror.Splitter.ByPartition.Table.{Buffer}
use smirror.Writer.{Writer, new_writer, close}
use smirror.Act.{Act, pure, fail, lift, get, continue, ◌>>=◌, ◌>>◌, wrapping}
use smirror.Mirror.State.{
  Response, Stream, Entry, StorageOption, stream_option, skip_checksum, allow_empty, Transfer,
  Environment, Run, effect, respond,
}
use smirror.Mirror.Messages.{is_not_found}

-- `CompressionCodec() == config.GZipCodec`
unfoldable pub is_gzip : Option Compression → Bool
is_gzip none = false
is_gzip (some c) = same c.codec gzip_codec

-- `path.Ext(URL) == path.Ext(destURL) && !rule.HasTransformer()` keeps the source's compression.
unfoldable pub dest_compression : Rule → Bytes → Bytes → Option Compression
dest_compression r url dest_url =
    if same (ext url) (ext dest_url) && not (has_transformer r) then none else r.compression

-- The options of `upload`.
unfoldable pub upload_options : Rule → Bool → ℕ → List StorageOption
upload_options r skip size =
    let streamed : List StorageOption = elim r.streaming [
      | none ↦ []
      | some s ↦ if ltb 0 s.part_size_mb then stream_option s.part_size size ∷ [] else []
    ] in
    (if skip then skip_checksum ∷ streamed else [])
    ++ (if r.allow_empty then allow_empty ∷ [] else [])

-- What a chunk's closure holds.
pub record Ticket : Type 0 where
  pub dest_name : Bytes
  pub counter : ℕ
  pub partition : Bytes

module _ {W : Type 0} (env : Environment W) where
  -- `NewReader`
  unfoldable pub new_reader : Rule → Bytes → Stream → Result Stream
  new_reader r url stream =
      let unpacked : Result Stream =
        if is_gzip (source_compression r url) then env.codecs.gunzip stream else ok stream in
      elim unpacked [
        | err e ↦ err e
        | ok reader ↦ if has_transformer r then env.codecs.schema_reader r reader else ok reader
      ]

  -- `GetReader`, for a transfer with a destination
  unfoldable pub get_reader : Transfer → Result Stream
  get_reader t = elim t.reader [
    | none ↦ err (errorf (codes "transfer reader was empty"))
    | some reader ↦ elim t.rule.transcoder [
      | none ↦ ok reader
      | some transcoding ↦ env.codecs.transcoder transcoding t.split_counter reader
    ]
  ]

  -- `ioutil.ReadAll` and `io.Copy`
  unfoldable pub read_all : Stream → Result Bytes
  read_all stream = elim stream.failure [ none ↦ ok stream.content | some e ↦ err e ]

  -- A writer that is closed with an error has its destination deleted, whatever that gives.
  unfoldable pub finish_upload : Bytes → Option Error × W → Option Error × W
  finish_upload url (none, w) = (none, w)
  finish_upload url (some e, w) = (some e, (env.services.delete url w).1)

  unfoldable pub upload : Transfer → Act (Run W) (Unit {0})
  upload t = do
    reader ← wrapping (codes "failed to get reader for: " ++ t.resource.url) (lift (get_reader t))
    run ← get
    stored ← lift (env.services.storage_options run.world t.resource)
    effect (
        env.services.new_writer t.dest_url
          (stored ++ upload_options t.rule t.skip_checksum run.response.file_size))
    respond (λ r. record r { dest_urls = r.dest_urls ++ t.dest_url ∷ [] })
    content ← lift (read_all reader)
    effect (λ w. finish_upload t.dest_url (
        env.services.close_writer t.dest_url
          (if t.gzip_dest then env.codecs.gzip content else content) w))

  -- the error that `publish` makes of the message bus's
  unfoldable pub publish_error : Bytes → Error → Error
  publish_error topic e =
      if is_not_found e.message
      then errorf (codes "failed to publish data, no such topic: " ++ topic)
      else e

  -- the topic or the queue of a transfer
  unfoldable pub publish_dest : Transfer → Bytes
  publish_dest t =
      replace (if is_empty t.resource.topic then t.resource.queue else t.resource.topic)
        (codes "$partition") t.partition 1

  unfoldable pub record_publication : Bytes → Result (List Bytes) × W → Act (Run W) (Unit {0})
  record_publication topic (ok ids, w) s =
      respond (λ r. record r { message_ids = r.message_ids ++ ids }) (record s { world = w })
  record_publication topic (err e, w) s = (err (publish_error topic e), record s { world = w })

  unfoldable pub publish : Transfer → Act (Run W) (Unit {0})
  publish t = do
    reader ← lift (get_reader t)
    content ← lift (read_all reader)
    run ← get
    if same run.bus_vendor (codes "pubsub") || same run.bus_vendor (codes "sqs")
        then record_publication t.resource.topic
            (env.services.publish (publish_dest t) content (some t.dest_url) run.world)
        else fail (errorf (codes "unsupported message vendor " ++ run.bus_vendor))

  -- what `transfer` does with the result of `upload`
  unfoldable pub report_upload : Bytes → Result (Unit {0}) × Run W → Result (Unit {0}) × Run W
  report_upload url (ok _, s) = (ok tt, s)
  report_upload url (err e, s) = (
    err (wrap (codes "failed to transfer to: " ++ url) e),
    (if e.is_schema
        then record s { response = record s.response { schema_error = e.message } }
        else s),
  )

  unfoldable pub transfer : Transfer → Act (Run W) (Unit {0})
  transfer t s =
      if not (is_empty t.resource.topic) || not (is_empty t.resource.queue)
      then publish t s
      else if not (is_empty t.resource.url)
      then report_upload t.dest_url (upload t s)
      else fail
          (errorf (
            codes "dest.URL was empty: invalid transfer: "
            ++ (env.codecs.json_transfer t ++ codes ": ")))
          s

  unfoldable pub transfer_stream : Rule → Bytes → Stream → Act (Run W) (Unit {0})
  transfer_stream r url stream = do
    reader ← wrapping (codes "failed to create reader") (lift (new_reader r url stream))
    base ←
        wrapping (codes "failed to expanded URL")
          (lift (expand_url env.urls env.expansions r.dest url))
    run ← get
    let dest_url = env.urls.join base (rule_name env.urls r url)
    transfer (record {
      rule = r;
      partition = [];
      split_counter = 0;
      skip_checksum = run.response.checksum_skip;
      resource = r.dest;
      reader = some reader;
      dest_url = dest_url;
      gzip_dest = is_gzip (dest_compression r url dest_url);
    })

  -- What the closures of a split share: the chunk counter and the run.
  abbrev pub Chunks : Type 0
  Chunks = ℕ × Run W

  -- `chunkWriter`: the counter counts the chunks, fewer than 2^31.
  unfoldable pub chunk_writer : Rule → Split → Bytes → Key → Chunks → Writer Ticket × Chunks
  chunk_writer r split url key (counter, s) = (
    new_writer r.compression (record {
      dest_name = chunk_name env.urls env.codecs.sprintf split r url (suc counter) (key_text key);
      counter = suc counter;
      partition = key_text key;
    }),
    (suc counter, s),
  )

  unfoldable pub transfer_chunk : Rule → Bytes → Ticket → Option Bytes → Act (Run W) (Unit {0})
  transfer_chunk r url ticket reader s = elim (expand_url env.urls env.expansions r.dest url) [
    | err e ↦ (err (errorf (codes "failed to expand URL due to " ++ e.message)), s)
    | ok base ↦ elim reader [
      | none ↦ (err (errorf (codes "reader was empty")), s)
      | some written ↦
          transfer
            (record {
              rule = r;
              partition = ticket.partition;
              split_counter = ticket.counter;
              skip_checksum = s.response.checksum_skip;
              resource = r.dest;
              reader = some (record { content = written; failure = none });
              dest_url = env.urls.join base ticket.dest_name;
              gzip_dest = false;
            })
            s
    ]
  ]

  -- a result as an `error` value
  abbrev pub as_error : Result (Unit {0}) × Run W → Option Error × Run W
  as_error (ok _, s) = (none, s)
  as_error (err e, s) = (some e, s)

  -- the listener of a chunk's writer
  unfoldable pub chunk_listener : Rule → Bytes → Writer Ticket → Chunks → Option Error × Chunks
  chunk_listener r url w (counter, s) =
      let (e, s') = as_error (transfer_chunk r url w.ticket w.reader s) in (e, (counter, s'))

  -- the end of a split: its error, and the state without the counter
  abbrev pub end_split : Option Error × Chunks → Result (Unit {0}) × Run W
  end_split (none, (counter, s)) = (ok tt, s)
  end_split (some e, (counter, s)) = (err e, s)

  -- `order` is the order in which Go visits a map's keys.
  module _ (order : List (Buffer Key Ticket) → List (Buffer Key Ticket)) where
    unfoldable pub transfer_chunk_stream : Rule → Split → Bytes → Stream → Act (Run W) (Unit {0})
    transfer_chunk_stream r split url stream s = elim (new_reader r url stream) [
      | err e ↦ (err (wrap (codes "failed to create reader") e), s)
      | ok reader ↦ end_split (
          split_tokens (chunk_writer r split url) (close env.codecs.gzip (chunk_listener r url))
            (text []) (key_of env.keys) order split (env.codecs.scan reader) (0, s))
    ]

    -- the choice at the head of `mirrorAsset`
    unfoldable pub transfer_any : Rule → Bytes → Stream → Act (Run W) (Unit {0})
    transfer_any r url stream = elim r.split [
      | none ↦ transfer_stream r url stream
      | some split ↦ transfer_chunk_stream r split url stream
    ]

    -- the visits of `Walk`: directories are passed over, and the first error ends it
    unfoldable pub walk : Rule → Bytes → Option Error → List Entry → Act (Run W) (Unit {0})
    walk r url failure [] s = elim failure [ none ↦ (ok tt, s) | some e ↦ (err e, s) ]
    walk r url failure (e ∷ entries) s = elim e.is_dir [
      | true ↦ walk r url failure entries s
      | false ↦
          continue (transfer_any r (env.urls.join url (join_path e.parent e.name)) e.stream s)
            (λ _. walk r url failure entries)
    ]

    abbrev pub stream_options : Option (ℕ × ℕ) → List StorageOption
    stream_options none = []
    stream_options (some (part, size)) = stream_option part size ∷ []

    unfoldable pub mirror_asset : Rule → Bytes → Act (Run W) (Unit {0})
    mirror_asset r url = do
      run ← get
      stored ←
          wrapping
            (codes "failed to get storage option for " ++ env.codecs.format_resource r.source)
            (lift (env.services.storage_options run.world (clone_with_url r.source url)))
      let options = stored ++ stream_options run.response.stream_option
      if shall_archive_walk r url
          then (λ s.
              let (entries, failure) =
                env.services.entries s.world (archive_walk_url url) options in
              walk r url failure entries s)
          else do
            stream ←
                wrapping (codes "failed to download source: " ++ url)
                  (lift (env.services.open_url run.world url options))
            transfer_any r url stream
