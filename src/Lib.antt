-- ===== src/Lib.antt =====
-- smirror: a model of the mirror service, which copies the files of a storage to another storage or to
-- a message bus as soon as they appear, by declared rules, and of the services around it.
--
-- The program's parts and their files:
-- - config/*.go, auth/*.go: the rules. `Config.Types` has the structs; `Config.Compression`,
--   `Config.RuleNames`, `Config.ChunkNames`, `Config.Expansion`, `Config.Key`, `Config.Matching` and
--   `Config.Streaming` have their methods, under the Go methods' names in snake case. `Config.Loading`
--   reads the rules of a folder (config/ruleset.go).
-- - split.go, writer.go: `Splitter` and `Writer`. A text is a list of scanned lines; a chunk's writer
--   calls its listener when it is closed. `Splitter.ByLines`, `Splitter.BySize` and
--   `Splitter.ByPartition` have a loop each. The reference for the first two is `emit`, which
--   writes whole chunks.
-- - config/schema/reader.go and config/field.go: `SchemaReader`; transcoder/reader.go and
--   config/transcoding.go: `Transcoder`. Each has the state of a Go reader, what `Read` does to it, and
--   the reading of everything.
-- - transcoder/xlsx/decoder.go, meta.go: `Sheets`, which row of a sheet is its header and how the rows below
--   it become records.
-- - service.go with reader.go, transfer.go, datafile.go, helper.go, contract/*.go: `Mirror`.
--   `Mirror.Attempts` is `Mirror`, `Mirror.Service` is `mirror`, `Mirror.Rules` is `initRule`,
--   `Mirror.Overflows` is `handleOverflow`, `Mirror.Ends` the post actions and `logResponse`, and
--   `Mirror.Transfers` all that lies below `mirrorAsset`.
-- - base/mover.go: `Mirror.Replay`; base/meta.go: `Reload`; base/error.go: `Prelude.Errors`;
--   job/*.go: `Job`, which the mirror service runs at the end of a job.
-- - cron/service.go: `Cron.Polling`, which finds the candidates of `Cron.Rules` (cron/config), leaves out
--   those that `Cron.Processed` (cron/meta) knows, and has the others transferred by `Proxy`
--   (proxy/*.go, event/s3event.go).
-- - mon/*.go: `Monitor`, with the report in `Monitor.Reports`; replay/*.go: `Replaying`, which uses
--   `Mirror.Replay`; secret/*.go: `Secrets`. Go's maps are `Maps`.
--
-- Strings and byte slices are lists of numbers. A step that may fail and changes a state is an `Act`
-- (`Act.antt`): what was changed before an error stays changed. The state of a request is `Run`: the
-- storage, the response, and what the service keeps. The storage is of any type; the calls
-- of github.com/viant/afs, of the message buses, the clouds and the notifier are fields of each part's
-- `Services` or `Sources`, and codecs, encoders and regular expressions are fields of `Codecs`, `Urls`,
-- `Expansions`, `Formats`, `Toolbox`, `Keys` and `KeyLibrary`. The order in which Go visits a map, or in
-- which routines end, is a parameter.
--
-- Fuel: `mirror_attempts` has a round for each attempt, and one more than the configured number is
-- given, which is enough since each retry raises the attempt and none is made from that number on.
-- `append_resources` of cron takes the depth of the folders that it enters, which Go does not bound, and
-- gives the error `too_deep` there; for folders that end, every depth from some number on is enough,
-- with the same candidates. `read_all` and `drain` of the readers take a
-- number of rounds: one more than there are bytes to deliver, or lines to read, is enough.
--
-- Not modelled: times of responses and their count of bad records; the message mirror, the Slack
-- notifier, the command line, the entry points, the bindings of clouds and of Avro, and of a sheet the
-- types of its columns and the text of its schema, which are formats of other libraries; the loading of
-- the services' own configurations. Between services a result is taken as a parameter where it is
-- modelled apart: what the two readers give on a stream, the storage options of the secrets, the reload
-- of the rules. A writer's text reaches the storage when it is closed, so that a failing write to an
-- open writer is left out; a chunk counter stays below 2^31. The routines of a replayer take their URLs
-- in a given order, one after another, and so do the notifications of a poll. Differences of times are
-- taken to be representable as a duration. Sizes of the streaming configuration are not negative, and
-- their products wrap around as a bit pattern of 64 bits; an overflow's size is below 2^43 megabytes.
-- Where `Rule.Name` would slice a name that is shorter than its extension, and panic, the model's name
-- is cut to the empty text. The texts that the schema reader replaces are not empty: at the end of the
-- input the model does not run the replacer on the empty text. The two moves of a replayed URL are one
-- step.
pub mod Prelude
pub mod Text
pub mod External
pub mod Act
pub mod Config
pub mod Writer
pub mod Splitter
pub mod Job
pub mod Reload
pub mod Maps
pub mod Mirror
pub mod Proxy
pub mod Cron
pub mod SchemaReader
pub mod Transcoder
pub mod Sheets
pub mod Monitor
pub mod Secrets
pub mod Replaying
