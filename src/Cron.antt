-- ===== src/Cron.antt =====
-- cron/service.go: the service that polls storages which announce no events. Its parts are in the
-- child modules: the rules, the files that were announced already, and the poll.
pub mod Rules
pub mod Processed
pub mod Polling
pub mod Samples
