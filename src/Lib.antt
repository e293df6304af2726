-- ===== src/Lib.antt =====
-- A model of kafka-reliability, a library for services that read from and write to Kafka, and proofs
-- about it. Paths are from the repository's root.
--
-- The program has four parts. An application writes events to an outbox table in its own
-- transaction; the relay (src/kafka_reliability/outbox/relay.py) claims pending rows, publishes
-- them through a producer (producers/) and marks them. A consumer guards each record with the
-- deduplicator (dedup/deduplicator.py), which claims the record's key in a store (dedup/store.py)
-- before the handler runs and confirms or releases it after. Replay (replay/) publishes old records
-- again. All raise the errors of core/errors.py and report to a metrics sink (metrics.py).
--
-- The files:
--   Base          numbers (Int may be negative, Float is a double), lists, equality tests, association lists for dicts (Dict), and methods
--                 that change an object and may raise (Effect): what was written before an
--                 exception stays written.
--   Core          Error, Message (core/message.py, core/headers.py), Clock, Metrics (each call is
--                 an event of a list), Utf8 (Python's str.encode and bytes.decode, and their round
--                 trip).
--   Dedup         Store is the protocol, a record of operations. Memory is
--                 dedup/backends/memory.py, each method under its name; Memory/View is the
--                 abstract view, a map from keys to live states, that the methods refine,
--                 Memory/Sweep the sweep. Statements are the SQL statements on the table of
--                 processed messages, Sqlite and Postgres the stores of dedup/backends/ over them,
--                 Redis the store over the server's commands; Connection is what lies between a
--                 store and its server. Deduplicator is the class of that name over any store:
--                 `process` is `enter`, up to its yield, and `leave`, from there; `consume` is the
--                 block that the module's docstring shows. Keys is dedup/keys.py, Keys/Relayed
--                 what a key reads of a message of the relay. Workers are several of them on one
--                 store, Signals is RevocationSignals.
--   Producers     the port, a record of operations; Memory, the in-memory producer; Confluent, the
--                 adapter to a confluent_kafka client, whose calls are parameters.
--   Outbox        Config is RelayConfig; Row is RelayRow, `_group_by_key` and `_to_message`; Relay
--                 is OutboxRelay over any store and producer; Table is the asyncpg store
--                 (outbox/backends/asyncpg_relay.py), whose SQL is a function on a list of rows.
--                 Relay/Passes and Relay/Runs say what a pass and a run keep, given a contract
--                 of the store and the producer; Table/Contract is that contract for the table;
--                 Delivery puts them together. Relay/Healthy and Table/Healthy follow a pass in
--                 which nothing fails.
--                 Writer is outbox/writer.py, Retention outbox/retention.py, Schema the checks of
--                 outbox/schema.py.
--   Replay        Selector, Reader and Audit are the modules of those names of replay/. Options is
--                 ReplayOptions and RateLimiter, Message what the runner makes of one record, Count
--                 Python's int() and str() on its header, Runner `_traverse`. Dlq is DlqRouter, and
--                 Rounds the way of a message between the two. Expr is the header filter.
--   Tests         in each part: the theorems at concrete inputs.
--
-- Times and durations are numbers of microseconds, and the clock is a field of the state. A uuid
-- is its text. PostgreSQL's `hashtext` and zlib's crc32 are parameters, as functions on texts,
-- and a key function of the deduplicator is a field. Each query of the relay's store is served,
-- or the connection is lost before the server ran it or after, as a list in the state says; past
-- its end all are served. `run` is given the number of passes after which `stop` is set, so its
-- recursion needs no fuel. The loop of the retention sweep has as much fuel as the table has
-- rows and one more: each chunk but the last deletes a row. The attempts of a claim and of a
-- send count down. Every other loop runs over a list. Floats are modelled in two places: 2 to
-- the power of 1024 or more is no float, and Python raises OverflowError; and the lifetime of a
-- Redis key is computed by the doubles of Base/Float. The times that the SQLite store compares
-- are floats too, and taken as exact.
--
-- Not modelled: the groups of one pass run one after another and not interleaved; the texts of
-- the outbox's SQL and the backends of its writer; the keys of dedup that parse JSON or hash a
-- payload; the DDL; the dedup stores' own checks of table names; the texts and command lines of
-- replay; the adapters to aiokafka, to OpenTelemetry and to command lines; a Postgres store that
-- has neither a pool nor a connection; str() of a number of more than 4300 digits; the texts of
-- errors and logs.
mod Base
pub mod Core
pub mod Dedup
pub mod Producers
pub mod Outbox
pub mod Replay
