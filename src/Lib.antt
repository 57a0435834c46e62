-- ===== src/Lib.antt =====
-- TrajProxy: a proxy between agents and inference services that records trajectories.
-- This library models the parts of traj_proxy/ that keep state of their own.
--
-- Parts, files and sources:
--   Manager: `ProcessorManager` of traj_proxy/proxy_core/processor_manager.py. Manager.antt has the
--     state and the LRU cache of processors, Manager/Registry registration and removal,
--     Manager/Sync the full synchronisation with the database, Manager/Loading the loading of a
--     processor under `_load_lock`, Manager/Runs sequences of events of all tasks.
--   Tokenizers: `TokenizerCache` of traj_proxy/proxy_core/tokenizer_cache.py, from which the
--     manager takes tokenizers and to which it gives them back.
--   Models: `ModelConfig` of traj_proxy/store/models.py, and the exceptions as values.
--   Encoding: `PrefixMatchCache` of traj_proxy/proxy_core/cache/prefix_cache.py and `TokenConverter`
--     of traj_proxy/proxy_core/converters/token_converter.py, which uses it.
--   Offloading: `OffloadingRepository` of traj_proxy/store/decorators/offloading_repository.py,
--     `R3RefRepository` of traj_proxy/store/r3_ref_repository.py (Offloading/Refs), and
--     `get_route_experts` of traj_proxy/proxy_core/provider.py (Offloading/Fetches), which reads the
--     rows that the first has written.
--   Direct: the streams of traj_proxy/proxy_core/pipeline/direct_pipeline.py: what is kept of the
--     chunks and what is sent (Direct.antt), and what is stored at the end (Direct/Final).
--   Responses: `InferResponseParser` of traj_proxy/proxy_core/infer_response_parser.py, with what
--     Python's `split` and `int` do (Responses/Ints).
--   Pipeline: `TokenPipeline` of traj_proxy/proxy_core/pipeline/token_pipeline.py, with `build_chunk` of
--     traj_proxy/proxy_core/builders/stream_builder.py and the storing of
--     traj_proxy/proxy_core/pipeline/base.py. Pipeline.antt and Pipeline/Chunks handle a chunk of a
--     stream, Pipeline/Streams the loop and the row that is stored, Pipeline/Whole a whole stream;
--     Pipeline/Replies is a request that is not streamed. It uses Responses and Encoding/Decoding.
--   Parsers: `parse_delta` of traj_proxy/proxy_core/parsers/parser_manager.py, the parser that a stream of
--     the token pipeline is given (`parser_of` in Parsers/Deltas); the parsers of the models are
--     interfaces.
--   ToolCalls: `_merge_stream_tool_calls` of traj_proxy/proxy_core/pipeline/direct_pipeline.py and of
--     traj_proxy/proxy_core/builders/stream_builder.py.
--   Requests: `InferClient` of traj_proxy/proxy_core/infer_client.py: its retries, and the bodies that
--     it sends (Requests/Bodies).
--   Archiver: `_archive_run` of traj_archiver/archiver.py, which gives the sessions of a run to Ray
--     workers: its operations in Archiver.antt, its loop in Archiver/Rounds, what follows the loop in
--     Archiver/Rounds/Outcome. Archiver/Details has `archive_details` and the check of the workers,
--     Archiver/Cleanup `_cleanup_run`, Archiver/Export and Archiver/Keys the export of one session in
--     traj_archiver/session_worker.py. For the proofs, Archiver/Crew counts the workers and their
--     tasks, Archiver/Work the submissions that can still be made, Archiver/Accounts where a session
--     stands; Archiver/Rules is the induction over the passes that they share.
--   Labels: the run ids of traj_proxy/observability/label_guards.py.
--   Base, Texts and Json are shared: tests, lists, Python's dict and str, and JSON values.
--   Tests has the theorems at concrete inputs.
--
-- Concurrency: the program runs on one event loop, so a task gives up control only where it awaits.
-- What a task does between two such points is one function here, and Manager/Runs lets any
-- functions of other tasks come in between. An exception is a value.
--
-- The loop that makes room in the cache is on fuel, one more than the number of cached processors:
-- each round removes one. Only with a limit of zero is it not enough, and there the loop never ends.
-- The loop of the archiver is on fuel too, one for each round: a session that is pending has at most
-- three failures left, and each of them costs two rounds at most, so 8 for each session are enough
-- besides the rounds in which `ray.wait` runs into its time-out; a run may wait any number of these.
-- The export of a session takes one unit of fuel for a batch, and a batch that is not the last one has
-- rows, so more fuel than rows is enough.
-- Numbers are natural numbers without a bound, as Python's are; times are given as arguments.
--
-- Arguments, as they are no code of the repository: the tokenizer (`encode`, `decode`, or an object
-- of a type T), the file system, the database's answers, the blob storage, JSON serialization, and
-- Ray: which submissions are accepted, which task is done next, and with what. The streams of the
-- inference service, the chunk at which a client closes its stream, and the answers of the parser of a
-- request are arguments too.
-- Not modelled: the requests of the direct pipeline that are not streamed, the registry of
-- parsers, the parsers of the models and the response builder, routes and workers; of the archiver its schedule,
-- the storage services and the partitions of the database; logging and metrics.
pub mod Base
pub mod Models
pub mod Tokenizers
pub mod Manager
pub mod Texts
pub mod Json
pub mod Encoding
pub mod Offloading
pub mod ToolCalls
pub mod Labels
pub mod Requests
pub mod Archiver
pub mod Direct
pub mod Responses
pub mod Pipeline
pub mod Parsers
pub mod Tests
