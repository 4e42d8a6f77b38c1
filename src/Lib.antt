-- ===== src/Lib.antt =====
-- The Dream web service of the workbench, apps/dream-windows/server: generation jobs, batches of
-- images, the deletion of history, and the checks before new work is accepted.
--
-- Parts and files (the paths are those of the sources below apps/dream-windows/server):
-- - History/ is history_transactions.py. A deletion moves the files of one item to a folder of the
--   trash, between a journal and a receipt; at the next start, recovery rolls back what has no
--   receipt. History.Record has the records and path checks (`_valid_id`, `_plain`), History.Reading
--   has `_source`, `_record_source` and `_read_record`, History.Local has the disk of one
--   transaction with its file operations, and History.Transaction has `_write_record`, `_move`,
--   `_matches`, `_rollback`, `_cleanup_committed`, one turn of `_recover_locked`, and the guarded
--   part of `delete_history_files`. Each file operation takes the next fault of a list: it succeeds,
--   it raises, or the process exits there. Once the list is used up, everything succeeds.
--   History/Recovery/ has the proofs. History.Flags has `_committed_flags_locked`.
-- - Jobs/ is job_runner.py. Jobs.Runner has the operations under the lock (`submit`, `get`,
--   `cancel`, `_update`, `_update_if_active`), Jobs.Execution has `_execute` with its native paths on
--   the queue's thread. A list of Booleans says before which locked section a client cancels, and a
--   list how each write of a job's file ends: done, not begun, or torn; what engine, processes and the
--   other files do is the record `Outside`. Jobs.Fallback has the clauses of
--   `_run_persistent` over the answers of Engine.
-- - Batches/ is identity_batches.py: Batches.Model has the records, Batches.Matrix the validator of
--   the matrix and `item_requests`, Batches.Store the state shared with identity_service.py and its
--   `_save`, `get` and `_update`, Batches.Observed `_validated_event`, Batches.Completion
--   `_complete_item` and `consume`, Batches.Ending `_finish`, Batches.Lineage `_validate_lineage`,
--   Batches.Attempt and Batches.Submission `_submit_frozen` with its rollback, Batches.Service
--   `submit`, where the record `Service` has the answers of the other services, Batches.Retry
--   `retry`, Batches.Recovery `load_for_recovery`, and Batches.Replay `_replay_completions` and
--   `recover`, which read the events by Events. A list of Booleans says which writes of JSON files,
--   and which removals, succeed; images, metadata and previews on the disk are the record `Outside`,
--   and what `secrets` draws and whether the queue takes the batch is the record `Drawn`. Floats are
--   exact fractions.
-- - Engine/ is persistent_engine.py, the client of the resident native engine: Engine.Model has its
--   state and the record `Outside` of what the operating system, the engine and the clock answer at
--   each call, Engine.Identity `_adopt_for_release` and what it calls, Engine.Release
--   `release_for_identity`, Engine.Starting `ensure_ready` with `_probe`, `_restore_verified_state`
--   and `_persist_state`, and Engine.Generating `generate` and `cancel`. The answers depend on the
--   number of the call, so other processes may do anything between two calls. A request for an image
--   is logged when it is sent, whatever its answer, and the id of its job when the answer brings it.
--   Times are in milliseconds. Actions has the monad of a state and an exception.
-- - Events is identity_events.py: the file of events that a worker appends to and the service reads
--   from an offset on, as bytes. The JSON encoder and decoder are parameters. Events.Consuming is
--   `consume_events` of `_run_worker` in identity_service.py, with the callback as a parameter.
-- - Contract is identity_contract.py, `bounded_research` of a request for an image of a person, with
--   `estimated_capture_bytes` of identity_research.py; floats are exact fractions. Contract.Bundles is
--   `resolve_identity_model` of identity_models.py, with the file system as a parameter.
-- - Operations/ is operations.py: `_disk_status` and `ensure_generation_capacity`, `_read_object` and
--   `_pending`.
-- - Vram is vram_policy.py, with the budget in tenths of a GiB.
-- - Errors is errors.py, with results and Python exceptions.
-- - Prelude has what they share.
--
-- Bounds and fuel: `_validate_lineage` takes fuel, and two more rounds than there are batches are
-- enough. The loop of `ensure_ready` sleeps 250 ms a round and the loop of `generate` 100 ms, so a
-- round for each of these in the timeout and one more are enough. Every other loop is over a list or
-- counts down, as those of 65 rounds over a file of events do. Sizes and numbers of the sources are
-- unbounded Python integers and are natural numbers here; the seed's modulus 2^31 is written out. The
-- budget of Vram is exact, where the code computes with doubles.
--
-- Not modelled: image pipelines, routing, configuration and telemetry, which call third-party
-- libraries; the execution and the cancellation of batches; the other services; the top of
-- `delete_history_files`, which collects the files; the content of traces, command lines and log
-- files; the HTTP requests to the engine, its command line and the start lock; messages and details
-- of errors. What pathlib says of a path, the length of a JSON encoding, and, in Batches, the contract
-- of a single generation request are parameters.
pub mod Prelude
pub mod Errors
pub mod Operations
pub mod Vram
pub mod History
pub mod Jobs
pub mod Actions
pub mod Contract
pub mod Engine
pub mod Batches
pub mod Events
