-- ===== src/Lib.antt =====
-- dropin: a model of its pipeline, with the theorems that make the pipeline correct.
--
-- dropin archives what is put into a drop folder: it backs an item up to a repository, proves the
-- backup from the repository itself, and only then deletes the original. This library models the
-- pipeline that does so, and what the pipeline stands on.
--
-- Parts, and the code that each models:
-- Prelude: texts as lists of code points, lists and results over the native numbers.
-- Outcome, Report, Report/Exit: dropin/report.py, outcome records and exit codes.
-- States, States/Reach: dropin/pipeline/states.py, the states and the permitted transitions.
-- Engine, Engine/Tags and its children: dropin/engine/interface.py, the reserved tags of a snapshot
-- (Identity.to_tags, parse_tags), with the regular expressions as matchers.
-- Errors: the exceptions of the pipeline and the reasons that it records.
-- Store, Store/Records, Store/Laws: dropin/store/schema/0001_initial.sql as records, and the reads
-- and writes of dropin/store/records.py. A table is the list of its rows. A unique index is a test
-- that refuses the write. The times of the rows are seconds, those of the clock and of the settings
-- nanoseconds.
-- Spool, Spool/Walk: dropin/spool/walk.py, on the tree of what lstat, readlink and listdir answer.
-- Gates: the proofs before a deletion. Gates/Fingerprint is dropin/pipeline/fingerprint.py,
-- Gates/Reconcile dropin/pipeline/reconcile.py, Gates/Frontier dropin/pipeline/frontier.py, Gates/Payload dropin/pipeline/verify.py and
-- Gates/Catalog dropin/pipeline/catalog_verify.py.
-- Session: the state of a run (the store, the export files, the report, the world) and its actions,
-- with exceptions, transactions that roll back, and a record Env of every call to the outside.
-- Session/Triple, Session/Rules and Session/Result are the rules for reasoning about an action.
-- Attempts, Attempts/Budget: dropin/pipeline/attempts.py and the export of dropin/store/export.py.
-- Evict: dropin/pipeline/evict.py, the journalled deletion.
-- Drain: dropin/pipeline/drain.py, the steps of one occurrence and their loop (_advance), in
-- Drain/Passes the pass over the eviction intents, and in Drain/Execute the whole drain (execute),
-- with the pass over the drop folder and the one over dormant attempts.
-- Capture: dropin/capture/extract.py (capture_item), with dropin/spool/scan.py in Capture/Scan and
-- dropin/spool/admission.py in Capture/Admission.
-- Recover: dropin/recover.py. Its children follow the steps of the protocol: Observe, Base, Merge,
-- Ledger, Verify, Settle, Meta, and Run, which composes them. The others hold the proofs: Newest and
-- Chosen on the base, Unparsed on a repository without canonical tags, Merge/Lookup, Merge/Kept and Merge/Whole on the merge, Frame, Shape, Settled and
-- Marks on what verification leaves, Proven on what is confirmed, Lineage and Watermarks on the sequences.
-- Phase: what the state of an occurrence implies of its attempts, and the proof that the loop keeps
-- it, one child for each group of steps.
-- Record: record_occurrence of dropin/store/records.py, which puts a captured item into the store.
-- Examples: the properties at concrete inputs.
--
-- How the parts interact: a step of Drain reads the store, calls the outside through Env, runs the
-- gates on the answers, and writes the store through Attempts, Evict and Store/Records. An error is a
-- value of Errors.Exn; a step turns it into the end of the item. Every answer of the outside world is
-- arbitrary, and the world may change at every call.
--
-- Fuel and bounds: the loop of _advance is on fuel, and a result of the loop means that the fuel ran
-- out. A fuel of eight never runs out, since each round but the last moves the occurrence on by a
-- measure; the invariant holds for every fuel. Printing a number is on fuel that its value bounds.
-- Every other loop is structural recursion. Numbers are unbounded, as in Python; the bound of a
-- sequence, 2 ^ 63 - 2, and the limit of 4300 digits of int are tests of the parser.
--
-- Not modelled: the repository engines, hashing, tarfile, sqlite3 and the file system, which are
-- parameters; fault injection and progress events, which change no state; the ceilings on the cache
-- and the row of the run; the tables of attributes, search rows and tags, and the metadata that fills
-- them; the directories, byte copies and rename around a recovery, its counts and its summary line;
-- retrieval, restore state, query, configuration, the command line, the MCP server, launchd and the
-- platform bindings.
pub mod Prelude
pub mod Outcome
pub mod Report
pub mod States
pub mod Engine
pub mod Errors
pub mod Store
pub mod Spool
pub mod Gates
pub mod Session
pub mod Attempts
pub mod Evict
pub mod Drain
pub mod Record
pub mod Capture
pub mod Recover
pub mod Phase
pub mod Examples
