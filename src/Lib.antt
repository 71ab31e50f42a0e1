-- ===== src/Lib.antt =====
-- DogOS memory: two robot dogs that meet, act on each other once each, and remember it.
--
-- The program's parts. `packages/dogos_memory` keeps one SQLite file for each dog: memories that are only
-- appended, the evidence of its impressions and a score for each peer. `packages/dogos_demo` runs an
-- encounter over two such files: a gate confirms who is met, a plan of two commands is built from what
-- is remembered, an executor recovers or dispatches each command and projects its completion into both
-- files, and a coordinator ends the session with a summary. `packages/native_agent/policy` decides
-- whether a native tool of the robot may be called, and `runtime/gates.py` beside it whether the agent
-- may be installed or activated; its relay carries messages between two owners and writes a delivered
-- one into both files, and its adapter answers with an owner's memories in bounded JSON.
-- `apps/demo_choreo` validates and runs routines, on a dry run or through a live driver.
-- `apps/companion` decides, from what it sees and hears and on a clock of its own, how the robot answers
-- a person, and its server dispatches those answers.
--
-- Where they are modelled.
--   Memory/Models, Memory/Database, Memory/Store: packages/dogos_memory/{models,database,store,queries}.py
--     and schema.sql. A file is the record Database; its CHECKs and triggers are tests inside
--     `insert_memory` and `insert_evidence`. A call takes the file and returns it, or an error with the
--     file unchanged, since each is one transaction. `append` has the clock's reading as an argument.
--   Demo/Models: packages/dogos_demo/models.py. Demo/Identity: identity.py, the gate as a record, each
--     method returning its decision and the gate after it.
--   Demo/Session: session_models.py. Demo/Plan: policy.py. Demo/PairMemory: pair_memory.py.
--   Demo/World, Demo/Persistence, Demo/Executor, Demo/Coordinator: persistence.py,
--     command_execution.py and coordinator.py over a World of two files, the commands handed to
--     adapters so far and the number of clock readings. An error comes back with the world as it is
--     then, because what was written before it stays written. Demo/Adapters: adapters.py.
--   Demo/Encounter: runtime.py, the gate beside the world.
--   Demo/PairConnection: pair_connection.py and connection_models.py.
--   Agent/Arguments, Agent/Approval, Agent/Policy: packages/native_agent/policy/policy.py, and
--     Agent/Allowlist its `parse_action_allowlist`, from a decoded document (Value) to a policy.
--   Agent/Gates: packages/native_agent/runtime/gates.py.
--   Agent/Relay: packages/native_agent/dogos_mcp/relay.py, the table of messages as a list beside the two
--     memory files. Agent/SocialMemory: packages/native_agent/dogos_adapter/adapter.py, the answer as a
--     record with the number of bytes of its JSON computed from its fields.
--   Companion/Models, Companion/Engine: apps/companion/engine.py, one state for the object and one
--     function for a method. Companion/Lab: of apps/companion/server.py, what changes the queue of
--     actions and the epoch that a pending action belongs to, and the tests before a dispatch.
--   Value, Choreo/Dict, Choreo/Book, Choreo/Catalogue, Choreo/Runner: apps/demo_choreo/core.py, a payload
--     as a decoded document; Book is the checks of a routine, Catalogue the whole book and its triggers.
--   Choreo/Live, Choreo/Live/Steps: apps/demo_choreo/live.py, the driver's state and its readings of the
--     clock, the stop event and the guard; Choreo/Live/Sent and Guarded are proofs.
--   Newest: lists sorted and cut as a query does. Spaces: `strip` and `split` of Python. Base: shared names.
--
-- Conventions. Text is a list of code points. Timestamps and scores are natural numbers; a difference of
-- two timestamps is written as a sum on the other side, so that it holds for the integers of the
-- source. A decision margin and the numbers of a routine are counted in units of 2^-1074, the smallest
-- positive double, and the doubles of the policy and of the companion are the parameters Floats and
-- Doubles. Loops are structural recursion on a list, but for two that count down a fuel: the binary
-- search for the longest content that fits has as much as the content is long, which is shown to be
-- enough, and the count of decimal digits has 20, enough for a number below 10^21, past what a column
-- can hold. A constructor call of a validated model is a Boolean test, with an error where it is false.
--
-- Parameters. The adapters, the stop signal, the clock, a driver and a connection's probe are functions,
-- which may depend on what they were given before. `json.dumps`, sha256 and HMAC are the record Crypto,
-- and the method `casefold` of `str` is a function.
--
-- Not modelled. Concurrent writers of one file (each call holds the write lock), failures of the disk,
-- stripping of text fields, error messages, and the parts that are transport, consoles, HTTP or file
-- staging: the companion's sensors, skills and requests, the identity bundles with their importer, the
-- control plane, the runtime administration and the evaluations of native_agent, integrations and scripts.
pub mod Base
pub mod Value
pub mod Newest
pub mod Spaces
pub mod Memory
pub mod Demo
pub mod Agent
pub mod Companion
pub mod Choreo
