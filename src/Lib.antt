-- ===== src/Lib.antt =====
-- A verification library for the kernel of Velix: the processes and trees that the supervisor keeps, the engines that
-- end them, and the queues and formats around them.
--
-- The parts and the files that model them. Each module opens with the source file that it is about.
--   * Registry (core/process_registry.hpp and .cpp): the state in Registry/State, the operations on trees in
--     Registry/Trees, on processes in Registry/Processes, their endings in Registry/Ending, the queries in
--     Registry/Queries. Registry/Steps has the calls that change the state as one type with its step and its runs.
--     Registry/Invariant says what a valid registry is; its children and those of Steps are the proofs that calls keep
--     it. Registry/Registration, Retirement, Completion and TreeLife are about single operations.
--   * Termination (TerminationEngine in core/termination_engine.cpp): kill_processes over the registry. Signals,
--     sleeps and messages to the bus are a list of effects. Termination/Leaks is about what it leaves behind.
--   * Watchdog (WatchdogEngine in the same file): its predicates and one pass of its loop.
--   * Supervisor (core/supervisor.cpp): the status names in Status, messages and answers in Messages, the checks of a
--     message in Validation, handle_register_pid in Registering, the other handlers and handle_message in Handlers, a
--     round of watchdog_loop in Round. Sessions and Upkeep are about the registry's invariant;
--     TreeKill is about handle_tree_kill, Silence about the first half of a round, Lockout about the registration of a
--     handler.
--   * Scheduler (llm/scheduler.cpp): tree_queues, ready_tree_queue and the workers that pick and release keys; the
--     steps of the whole are in Scheduler/Workers; Scheduler/Current is the table of the requests that are current.
--   * Framing (communication/asio_framing.hpp), Utf8 (utils/file_tools.cpp), ThreadPool (utils/thread_pool.hpp).
--   * Bus (core/bus.cpp): BusService and its sessions; Bus/Routing is about the tables, Bus/Queues about the writes of
--     a session, Bus/Closing about what a closing session leaves.
--   * Terminal (core/persistant_applications): the job store in Terminal/Jobs, the sessions and get_or_create of
--     TerminalRegistry in Terminal/Sessions, its other operations and the steps of the whole in Terminal/Operations,
--     SentinelParser in Terminal/Sentinel, shell_quote in Terminal/Quoting, constant_time_equal in
--     Terminal/Comparison. Their children are about the invariant, the keys, the drivers, evictions, chunks, frames.
--   * Executioner (execution): SHA-256 in Executioner/Sha256, with the standard's own definition in its Standard, and
--     the cache key in CacheKey; PrepareCoalescer in Coalescer, the steps of its threads in Coalescer/Moves; the JSON values
--     that are read in Json; validate_manifest and validate_params in Manifest and Params, the runtime adapters in
--     Adapters, prepare_runner in PrepareRunner, the configuration and the file lock in Config, the package cache in
--     Packages, the environment in Environment; handle_exec_request up to the prepare in Requests, its leader in
--     Leading, its end in Serving.
--   * Compacter (llm/compacter.cpp): compact_history_if_needed; Compacter/Answers is about the attempts and Shape about
--     its result.
--   * SessionNames (llm/session_manager.cpp): the names of users and sessions; SessionNames/Fresh is about new ids.
--   * ContextFiles (llm/session_io.cpp): the preparation of a context file; ContextFiles/Cleaning is about its first step.
--   * Conversations (llm/session_io.cpp): the messages of a request; Conversations/Prompts is about its system prompt.
--   * StringUtils (utils/string_utils.hpp); StringUtils/Splitting is about split and join.
--   * Distance and Patch (utils/file_tools.cpp): edit_distance, with the edits that it counts in
--     Distance/Scripts, and patch_file behind its lock, with atomic_write.
--   * Prelude: maps as association lists, sets as lists, 64-bit words, decimal numbers, Boolean tests. Double: the
--     operations on double, a parameter. Tests: the theorems on concrete inputs.
--
-- How the parts interact: the supervisor calls the registry directly, and the termination engine calls it for each
-- target. The supervisor's `reap` is kill_tree, a look at each pid, and kill_processes, as in handle_tree_kill and in
-- the three limits of watchdog_loop. In the executioner, Requests takes a package from Packages, which takes Manifest,
-- Adapters and CacheKey; Serving takes Leading, which takes PrepareRunner and Coalescer.
--
-- Choices. A call of the registry holds its lock, or writes the atomics of one process, and is one step. A handler or a
-- round runs without another thread between its calls. The clock is an argument: a number where one reading is made, a
-- function from the number of the reading where there are more. An int is an integer, a uint64_t a number with its
-- wrap-around written out, a std::string a list of bytes. An unordered container is a list, in one of its possible
-- orders. The counter of LLM requests does not overflow. A JSON message is a record of the fields that are read, and a
-- field of another type than the code asks for is not modelled, since the JSON library throws, but for the registration
-- of a bus session, which writes fields before a read throws. The executioner reads deeper: there a JSON value is a
-- tree, and a read that throws is a result. What it asks of the machine, which programs and files there are and what a
-- program prints, is an argument. So is what the machine does with the temporary file of atomic_write.
--
-- The bus and the terminal registry are used by several threads: their calls are events, each the part that runs under
-- one lock or on one strand, and a run is any sequence of events. get_or_create has two such parts. Drivers of terminals
-- are handles, and what they answer is an argument.
--
-- Loops are structural, but for the loop of pick_next_request: its fuel is the number of candidates in the heap, one
-- of which it pops in each turn. The loop of SentinelParser::feed runs on the number of the pending bytes, of which
-- each turn that goes on consumes one. The reads of a file for the cache key run on the number of its bytes.
--
-- Not modelled: sockets, file I/O but for atomic_write, logging and the configuration but for the executioner's, fork,
-- exec and pseudo-terminals, the Windows branches, the calls of language models, the storage of sessions and
-- conversations, the tools and the gateways.
mod Prelude
pub mod Registry
pub mod Termination
pub mod Double
pub mod Watchdog
pub mod Supervisor
pub mod Scheduler
pub mod Framing
pub mod Utf8
pub mod ThreadPool
pub mod Terminal
pub mod Bus
pub mod Distance
pub mod Patch
pub mod Compacter
pub mod SessionNames
pub mod ContextFiles
pub mod Executioner
pub mod StringUtils
pub mod Conversations
mod Tests
