-- ===== src/Lib.antt =====
-- VexCoder, an interactive coding assistant for the terminal, in Rust: a model of state machines
-- of its core, each translated from the source by hand.
--
-- The program reads a prompt from an editor in the terminal, sends the conversation to a model over
-- a stream of server-sent events, and runs the tools that the model calls, as far as the approval
-- policy lets it. The parts that the modules here model, with their files in the repository:
--
--   Editor        src/ui/editor/mod.rs (InputEditor): the buffer and cursor, submission, the walk
--                 through earlier prompts, undo and redo, and apply_input for keys and pastes.
--                 State is InputState and EditorRollup, Edit and Recall are the operations,
--                 Keys is the dispatch.
--   Layout        src/ui/input_metrics.rs, src/ui/editor/mod.rs (move_cursor_visual_*): the text
--                 in rows of the terminal. Wrap makes the lines that are drawn, Rows the byte
--                 spans of the rows and the place of the cursor, Moves are the moves by rows.
--   Sse           src/api/stream.rs, src/api/stream/sse_framing.rs (StreamParser::process): chunks
--                 of bytes come in, frames are cut off the buffer, and the payload of each goes to
--                 the adapter of a provider. Bytes, Frame and Parser follow the file's functions.
--   Normaliser    src/api/stream/text_normaliser.rs (StreamTextNormaliser): tool calls that a model
--                 writes in tags into its text are taken out of it, over a pending text. Loop is
--                 the loop of a call, whose rounds are Round; Json reads one call.
--   Accumulator   src/runtime/delta_accumulator.rs (DeltaAccumulator): the arguments of a tool call
--                 arrive in pieces of that stream and are put together here, within bounds.
--   History       src/state/conversation/history.rs, crates/vexcoder-api-types/src/lib.rs,
--                 src/config.rs (CompactionConfig): the messages that go to the model, and how
--                 tool results are condensed and old turns pruned or summarised.
--   Approval      src/runtime/approval.rs (FileApprovalPolicy): what a capability needs before a
--                 tool that uses it may run.
--   EditLoop      src/runtime/edit_loop.rs, src/runtime/validation.rs: a bounded loop of a model's
--                 turn and the commands that validate what it did.
--   Config        src/config.rs, src/config/load/mod.rs (load_layers), src/config/load/merge.rs:
--                 the layers of the configuration, what may stand in which, and their merging.
--   ContextCache  src/runtime/context_cache.rs (read_cached_file): files read for the context.
--   Ledger        src/tools/pulse_ledger.rs: the reads of a pulse, told by the version of the file.
--   HeaderCache   src/runtime/task_state/header_cache.rs (cached_task_header): headers of tasks.
--   PrefixCache   src/runtime/multiplex_prefix.rs (MultiplexPrefixManager): prompt prefixes that
--                 agents share.
--   JoinIndex     src/runtime/task_state/join_index.rs (JoinIndex): the results that agents hand
--                 over, of which a later one may supersede earlier ones.
--   Team          src/app/subtask_orchestrator/mod.rs, src/runtime/session_task.rs: the tasks of a
--                 team of agents, which Team posts to the JoinIndex as they end.
--   Channel       src/runtime/task_state/peer_channel.rs, src/app/task_facade/peer.rs: the messages
--                 that agents of a team send each other, signed from the tasks of Team.
--   Index         src/tools/index.rs: the items in the sources of a workspace. Extract goes through
--                 a syntax tree, Build builds the index and updates it for a changed file.
--   WorkingSet    src/runtime/task_state/working_set.rs: what a task hands on
--                 from prompt to prompt.
--   Scroll        src/app/scroll.rs, src/runtime/frontend.rs (ScrollAction): the scroll offsets.
--   Usage         src/usage.rs: the tokens of a pulse and of a session.
--
-- Prelude, Lines and Slices are what these share: text, lists and maps over the native numbers.
--
-- How the source is read. A `String` is the list of its code points, with the UTF-8 length of
-- each, so byte offsets, slices off a character boundary and their panics are as in Rust; a
-- chunk of the stream is a list of bytes. A `HashMap` is a list of entries in one fixed order,
-- which stands for the order that the hash makes, and a `BTreeMap` one that is read in the order
-- of its keys. A `&mut self` operation takes the state and returns the next one. A panic or an
-- error is `none`, or the error value of the source. `u64` and `usize` counters are numbers with
-- the saturation or the wrap-around at 2 ^ 64 that the source has written out; lengths of what
-- is in memory are taken to fit. An `Instant` is a number that the caller hands in.
--
-- A clock, a file system, a provider's adapter, JSON, UTF-8 and the model itself are not code of
-- these files: what they answer comes in as an argument or as a record of functions (Decoder in
-- Sse, Json in Normaliser, Codec in Channel, World in EditLoop, Paths and Files in Index). So do
-- the widths of characters (Unicode in Layout), the syntax trees of sources (parse in Index) and
-- the settings that a layer of the configuration only hands on (Carried in Config). The walk over
-- the files of a workspace (src/tools/operator/core.rs) is not modelled: Index takes what it finds,
-- and asks the ignore rules (src/tools/workspace_ignore.rs, a call of a library) apart from it.
-- A lock that is held for one half of a call makes this half one step; no step of another thread
-- comes between two steps of a call here.
--
-- Loops are structural recursion, or recursion on fuel that bounds them: the eviction of a cache
-- has its number of entries, the cutting of frames the length of the buffer, of which each frame
-- takes at least one byte, the normaliser the length of the pending text, of which a round that
-- goes on takes a tag, the decimal digits of a number the number itself, and the edit loop
-- its number of turns, of which it has no more in the source. The bounds of the program stand
-- here as they do there: 65,536 bytes of arguments and 32 deltas for a tool call, 1 MiB of
-- unparsed stream, 64 files and 2 MiB of context, 512 headers, 256 messages of a channel, and at
-- most 12 turns of the edit loop.
--
-- Not modelled: the rendering of the terminal, the network, processes and the sandbox, files and
-- their formats, the server, the search over the index, and the decoding of each
-- provider's payloads. They are input and output, or need libraries whose code is not here.
pub mod Prelude
pub mod Slices
pub mod Editor
pub mod Accumulator
pub mod Lines
pub mod History
pub mod Scroll
pub mod Usage
pub mod WorkingSet
pub mod Approval
pub mod EditLoop
pub mod PrefixCache
pub mod JoinIndex
pub mod HeaderCache
pub mod Channel
pub mod Config
pub mod ContextCache
pub mod Sse
pub mod Index
pub mod Layout
pub mod Ledger
pub mod Normaliser
pub mod Team
