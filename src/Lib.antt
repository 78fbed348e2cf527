-- ===== src/Lib.antt =====
-- A model of the parts of Lightcode, a coding agent in Go, that keep its state and read its input.
-- Sessions are kept by a storage, of which internal/storage/memory.go is the implementation in
-- memory; the commands that an agent leaves running are kept by the job manager of internal/jobs;
-- a patch that a model proposes is read, and located in its files, by the tool apply_patch; the terminal
-- client turns bytes into keys, keys into an edited line, and lines into a history; a policy of
-- permissions decides what a tool may do; a release is known by its tag; and the agent asks a model for a
-- response, assembles its stream, and dispatches the tool calls in it, with retries of the physical request
-- by the harness.
--
-- Storage models harness/storage.go and internal/storage/memory.go. A State is `memoryState`: the
-- entries of each session in a map of lists, and the registers in a map by key. Storage/Validate
-- has the validate functions, Storage/State the lookups, Storage/Read and Storage/Write the reads
-- and mutations under the names of the code in this library's spelling (`insertEntry` is
-- insert_entry), Storage/Txn `memoryTxn` with its guard and latch, and Storage/Memory `Memory`: the
-- callback of `Transact` is a tree of calls, each followed by what the callback does with the
-- reply, so it may branch on it, fail or panic. Whether a payload is JSON (`json.Valid`), what a
-- context's Err() returns at each point, and the time of a commit are arguments. The copies that
-- the code makes of payloads are the payloads themselves. Storage/Outcome, Storage/Invariant and
-- the modules after it hold the proofs.
--
-- Jobs models internal/jobs/jobs.go. A record is reached through a pointer, its index in a list
-- that only grows, since the map may hold another record under the same identity. Jobs/Records has
-- what a section does to one record, Jobs/Sections the sections under the manager's mutex: Reserve,
-- Abort, Start, Kill's lookup and its claim, StopJob, the steps of `exitLoop`, the timer's claim
-- and the two sections of Close. The place of an exit goroutine is kept in its record, with the two
-- variables of its own that it passes to the callback. The admission of a callback and its invocation,
-- which is outside of the mutex, are two events. A list
-- of events is an interleaving of callers, goroutines, timers and Close; an event of a goroutine
-- that does not stand there changes nothing, so the events that the scheduler can produce are among
-- all lists. Start is one event, as the code holds the mutex through it; whether the process could
-- be spawned, what it returned and what settings decode to come with the event. Signals, the
-- output of a job and the texts of Read and List are not modelled, and the work group is taken
-- to be empty when every exit goroutine is over.
--
-- Terminal models internal/terminal/input.go: Terminal/Keys ParseInputBytes, Terminal/Line
-- InputLine, Terminal/History InputHistory (an index out of range is the reply `panics`), and
-- Terminal/Completion the completion of commands. Terminal/Zipper describes a line by the runes on
-- the two sides of its cursor.
--
-- Patch models internal/tool/apply_patch_parse.go and apply_patch_match.go. Patch/Parse is parsePatch:
-- its loops over the sections and over the hunks of a file run on fuel, one for each line that is
-- left, which is enough since each round takes a line; running out would be an error of its own.
-- Patch itself is the search: the four
-- levels of a match, the search for an anchor, and the search for the lines of a hunk with its
-- second attempt at the end of the file. The loops over places run for the number of places that
-- are left, which the code computes before them. A text is the list of its runes, so the model is
-- of texts in UTF-8; cursors are not negative, as none that reaches the search is.
--
-- Permission models harness/permission.go: the compilation and the matching of globs, the levels of
-- a policy, the built-in rules with `filepath.Base` and `filepath.Rel` on canonical absolute paths,
-- as the tools give them, and the chain that decides a request (Permission/Builtin).
-- Permission/Parse has the blocks of
-- the configuration; what encoding/json reads in one is given. An expression is the list of
-- the pieces that compileGlob writes, its flag and its anchors included; package regexp on these pieces, with
-- a search from every place of the text, is match_string. Permission/Pattern describes the patterns without it.
--
-- Model models the values of model/: messages, tool calls, outputs, stream deltas, their validators, the
-- accumulator of extra fields (Model/Extra), and the text form of an identity (Model/Ref). What the code
-- uses of encoding/json is the record Json, an instance argument, with the law that what it writes is valid.
-- An error is its sentinel. The deep copies of the constructors are the values themselves.
--
-- Agent models agent/. Agent/State is `assemblyState`; Agent/Correlate is tool_corr.go, Agent/Content
-- content_acc.go, Agent/Finalize finalize.go and message_build.go, and Agent/Assemble assembly.go: a stream is
-- the list of what Recv gives, with the way it ends. The scan for a free slot runs on fuel, one more than
-- there are slots, which is enough since each step passes a claimed slot. Agent/Settle is settlement.go.
-- Agent/Run is run.go: the context and the caller's functions act on a world, which is a type parameter; a
-- model effect is a tree of its calls of the assembly callback, so it may call it more than once, look at
-- the reply, and settle as it likes. A panic of the code is an end of its own. The loop runs on fuel, one for
-- each round; a caller may keep it going for ever. Agent/Adapter is adapter.go.
-- The modules beside these hold the proofs.
--
-- Harness models harness/attempt.go and the standard retry policy of harness/effect.go, with the physical
-- callback, the closing of a stream and the backoff acting on a world. Its loop runs on fuel, one for each
-- attempt.
--
-- Capture models internal/cmdoutput/cmdoutput.go: Capture itself has the writes to the two streams of a
-- command, kept in memory up to a bound and behind it in spill files, Capture/Preview the preview of an output,
-- and Capture/Whole what Format returns. What the file system does with a write (whether a file opens, how
-- many bytes it takes, whether it reports an error) comes with the write. A spill file is its bytes; the names,
-- the copying and the removal of files are not modelled, and neither is the cached result of Format. How Go
-- reads bytes as code points is a parameter. Capture/Lines describes an output by its lines.
--
-- Usage models harness/usage.go: token counts per model, integers of 64 bits whose sums are checked,
-- and the merge of two totals into a sorted list without a model twice.
--
-- Version models internal/version/version.go: tags, their order, and the identity of a build, whose
-- stamped version and commit are arguments.
--
-- Prelude has the shared names: texts as lists of code points, maps as association lists with their
-- laws, lists measured by native numbers, and signed integers of 64 bits, whose bounds the storage
-- tests before it counts on.
--
-- Not modelled: the storage over SQLite, the session engine of harness, the HTTP transport of model, the clients,
-- the other tools and the application of patches to files.
pub mod Prelude
pub mod Storage
pub mod Terminal
pub mod Jobs
pub mod Model
pub mod Agent
pub mod Harness
pub mod Capture
pub mod Patch
pub mod Version
pub mod Permission
pub mod Usage
