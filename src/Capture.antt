-- ===== src/Capture.antt =====
-- internal/cmdoutput/cmdoutput.go: what a command writes is kept in memory up to a bound, and behind it in
-- spill files. A stream's bytes are numbers, and an option that is not positive is 0.
pub mod Bounded
pub mod Lossless
pub mod Preview
pub mod Lines
pub mod Shown
pub mod Whole
mod Examples
use Prim.Native.Nat.{min}
use lightcode.Prelude.{
  ℕ, ◌+◌, ◌-◌, Bool, true, false, not, ◌&&◌, ◌||◌, List, [], ◌∷◌, ◌++◌, Text, is_empty,
  if◌then◌else◌, leb, ◌==◌, length, take, drop,
}

-- `spilled` is what the spill file holds, and `has_spill` says whether there is one.
pub record StreamState : Type 0 where
  pub buf : Text
  pub spilled : Text
  pub has_spill : Bool

pub record Capture : Type 0 where
  pub max_bytes : ℕ
  pub stdout : StreamState
  pub stderr : StreamState
  pub total_bytes : ℕ
  pub has_failed : Bool
  pub closed : Bool

abbrev pub empty_stream : StreamState
empty_stream = record { buf = []; spilled = []; has_spill = false }

abbrev pub new_capture : ℕ → Capture
new_capture max_bytes = record {
  max_bytes = max_bytes;
  stdout = empty_stream;
  stderr = empty_stream;
  total_bytes = 0;
  has_failed = false;
  closed = false;
}

pub data Which : Type 0 where
  to_stdout to_stderr : Which

-- What the file system does in one write: whether a new spill file could be made, how many bytes it takes,
-- and whether it reports an error.
pub record Disk : Type 0 where
  pub opens : Bool
  pub takes : ℕ
  pub fails : Bool

abbrev pub stream_of : Which → Capture → StreamState
stream_of to_stdout c = c.stdout
stream_of to_stderr c = c.stderr

abbrev pub put_stream : Which → StreamState → Capture → Capture
put_stream to_stdout s c = record c { stdout = s }
put_stream to_stderr s c = record c { stderr = s }

unfoldable pub write_spill : Which → Text → Disk → Capture → Capture
write_spill which p disk c =
    let s = stream_of which c in
    if c.has_failed
    then c
    else if not s.has_spill && not disk.opens
    then record c { has_failed = true }
    else record (put_stream which
        (record s { spilled = s.spilled ++ take disk.takes p; has_spill = true }) c) {
          has_failed = disk.fails;
        }

-- The bytes that still fit into memory
unfoldable pub room : Text → Capture → ℕ
room p c = if c.max_bytes == 0 then length p else min (c.max_bytes - c.total_bytes) (length p)

unfoldable pub buffer : Which → Text → Capture → Capture
buffer which p c =
    let s = stream_of which c in
    put_stream which (record s { buf = s.buf ++ take (room p c) p })
      (record c { total_bytes = c.total_bytes + length p })

unfoldable pub write : Which → Text → Disk → Capture → Capture
unfolding write_spill room buffer
write which p disk c =
    if c.closed || is_empty p
    then c
    else if leb (length p) (room p c)
    then buffer which p c
    else write_spill which (drop (room p c) p) disk (buffer which p c)

-- What is read of a stream, what is in memory first
abbrev pub contents : StreamState → Text
contents s = s.buf ++ s.spilled

-- Close removes the files; no write after it has an effect.
unfoldable pub close : Capture → Capture
close c = record c { closed = true }

-- One call of Write
pub record Chunk : Type 0 where
  pub which : Which
  pub bytes : Text
  pub disk : Disk

unfoldable pub write_all : List Chunk → Capture → Capture
unfolding write
write_all [] c = c
write_all (w ∷ ws) c = write_all ws (write w.which w.bytes w.disk c)

-- How many bytes a row of calls writes
unfoldable pub written : List Chunk → ℕ
written [] = 0
written (w ∷ ws) = length w.bytes + written ws

abbrev pub pick : Which → Text → Text → Text
pick to_stdout out err = out
pick to_stderr out err = err

-- The bytes that a row of calls writes to one stream, in their order
abbrev pub bytes_to : Which → Chunk → Text
bytes_to to_stdout w = pick w.which w.bytes []
bytes_to to_stderr w = pick w.which [] w.bytes

unfoldable pub sent : Which → List Chunk → Text
sent which [] = []
sent which (w ∷ ws) = bytes_to which w ++ sent which ws
