-- ===== src/Capture/Whole.antt =====
-- Format of internal/cmdoutput/cmdoutput.go over all that a command wrote.
use lightcode.Prelude.{
  ℕ, ◌<◌, ◌≡◌, inl, inr, false, ◌||◌, List, [], ◌++◌, map, Text, codes, if◌then◌else◌, leb, ◌==◌,
  arith, Bool-cases, ap,
}
use mathlib.Core.List.{append-nil}
use lightcode.Capture.{
  contents, Capture, Chunk, to_stdout, to_stderr, new_capture, write_all, sent, written,
}
use lightcode.Capture.Preview.{decimal, join_lines, format_preview}
use lightcode.Capture.Lines.{lines_of, shown, summary}
use lightcode.Capture.Shown.{format_preview-summary}
use lightcode.Capture.Lossless.{AllHonest, new_capture-IsLossless}
use lightcode.Capture.Bounded.{write_all-IsBounded}

-- How the writing of the visible file ended
pub data Visible : Type 0 where
  saved_to : Text → Visible
  not_saved : Text → Visible

abbrev pub lead : ℕ → Text
lead total = codes "[Output truncated. Full output (" ++ decimal total ++ codes " bytes) "

abbrev pub unsaved : ℕ → Text → Text
unsaved total reason = lead total ++ codes "could not be saved: " ++ reason ++ codes "]"

-- `first_error` is what the first error says, where there was one.
unfoldable pub marker_of : Text → Visible → Capture → Text
marker_of first_error (not_saved reason) c =
    unsaved c.total_bytes (if c.has_failed then first_error else reason)
marker_of first_error (saved_to path) c =
    if c.has_failed
    then unsaved c.total_bytes first_error
    else lead c.total_bytes ++ codes "saved to: " ++ path ++ codes "]"

-- `decode` is how Go reads bytes as code points, and the result is code points.
unfoldable pub format_output : (Text → Text) → ℕ → Text → Capture → Text
format_output decode max_line_chars marker c =
    if c.max_bytes == 0 || leb c.total_bytes c.max_bytes
    then decode (c.stdout.buf ++ c.stderr.buf)
    else format_preview max_line_chars c.max_bytes (decode (contents c.stdout ++ contents c.stderr))
        marker

-- Streams with nothing on the disk have in memory what they have.
both_in_memory :
    (c : Capture) {out err : Text}
    → c.stdout.spilled ≡ []
    → c.stderr.spilled ≡ []
    → contents c.stdout ≡ out
    → contents c.stderr ≡ err
    → c.stdout.buf ++ c.stderr.buf ≡ out ++ err
both_in_memory c f g h k = cc (f, g, h, k, append-nil c.stdout.buf, append-nil c.stderr.buf)

-- With a positive bound, where every short write reports an error and none was reported: an output within the
-- bound is shown whole, and of a longer one, all that was written is what the preview is of.
pub format_output-sent :
    (decode : Text → Text) (max_line_chars max_bytes : ℕ) (ws : List Chunk) (marker : Text)
    → 0 < max_bytes
    → AllHonest ws
    → (write_all ws (new_capture max_bytes)).has_failed ≡ false
    → format_output decode max_line_chars marker (write_all ws (new_capture max_bytes)) ≡ (
        if leb (written ws) max_bytes
        then decode (sent to_stdout ws ++ sent to_stderr ws)
        else join_lines (
            summary
              (map
                (shown (if max_line_chars == 0 then max_bytes else max_line_chars))
                (lines_of (decode (sent to_stdout ws ++ sent to_stderr ws))))
              marker))
unfolding format_output
format_output-sent decode max_line_chars max_bytes ws marker h hs ok =
    let c = write_all ws (new_capture max_bytes) in
    let b = write_all-IsBounded max_bytes ws h in
    let l = new_capture-IsLossless max_bytes ws hs in
    let all = l.1 ok in
    elim (Bool-cases (leb (written ws) max_bytes)) [
      | inl e ↦
          let fits = l.2 (inr (ground (arith, b.1, b.2))) in
          ground (arith, b.1, b.2, ap decode (both_in_memory c fits.0 fits.1 all.0 all.1))
      | inr e ↦ ground (
        arith,
        b.1,
        b.2,
        format_preview-summary max_line_chars max_bytes
            (decode (sent to_stdout ws ++ sent to_stderr ws)) marker,
        all.0,
        all.1,
      )
    ]
