-- ===== src/Capture/Examples.antt =====
-- Concrete captures of internal/cmdoutput/cmdoutput.go.
use lightcode.Prelude.{◌≡◌, refl, false, true, List, [], ◌∷◌, ◌++◌, Text, codes, arith}
use lightcode.Capture.{
  contents, Disk, Chunk, Which, to_stdout, to_stderr, new_capture, write_all, write_spill, room,
  buffer, write, sent, written, close,
}
use lightcode.Capture.Preview.{
  decimal_on, decimal, format_preview, read, read_rune, finish_line, push_last, join_lines,
  format_lines,
}
use lightcode.Capture.Lines.{lines_of}
use lightcode.Capture.Bounded.{IsBounded, write_all-IsBounded}
use lightcode.Capture.Lossless.{AllHonest, write_all-contents}
use lightcode.Capture.Whole.{saved_to, marker_of, format_output, format_output-sent}

abbrev good_disk : Disk
good_disk = record { opens = true; takes = 100; fails = false }

abbrev full_disk : Disk
full_disk = record { opens = true; takes = 1; fails = true }

abbrev chunk : Which → Text → Chunk
chunk which bytes = record { which = which; bytes = bytes; disk = good_disk }

abbrev calls : List Chunk
calls =
    chunk to_stdout (codes "ab") ∷ chunk to_stderr (codes "xyz") ∷ chunk to_stdout (codes "cd") ∷ []

abbrev honest_calls : AllHonest calls
honest_calls = ((λ _. omega arith), ((λ _. omega arith), ((λ _. omega arith), tt)))

-- A bound of four bytes: the third byte of the second call and the third call are on the disk.
spilled_out : (write_all calls (new_capture 4)).stdout.spilled ≡ codes "cd"
unfolding write_all write write_spill room buffer
spilled_out = refl

spilled_err : (write_all calls (new_capture 4)).stderr.spilled ≡ codes "z"
unfolding write_all write write_spill room buffer
spilled_err = refl

fails_on_full_disk : (write to_stdout (codes "abcd") full_disk (new_capture 2)).has_failed ≡ true
unfolding write write_spill room buffer
fails_on_full_disk = refl

closed_capture : (write to_stdout (codes "ab") good_disk (close (new_capture 4))).total_bytes ≡ 0
unfolding write close
closed_capture = refl

decimal_205 : decimal 205 ≡ codes "205"
unfolding decimal_on
decimal_205 = refl

short_preview :
    format_preview 3 100 (codes "abcd" ++ 10 ∷ codes "ef") (codes "!")
    ≡ codes "abc... [truncated 4 chars]" ++ 10 ∷ codes "ef" ++ 10 ∷ codes "!"
unfolding read read_rune finish_line push_last format_lines join_lines decimal_on
short_preview = refl

marked :
    marker_of [] (saved_to (codes "/t")) (write_all calls (new_capture 4))
    ≡ codes "[Output truncated. Full output (7 bytes) saved to: /t]"
unfolding marker_of write_all write write_spill room buffer decimal_on
marked = refl

not_failed : (write_all calls (new_capture 4)).has_failed ≡ false
unfolding write_all write write_spill room buffer
not_failed = refl

write_all-IsBounded_example : IsBounded 4 (written calls) (write_all calls (new_capture 4))
write_all-IsBounded_example = write_all-IsBounded 4 calls (omega arith)

write_all-contents_example :
    (contents (write_all calls (new_capture 4)).stdout ≡ sent to_stdout calls)
    × (contents (write_all calls (new_capture 4)).stderr ≡ sent to_stderr calls)
write_all-contents_example = write_all-contents 4 calls honest_calls not_failed

format_output-sent_example :
    format_output (λ bytes. bytes) 80 (codes "!") (write_all calls (new_capture 4))
    ≡ codes "abcdxyz" ++ 10 ∷ codes "!"
unfolding sent written lines_of join_lines decimal_on
format_output-sent_example =
    format_output-sent (λ bytes. bytes) 80 4 calls (codes "!") (omega arith) honest_calls not_failed
