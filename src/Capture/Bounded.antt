-- ===== src/Capture/Bounded.antt =====
-- The memory that a capture of internal/cmdoutput/cmdoutput.go takes.
use Prim.Native.Nat.{min}
use lightcode.Prelude.{
  ℕ, ◌+◌, ◌-◌, ◌<◌, ◌≡◌, refl, false, ◌||◌, List, [], ◌∷◌, Text, leb, length, take, drop, arith,
  if_cases, ap, ◌∙◌, length-append, length-take,
}
use lightcode.Capture.{
  Capture, new_capture, Which, to_stdout, to_stderr, Disk, write_spill, room, buffer, write, Chunk,
  write_all, written,
}

-- After `n` bytes with the bound `m`, the memory has them all up to the bound.
abbrev pub IsBounded : ℕ → ℕ → Capture → Type 0
IsBounded m n c =
    (length c.stdout.buf + length c.stderr.buf ≡ min m n)
    × (c.total_bytes ≡ n)
    × (c.max_bytes ≡ m)
    × (c.closed ≡ false)

-- A spill leaves the memory as it is.
abbrev KeepsMemory : Capture → Capture → Type 0
KeepsMemory c c' =
    (c'.stdout.buf ≡ c.stdout.buf)
    × (c'.stderr.buf ≡ c.stderr.buf)
    × (c'.total_bytes ≡ c.total_bytes)
    × (c'.max_bytes ≡ c.max_bytes)
    × (c'.closed ≡ c.closed)

write_spill-KeepsMemory :
    (which : Which) (p : Text) (disk : Disk) (c : Capture)
    → KeepsMemory c (write_spill which p disk c)
unfolding write_spill
write_spill-KeepsMemory to_stdout p disk c = ground arith
write_spill-KeepsMemory to_stderr p disk c = ground arith

IsBounded-KeepsMemory :
    (m n : ℕ) (c c' : Capture) → KeepsMemory c c' → IsBounded m n c → IsBounded m n c'
IsBounded-KeepsMemory m n c c' k h =
    (omega (arith, ap length k.0, ap length k.1, h.0), k.2 ∙ h.1, k.3 ∙ h.2, k.4 ∙ h.3)

IsBounded-at : (m n k : ℕ) (c : Capture) → n ≡ k → IsBounded m n c → IsBounded m k c
IsBounded-at m n k c e h = (omega (arith, h.0, e), h.1 ∙ e, h.2, h.3)

module _ (m : ℕ) (is_positive : 0 < m) where
  buffer-IsBounded :
      (n : ℕ) (which : Which) (p : Text) (c : Capture)
      → IsBounded m n c
      → IsBounded m (n + length p) (buffer which p c)
  unfolding buffer room
  buffer-IsBounded n to_stdout p c h =
      let k = min (c.max_bytes - c.total_bytes) (length p) in
      ground (arith, h.0, h.1, h.2, length-append c.stdout.buf (take k p), length-take k p)
  buffer-IsBounded n to_stderr p c h =
      let k = min (c.max_bytes - c.total_bytes) (length p) in
      ground (arith, h.0, h.1, h.2, length-append c.stderr.buf (take k p), length-take k p)

  write-IsBounded :
      (n : ℕ) (which : Which) (p : Text) (disk : Disk) (c : Capture)
      → IsBounded m n c
      → IsBounded m (n + length p) (write which p disk c)
  unfolding write
  write-IsBounded n which [] disk c h = ground arith
  write-IsBounded n which (a ∷ s) disk c h =
      let p = a ∷ s in
      let b = buffer-IsBounded n which p c h in
      let spilt = write_spill which (drop (room p c) p) disk (buffer which p c) in
      if_cases (IsBounded m (n + length p)) (c.closed || false) c _ (λ e. ground (arith, e, h.3))
        (λ _.
          if_cases (IsBounded m (n + length p)) (leb (length p) (room p c)) (buffer which p c) spilt
            (λ _. b)
            (λ _.
              IsBounded-KeepsMemory m (n + length p) (buffer which p c) spilt
                (write_spill-KeepsMemory which (drop (room p c) p) disk (buffer which p c)) b))

  write_all-IsBounded-from :
      (n : ℕ) (ws : List Chunk) (c : Capture)
      → IsBounded m n c
      → IsBounded m (n + written ws) (write_all ws c)
  unfolding write_all written
  write_all-IsBounded-from n [] c h = ground (arith, h.0)
  write_all-IsBounded-from n (w ∷ ws) c h =
      IsBounded-at m _ (n + (length w.bytes + written ws)) (write_all (w ∷ ws) c) (omega arith) (
        write_all-IsBounded-from (n + length w.bytes) ws (write w.which w.bytes w.disk c)
          (write-IsBounded n w.which w.bytes w.disk c h))

-- Whatever is written with a positive bound, and whatever the disk does: the two buffers together hold as
-- many bytes as were written, up to the bound, and never more than it; the count of the bytes is exact.
pub write_all-IsBounded :
    (max_bytes : ℕ) (ws : List Chunk)
    → 0 < max_bytes
    → IsBounded max_bytes (written ws) (write_all ws (new_capture max_bytes))
write_all-IsBounded max_bytes ws h =
    IsBounded-at max_bytes _ (written ws) (write_all ws (new_capture max_bytes)) (omega arith) (
      write_all-IsBounded-from max_bytes h 0 ws (new_capture max_bytes)
        (omega arith, refl, refl, refl))
