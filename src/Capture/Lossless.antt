-- ===== src/Capture/Lossless.antt =====
-- What a capture of internal/cmdoutput/cmdoutput.go keeps: no byte is lost between memory and the disk.
use mathlib.Core.List.{append_assoc, append-nil}
use lightcode.Prelude.{
  ℕ, ◌≤◌, ◌≡◌, refl, ◌⊎◌, inl, inr, false, ◌||◌, List, [], ◌∷◌, ◌++◌, Text, leb, length, take, drop,
  arith, if_cases, ap, sym, ◌∙◌, take-append-drop, length-drop, take_over, drop_over,
}
use lightcode.Capture.{
  contents, Capture, new_capture, Which, to_stdout, to_stderr, Disk, stream_of, write_spill, room,
  buffer, write, Chunk, write_all, sent, bytes_to, pick,
}

-- A write that takes fewer bytes than it was given reports an error.
abbrev pub IsHonest : Text → Disk → Type 0
IsHonest p disk = disk.fails ≡ false → length p ≤ disk.takes

-- Bytes go to memory only as long as nothing of the stream is on the disk.
append-cut :
    (k : ℕ) (buf spilled p : Text)
    → (k ≡ 0) ⊎ (spilled ≡ [])
    → (buf ++ take k p) ++ (spilled ++ drop k p) ≡ (buf ++ spilled) ++ p
append-cut k buf spilled p (inl e) = rw (e, append-nil buf) (sym (append_assoc buf spilled p))
append-cut k buf spilled p (inr e) =
    rw (e, append-nil buf, append_assoc buf (take k p) (drop k p), take-append-drop k p) refl

abbrev other : Which → Which
other to_stdout = to_stderr
other to_stderr = to_stdout

-- With nothing failed, a write has put all of `q` behind what the stream had on the disk.
abbrev Spills : Which → Text → Capture → Capture → Type 0
Spills which q c c' =
    (c.has_failed ≡ false)
    × ((stream_of which c').buf ≡ (stream_of which c).buf)
    × ((stream_of which c').spilled ≡ (stream_of which c).spilled ++ q)
    × (stream_of (other which) c' ≡ stream_of (other which) c)

-- An honest write that reports no error takes all of it.
IsHonest-take :
    (q : Text) (disk : Disk) → IsHonest q disk → disk.fails ≡ false → take disk.takes q ≡ q
IsHonest-take q disk h e = take_over disk.takes q (h e)

write_spill-Spills :
    (which : Which) (q : Text) (disk : Disk) (c : Capture)
    → IsHonest q disk
    → (write_spill which q disk c).has_failed ≡ false
    → Spills which q c (write_spill which q disk c)
unfolding write_spill
write_spill-Spills to_stdout q disk c h e = ground (arith, IsHonest-take q disk h)
write_spill-Spills to_stderr q disk c h e = ground (arith, IsHonest-take q disk h)

abbrev Buffers : Which → Text → Capture → Capture → Type 0
Buffers which p c c' =
    ((stream_of which c').buf ≡ (stream_of which c).buf ++ take (room p c) p)
    × ((stream_of which c').spilled ≡ (stream_of which c).spilled)
    × (stream_of (other which) c' ≡ stream_of (other which) c)
    × (c'.has_failed ≡ c.has_failed)

buffer-Buffers : (which : Which) (p : Text) (c : Capture) → Buffers which p c (buffer which p c)
unfolding buffer
buffer-Buffers to_stdout p c = (refl, refl, refl, refl)
buffer-Buffers to_stderr p c = (refl, refl, refl, refl)

-- The stream has the bytes, the other stream is as it was, and nothing had failed.
abbrev Written : Which → Text → Capture → Capture → Type 0
Written which p c c' =
    (c.has_failed ≡ false)
    × (contents (stream_of which c') ≡ contents (stream_of which c) ++ p)
    × (stream_of (other which) c' ≡ stream_of (other which) c)

write-Written :
    (which : Which) (p : Text) (disk : Disk) (c : Capture)
    → c.closed ≡ false
    → IsHonest p disk
    → (room p c ≡ 0) ⊎ ((stream_of which c).spilled ≡ [])
    → (write which p disk c).has_failed ≡ false
    → Written which p c (write which p disk c)
unfolding write
write-Written which [] disk c is_open honest free ok = (
  ground (arith, is_open),
  ground (arith, is_open, append-nil (contents (stream_of which c))),
  ground (arith, is_open),
)
write-Written which (a ∷ s) disk c is_open honest free ok =
    let p = a ∷ s in
    let cut = append-cut (room p c) (stream_of which c).buf (stream_of which c).spilled p free in
    let b = buffer-Buffers which p c in
    let spilt = write_spill which (drop (room p c) p) disk (buffer which p c) in
    if_cases (λ c'. c'.has_failed ≡ false → Written which p c c') (c.closed || false) c _
      (λ e _. ground (arith, e, is_open))
      (λ _.
        if_cases (λ c'. c'.has_failed ≡ false → Written which p c c') (leb (length p) (room p c))
          (buffer which p c) spilt
          (λ fits ok'. (
            sym b.3 ∙ ok',
            cc (
              b.0,
              b.1,
              cut,
              append-nil (stream_of which c).spilled,
              drop_over (room p c) p (ground (arith, fits)),
            ),
            b.2,
          ))
          (λ _ ok'.
            let t =
              write_spill-Spills which (drop (room p c) p) disk (buffer which p c)
                (λ e. omega (arith, honest e, length-drop (room p c) p)) ok' in
            (sym b.3 ∙ t.0, cc (b.0, b.1, cut, t.1, t.2), t.3 ∙ b.2)))
      ok

-- While the bound is not passed, nothing goes to the disk.
abbrev pub Fits : Capture → Type 0
Fits c = (c.max_bytes ≡ 0) ⊎ (c.total_bytes ≤ c.max_bytes)

write-Fits :
    (which : Which) (p : Text) (disk : Disk) (c : Capture)
    → Fits (write which p disk c)
    → Fits c
      × ((write which p disk c).stdout.spilled ≡ c.stdout.spilled)
      × ((write which p disk c).stderr.spilled ≡ c.stderr.spilled)
unfolding write buffer room write_spill
write-Fits to_stdout p disk c h = ground arith
write-Fits to_stderr p disk c h = ground arith

-- What is left to fit is nothing once the bound is passed.
room-Fits : (p : Text) (c : Capture) → (room p c ≡ 0) ⊎ Fits c
unfolding room
room-Fits p c = ground arith

room_or_empty : (p s : Text) (c : Capture) → (Fits c → s ≡ []) → (room p c ≡ 0) ⊎ (s ≡ [])
room_or_empty p s c f = elim (room-Fits p c) [ inl e ↦ inl e | inr r ↦ inr (f r) ]

write_closed :
    (which : Which) (p : Text) (disk : Disk) (c : Capture)
    → (write which p disk c).closed ≡ c.closed
unfolding write buffer write_spill
write_closed to_stdout p disk c = ground arith
write_closed to_stderr p disk c = ground arith

-- With nothing failed, the two streams have `out` and `err`.
abbrev pub IsLossless : Text → Text → Capture → Type 0
IsLossless out err c =
    (c.closed ≡ false)
    × (c.has_failed ≡ false → (contents c.stdout ≡ out) × (contents c.stderr ≡ err))
    × (Fits c → (c.stdout.spilled ≡ []) × (c.stderr.spilled ≡ []))

IsLossless-write :
    (out err : Text) (which : Which) (p : Text) (disk : Disk) (c : Capture)
    → IsHonest p disk
    → IsLossless out err c
    → IsLossless (out ++ pick which p []) (err ++ pick which [] p) (write which p disk c)
IsLossless-write out err to_stdout p disk c honest h = (
  write_closed to_stdout p disk c ∙ h.0,
  (λ ok.
      let free = room_or_empty p c.stdout.spilled c (λ r. (h.2 r).0) in
      let w = write-Written to_stdout p disk c h.0 honest free ok in
      (w.1 ∙ ap (λ t. t ++ p) (h.1 w.0).0, ap contents w.2 ∙ (h.1 w.0).1 ∙ sym (append-nil err))),
  (λ r. let k = write-Fits to_stdout p disk c r in (k.1 ∙ (h.2 k.0).0, k.2 ∙ (h.2 k.0).1)),
)
IsLossless-write out err to_stderr p disk c honest h = (
  write_closed to_stderr p disk c ∙ h.0,
  (λ ok.
      let free = room_or_empty p c.stderr.spilled c (λ r. (h.2 r).1) in
      let w = write-Written to_stderr p disk c h.0 honest free ok in
      (ap contents w.2 ∙ (h.1 w.0).0 ∙ sym (append-nil out), w.1 ∙ ap (λ t. t ++ p) (h.1 w.0).1)),
  (λ r. let k = write-Fits to_stderr p disk c r in (k.1 ∙ (h.2 k.0).0, k.2 ∙ (h.2 k.0).1)),
)

abbrev pub AllHonest : List Chunk → Type 0
AllHonest [] = Unit
AllHonest (w ∷ ws) = IsHonest w.bytes w.disk × AllHonest ws

IsLossless-write_all :
    (out err : Text) (ws : List Chunk) (c : Capture)
    → AllHonest ws
    → IsLossless out err c
    → IsLossless (out ++ sent to_stdout ws) (err ++ sent to_stderr ws) (write_all ws c)
unfolding write_all sent
IsLossless-write_all out err [] c hs h = rw (append-nil out, append-nil err) h
IsLossless-write_all out err (w ∷ ws) c hs h =
    rw
      (
        ← append_assoc out (bytes_to to_stdout w) (sent to_stdout ws),
        ← append_assoc err (bytes_to to_stderr w) (sent to_stderr ws),
      )
      (IsLossless-write_all (out ++ bytes_to to_stdout w) (err ++ bytes_to to_stderr w) ws
        (write w.which w.bytes w.disk c) hs.1
        (IsLossless-write out err w.which w.bytes w.disk c hs.0 h))

-- A new capture has lost nothing, and so has what is written to it.
pub new_capture-IsLossless :
    (max_bytes : ℕ) (ws : List Chunk)
    → AllHonest ws
    → IsLossless (sent to_stdout ws) (sent to_stderr ws) (write_all ws (new_capture max_bytes))
new_capture-IsLossless max_bytes ws hs =
    IsLossless-write_all [] [] ws (new_capture max_bytes) hs
      (refl, (λ _. (refl, refl)), (λ _. (refl, refl)))

-- Where every short write reports an error and none was reported: each stream has, in memory and then in its
-- spill file, exactly the bytes that were written to it, in their order.
pub write_all-contents :
    (max_bytes : ℕ) (ws : List Chunk)
    → AllHonest ws
    → (write_all ws (new_capture max_bytes)).has_failed ≡ false
    → (contents (write_all ws (new_capture max_bytes)).stdout ≡ sent to_stdout ws)
      × (contents (write_all ws (new_capture max_bytes)).stderr ≡ sent to_stderr ws)
write_all-contents max_bytes ws hs ok = (new_capture-IsLossless max_bytes ws hs).1 ok
