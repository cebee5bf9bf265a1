-- ===== src/Drivers/Ramdisk/File.antt =====
-- What is read from a file of drivers/ramdisk.c after it was written.
use avros.Base.{
  ℕ, zero, suc, ◌+◌, ◌%◌, ◌<◌, ◌≤◌, ◌≡◌, refl, ap, ◌∙◌, arith, true, false, ◌&&◌, ◌||◌, Option,
  none, some, List, [], ◌∷◌, length, get_or, ltb, leb, if◌then◌else◌, update, update-same,
  update-other, Bool-cases, inl, inr,
}
use avros.Drivers.Message.{minus_one}
use avros.Drivers.Ramdisk.{MfNode, past_end, char_int, mf_write, mf_read}

-- The node that a write leaves.
abbrev node_after : Option (ℕ × ℕ × MfNode) → MfNode → MfNode
node_after none n = n
node_after (some r) n = r.2

-- Writes one after the other from `pos` on, each at the place after the one before.
unfoldable pub write_all : ℕ → List ℕ → MfNode → MfNode
write_all pos [] n = n
write_all pos (d ∷ ds) n = write_all (pos + 1) ds (node_after (mf_write pos d n) n)

written :
    (pos d : ℕ) (n : MfNode)
    → pos < 127
    → mf_write pos d n
      ≡ some (d, 1, record n { file = update n.file pos (d % 256); size = pos + 1 })
unfolding mf_write
written pos d n h =
    let e : past_end pos ≡ false = ground arith in
    let l : ltb pos 127 ≡ true = ground arith in rw e (rw l refl)

abbrev grown : ℕ → ℕ → MfNode → MfNode
grown pos d n = record n { file = update n.file pos (d % 256); size = pos + 1 }

write_step :
    (pos d : ℕ) (ds : List ℕ) (n : MfNode)
    → pos < 127
    → write_all pos (d ∷ ds) n ≡ write_all (pos + 1) ds (grown pos d n)
unfolding write_all
write_step pos d ds n h = ap (λ r. write_all (pos + 1) ds (node_after r n)) (written pos d n h)

-- The bytes before the first write stay.
write_before :
    (pos : ℕ) (ds : List ℕ) (n : MfNode) (i : ℕ)
    → pos + length ds ≤ 127
    → i < pos
    → (write_all pos ds n).file i ≡ n.file i
unfolding write_all
write_before pos [] n i h l = refl
write_before pos (d ∷ ds) n i h l =
    ap (λ m. m.file i) (write_step pos d ds n (omega arith))
    ∙ write_before (pos + 1) ds (grown pos d n) i (omega arith) (omega arith)
    ∙ update-other n.file pos i (d % 256) (ground arith)

write_inside :
    (pos : ℕ) (ds : List ℕ) (n : MfNode) (i : ℕ)
    → pos + length ds ≤ 127
    → i < length ds
    → (write_all pos ds n).file (pos + i) ≡ get_or ds i 0 % 256
unfolding write_all
write_inside pos [] n i h l = absurd (omega arith)
write_inside pos (d ∷ ds) n zero h l =
    ap (λ m. m.file (pos + 0)) (write_step pos d ds n (omega arith))
    ∙ write_before (pos + 1) ds (grown pos d n) (pos + 0) (omega arith) (omega arith)
    ∙ ap (update n.file pos (d % 256)) (omega arith)
    ∙ update-same n.file pos (d % 256)
write_inside pos (d ∷ ds) n (suc i) h l =
    ap (λ m. m.file (pos + suc i)) (write_step pos d ds n (omega arith))
    ∙ ap (write_all (pos + 1) ds (grown pos d n)).file (omega arith)
    ∙ write_inside (pos + 1) ds (grown pos d n) i (omega arith) (omega arith)

write_size :
    (pos : ℕ) (d : ℕ) (ds : List ℕ) (n : MfNode)
    → pos + suc (length ds) ≤ 127
    → (write_all pos (d ∷ ds) n).size ≡ pos + suc (length ds)
unfolding write_all
write_size pos d [] n h = ap (λ m. m.size) (write_step pos d [] n (omega arith))
write_size pos d (x ∷ xs) n h =
    ap (λ m. m.size) (write_step pos d (x ∷ xs) n (omega arith))
    ∙ write_size (pos + 1) x xs (grown pos d n) (omega arith)
    ∙ omega arith

-- What is written to a file from its start, of one to 127 data, is read again at each place as
-- the low byte of the datum, as a signed character; a read at the place after the last datum, or
-- further on, answers the end of the file.
pub mf_read-write_all :
    (d : ℕ) (ds : List ℕ) (n : MfNode) (i x : ℕ)
    → suc (length ds) ≤ 127
    → i < 32768
    → mf_read i x (write_all 0 (d ∷ ds) n)
      ≡ some (
          if ltb i (suc (length ds))
          then (char_int (get_or (d ∷ ds) i 0 % 256), 1)
          else (minus_one, 0))
unfolding mf_read
mf_read-write_all d ds n i x h b =
    let s : (write_all 0 (d ∷ ds) n).size ≡ suc (length ds) =
      write_size 0 d ds n (omega arith) ∙ omega arith in
    elim (Bool-cases (ltb i (suc (length ds)))) [
      | inl l ↦
          let f : (write_all 0 (d ∷ ds) n).file i ≡ get_or (d ∷ ds) i 0 % 256 =
            ap (write_all 0 (d ∷ ds) n).file (omega arith)
            ∙ write_inside 0 (d ∷ ds) n i (omega arith) (ground arith) in
          let p : (past_end i || (ltb i 32768 && leb (write_all 0 (d ∷ ds) n).size i)) ≡ false =
            ground (arith, s) in
          let q : ltb i 127 ≡ true = ground arith in
          rw p (rw q (rw l (ap (λ v. some (char_int v, 1)) f)))
      | inr l ↦
          let p : (past_end i || (ltb i 32768 && leb (write_all 0 (d ∷ ds) n).size i)) ≡ true =
            ground (arith, s) in
          rw p (rw l refl)
    ]
