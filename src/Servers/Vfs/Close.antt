-- ===== src/Servers/Vfs/Close.antt =====
-- servers/vfs.c: when a node is released, and `close` against `dup`.
use avros.Base.{
  ℕ, zero, suc, ◌≤◌, ◌<◌, ◌≡◌, refl, fun_ext, true, false, some, List, [], ◌∷◌, arith, ◌==◌,
  if◌then◌else◌, get_elem?, set, length, Bool-cases, inl, inr, ◌>>=◌, subst, ap, sym, ◌∙◌, some_inj,
  none_ne_some, ==→eq,
}
use avros.Kernel.State.{Pid}
use avros.Drivers.Message.{minus_one}
use avros.Servers.Vfs.State.{
  VfsTask, Filp, Vfs, Bus, neg, next_byte, before_byte, with_refs, set_fd, find_empty_fd,
  vfs_findbypid, put_task,
}
use avros.Servers.Vfs.Files.{
  result, client_task, drop_ref, attach, dup_filp, do_dup, release_node, close_last, close_filp,
  do_close,
}
use avros.Servers.Vfs.Refs.Counts.{refs, found_head, found_tail, empty_fd_free, AllTasks-find}
use avros.Servers.Vfs.Refs.Moves.{refs_pos, refs_small}
use avros.Servers.Vfs.Refs.Keeps.{IsCounted, fd_in_table}
use avros.Servers.Vfs.Refs.Removal.{find-put, found_pid, get_elem?-set_same}

get_elem?-lt : (xs : List ℕ) (i v : ℕ) → get_elem? xs i ≡ some v → i < length xs
get_elem?-lt [] i v h = absurd (none_ne_some h)
get_elem?-lt (x ∷ xs) zero v h = omega arith
get_elem?-lt (x ∷ xs) (suc i) v h = omega (arith, get_elem?-lt xs i v h)

-- A reference more and one less.
refs_back :
    (filp : ℕ → Filp) (fp : ℕ)
    → (filp fp).refcnt ≤ 248
    → (p : ℕ) → with_refs before_byte fp (with_refs next_byte fp filp) p ≡ filp p
refs_back filp fp small p = elim (Bool-cases (fp == p)) [
  | inl e ↦
      subst (λ n. with_refs before_byte fp (with_refs next_byte fp filp) n ≡ filp n) (==→eq fp p e)
        (ground arith)
  | inr e ↦ rw e refl
]

put-put :
    (pid : Pid) (t1 t2 : VfsTask) (ts : List VfsTask)
    → t1.pid ≡ pid
    → put_task pid t2 (put_task pid t1 ts) ≡ put_task pid t2 ts
unfolding put_task
put-put pid t1 t2 [] e = refl
put-put pid t1 t2 (u ∷ ts) e = elim (Bool-cases (u.pid == pid)) [
  | inl b ↦ let same : (t1.pid == pid) ≡ true = ground (arith, e) in rw b (rw same refl)
  | inr b ↦ rw b (rw b (ap (λ us. u ∷ us) (put-put pid t1 t2 ts e)))
]

put-same :
    (pid : Pid) (t : VfsTask) (ts : List VfsTask)
    → vfs_findbypid pid ts ≡ some t
    → put_task pid t ts ≡ ts
unfolding put_task
put-same pid t [] h = refl
put-same pid t (u ∷ ts) h = elim (Bool-cases (u.pid == pid)) [
  | inl b ↦ rw b (ap (λ x. x ∷ ts) (sym (found_head pid t u ts b h)))
  | inr b ↦ rw b (ap (λ us. u ∷ us) (put-same pid t ts (found_tail pid t u ts b h)))
]

set-set : (xs : List ℕ) (i v old : ℕ) → get_elem? xs i ≡ some old → set (set xs i v) i old ≡ xs
set-set [] i v old h = refl
set-set (x ∷ xs) zero v old h = ap (λ y. y ∷ xs) (sym (some_inj h))
set-set (x ∷ xs) (suc i) v old h = ap (λ ys. x ∷ ys) (set-set xs i v old h)

module _ {W : Type 0} (bus : Bus W) (fuel : ℕ) (client : Pid) (t : VfsTask) (fp : ℕ)
    (k : Vfs W) where
  -- The state after a descriptor of the task was emptied and its open file has a reference less.
  abbrev pub closed : Vfs W
  closed = drop_ref fp (set_fd client t (set t.fd k.msg.ino minus_one) k)

  do_close-found :
      client_task client k ≡ some t
      → neg k.msg.ino ≡ false
      → get_elem? t.fd k.msg.ino ≡ some fp
      → neg fp ≡ false
      → ((k.filp fp).refcnt == 0) ≡ false
      → do_close bus fuel client k ≡ close_last bus fuel fp closed
  unfolding do_close close_filp
  do_close-found found used g e held = rw (used, found, do_close) (rw g (rw (e, held) refl))

  -- With right reference counts, to close a descriptor that stands for an open file empties it,
  -- takes a reference from the open file, and asks the device to release the node exactly if no
  -- other descriptor of any task stands for that open file.
  pub do_close-refs :
      IsCounted k
      → client_task client k ≡ some t
      → neg k.msg.ino ≡ false
      → get_elem? t.fd k.msg.ino ≡ some fp
      → neg fp ≡ false
      → do_close bus fuel client k
        ≡ (if refs fp k.tasks == 1 then release_node bus fuel fp closed else some closed)
  unfolding close_last
  do_close-refs c found used g e =
      let l = fd_in_table client t k.msg.ino fp k c found g e in
      let pos = refs_pos client t k.tasks k.filp c found k.msg.ino fp g in
      let small = refs_small client t k.tasks k.filp c found fp in
      let counted = c.counts fp l in
      let held : ((k.filp fp).refcnt == 0) ≡ false = ground arith in
      do_close-found found used g e held ∙ elim (Bool-cases (refs fp k.tasks == 1)) [
        | inl last ↦
            let gone : ((closed.filp fp).refcnt == 0) ≡ true = ground arith in rw (gone, last) refl
        | inr more ↦
            let left : ((closed.filp fp).refcnt == 0) ≡ false = ground arith in rw (left, more) refl
      ]

module _ {W : Type 0} (bus : Bus W) (fuel : ℕ) (client : Pid) (t : VfsTask) (fp fd : ℕ)
    (k : Vfs W) where
  -- The state after a descriptor was copied to `fd`.
  abbrev dupped : Vfs W
  dupped =
      result fd
        (record (set_fd client t (set t.fd fd fp) k) { filp = with_refs next_byte fp k.filp })

  do_dup-found :
      client_task client k ≡ some t
      → neg k.msg.ino ≡ false
      → get_elem? t.fd k.msg.ino ≡ some fp
      → neg fp ≡ false
      → find_empty_fd t ≡ some fd
      → do_dup client k ≡ some dupped
  unfolding do_dup dup_filp attach
  do_dup-found found used g e free = rw (used, found, do_dup) (rw g (rw (e, free, dup_filp) refl))

  -- With right reference counts, to copy a descriptor that stands for an open file, when another
  -- is free, and to close the copy leaves all descriptors, all open files and the rest of the
  -- system as they were.
  pub do_close-do_dup :
      IsCounted k
      → client_task client k ≡ some t
      → neg k.msg.ino ≡ false
      → get_elem? t.fd k.msg.ino ≡ some fp
      → neg fp ≡ false
      → find_empty_fd t ≡ some fd
      → (k2 : Vfs W) × ((do_dup client k >>= do_close bus fuel client) ≡ some k2)
        × (k2.tasks ≡ k.tasks)
        × (k2.filp ≡ k.filp)
        × (k2.sys ≡ k.sys)
  unfolding close_last find_empty_fd
  do_close-do_dup c found used g e free =
      let t1 = record t { fd = set t.fd fd fp } in
      let l = fd_in_table client t k.msg.ino fp k c found g e in
      let pos = refs_pos client t k.tasks k.filp c found k.msg.ino fp g in
      let small = refs_small client t k.tasks k.filp c found fp in
      let counted = c.counts fp l in
      let (m, place, old) =
        empty_fd_free 0 t.fd fd (AllTasks-find client t k.tasks c.fds found).1 free in
      let was_free : get_elem? t.fd fd ≡ some minus_one =
        subst (λ n. get_elem? t.fd n ≡ some minus_one) (omega (arith, place)) old in
      let pid = found_pid client t k.tasks found in
      let small_count : (k.filp fp).refcnt ≤ 248 = omega arith in
      let l_fd = get_elem?-lt t.fd fd minus_one was_free in
      let size = (AllTasks-find client t k.tasks c.fds found).0 in
      let found1 = find-put client t t1 k.tasks found pid in
      let g1 = get_elem?-set_same t.fd fd fp minus_one was_free in
      let held : ((dupped.filp fp).refcnt == 0) ≡ false = ground arith in
      let k2 = closed bus fuel client t1 fp dupped in
      let left : ((k2.filp fp).refcnt == 0) ≡ false = ground arith in
      (
        k2,
        rw (do_dup-found found used g e free) (
            do_close-found bus fuel client t1 fp dupped found1 (ground (arith, l_fd)) g1 e held
            ∙ rw left refl),
        put-put client t1 _ k.tasks pid
            ∙ ap (λ fds. put_task client (record t { fd = fds }) k.tasks)
                (set-set t.fd fd fp minus_one was_free)
            ∙ put-same client t k.tasks found,
        fun_ext (refs_back k.filp fp small_count),
        refl,
      )
