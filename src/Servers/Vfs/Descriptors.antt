-- ===== src/Servers/Vfs/Descriptors.antt =====
-- servers/vfs.c: the descriptors of a client as a table of slots.
use avros.Base.{
  ℕ, zero, suc, ◌+◌, ◌≤◌, ◌≡◌, refl, false, Option, none, some, List, [], ◌∷◌, arith, if◌then◌else◌,
  get_elem?, set, Bool-cases, inl, inr, ◌>>=◌, subst, ap, sym, ◌∙◌, some_inj, none_ne_some, fd_at,
  put, free_fd, free_count, put-free_fd, free_count-put, copied, if_true, if_false, update,
}
use avros.Kernel.State.{Pid}
use avros.Servers.Vfs.State.{
  VfsTask, Filp, Vfs, neg, next_byte, with_refs, with_msg, empty_fd, find_empty_fd, find_empty_filp,
}
use avros.Servers.Vfs.Files.{
  result, client_task, attach, dup_filp, do_dup, pipe_attach, pipe_result, pipe_end, pipe_out,
  pipe_done, pipe_ends,
}
use avros.Servers.Vfs.Refs.Keeps.{empty_filp_in_table}
use avros.Servers.Vfs.Refs.Removal.{find-put, found_pid}

-- A negative entry is free.
abbrev pub slot : ℕ → Option ℕ
slot fp = if neg fp then none else some fp

abbrev pub slots : List ℕ → List (Option ℕ)
slots [] = []
slots (fp ∷ fps) = slot fp ∷ slots fps

fd_at-slots : (fps : List ℕ) (i fp : ℕ) → get_elem? fps i ≡ some fp → fd_at i (slots fps) ≡ slot fp
fd_at-slots [] i fp h = absurd (none_ne_some h)
fd_at-slots (x ∷ fps) zero fp h = ap slot (some_inj h)
fd_at-slots (x ∷ fps) (suc i) fp h = fd_at-slots fps i fp h

slots-set : (fps : List ℕ) (i fp : ℕ) → slots (set fps i fp) ≡ put i (slot fp) (slots fps)
slots-set [] i fp = refl
slots-set (x ∷ fps) zero fp = refl
slots-set (x ∷ fps) (suc i) fp = ap (λ gs. slot x ∷ gs) (slots-set fps i fp)

free_fd-empty : (i n : ℕ) (fps : List ℕ) → empty_fd i fps ≡ some n → i + free_fd (slots fps) ≡ n
unfolding empty_fd
free_fd-empty i n [] h = absurd (none_ne_some h)
free_fd-empty i n (x ∷ fps) h = elim (Bool-cases (neg x)) [
  | inl e ↦ rw e (
      omega
        (arith, some_inj (subst (λ b. (if b then some i else empty_fd (suc i) fps) ≡ some n) e h)))
  | inr e ↦ rw e (
      omega (
        arith,
        free_fd-empty (suc i) n fps
            (subst (λ b. (if b then some i else empty_fd (suc i) fps) ≡ some n) e h),
      ))
]

put_full :
    (i : ℕ) (fps : List ℕ) (g : Option ℕ)
    → empty_fd i fps ≡ none
    → put (free_fd (slots fps)) g (slots fps) ≡ slots fps
unfolding empty_fd
put_full i [] g h = refl
put_full i (x ∷ fps) g h = elim (Bool-cases (neg x)) [
  | inl e ↦
      absurd
        (none_ne_some (sym (subst (λ b. (if b then some i else empty_fd (suc i) fps) ≡ none) e h)))
  | inr e ↦ rw e (
      ap (λ gs. some x ∷ gs)
        (put_full (suc i) fps g
          (subst (λ b. (if b then some i else empty_fd (suc i) fps) ≡ none) e h)))
]

empty_fd-count :
    (i : ℕ) (fps : List ℕ) → 1 ≤ free_count (slots fps) → (n : ℕ) × (empty_fd i fps ≡ some n)
unfolding empty_fd
empty_fd-count i [] l = absurd (omega (arith, l))
empty_fd-count i (x ∷ fps) l = elim (Bool-cases (neg x)) [
  | inl e ↦ (i, if_true (neg x) _ _ e)
  | inr e ↦
      let l' = subst (λ b. 1 ≤ free_count ((if b then none else some x) ∷ slots fps)) e l in
      let (n, f) = empty_fd-count (suc i) fps l' in (n, if_false (neg x) _ _ e ∙ f)
]

module _ {W : Type 0} where
  -- The descriptors of a client.
  abbrev pub client_fds : Pid → Vfs W → List (Option ℕ)
  client_fds client k = elim (client_task client k) [ none ↦ [] | some t ↦ slots t.fd ]

  fds_found :
      (client : Pid) (k : Vfs W) (t : VfsTask)
      → client_task client k ≡ some t
      → client_fds client k ≡ slots t.fd
  fds_found client k t found =
      ap (λ o. elim o as (λ _. List (Option ℕ)) [ none ↦ [] | some u ↦ slots u.fd ]) found

  found_attached :
      (client : Pid) (k : Vfs W) (t : VfsTask) (fd fp : ℕ)
      → client_task client k ≡ some t
      → client_task client (attach client t fd fp k) ≡ some (record t { fd = set t.fd fd fp })
  unfolding attach
  found_attached client k t fd fp found =
      find-put client t (record t { fd = set t.fd fd fp }) k.tasks found
        (found_pid client t k.tasks found)

  -- An open file takes the lowest free descriptor.
  fds_attached :
      (client : Pid) (k : Vfs W) (t : VfsTask) (fd fp : ℕ)
      → client_task client k ≡ some t
      → neg fp ≡ false
      → find_empty_fd t ≡ some fd
      → (free_fd (slots t.fd) ≡ fd)
        × (client_fds client (attach client t fd fp k) ≡ put fd (some fp) (slots t.fd))
  unfolding find_empty_fd
  fds_attached client k t fd fp found held free =
      let at = free_fd-empty 0 fd t.fd free in
      (
        omega (arith, at),
        fds_found client (attach client t fd fp k) _ (found_attached client k t fd fp found)
            ∙ slots-set t.fd fd fp
            ∙ ap (λ g. put fd g (slots t.fd)) (if_false (neg fp) _ _ held),
      )

  dup_open-fds :
      (client : Pid) (k : Vfs W) (t : VfsTask) (fp : ℕ) (o : Option ℕ)
      → client_task client k ≡ some t
      → neg fp ≡ false
      → find_empty_fd t ≡ o
      → client_fds client (dup_filp client t fp k)
        ≡ put (free_fd (slots t.fd)) (some fp) (slots t.fd)
  unfolding dup_filp find_empty_fd
  dup_open-fds client k t fp none found held free =
      rw (held, free, dup_filp) (fds_found client k t found ∙ sym (put_full 0 t.fd (some fp) free))
  dup_open-fds client k t fp (some fd) found held free =
      let (at, fds) = fds_attached client k t fd fp found held free in
      rw (held, free, dup_filp) (fds ∙ ap (λ n. put n (some fp) (slots t.fd)) (sym at))

  dup_filp-fds :
      (client : Pid) (k : Vfs W) (t : VfsTask) (i fp : ℕ)
      → client_task client k ≡ some t
      → fd_at i (slots t.fd) ≡ slot fp
      → client_fds client (dup_filp client t fp k) ≡ copied i (slots t.fd)
  unfolding dup_filp
  dup_filp-fds client k t i fp found which = elim (Bool-cases (neg fp)) [
    | inl e ↦
        let free : fd_at i (slots t.fd) ≡ none = which ∙ if_true (neg fp) _ _ e in
        rw (e, dup_filp)
          (fds_found client k t found
            ∙ sym (
                ap (λ g. put (free_fd (slots t.fd)) g (slots t.fd)) free
                ∙ put-free_fd (slots t.fd)))
    | inr e ↦
        dup_open-fds client k t fp (find_empty_fd t) found e refl
        ∙ ap (λ g. put (free_fd (slots t.fd)) g (slots t.fd))
            (sym (which ∙ if_false (neg fp) _ _ e))
  ]

  -- `dup` of a descriptor that the table has puts what it stands for, if anything, at the lowest
  -- free descriptor, if there is one, and leaves the others alone.
  pub do_dup-client_fds :
      (client : Pid) (k : Vfs W) (t : VfsTask) (fp : ℕ)
      → client_task client k ≡ some t
      → neg k.msg.ino ≡ false
      → get_elem? t.fd k.msg.ino ≡ some fp
      → (k' : Vfs W) × (do_dup client k ≡ some k')
        × (client_fds client k' ≡ copied k.msg.ino (client_fds client k))
  unfolding do_dup
  do_dup-client_fds client k t fp found used g =
      let before = fds_found client k t found in
      let which = fd_at-slots t.fd k.msg.ino fp g in
      (
        dup_filp client t fp k,
        rw (used, found, g, do_dup) refl,
        dup_filp-fds client k t k.msg.ino fp found which ∙ ap (copied k.msg.ino) (sym before),
      )

  -- The open files when `fp` is one end of a pipe.
  abbrev pub one_end : ℕ → ℕ → Vfs W → ℕ → Filp
  one_end ino fp k =
      with_refs next_byte fp
        (update k.filp fp (record (k.filp fp) { dev = k.pipedev_idx; ino = ino }))

  pipe_end-fds :
      (client : Pid) (ino fp : ℕ) (k : Vfs W) (t : VfsTask)
      → client_task client k ≡ some t
      → find_empty_filp k.filp ≡ some fp
      → 1 ≤ free_count (slots t.fd)
      → let fd = free_fd (slots t.fd) in
        let k' = pipe_attach client ino fp fd t k in
        (pipe_end client ino k ≡ some (some fd, k'))
        × (t' : VfsTask) × (client_task client k' ≡ some t')
        × (slots t'.fd ≡ put fd (some fp) (slots t.fd))
  unfolding pipe_end find_empty_fd pipe_attach attach
  pipe_end-fds client ino fp k t found file room =
      let (fd, free) = empty_fd-count 0 t.fd room in
      let at : fd ≡ free_fd (slots t.fd) = omega (arith, free_fd-empty 0 fd t.fd free) in
      let free' : find_empty_fd t ≡ some (free_fd (slots t.fd)) = free ∙ ap some at in
      let held : neg fp ≡ false = ground (arith, empty_filp_in_table k.filp fp file) in
      let fd' = free_fd (slots t.fd) in
      (
        rw (file, found, pipe_end)
            (ap
              (λ o. elim o as (λ _. Option (Option ℕ × Vfs W)) [
                | none ↦ some (none, k)
                | some n ↦ some (some n, pipe_attach client ino fp n t k)
              ])
              free'),
        record t { fd = set t.fd fd' fp },
        find-put client t (record t { fd = set t.fd fd' fp }) k.tasks found
            (found_pid client t k.tasks found),
        slots-set t.fd fd' fp ∙ ap (λ g. put fd' g (slots t.fd)) (if_false (neg fp) _ _ held),
      )

  -- The answer to `pipe`, and the descriptors of the client, which were `fds`.
  abbrev pub TwoEnds : Pid → ℕ → ℕ → Option (Vfs W) → List (Option ℕ) → Type 0
  TwoEnds client fp1 fp2 o fds =
      let fds1 = put (free_fd fds) (some fp1) fds in
      (k' : Vfs W) × (o ≡ some k')
      × (client_fds client k' ≡ put (free_fd fds1) (some fp2) fds1)
      × (k'.msg.ino ≡ free_fd fds)
      × (k'.msg.bnum ≡ free_fd fds1)
      × (k'.msg.data_of ≡ 0)

  -- When two open files and two descriptors are free, the two ends of a pipe take them: the first
  -- end the lowest free descriptor and the second end the next one; the call answers with these,
  -- and the other descriptors of the client are as they were.
  pub pipe_ends-client_fds :
      (client : Pid) (ino fp1 fp2 : ℕ) (k : Vfs W) (t : VfsTask)
      → client_task client k ≡ some t
      → find_empty_filp k.filp ≡ some fp1
      → find_empty_filp (one_end ino fp1 k) ≡ some fp2
      → 2 ≤ free_count (client_fds client k)
      → TwoEnds client fp1 fp2 (pipe_ends client ino k) (client_fds client k)
  unfolding pipe_ends pipe_out pipe_done pipe_attach attach
  pipe_ends-client_fds client ino fp1 fp2 k t found file1 file2 room =
      let same = fds_found client k t found in
      let room' : 2 ≤ free_count (slots t.fd) = subst (λ fds. 2 ≤ free_count fds) same room in
      let (e1, t1, found1, fds1) =
        pipe_end-fds client ino fp1 k t found file1 (omega (arith, room')) in
      let a = free_fd (slots t.fd) in
      let k1 = result a (pipe_attach client ino fp1 a t k) in
      let room1 : 1 ≤ free_count (slots t1.fd) =
        subst (λ fds. 1 ≤ free_count fds) (sym fds1)
          (omega (arith, room', free_count-put fp1 (slots t.fd) (omega (arith, room')))) in
      let (e2, t2, found2, fds2) = pipe_end-fds client ino fp2 k1 t1 found1 file2 room1 in
      let b = free_fd (slots t1.fd) in
      let k2 = pipe_attach client ino fp2 b t1 k1 in
      let second = ap free_fd fds1 in
      subst (TwoEnds client fp1 fp2 (pipe_ends client ino k)) (sym same) (
        pipe_result 0 (with_msg (record k2.msg { bnum = b }) k2),
        ap (λ o. o >>= λ r. pipe_out client ino r.0 r.1) e1 ∙ ap (λ o. o >>= pipe_done) e2,
        fds_found client k2 t2 found2 ∙ fds2 ∙ ap (λ fds. put (free_fd fds) (some fp2) fds) fds1,
        refl,
        second,
        refl,
      )
