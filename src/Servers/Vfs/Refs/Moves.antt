-- ===== src/Servers/Vfs/Refs/Moves.antt =====
-- servers/vfs.c: the writes to the tables keep the reference counts right.
use avros.Base.{
  ℕ, ◌+◌, ◌≤◌, ◌<◌, ◌≡◌, refl, true, some, List, [], ◌∷◌, ◌++◌, arith, ◌==◌, if◌then◌else◌,
  get_elem?, set, length, length-set, length-append, count, Bool-cases, inl, inr, update, ◌∙◌,
  subst, ap₂, ap₂,
}
use avros.Kernel.State.{Pid}
use avros.Drivers.Message.{minus_one}
use avros.Servers.Vfs.State.{
  VfsTask, Filp, max_fd, max_filp, neg, next_byte, before_byte, find_empty_fd, vfs_findbypid,
  put_task, with_refs,
}
use avros.Servers.Vfs.Loop.{inherit_fds, fresh_task}
use avros.Servers.Vfs.Refs.Counts.{
  refs, IsFd, AllFd, AllTasks, count-set, count-get_elem?, AllFd-set, empty_fd_free, refs-put,
  refs-remove, AllTasks-find, AllTasks-put, length-put, refs-le, refs-append, AllTasks-append,
}

-- Each open file counts the descriptors that stand for it, in tables of the right size and with
-- few enough tasks for a byte to count them.
pub record Counted (tasks : List VfsTask) (filp : ℕ → Filp) : Type 0 where
  pub fds : AllTasks tasks
  pub few : length tasks ≤ 31
  pub counts : (p : ℕ) → p < max_filp → (filp p).refcnt ≡ refs p tasks

-- A write to an open file that leaves its count alone.
pub Counted-update :
    (tasks : List VfsTask) (filp : ℕ → Filp) (fp : ℕ) (f : Filp)
    → f.refcnt ≡ (filp fp).refcnt
    → Counted tasks filp
    → Counted tasks (update filp fp f)
Counted-update tasks filp fp f e c = record {
  fds = c.fds;
  few = c.few;
  counts = λ p l. elim (Bool-cases (fp == p)) [
    | inl same ↦ ground (arith, c.counts p l)
    | inr other ↦ ground (arith, c.counts p l)
  ];
}

module _ (client : Pid) (t : VfsTask) (tasks : List VfsTask) (filp : ℕ → Filp)
    (c : Counted tasks filp) (found : vfs_findbypid client tasks ≡ some t) where
  -- The change of one descriptor, from `old` to `new`, and of the counts with it.
  pub Counted-fd :
      (i old new : ℕ) (filp' : ℕ → Filp)
      → get_elem? t.fd i ≡ some old
      → IsFd new
      → ((p : ℕ)
          → p < max_filp
          → (filp' p).refcnt + (if old == p then 1 else 0)
            ≡ (filp p).refcnt + (if new == p then 1 else 0))
      → Counted (put_task client (record t { fd = set t.fd i new }) tasks) filp'
  Counted-fd i old new filp' g ok moved = record {
    fds =
        let w = AllTasks-find client t tasks c.fds found in
        AllTasks-put client _ tasks c.fds
          (length-set t.fd i new ∙ w.0, AllFd-set t.fd i new w.1 ok);
    few = omega (arith, c.few, length-put client (record t { fd = set t.fd i new }) tasks);
    counts = λ p l. omega (
      arith,
      c.counts p l,
      moved p l,
      count-set p t.fd i new old g,
      refs-put client t p (record t { fd = set t.fd i new }) tasks found,
    );
  }

  -- No open file has more descriptors than a byte can count.
  pub refs_small : (p : ℕ) → refs p tasks ≤ 248
  refs_small p = omega (arith, refs-le p tasks c.fds, c.few)

  pub refs_pos : (i fp : ℕ) → get_elem? t.fd i ≡ some fp → 0 < refs fp tasks
  refs_pos i fp g = omega (arith, refs-remove client t fp tasks found, count-get_elem? t.fd i fp g)

  pub Counted-attach :
      (fd fp : ℕ)
      → find_empty_fd t ≡ some fd
      → fp < max_filp
      → Counted
          (put_task client (record t { fd = set t.fd fd fp }) tasks)
          (with_refs next_byte fp filp)
  unfolding find_empty_fd
  Counted-attach fd fp e l =
      let (m, same, free) =
        empty_fd_free 0 t.fd fd (AllTasks-find client t tasks c.fds found).1 e in
      let fd_eq : m ≡ fd = omega (arith, same) in
      Counted-fd fd minus_one fp _ (subst (λ i. get_elem? t.fd i ≡ some minus_one) fd_eq free)
        (ground arith) (λ p lp. ground (arith, c.counts fp l, refs_small fp))

  pub Counted-detach :
      (i fp : ℕ)
      → get_elem? t.fd i ≡ some fp
      → fp < max_filp
      → Counted
          (put_task client (record t { fd = set t.fd i minus_one }) tasks)
          (with_refs before_byte fp filp)
  Counted-detach i fp g l =
      Counted-fd i fp minus_one _ g refl
        (λ p lp. ground (arith, c.counts fp l, refs_small fp, refs_pos i fp g))

  pub Counted-free :
      (i fp : ℕ)
      → get_elem? t.fd i ≡ some fp
      → neg fp ≡ true
      → Counted (put_task client (record t { fd = set t.fd i minus_one }) tasks) filp
  Counted-free i fp g l = Counted-fd i fp minus_one filp g refl (λ p lp. ground arith)

-- The counts go up with the descriptors that a child inherits.
pub inherit_fds-refcnt :
    (fds : List ℕ) (filp : ℕ → Filp) (p : ℕ)
    → AllFd fds
    → p < max_filp
    → (filp p).refcnt + length fds < 256
    → ((inherit_fds fds filp).1 p).refcnt ≡ (filp p).refcnt + count p fds
unfolding inherit_fds count
inherit_fds-refcnt [] filp p a l h = omega arith
inherit_fds-refcnt (f ∷ fs) filp p a l h = elim (Bool-cases (neg f)) [
  | inl e ↦ let ih = inherit_fds-refcnt fs filp p a.1 l (omega arith) in ground (arith, ih)
  | inr e ↦
      let step : (with_refs next_byte f filp p).refcnt
          ≡ (filp p).refcnt + (if f == p then 1 else 0) =
        ground arith in
      let ih = inherit_fds-refcnt fs (with_refs next_byte f filp) p a.1 l (ground (arith, step)) in
      rw e (omega (arith, ih, step))
]

-- A child has the descriptors of its parent.
pub inherit_fds-same : (fds : List ℕ) (filp : ℕ → Filp) → AllFd fds → (inherit_fds fds filp).0 ≡ fds
unfolding inherit_fds
inherit_fds-same [] filp a = refl
inherit_fds-same (f ∷ fs) filp a =
    ap₂ (λ x xs. x ∷ xs) (ground (arith, a.0)) (inherit_fds-same fs _ a.1)

-- A child with the descriptors `fds`.
Counted-child :
    (t : VfsTask) (tasks : List VfsTask) (filp filp' : ℕ → Filp)
    → length tasks ≤ 30
    → Counted tasks filp
    → (length t.fd ≡ max_fd) × AllFd t.fd
    → ((p : ℕ) → p < max_filp → (filp' p).refcnt ≡ (filp p).refcnt + count p t.fd)
    → Counted (tasks ++ t ∷ []) filp'
unfolding refs
Counted-child t tasks filp filp' few c w more = record {
  fds = AllTasks-append tasks _ c.fds (w, tt);
  few = omega (arith, few, length-append {0} tasks (t ∷ []));
  counts = λ p l. omega (arith, more p l, c.counts p l, refs-append p tasks (t ∷ []));
}

-- A task with no descriptor.
pub Counted-fresh :
    (at : ℕ) (pid : Pid) (tasks : List VfsTask) (filp : ℕ → Filp)
    → length tasks ≤ 30
    → Counted tasks filp
    → Counted (tasks ++ fresh_task at pid ∷ []) filp
unfolding count
Counted-fresh at pid tasks filp few c =
    Counted-child (fresh_task at pid) tasks filp filp few c (refl, ground arith)
      (λ p l. ground arith)

-- A child of a task that is there, or of itself.
pub Counted-inherit :
    (pt parent : VfsTask) (parent_pid : Pid) (tasks : List VfsTask) (filp : ℕ → Filp)
    → length tasks ≤ 30
    → Counted tasks filp
    → vfs_findbypid parent_pid (tasks ++ fresh_task pt.at pt.pid ∷ []) ≡ some parent
    → Counted
        (tasks
          ++ record parent { at = pt.at; pid = pt.pid; fd = (inherit_fds parent.fd filp).0 } ∷ [])
        (inherit_fds parent.fd filp).1
Counted-inherit pt parent parent_pid tasks filp few c found =
    let w =
      AllTasks-find parent_pid parent _ (Counted-fresh pt.at pt.pid tasks filp few c).fds found in
    let same = inherit_fds-same parent.fd filp w.1 in
    rw same (
      Counted-child (record parent { at = pt.at; pid = pt.pid }) tasks filp _ few c w
        (λ p l.
          inherit_fds-refcnt parent.fd filp p w.1 l
            (omega (arith, w.0, c.counts p l, refs-le p tasks c.fds, few))))
