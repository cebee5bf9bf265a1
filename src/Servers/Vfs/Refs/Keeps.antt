-- ===== src/Servers/Vfs/Refs/Keeps.antt =====
-- servers/vfs.c: the calls on descriptors keep the reference counts right.
use avros.Base.{
  ℕ, zero, suc, ◌<◌, ◌≡◌, ◌∙◌, refl, Bool, true, false, none, some, Option, arith, ◌==◌, not,
  get_elem?, set, Bool-cases, Option-cases, inl, inr, if_elim, On, On-bind, On-bind_eq, ap,
}
use avros.Kernel.State.{Pid}
use avros.Drivers.Message.{minus_one, vfs_final}
use avros.Servers.Vfs.State.{
  VfsTask, Filp, Vfs, Bus, max_filp, neg, is_repeat, find_empty_fd, find_empty_filp, vfs_findbypid,
  with_msg, dev_pid, exchange, answer, set_fd,
}
use avros.Servers.Vfs.Files.{
  client_task, attach, dup_filp, do_dup, answer_waiting, repeat_loop, transact, exchange_dev,
  release_node, close_last, close_filp, do_close, fill_filp, opened, open_filp, do_open, rw_filp,
  do_rw, do_int,
}
use avros.Servers.Vfs.Refs.Counts.{AllFd-get, AllTasks-find, first_index_passes}
use avros.Servers.Vfs.Refs.Moves.{
  Counted, Counted-update, Counted-attach, Counted-detach, Counted-free, refs_pos,
}

-- A free open file is one of the table.
pub empty_filp_in_table :
    (filp : ℕ → Filp) (fp : ℕ) → find_empty_filp filp ≡ some fp → fp < max_filp
unfolding find_empty_filp
empty_filp_in_table filp fp e =
    omega (arith, (first_index_passes max_filp 0 (λ i. (filp i).refcnt == 0) fp e).1)

module _ {W : Type 0} where
  abbrev pub IsCounted : Vfs W → Type 0
  IsCounted k = Counted k.tasks k.filp

  -- Nothing happened to the tables of tasks and open files.
  abbrev pub Same : Vfs W → Vfs W → Type 0
  Same k k' = (k'.tasks ≡ k.tasks) × (k'.filp ≡ k.filp)

  pub Same-IsCounted : (k k' : Vfs W) → IsCounted k → Same k k' → IsCounted k'
  Same-IsCounted k k' c s = rw (s.0, s.1) c

  Same-then : (k0 k : Vfs W) (m : Option (Vfs W)) → Same k0 k → On (Same k) m → On (Same k0) m
  Same-then k0 k none s h = tt
  Same-then k0 k (some k') s h = (h.0 ∙ s.0, h.1 ∙ s.1)

  pub dup_filp-IsCounted :
      (client : Pid) (t : VfsTask) (fp : ℕ) (k : Vfs W)
      → client_task client k ≡ some t
      → (neg fp ≡ false → fp < max_filp)
      → IsCounted k
      → IsCounted (dup_filp client t fp k)
  unfolding dup_filp attach
  dup_filp-IsCounted client t fp k found l c = elim (Bool-cases (neg fp)) [
    | inl e ↦ rw e c
    | inr e ↦ elim (Option-cases (find_empty_fd t)) [
      | inl full ↦ rw (e, full) c
      | inr (fd, free) ↦
          rw (e, free) (Counted-attach client t k.tasks k.filp c found fd fp free (l e))
    ]
  ]

  -- A descriptor in use stands for an open file of the table.
  pub fd_in_table :
      (client : Pid) (t : VfsTask) (i fp : ℕ) (k : Vfs W)
      → IsCounted k
      → client_task client k ≡ some t
      → get_elem? t.fd i ≡ some fp
      → neg fp ≡ false
      → fp < max_filp
  fd_in_table client t i fp k c found g e =
      let ok = AllFd-get t.fd i fp (AllTasks-find client t k.tasks c.fds found).1 g in
      ground (arith, ok)

  pub do_dup-IsCounted : (client : Pid) (k : Vfs W) → IsCounted k → On IsCounted (do_dup client k)
  unfolding do_dup
  do_dup-IsCounted client k c =
      if_elim (On IsCounted) (neg k.msg.ino) _ _ (λ _. c)
        λ _. On-bind_eq IsCounted (client_task client k) _ λ t found.
          On-bind_eq IsCounted (get_elem? t.fd k.msg.ino) _ λ fp g.
            dup_filp-IsCounted client t fp k found (fd_in_table client t k.msg.ino fp k c found g) c

  -- From an outcome that left the tables alone.
  pub On-IsCounted : (k : Vfs W) (m : Option (Vfs W)) → IsCounted k → On (Same k) m → On IsCounted m
  On-IsCounted k none c h = tt
  On-IsCounted k (some k') c h = Same-IsCounted k k' c h

  module _ (bus : Bus W) where
    pub exchange-Same : (pid : Pid) (k : Vfs W) → On (Same k) (exchange bus pid k)
    unfolding exchange
    exchange-Same pid k = elim (Option-cases (bus.sendrec pid k.msg k.sys)) [
      | inl e ↦ rw (e, exchange) tt
      | inr (r, e) ↦ rw (e, exchange) (refl, refl)
    ]

    pub answer-Same : (pid : Pid) (k : Vfs W) → On (Same k) (answer bus pid k)
    unfolding answer
    answer-Same pid k = elim (Option-cases (bus.send pid k.msg k.sys)) [
      | inl e ↦ rw (e, answer) tt
      | inr (r, e) ↦ rw (e, answer) (refl, refl)
    ]

    answer_waiting-Same : (tested : Bool) (k : Vfs W) → On (Same k) (answer_waiting bus tested k)
    unfolding answer_waiting
    answer_waiting-Same true k =
        if_elim (On (Same k)) (k.msg.client == 0) _ _ (λ _. (refl, refl))
          (λ _. answer-Same k.msg.client k)
    answer_waiting-Same false k = answer-Same k.msg.client k

    pub exchange_dev-Same : (dev : ℕ) (k : Vfs W) → On (Same k) (exchange_dev bus dev k)
    unfolding exchange_dev
    exchange_dev-Same dev k = On-bind_eq (Same k) (dev_pid dev k) _ λ pid _. exchange-Same pid k

    repeat_loop-Same :
        (tested : Bool) (fuel : ℕ) (pid : Pid) (k0 k : Vfs W)
        → Same k0 k
        → On (Same k0) (repeat_loop bus tested fuel pid k)
    unfolding repeat_loop
    repeat_loop-Same tested zero pid k0 k s = tt
    repeat_loop-Same tested (suc fuel) pid k0 k s = elim (Bool-cases (is_repeat k.msg.cmd)) [
      | inl e ↦
          rw (e, repeat_loop)
            (On-bind (Same k0) (Same k0)
              (answer_waiting bus tested (with_msg (record k.msg { cmd = vfs_final }) k)) _
              (Same-then k0 k _ s (answer_waiting-Same tested _))
              λ k1 s1.
                On-bind (Same k0) (Same k0) (exchange bus pid k1) _
                  (Same-then k0 k1 _ s1 (exchange-Same pid k1))
                  λ k2 s2. repeat_loop-Same tested fuel pid k0 k2 s2)
      | inr e ↦ rw (e, repeat_loop) s
    ]

    transact-Same :
        (tested : Bool) (fuel : ℕ) (pid : Pid) (k0 k : Vfs W)
        → Same k0 k
        → On (Same k0) (transact bus tested fuel pid k)
    unfolding transact
    transact-Same tested fuel pid k0 k s =
        On-bind (Same k0) (Same k0) (exchange bus pid k) _
          (Same-then k0 k _ s (exchange-Same pid k)) (repeat_loop-Same tested fuel pid k0)

    pub release_node-Same : (fuel fp : ℕ) (k : Vfs W) → On (Same k) (release_node bus fuel fp k)
    unfolding release_node
    release_node-Same fuel fp k =
        On-bind_eq (Same k) (dev_pid (k.filp fp).dev k) _
          λ pid _. transact-Same false fuel pid k _ (refl, refl)

    close_last-IsCounted :
        (fuel fp : ℕ) (k : Vfs W) → IsCounted k → On IsCounted (close_last bus fuel fp k)
    unfolding close_last
    close_last-IsCounted fuel fp k c =
        if_elim (On IsCounted) (not ((k.filp fp).refcnt == 0)) _ _ (λ _. c)
          (λ _. On-IsCounted k _ c (release_node-Same fuel fp k))

    module _ (client : Pid) (t : VfsTask) (i fp fuel : ℕ) (k : Vfs W) (c : IsCounted k)
        (found : client_task client k ≡ some t) (g : get_elem? t.fd i ≡ some fp) where
      abbrev emptied : Vfs W
      emptied = set_fd client t (set t.fd i minus_one) k

      close_used : neg fp ≡ false → On IsCounted (close_filp bus fuel fp emptied)
      unfolding close_filp
      close_used e =
          let l = fd_in_table client t i fp k c found g e in
          let pos = refs_pos client t k.tasks k.filp c found i fp g in
          let used : ((k.filp fp).refcnt == 0) ≡ false = ground (arith, c.counts fp l, pos) in
          let c1 = Counted-detach client t k.tasks k.filp c found i fp g l in
          rw (e, used) (close_last-IsCounted fuel fp _ c1)

      close_free : neg fp ≡ true → On IsCounted (close_filp bus fuel fp emptied)
      unfolding close_filp
      close_free e = rw e (Counted-free client t k.tasks k.filp c found i fp g e)

      close_filp-IsCounted : On IsCounted (close_filp bus fuel fp emptied)
      close_filp-IsCounted = elim (Bool-cases (neg fp)) [
        | inl e ↦ close_free e
        | inr e ↦ close_used e
      ]

    pub do_close-IsCounted :
        (fuel : ℕ) (client : Pid) (k : Vfs W)
        → IsCounted k
        → On IsCounted (do_close bus fuel client k)
    unfolding do_close
    do_close-IsCounted fuel client k c =
        if_elim (On IsCounted) (neg k.msg.ino) _ _ (λ _. c)
          λ _. On-bind_eq IsCounted (client_task client k) _ λ t found.
            On-bind_eq IsCounted (get_elem? t.fd k.msg.ino) _
              λ fp g. close_filp-IsCounted client t k.msg.ino fp fuel k c found g

    opened-IsCounted :
        (client : Pid) (t : VfsTask) (fd fp : ℕ) (k : Vfs W)
        → IsCounted k
        → client_task client k ≡ some t
        → find_empty_fd t ≡ some fd
        → fp < max_filp
        → IsCounted (opened client t fd fp k)
    unfolding opened attach
    opened-IsCounted client t fd fp k c found free l =
        if_elim IsCounted (neg k.msg.ino) _ _ (λ _. c)
          λ _. Counted-attach client t k.tasks k.filp c found fd fp free l

    open_filp-IsCounted :
        (client : Pid) (t : VfsTask) (fd fp : ℕ) (k : Vfs W)
        → IsCounted k
        → client_task client k ≡ some t
        → find_empty_fd t ≡ some fd
        → fp < max_filp
        → On IsCounted (open_filp bus client t fd fp k)
    unfolding open_filp fill_filp
    open_filp-IsCounted client t fd fp k c found free l =
        On-bind (Same (fill_filp fp k)) IsCounted (exchange_dev bus k.msg.ino (fill_filp fp k)) _
          (exchange_dev-Same k.msg.ino (fill_filp fp k))
          λ k1 s.
            let c1 =
              Same-IsCounted (fill_filp fp k) k1 (Counted-update k.tasks k.filp fp _ refl c) s in
            opened-IsCounted client t fd fp k1 c1 (ap (vfs_findbypid client) s.0 ∙ found) free l

    pub do_open-IsCounted :
        (client : Pid) (k : Vfs W) → IsCounted k → On IsCounted (do_open bus client k)
    unfolding do_open
    do_open-IsCounted client k c = On-bind_eq IsCounted (client_task client k) _ λ t found.
        elim (Option-cases (find_empty_fd t)) [
          | inl full ↦ rw full c
          | inr (fd, free) ↦ elim (Option-cases (find_empty_filp k.filp)) [
            | inl full ↦ rw (free, full) c
            | inr (fp, unused) ↦
                rw (free, unused)
                  (open_filp-IsCounted client t fd fp k c found free
                    (empty_filp_in_table k.filp fp unused))
          ]
        ]

    rw_filp-IsCounted :
        (fuel fp : ℕ) (k : Vfs W) → IsCounted k → On IsCounted (rw_filp bus fuel fp k)
    unfolding rw_filp
    rw_filp-IsCounted fuel fp k c =
        if_elim (On IsCounted) (neg fp) _ _ (λ _. c)
          λ _. On-bind_eq IsCounted (dev_pid (k.filp fp).dev k) _ λ pid _.
            On-bind (Same k) IsCounted _ _ (transact-Same true fuel pid k _ (refl, refl))
              λ k1 s. Counted-update k1.tasks k1.filp fp _ refl (Same-IsCounted k k1 c s)

    pub do_rw-IsCounted :
        (fuel : ℕ) (client : Pid) (k : Vfs W) → IsCounted k → On IsCounted (do_rw bus fuel client k)
    unfolding do_rw
    do_rw-IsCounted fuel client k c =
        if_elim (On IsCounted) (neg k.msg.ino) _ _ (λ _. c)
          λ _. On-bind_eq IsCounted (client_task client k) _ λ t _.
            On-bind_eq IsCounted (get_elem? t.fd k.msg.ino) _ λ fp _. rw_filp-IsCounted fuel fp k c

    pub do_int-IsCounted : (fuel : ℕ) (k : Vfs W) → IsCounted k → On IsCounted (do_int bus fuel k)
    unfolding do_int
    do_int-IsCounted fuel k c =
        On-IsCounted k _ c (transact-Same true fuel k.msg.client k k (refl, refl))
