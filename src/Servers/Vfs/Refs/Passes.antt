-- ===== src/Servers/Vfs/Refs/Passes.antt =====
-- servers/vfs.c: pipes, names and tasks keep the reference counts right, and so does a pass.
use avros.Base.{
  ℕ, ◌+◌, ◌≡◌, refl, none, some, Option, List, [], ◌∷◌, ◌++◌, ◌==◌, Bool-cases, List-cases,
  Option-cases, inl, inr, if_elim, On, On-bind, On-bind_eq, length,
}
use avros.Kernel.State.{Pid}
use avros.Queue.{null}
use avros.Drivers.Message.{VfsCmd, vfs_mknod, vfs_inode_grab, vfs_link}
use avros.Servers.Vfs.State.{
  VfsTask, Vfs, Bus, neg, find_empty_fd, find_empty_filp, with_msg, dev_pid,
}
use avros.Servers.Vfs.Files.{
  result, client_task, attach, exchange_dev, pipe_attach, pipe_end, pipe_done, pipe_out, pipe_ends,
  ask_pipedev, do_pipe,
}
use avros.Servers.Vfs.Names.{
  slash, direntry_request, ask_direntry, vfs_get_direntry, get_dir_loop, walk_dirs, dir_of,
  vfs_get_dir, last_node, link_node, node_in, vfs_get_node, basename, do_mknod, do_stat,
}
use avros.Servers.Vfs.Refs.Moves.{Counted-update, Counted-attach}
use avros.Servers.Vfs.Refs.Keeps.{IsCounted, empty_filp_in_table, exchange_dev-Same, On-IsCounted}

module _ {W : Type 0} where
  -- The state beside a node, and beside a device and a node.
  abbrev NodeCounted : ℕ × Vfs W → Type 0
  NodeCounted r = IsCounted r.1

  abbrev DirCounted : ℕ × ℕ × Vfs W → Type 0
  DirCounted r = IsCounted r.2

  pipe_attach-IsCounted :
      (client : Pid) (ino fp fd : ℕ) (t : VfsTask) (k : Vfs W)
      → IsCounted k
      → find_empty_filp k.filp ≡ some fp
      → client_task client k ≡ some t
      → find_empty_fd t ≡ some fd
      → IsCounted (pipe_attach client ino fp fd t k)
  unfolding pipe_attach attach
  pipe_attach-IsCounted client ino fp fd t k c unused found free =
      Counted-attach client t k.tasks _ (Counted-update k.tasks k.filp fp _ refl c) found fd fp free
        (empty_filp_in_table k.filp fp unused)

  pipe_end-IsCounted :
      (client : Pid) (ino : ℕ) (k : Vfs W)
      → IsCounted k
      → On (λ r. IsCounted r.1) (pipe_end client ino k)
  unfolding pipe_end
  pipe_end-IsCounted client ino k c = elim (Option-cases (find_empty_filp k.filp)) [
    | inl full ↦ rw (full, pipe_end) c
    | inr (fp, unused) ↦
        rw (unused, pipe_end)
          (On-bind_eq (λ r. IsCounted r.1) (client_task client k) _
            λ t found. elim (Option-cases (find_empty_fd t)) [
              | inl full ↦ rw (full, pipe_end) c
              | inr (fd, free) ↦
                  rw free (pipe_attach-IsCounted client ino fp fd t k c unused found free)
            ])
  ]

  pipe_out-IsCounted :
      (client : Pid) (ino : ℕ) (fdi : Option ℕ) (k : Vfs W)
      → IsCounted k
      → On IsCounted (pipe_out client ino fdi k)
  unfolding pipe_out pipe_done
  pipe_out-IsCounted client ino none k c = c
  pipe_out-IsCounted client ino (some i) k c =
      On-bind (λ r. IsCounted r.1) IsCounted _ _ (pipe_end-IsCounted client ino (result i k) c)
        (λ r c2. done r.0 r.1 c2)
    where
      done : (fdo : Option ℕ) (k2 : Vfs W) → IsCounted k2 → On IsCounted (pipe_done (fdo, k2))
      done none k2 c2 = c2
      done (some o) k2 c2 = c2

  pipe_ends-IsCounted :
      (client : Pid) (ino : ℕ) (k : Vfs W) → IsCounted k → On IsCounted (pipe_ends client ino k)
  unfolding pipe_ends
  pipe_ends-IsCounted client ino k c =
      On-bind (λ r. IsCounted r.1) IsCounted _ _ (pipe_end-IsCounted client ino k c)
        λ r. pipe_out-IsCounted client ino r.0 r.1

  module _ (bus : Bus W) where
    ask_pipedev-IsCounted :
        (cmd : VfsCmd) (ino : ℕ) (k : Vfs W)
        → IsCounted k
        → On IsCounted (ask_pipedev bus cmd ino k)
    unfolding ask_pipedev
    ask_pipedev-IsCounted cmd ino k c =
        On-IsCounted k _ c
          (exchange_dev-Same bus k.pipedev_idx (with_msg (record k.msg { cmd = cmd; ino = ino }) k))

    pub do_pipe-IsCounted :
        (client : Pid) (k : Vfs W) → IsCounted k → On IsCounted (do_pipe bus client k)
    unfolding do_pipe
    do_pipe-IsCounted client k c =
        On-bind IsCounted IsCounted _ _ (ask_pipedev-IsCounted vfs_mknod k.msg.ino k c) λ k1 c1.
          if_elim (On IsCounted) (neg k1.msg.ino) _ _ (λ _. c1)
            λ _.
              On-bind IsCounted IsCounted _ _
                (ask_pipedev-IsCounted vfs_inode_grab k1.msg.ino k1 c1)
                λ k2 c2.
                  if_elim (On IsCounted) (neg k2.msg.ino) _ _ (λ _. c2)
                    λ _.
                      On-bind IsCounted IsCounted _ _
                        (ask_pipedev-IsCounted vfs_inode_grab k1.msg.ino k2 c2)
                        λ k3 c3.
                          if_elim (On IsCounted) (neg k3.msg.ino) _ _ (λ _. c3)
                            λ _. pipe_ends-IsCounted client k1.msg.ino k3 c3

    ask_direntry-IsCounted :
        (pid : Pid) (ino n : ℕ) (k : Vfs W)
        → IsCounted k
        → On NodeCounted (ask_direntry bus pid ino n k)
    unfolding ask_direntry
    ask_direntry-IsCounted pid ino n k c =
        On-bind_eq NodeCounted (bus.sendrec pid (direntry_request ino n) k.sys) _ (λ r _. c)

    vfs_get_direntry-IsCounted :
        (dev ino : ℕ) (name : List ℕ) (k : Vfs W)
        → IsCounted k
        → On NodeCounted (vfs_get_direntry bus dev ino name k)
    unfolding vfs_get_direntry
    vfs_get_direntry-IsCounted dev ino name k c =
        let n = (bus.memory.take k.sys (length name + 1)).0 in
        if_elim (On NodeCounted) (n == null) _ _ (λ _. c)
          λ _.
            On-bind_eq NodeCounted (dev_pid dev k) _ λ pid _. ask_direntry-IsCounted pid ino n _ c

    get_dir_loop-IsCounted :
        (dev : ℕ) (path part : List ℕ) (ino : ℕ) (k : Vfs W)
        → IsCounted k
        → On NodeCounted (get_dir_loop bus dev path part ino k)
    unfolding get_dir_loop
    get_dir_loop-IsCounted dev [] part ino k c = c
    get_dir_loop-IsCounted dev (ch ∷ path) part ino k c = elim (Bool-cases (ch == slash)) [
      | inr e ↦ rw (e, get_dir_loop) (get_dir_loop-IsCounted dev path (part ++ ch ∷ []) ino k c)
      | inl e ↦
          rw (e, get_dir_loop)
            (On-bind NodeCounted NodeCounted _ _ (vfs_get_direntry-IsCounted dev ino part k c)
              λ r c1. elim (Bool-cases (neg r.0)) [
                | inl n ↦ rw n c1
                | inr n ↦ rw n (get_dir_loop-IsCounted dev path [] r.0 r.1 c1)
              ])
    ]

    walk_dirs-IsCounted :
        (dev : ℕ) (path : List ℕ) (ino : ℕ) (k : Vfs W)
        → IsCounted k
        → On NodeCounted (walk_dirs bus dev path ino k)
    unfolding walk_dirs
    walk_dirs-IsCounted dev path ino k c =
        if_elim (On NodeCounted) (neg ino) _ _ (λ _. c)
          (λ _. get_dir_loop-IsCounted dev path [] ino k c)

    dir_of-IsCounted :
        (t : VfsTask) (path : List ℕ) (k : Vfs W)
        → IsCounted k
        → On DirCounted (dir_of bus t path k)
    unfolding dir_of
    dir_of-IsCounted t [] k c = tt
    dir_of-IsCounted t (ch ∷ path) k c =
        if_elim (On DirCounted) (ch == slash) _ _
          (λ _.
            On-bind NodeCounted DirCounted _ _ (walk_dirs-IsCounted t.rdev path t.rino k c)
              (λ r c1. c1))
          (λ _.
            On-bind NodeCounted DirCounted _ _ (walk_dirs-IsCounted t.wdev (ch ∷ path) t.wino k c)
              (λ r c1. c1))

    vfs_get_dir-IsCounted :
        (client : Pid) (dev path : ℕ) (k : Vfs W)
        → IsCounted k
        → On DirCounted (vfs_get_dir bus client dev path k)
    unfolding vfs_get_dir
    vfs_get_dir-IsCounted client dev path k c = elim (Bool-cases (path == null)) [
      | inl e ↦ rw (e, vfs_get_dir) c
      | inr e ↦ elim (List-cases (bus.string_at k.sys path)) [
        | inl s ↦ rw (e, s, vfs_get_dir) c
        | inr (ch, cs, s) ↦
            rw (e, s, vfs_get_dir)
              (On-bind_eq DirCounted (client_task client k) _
                λ t _. dir_of-IsCounted t (ch ∷ cs) k c)
      ]
    ]

    last_node-IsCounted :
        (dev ino : ℕ) (name : List ℕ) (k : Vfs W)
        → IsCounted k
        → On NodeCounted (last_node bus dev ino name k)
    unfolding last_node
    last_node-IsCounted dev ino [] k c = c
    last_node-IsCounted dev ino (ch ∷ name) k c = vfs_get_direntry-IsCounted dev ino (ch ∷ name) k c

    node_in-IsCounted :
        (bn : List ℕ) (d : ℕ × ℕ × Vfs W) → DirCounted d → On DirCounted (node_in bus bn d)
    unfolding node_in
    node_in-IsCounted bn (dev, ino, k) c =
        if_elim (On DirCounted) (neg ino) _ _ (λ _. c)
          λ _. On-bind NodeCounted DirCounted _ _ (last_node-IsCounted dev ino bn k c) (λ r c1. c1)

    vfs_get_node-IsCounted :
        (client : Pid) (dev path : ℕ) (k : Vfs W)
        → IsCounted k
        → On DirCounted (vfs_get_node bus client dev path k)
    unfolding vfs_get_node
    vfs_get_node-IsCounted client dev path k c =
        On-bind DirCounted DirCounted _ _ (vfs_get_dir-IsCounted client dev path k c)
          (node_in-IsCounted (basename (bus.string_at k.sys path)))

    pub do_stat-IsCounted :
        (garbage : ℕ) (client : Pid) (k : Vfs W)
        → IsCounted k
        → On IsCounted (do_stat bus garbage client k)
    unfolding do_stat
    do_stat-IsCounted garbage client k c =
        On-bind DirCounted IsCounted _ _ (vfs_get_node-IsCounted client garbage k.msg.ino k c)
          (λ r c1. c1)

    exchange_dev-IsCounted :
        (dev : ℕ) (k : Vfs W) → IsCounted k → On IsCounted (exchange_dev bus dev k)
    exchange_dev-IsCounted dev k c = On-IsCounted k _ c (exchange_dev-Same bus dev k)

    link_node-IsCounted :
        (dev dir_ino n : ℕ) (k : Vfs W) → IsCounted k → On IsCounted (link_node bus dev dir_ino n k)
    unfolding link_node
    link_node-IsCounted dev dir_ino n k c =
        let link = record k.msg { cmd = vfs_link; ino = dir_ino; bnum = k.msg.ino; data_of = n } in
        On-bind IsCounted IsCounted (exchange_dev bus dev (with_msg link k)) _
          (exchange_dev-IsCounted dev (with_msg link k) c) (λ k1 c1. c1)

    pub do_mknod-IsCounted :
        (garbage : ℕ) (client : Pid) (k : Vfs W)
        → IsCounted k
        → On IsCounted (do_mknod bus garbage client k)
    unfolding do_mknod
    do_mknod-IsCounted garbage client k c =
        On-bind DirCounted IsCounted _ _ (vfs_get_dir-IsCounted client garbage k.msg.bnum k c)
          λ d c1.
            if_elim (On IsCounted) (neg d.1) _ _ (λ _. c1)
              λ _.
                On-bind IsCounted IsCounted _ _ (exchange_dev-IsCounted d.0 d.2 c1)
                  (link_node-IsCounted d.0 d.1 k.msg.bnum)
