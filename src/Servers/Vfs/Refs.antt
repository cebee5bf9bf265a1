-- ===== src/Servers/Vfs/Refs.antt =====
-- servers/vfs.c: the reference counts of the open files. `Counts` is about the descriptors,
-- `Moves` about the writes to the tables, `Keeps` about the calls; here is the whole pass.
pub mod Counts
pub mod Moves
pub mod Keeps
pub mod Passes
pub mod Removal
use avros.Base.{
  ℕ, zero, suc, ◌+◌, ◌≤◌, ◌<◌, ◌≡◌, ◌∙◌, refl, Bool, true, false, none, some, Option, List, [], ◌∷◌,
  ◌++◌, arith, ◌&&◌, ◌||◌, ◌==◌, ltb, not, if◌then◌else◌, get_elem?, set, Bool-cases, List-cases,
  Option-cases, inl, inr, if_elim, On, On-bind, On-bind_eq, ◌>>=◌, update, subst, ap, length,
}
use avros.Kernel.State.{Pid}
use avros.Queue.{null}
use avros.Drivers.Message.{
  VfsMsg, VfsCmd, minus_one, cmd_code, vfs_hold, vfs_repeat, vfs_final, vfs_rd_interrupt,
  vfs_wr_interrupt, vfs_inode_grab, vfs_inode_release, vfs_link, vfs_unlink, vfs_mknod, vfs_mkdev,
  vfs_get_direntry, vfs_debug, vfs_stat, vfs_dup, vfs_pipe, vfs_open, vfs_close, vfs_creat,
  vfs_readc, vfs_writec, vfs_addtask, vfs_deltask,
}
use avros.Servers.Vfs.State.{
  VfsTask, Filp, Vfs, Bus, max_fd, max_filp, neg, find_empty_devtab, vfs_findbypid, put_task,
  remove_task, with_msg,
}
use avros.Servers.Vfs.Files.{result, do_close}
use avros.Servers.Vfs.Loop.{
  close_all, vfs_removetask, inherit, find_parent, vfs_addnewtask, do_mkdev, vfs_init, no_tables,
  do_debug, serve, vfs_reply, vfs, fresh_task, sizeof_vfs_task,
}
use avros.Servers.Vfs.Refs.Counts.{refs, refs-remove, AllTasks-remove, length-remove_le}
use avros.Servers.Vfs.Refs.Moves.{Counted, Counted-fresh, Counted-inherit}
use avros.Servers.Vfs.Refs.Keeps.{
  IsCounted, On-IsCounted, do_dup-IsCounted, do_close-IsCounted, do_open-IsCounted, do_rw-IsCounted,
  do_int-IsCounted, answer-Same,
}
use avros.Servers.Vfs.Refs.Removal.{removetask-IsCounted}
use avros.Servers.Vfs.Refs.Passes.{do_pipe-IsCounted, do_stat-IsCounted, do_mknod-IsCounted}

abbrev ServeCounted : {W : Type 0} → Pid × Vfs W → Type 0
ServeCounted r = IsCounted r.1

on_some {ℓ κ} : {A : Type ℓ} (P : A → Type κ) {m : Option A} (a : A) → m ≡ some a → On P m → P a
on_some P a e h = subst (On P) e h

module _ {W : Type 0} (bus : Bus W) where
  parent-IsCounted :
      (fuel at : ℕ) (pid : Pid) (k : Vfs W) (older : List VfsTask)
      → length older ≤ 30
      → Counted older k.filp
      → k.tasks ≡ older ++ fresh_task at pid ∷ []
      → On IsCounted (find_parent bus fuel (fresh_task at pid) older k)
  unfolding find_parent inherit
  parent-IsCounted fuel at pid k older few c e =
      let c1 : IsCounted k = rw e (Counted-fresh at pid older k.filp few c) in
      elim (Option-cases (vfs_findbypid k.msg.bnum k.tasks)) [
        | inl lost ↦
            rw (lost, find_parent)
              (On-bind IsCounted IsCounted _ _ (removetask-IsCounted bus fuel k c1) (λ k1 c2. c2))
        | inr (parent, found) ↦
            rw (found, find_parent)
              (Counted-inherit (fresh_task at pid) parent k.msg.bnum older k.filp few c
                (subst (λ ts. vfs_findbypid k.msg.bnum ts ≡ some parent) e found))
      ]

  addnewtask-IsCounted :
      (fuel : ℕ) (k : Vfs W)
      → length k.tasks ≤ 30
      → IsCounted k
      → On IsCounted (vfs_addnewtask bus fuel k)
  unfolding vfs_addnewtask
  addnewtask-IsCounted fuel k few c =
      let at = (bus.memory.take k.sys sizeof_vfs_task).0 in
      if_elim (On IsCounted) (at == null) _ _ (λ _. c)
        λ _.
          if_elim (On IsCounted) (k.msg.bnum == 0) _ _
            (λ _. Counted-fresh at k.msg.ino k.tasks k.filp few c)
            (λ _. parent-IsCounted fuel at k.msg.ino _ k.tasks few c refl)

  mkdev-IsCounted : (k : Vfs W) → IsCounted k → IsCounted (do_mkdev bus k)
  unfolding do_mkdev
  mkdev-IsCounted k c = elim (Option-cases (find_empty_devtab k.devtab)) [
    | inl e ↦ rw (e, do_mkdev) c
    | inr (i, e) ↦ rw (e, do_mkdev) c
  ]

  -- What comes after a call that returned no other state.
  then_to :
      (to : Vfs W → Pid) (m : Option (Vfs W))
      → On IsCounted m
      → On ServeCounted (m >>= λ k1. some (to k1, k1))
  then_to to none h = tt
  then_to to (some k) h = h

  serve-IsCounted :
      (fuel garbage : ℕ) (cmd : VfsCmd) (client : Pid) (k : Vfs W)
      → length k.tasks ≤ 30
      → IsCounted k
      → On ServeCounted (serve bus fuel garbage cmd client k)
  unfolding serve
  serve-IsCounted fuel garbage vfs_addtask client k few c =
      then_to (λ _. client) _ (addnewtask-IsCounted fuel k few c)
  serve-IsCounted fuel garbage vfs_deltask client k few c =
      then_to (λ _. client) _ (removetask-IsCounted bus fuel k c)
  serve-IsCounted fuel garbage vfs_mkdev client k few c = mkdev-IsCounted k c
  serve-IsCounted fuel garbage vfs_mknod client k few c =
      then_to (λ _. client) _ (do_mknod-IsCounted bus garbage client k c)
  serve-IsCounted fuel garbage vfs_dup client k few c =
      then_to (λ _. client) _ (do_dup-IsCounted client k c)
  serve-IsCounted fuel garbage vfs_pipe client k few c =
      then_to (λ _. client) _ (do_pipe-IsCounted bus client k c)
  serve-IsCounted fuel garbage vfs_stat client k few c =
      then_to (λ _. client) _ (do_stat-IsCounted bus garbage client k c)
  serve-IsCounted fuel garbage vfs_open client k few c =
      then_to (λ _. client) _ (do_open-IsCounted bus client k c)
  serve-IsCounted fuel garbage vfs_close client k few c =
      then_to (λ _. client) _ (do_close-IsCounted bus fuel client k c)
  serve-IsCounted fuel garbage vfs_rd_interrupt client k few c =
      then_to (λ k1. k1.msg.client) _ (do_int-IsCounted bus fuel k c)
  serve-IsCounted fuel garbage vfs_wr_interrupt client k few c =
      then_to (λ k1. k1.msg.client) _ (do_int-IsCounted bus fuel k c)
  serve-IsCounted fuel garbage vfs_readc client k few c =
      then_to (λ _. client) _ (do_rw-IsCounted bus fuel client _ c)
  serve-IsCounted fuel garbage vfs_writec client k few c =
      then_to (λ _. client) _ (do_rw-IsCounted bus fuel client _ c)
  serve-IsCounted fuel garbage vfs_debug client k few c = c
  serve-IsCounted fuel garbage vfs_hold client k few c = c
  serve-IsCounted fuel garbage vfs_repeat client k few c = c
  serve-IsCounted fuel garbage vfs_final client k few c = c
  serve-IsCounted fuel garbage vfs_inode_grab client k few c = c
  serve-IsCounted fuel garbage vfs_inode_release client k few c = c
  serve-IsCounted fuel garbage vfs_link client k few c = c
  serve-IsCounted fuel garbage vfs_unlink client k few c = c
  serve-IsCounted fuel garbage vfs_get_direntry client k few c = c
  serve-IsCounted fuel garbage vfs_creat client k few c = c

  reply-IsCounted : (to : Pid) (k : Vfs W) → IsCounted k → On IsCounted (vfs_reply bus to k)
  unfolding vfs_reply
  reply-IsCounted to k c =
      let m = record k.msg { cmd = vfs_final } in
      if_elim (On IsCounted) (not (cmd_code k.msg.cmd == cmd_code vfs_hold) && not (to == 0)) _ _
        (λ _. On-IsCounted (with_msg m k) _ c (answer-Same bus to (with_msg m k))) (λ _. c)

  vfs-IsCounted :
      (fuel garbage : ℕ) (client : Pid) (msg : VfsMsg) (k : Vfs W)
      → length k.tasks ≤ 30
      → IsCounted k
      → On IsCounted (vfs bus fuel garbage client msg k)
  unfolding vfs
  vfs-IsCounted fuel garbage client msg k few c =
      On-bind ServeCounted IsCounted (serve bus fuel garbage msg.cmd client (with_msg msg k)) _
        (serve-IsCounted fuel garbage msg.cmd client (with_msg msg k) few c)
        (λ r. reply-IsCounted r.0 r.1)

  -- The states that the server comes to from its start, with at most 30 tasks when a request is
  -- taken.
  pub data Reach : Vfs W → Type 0 where
    here : (pipedev : ℕ) (msg : VfsMsg) (sys : W) → Reach (vfs_init bus pipedev msg sys)
    next :
        {k k' : Vfs W}
        → Reach k
        → length k.tasks ≤ 30
        → (fuel garbage : ℕ) (client : Pid) (msg : VfsMsg)
        → vfs bus fuel garbage client msg k ≡ some k'
        → Reach k'

  init-IsCounted : (pipedev : ℕ) (msg : VfsMsg) (sys : W) → IsCounted (vfs_init bus pipedev msg sys)
  unfolding vfs_init refs
  init-IsCounted pipedev msg sys =
      mkdev-IsCounted (no_tables (record msg { cmd = vfs_mkdev; ino = pipedev; bnum = 0 }) sys)
        (record { fds = tt; few = omega arith; counts = λ p l. refl })

  -- Whatever requests come, the reference count of each open file is the number of descriptors
  -- that stand for it, and a descriptor is free or stands for an open file of the table. A
  -- request is taken while there are at most 30 tasks.
  pub Reach-IsCounted : (k : Vfs W) → Reach k → IsCounted k
  Reach-IsCounted k (here pipedev msg sys) = init-IsCounted pipedev msg sys
  Reach-IsCounted k (next {k = k0} r few fuel garbage client msg e) =
      on_some IsCounted k e (vfs-IsCounted fuel garbage client msg k0 few (Reach-IsCounted k0 r))
