-- ===== src/Servers/Vfs/Pipes.antt =====
-- servers/vfs.c with drivers/pipe.c: reads and writes that go through the server to the pipe
-- device and back.
use avros.Base.{
  ℕ, ◌+◌, ◌%◌, ◌≤◌, ◌<◌, ◌≡◌, refl, Bool, true, false, some, List, [], ◌∷◌, ◌++◌, ◌==◌, length,
  if_elim, ◌&&◌, update, arith,
}
use avros.Kernel.State.{Pid}
use avros.Drivers.Message.{VfsMsg, VfsCmd, vfs_repeat, vfs_readc, vfs_writec, cmd_code}
use avros.Drivers.Pipe.{Nodes, PdNode, Sent, pipedev, pd_rw_at, pd_rw, pd_meet, at_most_one}
use avros.Servers.Vfs.State.{Vfs, neg, is_repeat, with_msg, dev_pid}
use avros.Servers.Vfs.Files.{rw_filp}
use avros.Servers.Vfs.Talk.{PipeSys, pipe_bus, told_of, AllRepeat, transact-pipe}

-- A read or a write.
abbrev pub is_rw : VfsCmd → Bool
is_rw vfs_readc = true
is_rw vfs_writec = true
is_rw _ = false

-- Every request that waits in the pipe names its task.
abbrev pub AllNamed : List VfsMsg → Type 0
AllNamed [] = Unit
AllNamed (m ∷ ms) = ((m.client == 0) ≡ false) × AllNamed ms

rw_not_repeat : (cmd : VfsCmd) → is_rw cmd ≡ true → is_repeat cmd ≡ false
rw_not_repeat vfs_repeat h = cc
rw_not_repeat _ h = refl

-- One message at most that releases a task, and an answer that is no such message.
abbrev SendsFew : Sent × PdNode → Type 0
SendsFew r = AllRepeat r.0.0 × (is_repeat r.0.1.cmd ≡ false) × (length r.0.0 ≤ 1)

pd_meet-SendsFew :
    (cmd : VfsCmd) (m c : VfsMsg) (cs : List VfsMsg) (n : PdNode)
    → (c.client == 0) ≡ false
    → is_repeat m.cmd ≡ false
    → SendsFew (pd_meet cmd m c cs n)
unfolding pd_meet
pd_meet-SendsFew vfs_readc m c cs n named e = (((refl, named), tt), e, omega arith)
pd_meet-SendsFew vfs_writec m c cs n named e = (((refl, named), tt), e, omega arith)
pd_meet-SendsFew _ m c cs n named e = (((refl, named), tt), e, omega arith)

pd_rw-SendsFew :
    (q : List VfsMsg) (m : VfsMsg) (n : PdNode)
    → AllNamed q
    → is_repeat m.cmd ≡ false
    → SendsFew (pd_rw q m n)
unfolding pd_rw
pd_rw-SendsFew [] m n a e =
    if_elim SendsFew (at_most_one n.refcnt && (n.links == 0)) _ _ (λ _. (tt, e, omega arith))
      (λ _. (tt, refl, omega arith))
pd_rw-SendsFew (c ∷ cs) m n a e =
    if_elim SendsFew (cmd_code c.cmd == cmd_code m.cmd) _ _ (λ _. (tt, refl, omega arith))
      (λ _. pd_meet-SendsFew c.cmd m c cs n a.0 e)

pipedev-rw :
    (m : VfsMsg) (cmd : VfsCmd) (n : PdNode) (nodes : Nodes)
    → is_rw cmd ≡ true
    → nodes m.ino ≡ some n
    → pipedev cmd m nodes
      ≡ some ((pd_rw n.msgs m n).0, update nodes m.ino (some (pd_rw n.msgs m n).1))
unfolding pipedev pd_rw_at
pipedev-rw m vfs_readc n nodes h e = rw e refl
pipedev-rw m vfs_writec n nodes h e = rw e refl
pipedev-rw m _ n nodes h e = cc

module _ (fuel fp : ℕ) (pid : Pid) (n : PdNode) (k : Vfs PipeSys) where
  -- The request as the device gets it.
  abbrev pub asked : VfsMsg
  asked = record k.msg { ino = (k.filp fp).ino; bnum = (k.filp fp).pos }

  -- The messages that release tasks, the answer, and the node, by the pipe device.
  abbrev pub served : Sent × PdNode
  served = pd_rw n.msgs asked n

  -- A read or a write on an open file of a pipe comes to an end after at most one message for
  -- another task: with the pipe device idle, its node there and every request that waits in it
  -- naming its task, the server returns with the answer of the device, the device is idle again,
  -- and a task whose request the device released was told so before.
  pub rw_filp-pipe :
      neg fp ≡ false
      → dev_pid (k.filp fp).dev k ≡ some pid
      → k.sys.todo ≡ []
      → is_rw k.msg.cmd ≡ true
      → k.sys.nodes (k.filp fp).ino ≡ some n
      → AllNamed n.msgs
      → 1 < fuel
      → rw_filp pipe_bus fuel fp k
        ≡ some (record k {
          msg = served.0.1;
          sys = record {
            nodes = update k.sys.nodes (k.filp fp).ino (some served.1);
            todo = [];
            told = k.sys.told ++ told_of served.0.0;
          };
          filp =
              update k.filp fp
                (record (k.filp fp) { pos = ((k.filp fp).pos + served.0.1.bnum) % 65536 });
        })
  unfolding rw_filp
  rw_filp-pipe used dev idle cmd node named enough =
      let few = pd_rw-SendsFew n.msgs asked n named (rw_not_repeat k.msg.cmd cmd) in
      let device = pipedev-rw asked k.msg.cmd n k.sys.nodes cmd node in
      rw (used, rw_filp)
        (rw dev (
          rw
            (transact-pipe pid (with_msg asked k) served.0.0 served.0.1 _ fuel idle device few.0
              few.1 (omega (arith, few.2)))
            refl))
