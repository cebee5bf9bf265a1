-- ===== src/Drivers/Pipe.antt =====
-- drivers/pipe.c: the pipe device. `Transfers` and `Fifo` are about the data that
-- goes through a pipe.
pub mod Transfers
pub mod Fifo
mod Tests
use avros.Base.{
  ℕ, zero, suc, ◌+◌, ◌%◌, Bool, true, false, ◌&&◌, ◌||◌, not, Option, none, some, List, [], ◌∷◌,
  ◌++◌, ◌==◌, ltb, if◌then◌else◌, update,
}
use avros.Drivers.Message.{
  VfsCmd, VfsMsg, link_ino, cmd_code, minus_one, vfs_hold, vfs_repeat, vfs_mknod, vfs_link,
  vfs_unlink, vfs_inode_grab, vfs_inode_release, vfs_readc, vfs_writec,
}

abbrev pd_max_nodes : ℕ
pd_max_nodes = 8

-- `pdnode_t`: the counts are signed bytes, the queue holds copies of requests.
pub record PdNode : Type 0 where
  pub refcnt : ℕ
  pub links : ℕ
  pub msgs : List VfsMsg

-- The array of nodes. An index that is out of range reads past the array, which is not modelled:
-- there the array is empty.
abbrev pub Nodes : Type 0
Nodes = ℕ → Option PdNode

abbrev next_byte : ℕ → ℕ
next_byte n = (n + 1) % 256

abbrev before_byte : ℕ → ℕ
before_byte n = (n + 255) % 256

-- `refcnt <= 1` on a signed byte.
abbrev pub at_most_one : ℕ → Bool
at_most_one n = ltb n 2 || ltb 127 n

abbrev is_none : Option PdNode → Bool
is_none none = true
is_none (some _) = false

unfoldable pub find_loop : ℕ → ℕ → Nodes → Option ℕ
find_loop zero i list = none
find_loop (suc rounds) i list =
    let rest = find_loop rounds (i + 1) list in if is_none (list i) then some i else rest

unfoldable pub pd_find_empty_node : Nodes → Option ℕ
unfolding find_loop
pd_find_empty_node list = find_loop pd_max_nodes 0 list

-- What the device sends: the requests that it releases, in order, then the answer.
abbrev pub Sent : Type 0
Sent = List VfsMsg × VfsMsg

-- VFS_MKNOD; `none` when the table is full, as the code then writes before the array. The heap
-- is taken to have memory, which the code does not test.
unfoldable pub pd_mknod : VfsMsg → Nodes → Option (Sent × Nodes)
unfolding pd_find_empty_node
pd_mknod msg nodes = elim (pd_find_empty_node nodes) [
  | none ↦ none
  | some i ↦ some (
    ([], record msg { ino = i }),
    update nodes i (some (record { refcnt = 0; links = 0; msgs = [] })),
  )
]

unfoldable pub pd_link : VfsMsg → Option PdNode → Nodes → Sent × Nodes
pd_link msg none nodes = (([], record msg { bnum = minus_one }), nodes)
pd_link msg (some n) nodes =
    (([], msg), update nodes (link_ino msg) (some (record n { links = next_byte n.links })))

unfoldable pub pd_unlink : VfsMsg → Option PdNode → Nodes → Sent × Nodes
pd_unlink msg none nodes = (([], record msg { bnum = minus_one }), nodes)
pd_unlink msg (some n) nodes =
    let links = before_byte n.links in
    (
      ([], msg),
      update nodes (link_ino msg) (
          if not (n.refcnt == 0) || not (links == 0)
          then some (record n { links = links })
          else none),
    )

unfoldable pub pd_grab : VfsMsg → Option PdNode → Nodes → Sent × Nodes
pd_grab msg none nodes = (([], record msg { ino = minus_one }), nodes)
pd_grab msg (some n) nodes =
    (([], msg), update nodes msg.ino (some (record n { refcnt = next_byte n.refcnt })))

-- The loop over the waiting requests when one end goes: each is told the end of the file.
unfoldable pub end_all : List VfsMsg → List VfsMsg
end_all [] = []
end_all (c ∷ cs) = record c { data_of = minus_one; bnum = 0; cmd = vfs_repeat } ∷ end_all cs

unfoldable pub pd_release : VfsMsg → Option PdNode → Nodes → Sent × Nodes
unfolding end_all
pd_release msg none nodes = (([], record msg { ino = minus_one }), nodes)
pd_release msg (some n) nodes =
    let refcnt = before_byte n.refcnt in
    if refcnt == 1
    then (
      (end_all n.msgs, msg),
      update nodes msg.ino (some (record n { refcnt = refcnt; msgs = [] })),
    )
    else (
      ([], msg),
      update nodes msg.ino (
          if not (refcnt == 0) || not (n.links == 0)
          then some (record n { refcnt = refcnt })
          else none),
    )

-- A request that has to wait.
abbrev pub held : VfsMsg → PdNode → Sent × PdNode
held msg n = (([], record msg { cmd = vfs_hold; bnum = 0 }), record n { msgs = n.msgs ++ msg ∷ [] })

-- A request that meets a waiting one of the other kind, `c`.
unfoldable pub pd_meet : VfsCmd → VfsMsg → VfsMsg → List VfsMsg → PdNode → Sent × PdNode
pd_meet vfs_readc msg c cs n = (
  (record c { data_of = msg.data_of; cmd = vfs_repeat; bnum = 0 } ∷ [], record msg { bnum = 0 }),
  record n { msgs = cs },
)
pd_meet vfs_writec msg c cs n = (
  (record c { cmd = vfs_repeat; bnum = 0 } ∷ [], record msg { data_of = c.data_of; bnum = 0 }),
  record n { msgs = cs },
)
pd_meet _ msg c cs n = (
  (record c { cmd = vfs_repeat; bnum = 0 } ∷ [], record msg { bnum = 0 }),
  record n { msgs = cs },
)

-- VFS_WRITEC and VFS_READC on a node, by its queue.
unfoldable pub pd_rw : List VfsMsg → VfsMsg → PdNode → Sent × PdNode
unfolding pd_meet
pd_rw [] msg n =
    if at_most_one n.refcnt && (n.links == 0)
    then (([], record msg { data_of = minus_one; bnum = 0 }), n)
    else held msg n
pd_rw (c ∷ cs) msg n =
    if cmd_code c.cmd == cmd_code msg.cmd then held msg n else pd_meet c.cmd msg c cs n

unfoldable pub pd_rw_at : VfsMsg → Option PdNode → Nodes → Option (Sent × Nodes)
unfolding pd_rw
pd_rw_at msg none nodes = none
pd_rw_at msg (some n) nodes =
    let (sent, n') = pd_rw n.msgs msg n in some (sent, update nodes msg.ino (some n'))

-- A pass of the loop of `pipedev` after `receive`; `none` when the code leaves its memory: a
-- read or write of a node that does not exist, or a node too many.
unfoldable pub pipedev : VfsCmd → VfsMsg → Nodes → Option (Sent × Nodes)
unfolding pd_mknod pd_link pd_unlink pd_grab pd_release pd_rw_at
pipedev vfs_mknod msg nodes = pd_mknod msg nodes
pipedev vfs_link msg nodes = some (pd_link msg (nodes (link_ino msg)) nodes)
pipedev vfs_unlink msg nodes = some (pd_unlink msg (nodes (link_ino msg)) nodes)
pipedev vfs_inode_grab msg nodes = some (pd_grab msg (nodes msg.ino) nodes)
pipedev vfs_inode_release msg nodes = some (pd_release msg (nodes msg.ino) nodes)
pipedev vfs_readc msg nodes = pd_rw_at msg (nodes msg.ino) nodes
pipedev vfs_writec msg nodes = pd_rw_at msg (nodes msg.ino) nodes
pipedev _ msg nodes = some (([], msg), nodes)
