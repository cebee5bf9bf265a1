-- ===== src/Drivers/Ramdisk.antt =====
-- drivers/ramdisk.c: files in memory. `File` is about what is read after it was written,
-- `Create` about new nodes.
mod File
mod Create
mod Tests
use Prim.Native.Nat.{bit_and}
use avros.Base.{
  ℕ, zero, suc, ◌+◌, ◌*◌, ◌/◌, ◌%◌, Bool, true, false, ◌&&◌, ◌||◌, not, Option, none, some, List,
  [], ◌∷◌, ◌==◌, ltb, leb, if◌then◌else◌, update,
}
use avros.Drivers.Message.{
  VfsCmd, VfsMsg, link_ino, minus_one, vfs_mknod, vfs_link, vfs_unlink, vfs_inode_grab,
  vfs_inode_release, vfs_readc, vfs_writec, vfs_get_direntry,
}

abbrev pub mf_max_nodes : ℕ
mf_max_nodes = 8

abbrev pub mf_max_entries : ℕ
mf_max_entries = 16

abbrev pub mf_dir : ℕ
mf_dir = 1

-- `mfnode_t`: the union of a file and of directory entries is its bytes, from 0; an entry has
-- six bytes of name and two of node number.
pub record MfNode : Type 0 where
  pub refcnt : ℕ
  pub links : ℕ
  pub flags : ℕ
  pub file : ℕ → ℕ
  pub size : ℕ

abbrev pub Nodes : Type 0
Nodes = ℕ → Option MfNode

-- A byte as a signed `char` that becomes an `int`.
abbrev pub char_int : ℕ → ℕ
char_int b = if ltb b 128 then b else b + 0xff00

abbrev next_byte : ℕ → ℕ
next_byte n = (n + 1) % 256

abbrev before_byte : ℕ → ℕ
before_byte n = (n + 255) % 256

abbrev pub entry_ino : MfNode → ℕ → ℕ
entry_ino n i = n.file (8 * i + 6) + 256 * n.file (8 * i + 7)

abbrev set_ino : ℕ → ℕ → (ℕ → ℕ) → ℕ → ℕ
set_ino i ino file = update (update file (8 * i + 6) (ino % 256)) (8 * i + 7) (ino / 256 % 256)

unfoldable pub clear_entries : ℕ → ℕ → (ℕ → ℕ) → ℕ → ℕ
clear_entries zero i file = file
clear_entries (suc rounds) i file = clear_entries rounds (suc i) (set_ino i minus_one file)

unfoldable pub empty_node : ℕ → MfNode
unfolding clear_entries
empty_node flags = record {
  refcnt = 0;
  links = 0;
  flags = flags;
  file = if bit_and flags mf_dir == 0 then (λ _. 0) else clear_entries mf_max_entries 0 (λ _. 0);
  size = 0;
}

-- The loop of `mf_create_node`; the heap is taken to have memory, which the code does not test.
unfoldable pub create_loop : ℕ → ℕ → ℕ → Nodes → ℕ × Nodes
unfolding empty_node
create_loop zero ino flags nodes = (minus_one, nodes)
create_loop (suc rounds) ino flags nodes = elim (nodes ino) [
  | none ↦ (ino, update nodes ino (some (empty_node flags)))
  | some _ ↦ create_loop rounds (suc ino) flags nodes
]

unfoldable pub mf_create_node : ℕ → Nodes → ℕ × Nodes
unfolding create_loop
mf_create_node flags nodes = create_loop mf_max_nodes 0 flags nodes

-- `strncpy` of a name to a place in the node.
unfoldable pub copy_name : ℕ → ℕ → List ℕ → (ℕ → ℕ) → ℕ → ℕ
copy_name zero to name file = file
copy_name (suc room) to [] file = copy_name room (suc to) [] (update file to 0)
copy_name (suc room) to (c ∷ cs) file = copy_name room (suc to) cs (update file to c)

unfoldable pub link_loop : ℕ → ℕ → List ℕ → ℕ → MfNode → ℕ × MfNode
unfolding copy_name
link_loop zero i name ino n = (minus_one, n)
link_loop (suc rounds) i name ino n =
    let rest = link_loop rounds (suc i) name ino n in
    if entry_ino n i == minus_one
    then (i, record n { file = copy_name 6 (8 * i) name (set_ino i ino n.file); size = n.size + 1 })
    else rest

unfoldable pub mf_link : List ℕ → ℕ → MfNode → ℕ × MfNode
unfolding link_loop
mf_link name ino n = link_loop mf_max_entries 0 name ino n

-- `!strcmp` of the bytes from `at` on and a name.
unfoldable pub same_name : (ℕ → ℕ) → ℕ → List ℕ → Bool
same_name file at [] = file at == 0
same_name file at (c ∷ cs) = (file at == c) && same_name file (suc at) cs

unfoldable pub direntry_loop : ℕ → ℕ → List ℕ → MfNode → ℕ
unfolding same_name
direntry_loop zero i name n = minus_one
direntry_loop (suc rounds) i name n =
    let rest = direntry_loop rounds (suc i) name n in
    if entry_ino n i == minus_one
    then rest
    else if same_name n.file (8 * i) name
    then entry_ino n i
    else rest

unfoldable pub mf_get_direntry : List ℕ → MfNode → ℕ
unfolding direntry_loop
mf_get_direntry name n = direntry_loop mf_max_entries 0 name n

-- `pos >= 127` on a signed `int`.
abbrev pub past_end : ℕ → Bool
past_end pos = leb 127 pos && ltb pos 32768

-- VFS_WRITEC on a node: `data` and `bnum` of the answer, and the node. `none` for a negative
-- position, where the code writes before the file. `pos` shares its place with `bnum`.
unfoldable pub mf_write : ℕ → ℕ → MfNode → Option (ℕ × ℕ × MfNode)
mf_write pos d n =
    if past_end pos
    then some (minus_one, 0, n)
    else if ltb pos 127
    then some (d, 1, record n { file = update n.file pos (d % 256); size = pos + 1 })
    else none

-- VFS_READC on a node; `none` for a negative position, where the code reads before the file.
unfoldable pub mf_read : ℕ → ℕ → MfNode → Option (ℕ × ℕ)
mf_read pos d n =
    if past_end pos || (ltb pos 32768 && leb n.size pos)
    then some (minus_one, 0)
    else if ltb pos 127
    then some (char_int (n.file pos), 1)
    else none

-- The commands on a node, by the node that the table has.
unfoldable pub on_link : VfsMsg → Option MfNode → Nodes → VfsMsg × Nodes
on_link msg none nodes = (record msg { bnum = minus_one }, nodes)
on_link msg (some n) nodes =
    (msg, update nodes (link_ino msg) (some (record n { links = next_byte n.links })))

abbrev unless_unused : MfNode → Option MfNode
unless_unused n = if not (n.refcnt == 0) || not (n.links == 0) then some n else none

unfoldable pub on_unlink : VfsMsg → Option MfNode → Nodes → VfsMsg × Nodes
on_unlink msg none nodes = (record msg { bnum = minus_one }, nodes)
on_unlink msg (some n) nodes =
    (msg, update nodes (link_ino msg) (unless_unused (record n { links = before_byte n.links })))

unfoldable pub on_grab : VfsMsg → Option MfNode → Nodes → VfsMsg × Nodes
on_grab msg none nodes = (record msg { ino = minus_one }, nodes)
on_grab msg (some n) nodes =
    (msg, update nodes msg.ino (some (record n { refcnt = next_byte n.refcnt })))

unfoldable pub on_release : VfsMsg → Option MfNode → Nodes → VfsMsg × Nodes
on_release msg none nodes = (record msg { ino = minus_one }, nodes)
on_release msg (some n) nodes =
    (msg, update nodes msg.ino (unless_unused (record n { refcnt = before_byte n.refcnt })))

unfoldable pub on_write : VfsMsg → Option MfNode → Nodes → Option (VfsMsg × Nodes)
unfolding mf_write
on_write msg none nodes =
    if past_end msg.bnum then some (record msg { data_of = minus_one; bnum = 0 }, nodes) else none
on_write msg (some n) nodes = elim (mf_write msg.bnum msg.data_of n) [
  | none ↦ none
  | some r ↦ some (record msg { data_of = r.0; bnum = r.1 }, update nodes msg.ino (some r.2))
]

unfoldable pub on_read : VfsMsg → Option MfNode → Nodes → Option (VfsMsg × Nodes)
unfolding mf_read
on_read msg none nodes =
    if past_end msg.bnum then some (record msg { data_of = minus_one; bnum = 0 }, nodes) else none
on_read msg (some n) nodes = elim (mf_read msg.bnum msg.data_of n) [
  | none ↦ none
  | some r ↦ some (record msg { data_of = r.0; bnum = r.1 }, nodes)
]

unfoldable pub on_direntry : List ℕ → VfsMsg → Option MfNode → Nodes → Option (VfsMsg × Nodes)
unfolding mf_get_direntry
on_direntry name msg none nodes = none
on_direntry name msg (some n) nodes = some (
  record msg { bnum = if bit_and n.flags mf_dir == 0 then minus_one else mf_get_direntry name n },
  nodes,
)

-- A pass of the loop of `memfile` after `receive`, with the name to which the message points;
-- `none` when the code reads or writes through a null node or outside a file.
unfoldable pub memfile : VfsCmd → List ℕ → VfsMsg → Nodes → Option (VfsMsg × Nodes)
unfolding mf_create_node on_link on_unlink on_grab on_release on_write on_read on_direntry
memfile vfs_mknod name msg nodes =
    let r = mf_create_node 0 nodes in some (record msg { ino = r.0 }, r.1)
memfile vfs_link name msg nodes = some (on_link msg (nodes (link_ino msg)) nodes)
memfile vfs_unlink name msg nodes = some (on_unlink msg (nodes (link_ino msg)) nodes)
memfile vfs_inode_grab name msg nodes = some (on_grab msg (nodes msg.ino) nodes)
memfile vfs_inode_release name msg nodes = some (on_release msg (nodes msg.ino) nodes)
memfile vfs_writec name msg nodes = on_write msg (nodes msg.ino) nodes
memfile vfs_readc name msg nodes = on_read msg (nodes msg.ino) nodes
memfile vfs_get_direntry name msg nodes = on_direntry name msg (nodes (link_ino msg)) nodes
memfile _ name msg nodes = some (msg, nodes)
