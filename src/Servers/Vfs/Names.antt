-- ===== src/Servers/Vfs/Names.antt =====
-- servers/vfs.c: from names to nodes. A string is the list of its characters before the end; a
-- pointer to characters with a length stands for the list of them.
use avros.Base.{
  ℕ, ◌+◌, true, false, Option, none, some, List, [], ◌∷◌, ◌++◌, ◌==◌, ◌>>=◌, length, if◌then◌else◌,
}
use avros.Kernel.State.{Pid}
use avros.Queue.{Ptr, null}
use avros.Drivers.Message.{VfsMsg, minus_one, vfs_get_direntry as get_direntry, vfs_link}
use avros.Servers.Vfs.State.{Bus, Vfs, VfsTask, neg, with_msg, dev_pid}
use avros.Servers.Vfs.Files.{result, client_task, exchange_dev}

-- `'/'`
abbrev pub slash : ℕ
slash = b'/'

-- The loop of `basename`, with the characters since the last slash; it has their number too.
unfoldable pub basename_loop : List ℕ → List ℕ → List ℕ
basename_loop [] bn = bn
basename_loop (c ∷ path) bn = basename_loop path (if c == slash then [] else bn ++ c ∷ [])

unfoldable pub basename : List ℕ → List ℕ
unfolding basename_loop
basename path = basename_loop path []

-- VFS_GET_DIRENTRY, in a new message, of which the device reads the fields that are set.
abbrev pub direntry_request : ℕ → Ptr → VfsMsg
direntry_request ino n = record { cmd = get_direntry; client = 0; ino = 0; bnum = ino; data_of = n }

abbrev pub with_dev : {W : Type 0} → ℕ → ℕ × Vfs W → Option (ℕ × ℕ × Vfs W)
with_dev dev r = some (dev, r.0, r.1)

module _ {W : Type 0} (bus : Bus W) where
  -- The request, and the copy of the name, at `n`, given back.
  unfoldable pub ask_direntry : Pid → ℕ → Ptr → Vfs W → Option (ℕ × Vfs W)
  ask_direntry pid ino n k = bus.sendrec pid (direntry_request ino n) k.sys >>= λ r.
      some (r.0.bnum, record k { sys = bus.memory.give r.1 n })

  -- The node that the directory `ino` has under the name.
  unfoldable pub vfs_get_direntry : ℕ → ℕ → List ℕ → Vfs W → Option (ℕ × Vfs W)
  unfolding ask_direntry
  vfs_get_direntry dev ino name k =
      let (n, w) = bus.memory.take k.sys (length name + 1) in
      if n == null
      then some (minus_one, record k { sys = w })
      else (dev_pid dev k >>= λ pid.
          ask_direntry pid ino n (record k { sys = bus.put_string n name w }))

  -- The loop of `vfs_get_dir`: `part` has the characters that the inner loop went over.
  unfoldable pub get_dir_loop : ℕ → List ℕ → List ℕ → ℕ → Vfs W → Option (ℕ × Vfs W)
  get_dir_loop dev [] part ino k = some (ino, k)
  get_dir_loop dev (c ∷ path) part ino k = elim (c == slash) [
    | false ↦ get_dir_loop dev path (part ++ c ∷ []) ino k
    | true ↦ vfs_get_direntry dev ino part k >>= λ r. elim (neg r.0) [
      | true ↦ some r
      | false ↦ get_dir_loop dev path [] r.0 r.1
    ]
  ]

  -- The loop, if it is entered at all.
  unfoldable pub walk_dirs : ℕ → List ℕ → ℕ → Vfs W → Option (ℕ × Vfs W)
  unfolding get_dir_loop
  walk_dirs dev path ino k = if neg ino then some (ino, k) else get_dir_loop dev path [] ino k

  -- The device and the directory of a path that is not empty, for the task `t`.
  unfoldable pub dir_of : VfsTask → List ℕ → Vfs W → Option (ℕ × ℕ × Vfs W)
  unfolding walk_dirs
  dir_of t [] k = none
  dir_of t (c ∷ path) k =
      if c == slash
      then (walk_dirs t.rdev path t.rino k >>= with_dev t.rdev)
      else (walk_dirs t.wdev (c ∷ path) t.wino k >>= with_dev t.wdev)

  -- `*dev` is `dev` before the call, and stays so if there is no path.
  unfoldable pub vfs_get_dir : Pid → ℕ → Ptr → Vfs W → Option (ℕ × ℕ × Vfs W)
  unfolding dir_of
  vfs_get_dir client dev path k =
      if path == null then some (dev, minus_one, k) else elim (bus.string_at k.sys path) [
        | [] ↦ some (dev, minus_one, k)
        | c ∷ cs ↦ client_task client k >>= λ t. dir_of t (c ∷ cs) k
      ]

  -- The last part of the path, in the directory `ino`.
  unfoldable pub last_node : ℕ → ℕ → List ℕ → Vfs W → Option (ℕ × Vfs W)
  unfolding vfs_get_direntry
  last_node dev ino [] k = some (ino, k)
  last_node dev ino (c ∷ bn) k = vfs_get_direntry dev ino (c ∷ bn) k

  -- The second half of `vfs_get_node`, from the directory on.
  unfoldable pub node_in : List ℕ → ℕ × ℕ × Vfs W → Option (ℕ × ℕ × Vfs W)
  unfolding last_node
  node_in bn (dev, ino, k) =
      if neg ino then some (dev, minus_one, k) else (last_node dev ino bn k >>= with_dev dev)

  -- The client waits for the answer, and so its name stays as it is.
  unfoldable pub vfs_get_node : Pid → ℕ → Ptr → Vfs W → Option (ℕ × ℕ × Vfs W)
  unfolding vfs_get_dir node_in
  vfs_get_node client dev path k =
      vfs_get_dir client dev path k >>= node_in (basename (bus.string_at k.sys path))

  -- `do_mknod` links the new node, `msg.ino`, under the name `n` in the directory.
  unfoldable pub link_node : ℕ → ℕ → Ptr → Vfs W → Option (Vfs W)
  unfolding exchange_dev
  link_node dev dir_ino n k =
      let ino = k.msg.ino in
      let link = record k.msg { cmd = vfs_link; ino = dir_ino; bnum = ino; data_of = n } in
      exchange_dev bus dev (with_msg link k) >>= λ k1.
      some (result (if neg k1.msg.bnum then minus_one else ino) k1)

  -- `garbage` is what the local `dev` holds before it is written.
  unfoldable pub do_mknod : ℕ → Pid → Vfs W → Option (Vfs W)
  unfolding vfs_get_dir exchange_dev link_node
  do_mknod garbage client k = do
    let n = k.msg.bnum
    d ← vfs_get_dir client garbage n k
    if neg d.1
        then some (result minus_one d.2)
        else (exchange_dev bus d.0 d.2 >>= link_node d.0 d.1 n)

  unfoldable pub do_stat : ℕ → Pid → Vfs W → Option (Vfs W)
  unfolding vfs_get_node
  do_stat garbage client k = do
    r ← vfs_get_node client garbage k.msg.ino k
    some (
        with_msg
          (record r.2.msg { ino = if neg r.1 then minus_one else 0; bnum = r.0; data_of = r.1 })
          r.2)
