-- ===== src/Servers/Vfs/Walk.antt =====
-- servers/vfs.c: what a path stands for: a walk over its parts.
use avros.Base.{
  ℕ, ◌≡◌, refl, true, false, none, some, Option, List, [], ◌∷◌, ◌++◌, ◌==◌, if◌then◌else◌,
  Bool-cases, inl, inr, ◌>>=◌, >>=_assoc, ap, sym, ◌∙◌,
}
use avros.Kernel.State.{Pid}
use avros.Queue.{null}
use avros.Drivers.Message.{minus_one}
use avros.Servers.Vfs.State.{VfsTask, Vfs, Bus, neg}
use avros.Servers.Vfs.Files.{client_task}
use avros.Servers.Vfs.Names.{
  slash, basename, basename_loop, vfs_get_direntry, get_dir_loop, walk_dirs, dir_of, vfs_get_dir,
  last_node, node_in, with_dev, vfs_get_node,
}

-- The parts of a path between its slashes, where `part` has what stands before.
unfoldable pub parts_from : List ℕ → List ℕ → List ℕ × List (List ℕ)
parts_from part [] = (part, [])
parts_from part (c ∷ path) =
    let (next, rest) = parts_from (if c == slash then [] else part ++ c ∷ []) path in
    if c == slash then (part, next ∷ rest) else (next, rest)

basename-slash : (c : ℕ) (path : List ℕ) → (c == slash) ≡ true → basename (c ∷ path) ≡ basename path
unfolding basename basename_loop
basename-slash c path e = rw e refl

module _ {W : Type 0} (bus : Bus W) (dev : ℕ) where
  -- From the node `ino` by the part `name` and then the others: a look-up in the directory each
  -- time, which ends with −1 at a node that is not there. A last part that is empty names the
  -- directory itself.
  unfoldable pub walk : ℕ → List ℕ → List (List ℕ) → Vfs W → Option (ℕ × Vfs W)
  walk ino name [] k = if neg ino then some (minus_one, k) else last_node bus dev ino name k
  walk ino name (next ∷ rest) k =
      if neg ino
      then some (minus_one, k)
      else (vfs_get_direntry bus dev ino name k >>= λ r. walk r.0 next rest r.1)

  -- What `vfs_get_node` does after the walk over the directories.
  abbrev finish : List ℕ → ℕ × Vfs W → Option (ℕ × Vfs W)
  finish name r = if neg r.0 then some (minus_one, r.1) else last_node bus dev r.0 name r.1

  walk-neg :
      (ino : ℕ) (name : List ℕ) (rest : List (List ℕ)) (k : Vfs W)
      → neg ino ≡ true
      → walk ino name rest k ≡ some (minus_one, k)
  unfolding walk
  walk-neg ino name [] k e = rw e refl
  walk-neg ino name (next ∷ rest) k e = rw e refl

  -- After a look-up the loop goes on from the node, if there is one.
  after_lookup :
      (path : List ℕ) (r : ℕ × Vfs W)
      → (neg r.0 ≡ false
          → (get_dir_loop bus dev path [] r.0 r.1 >>= finish (basename_loop path []))
            ≡ walk r.0 (parts_from [] path).0 (parts_from [] path).1 r.1)
      → ((elim (neg r.0) [ true ↦ some r | false ↦ get_dir_loop bus dev path [] r.0 r.1 ])
          >>= finish (basename_loop path []))
        ≡ walk r.0 (parts_from [] path).0 (parts_from [] path).1 r.1
  after_lookup path r ih = elim (Bool-cases (neg r.0)) [
    | inl e ↦ rw e (rw e (sym (walk-neg r.0 _ _ r.1 e)))
    | inr e ↦ rw e (ih e)
  ]

  loop-walk :
      (path part : List ℕ) (ino : ℕ) (k : Vfs W)
      → neg ino ≡ false
      → (get_dir_loop bus dev path part ino k >>= finish (basename_loop path part))
        ≡ walk ino (parts_from part path).0 (parts_from part path).1 k
  unfolding get_dir_loop basename_loop parts_from walk
  loop-walk [] part ino k e = rw e refl
  loop-walk (c ∷ path) part ino k e = elim (Bool-cases (c == slash)) [
    | inr n ↦ rw (n, get_dir_loop) (loop-walk path (part ++ c ∷ []) ino k e)
    | inl s ↦
        rw (s, get_dir_loop)
          (rw e (
            >>=_assoc (vfs_get_direntry bus dev ino part k) _ _
              λ r. after_lookup path r (loop-walk path [] r.0 r.1)))
  ]

  dirs-walk :
      (path : List ℕ) (ino : ℕ) (k : Vfs W)
      → (walk_dirs bus dev path ino k >>= finish (basename path))
        ≡ walk ino (parts_from [] path).0 (parts_from [] path).1 k
  unfolding walk_dirs basename
  dirs-walk path ino k = elim (Bool-cases (neg ino)) [
    | inl e ↦ rw e (rw e (sym (walk-neg ino _ _ k e)))
    | inr e ↦ rw e (loop-walk path [] ino k e)
  ]

module _ {W : Type 0} (bus : Bus W) where
  -- The two halves of `vfs_get_node`, from the directory on.
  from_dir :
      (dev : ℕ) (path : List ℕ) (ino : ℕ) (k : Vfs W)
      → ((walk_dirs bus dev path ino k >>= with_dev dev) >>= node_in bus (basename path))
        ≡ (walk bus dev ino (parts_from [] path).0 (parts_from [] path).1 k >>= with_dev dev)
  unfolding node_in
  from_dir dev path ino k =
      let at_name = finish bus dev (basename path) in
      >>=_assoc (walk_dirs bus dev path ino k) (with_dev dev) (node_in bus (basename path))
        {h = λ r. at_name r >>= with_dev dev}
        (λ r. elim (Bool-cases (neg r.0)) [ inl e ↦ rw e refl | inr e ↦ rw e refl ])
      ∙ sym (>>=_assoc (walk_dirs bus dev path ino k) at_name (with_dev dev) (λ r. refl))
      ∙ ap (λ m. m >>= with_dev dev) (dirs-walk bus dev path ino k)

  -- A path in the tree of a task: from its root if it begins with a slash, and else from its
  -- working directory, part by part.
  unfoldable pub resolve : VfsTask → List ℕ → Vfs W → Option (ℕ × ℕ × Vfs W)
  unfolding parts_from walk
  resolve t [] k = none
  resolve t (c ∷ path) k =
      let absolute = c == slash in
      let dev = if absolute then t.rdev else t.wdev in
      let ino = if absolute then t.rino else t.wino in
      let parts = parts_from [] (if absolute then path else c ∷ path) in
      walk bus dev ino parts.0 parts.1 k >>= with_dev dev

  -- For a client of the server and a name that is not empty, the node of the name is found by a
  -- walk over its parts, from the client's root if the name begins with a slash and else from its
  -- working directory: each part but the last is looked up in the node before, up to one that is
  -- not there, and so is the last part if it is not empty.
  pub vfs_get_node-resolve :
      (client : Pid) (dev path c : ℕ) (cs : List ℕ) (t : VfsTask) (k : Vfs W)
      → (path == null) ≡ false
      → bus.string_at k.sys path ≡ c ∷ cs
      → client_task client k ≡ some t
      → vfs_get_node bus client dev path k ≡ resolve t (c ∷ cs) k
  unfolding vfs_get_node vfs_get_dir dir_of resolve
  vfs_get_node-resolve client dev path c cs t k some_path s found = elim (Bool-cases (c == slash)) [
    | inl e ↦
        rw (some_path, vfs_get_node)
          (rw s (rw found (rw (basename-slash c cs e) (rw e (from_dir t.rdev cs t.rino k)))))
    | inr e ↦
        rw (some_path, vfs_get_node) (rw s (rw found (rw e (from_dir t.wdev (c ∷ cs) t.wino k))))
  ]
