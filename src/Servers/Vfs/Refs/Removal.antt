-- ===== src/Servers/Vfs/Refs/Removal.antt =====
-- servers/vfs.c: a task that is removed has closed its descriptors.
use avros.Base.{
  ℕ, zero, suc, ◌+◌, ◌<◌, ◌≡◌, refl, true, some, List, [], ◌∷◌, arith, ◌||◌, ◌==◌, not,
  if◌then◌else◌, get_elem?, set, length, count, Bool-cases, Option-cases, inl, inr, if_elim, On,
  On-bind, On-bind_eq, On-both, On-map, subst, ap, sym, ◌∙◌, some_inj, none_ne_some, ==→eq,
}
use avros.Kernel.State.{Pid}
use avros.Drivers.Message.{minus_one}
use avros.Servers.Vfs.State.{
  VfsTask, Vfs, Bus, max_fd, max_filp, neg, vfs_findbypid, put_task, remove_task, set_fd,
}
use avros.Servers.Vfs.Files.{result, client_task, drop_ref, close_last, close_filp, do_close}
use avros.Servers.Vfs.Loop.{close_all, remove_found, vfs_removetask}
use avros.Servers.Vfs.Refs.Counts.{refs-remove, AllTasks-remove, AllTasks-find, length-remove_le}
use avros.Servers.Vfs.Refs.Moves.{Counted}
use avros.Servers.Vfs.Refs.Keeps.{IsCounted, Same, release_node-Same, do_close-IsCounted}

pub found_pid :
    (pid : Pid) (t : VfsTask) (ts : List VfsTask) → vfs_findbypid pid ts ≡ some t → t.pid ≡ pid
unfolding vfs_findbypid
found_pid pid t [] h = absurd (none_ne_some h)
found_pid pid t (u ∷ ts) h = elim (Bool-cases (u.pid == pid)) [
  | inl e ↦
      let same : some u ≡ some t =
        subst (λ b. (if b then some u else vfs_findbypid pid ts) ≡ some t) e h in
      ap (λ (x : VfsTask). x.pid) (sym (some_inj same)) ∙ ==→eq u.pid pid e
  | inr e ↦
      found_pid pid t ts (subst (λ b. (if b then some u else vfs_findbypid pid ts) ≡ some t) e h)
]

pub find-put :
    (pid : Pid) (t t' : VfsTask) (ts : List VfsTask)
    → vfs_findbypid pid ts ≡ some t
    → t'.pid ≡ pid
    → vfs_findbypid pid (put_task pid t' ts) ≡ some t'
unfolding vfs_findbypid put_task
find-put pid t t' [] h e = absurd (none_ne_some h)
find-put pid t t' (u ∷ ts) h e = elim (Bool-cases (u.pid == pid)) [
  | inl b ↦ let same : (t'.pid == pid) ≡ true = ground (arith, e) in rw b (rw same refl)
  | inr b ↦ rw b (
      rw b (
        find-put pid t t' ts
          (subst (λ b. (if b then some u else vfs_findbypid pid ts) ≡ some t) b h) e))
]

pub get_elem?-set_same :
    (xs : List ℕ) (i v old : ℕ) → get_elem? xs i ≡ some old → get_elem? (set xs i v) i ≡ some v
get_elem?-set_same [] i v old h = absurd (none_ne_some h)
get_elem?-set_same (x ∷ xs) zero v old h = refl
get_elem?-set_same (x ∷ xs) (suc i) v old h = get_elem?-set_same xs i v old h

get_elem?-set_below : (xs : List ℕ) (i j v : ℕ) → j < i → get_elem? (set xs i v) j ≡ get_elem? xs j
get_elem?-set_below [] i j v l = refl
get_elem?-set_below (x ∷ xs) zero j v l = absurd (omega arith)
get_elem?-set_below (x ∷ xs) (suc i) zero v l = refl
get_elem?-set_below (x ∷ xs) (suc i) (suc j) v l = get_elem?-set_below xs i j v (omega arith)

-- The first `i` descriptors hold −1.
abbrev pub ClosedBelow : ℕ → List ℕ → Type 0
ClosedBelow i xs = (j : ℕ) → j < i → get_elem? xs j ≡ some minus_one

count-closed : (p : ℕ) (xs : List ℕ) → p < max_filp → ClosedBelow (length xs) xs → count p xs ≡ 0
unfolding count
count-closed p [] l h = refl
count-closed p (x ∷ xs) l h =
    let first : x ≡ minus_one = some_inj (h 0 (omega arith)) in
    let rest = count-closed p xs l (λ j lj. h (suc j) (omega arith)) in ground (arith, first, rest)

closed_more :
    (t : VfsTask) (i old : ℕ)
    → get_elem? t.fd i ≡ some old
    → ClosedBelow i t.fd
    → ClosedBelow (suc i) (set t.fd i minus_one)
closed_more t i old g closed j l = elim (Bool-cases (j == i)) [
  | inl e ↦
      subst (λ n. get_elem? (set t.fd i minus_one) n ≡ some minus_one) (sym (==→eq j i e))
        (get_elem?-set_same t.fd i minus_one old g)
  | inr e ↦
      let below : j < i = ground arith in
      get_elem?-set_below t.fd i j minus_one below ∙ closed j below
]

module _ {W : Type 0} where
  -- The task has closed its first `i` descriptors.
  abbrev pub ClosedTo : Pid → ℕ → Vfs W → Type 0
  ClosedTo pid i k = (t : VfsTask) × (client_task pid k ≡ some t) × ClosedBelow i t.fd

  Counted-remove :
      (pid : Pid) (t : VfsTask) (k : Vfs W)
      → IsCounted k
      → client_task pid k ≡ some t
      → ClosedBelow max_fd t.fd
      → Counted (remove_task pid k.tasks) k.filp
  Counted-remove pid t k c found closed =
      let size = (AllTasks-find pid t k.tasks c.fds found).0 in
      record {
        fds = AllTasks-remove pid k.tasks c.fds;
        few = omega (arith, c.few, length-remove_le pid k.tasks);
        counts = λ p l. omega (
          arith,
          c.counts p l,
          refs-remove pid t p k.tasks found,
          count-closed p t.fd l (subst (λ n. ClosedBelow n t.fd) (sym size) closed),
        );
      }

  module _ (bus : Bus W) where
    abbrev TasksOf : Vfs W → Vfs W → Type 0
    TasksOf k k' = k'.tasks ≡ k.tasks

    close_last-tasks : (fuel fp : ℕ) (k : Vfs W) → On (TasksOf k) (close_last bus fuel fp k)
    unfolding close_last
    close_last-tasks fuel fp k =
        if_elim (On (TasksOf k)) (not ((k.filp fp).refcnt == 0)) _ _ (λ _. refl)
          λ _. On-map (Same k) (TasksOf k) _ (λ k' s. s.0) (release_node-Same bus fuel fp k)

    close_filp-tasks : (fuel fp : ℕ) (k : Vfs W) → On (TasksOf k) (close_filp bus fuel fp k)
    unfolding close_filp
    close_filp-tasks fuel fp k =
        if_elim (On (TasksOf k)) (neg fp || ((k.filp fp).refcnt == 0)) _ _ (λ _. refl)
          λ _. close_last-tasks fuel fp (drop_ref fp k)

    close_step :
        (fuel : ℕ) (pid : Pid) (i : ℕ) (k : Vfs W)
        → i < max_fd
        → ClosedTo pid i k
        → On (ClosedTo pid (suc i)) (do_close bus fuel pid (result i k))
    unfolding do_close
    close_step fuel pid i k l (t0, found0, closed) =
        if_elim (On (ClosedTo pid (suc i))) (neg i) _ _ (λ e. absurd (ground arith))
          λ _. On-bind_eq (ClosedTo pid (suc i)) (client_task pid k) _ λ t found.
            On-bind_eq (ClosedTo pid (suc i)) (get_elem? t.fd i) _ λ fp g.
              let k0 = set_fd pid t (set t.fd i minus_one) (result i k) in
              let same = some_inj (sym found0 ∙ found) in
              let closed_t = subst (λ (x : VfsTask). ClosedBelow i x.fd) same closed in
              On-map (TasksOf k0) (ClosedTo pid (suc i)) (close_filp bus fuel fp k0)
                (λ k' e. (
                  record t { fd = set t.fd i minus_one },
                  ap (vfs_findbypid pid) e
                      ∙ find-put pid t _ k.tasks found (found_pid pid t k.tasks found),
                  closed_more t i fp g closed_t,
                ))
                (close_filp-tasks fuel fp k0)

    close_all-ClosedTo :
        (fuel : ℕ) (pid : Pid) (rounds i : ℕ) (k : Vfs W)
        → i + rounds ≡ max_fd
        → IsCounted k
        → ClosedTo pid i k
        → On (λ k'. IsCounted k' × ClosedTo pid max_fd k') (close_all bus fuel pid rounds i k)
    unfolding close_all
    close_all-ClosedTo fuel pid zero i k e c closed =
        (c, subst (λ n. ClosedTo pid n k) (omega (arith, e)) closed)
    close_all-ClosedTo fuel pid (suc rounds) i k e c closed =
        On-bind (λ k'. IsCounted k' × ClosedTo pid (suc i) k')
          (λ k'. IsCounted k' × ClosedTo pid max_fd k') (do_close bus fuel pid (result i k)) _
          (On-both IsCounted (ClosedTo pid (suc i)) _
            (do_close-IsCounted bus fuel pid (result i k) c)
            (close_step fuel pid i k (omega (arith, e)) closed))
          (λ k1 h. close_all-ClosedTo fuel pid rounds (suc i) k1 (omega (arith, e)) h.0 h.1)

    removed :
        (fuel : ℕ) (t : VfsTask) (k : Vfs W)
        → IsCounted k
        → client_task k.msg.ino k ≡ some t
        → On IsCounted (remove_found bus fuel t k)
    unfolding remove_found
    removed fuel t k c found =
        On-bind (λ k'. IsCounted k' × ClosedTo k.msg.ino max_fd k') IsCounted
          (close_all bus fuel k.msg.ino max_fd 0 k) _
          (close_all-ClosedTo fuel k.msg.ino max_fd 0 k refl c
            (t, found, λ j l. absurd (omega arith)))
          (λ k1 h.
            let (t1, found1, closed) = h.1 in Counted-remove k.msg.ino t1 k1 h.0 found1 closed)

    pub removetask-IsCounted :
        (fuel : ℕ) (k : Vfs W) → IsCounted k → On IsCounted (vfs_removetask bus fuel k)
    unfolding vfs_removetask
    removetask-IsCounted fuel k c = elim (Option-cases (client_task k.msg.ino k)) [
      | inl e ↦ rw (e, vfs_removetask) c
      | inr (t, e) ↦ rw (e, vfs_removetask) (removed fuel t k c e)
    ]
