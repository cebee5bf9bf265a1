-- ===== src/Servers/Vfs/Refs/Counts.antt =====
-- servers/vfs.c: how many descriptors stand for an open file.
use avros.Base.{
  ℕ, zero, suc, ◌+◌, ◌*◌, ◌≤◌, ◌<◌, ◌≡◌, ◌≢◌, refl, Bool, true, false, some, List, [], ◌∷◌, ◌++◌,
  arith, ◌||◌, ◌==◌, ltb, if◌then◌else◌, get_elem?, set, length, count, Bool-cases, inl, inr,
  some_inj, ap, subst, none_ne_some, if_elim,
}
use avros.Kernel.State.{Pid}
use avros.Drivers.Message.{minus_one}
use avros.Servers.Vfs.State.{
  VfsTask, max_fd, max_filp, neg, empty_fd, first_index, vfs_findbypid, put_task, remove_task,
}

-- The descriptors of all tasks that stand for the open file `p`.
unfoldable pub refs : ℕ → List VfsTask → ℕ
unfolding count
refs p [] = 0
refs p (t ∷ ts) = count p t.fd + refs p ts

-- A descriptor is free, or holds an index of the table.
abbrev pub IsFd : ℕ → Type 0
IsFd f = ((f == minus_one) || ltb f max_filp) ≡ true

abbrev pub AllFd : List ℕ → Type 0
AllFd [] = Unit
AllFd (f ∷ fs) = IsFd f × AllFd fs

abbrev pub AllTasks : List VfsTask → Type 0
AllTasks [] = Unit
AllTasks (t ∷ ts) = ((length t.fd ≡ max_fd) × AllFd t.fd) × AllTasks ts

pub count-set :
    (p : ℕ) (xs : List ℕ) (i v old : ℕ)
    → get_elem? xs i ≡ some old
    → count p (set xs i v) + (if old == p then 1 else 0) ≡ count p xs + (if v == p then 1 else 0)
unfolding count
count-set p [] i v old h = absurd (ground arith)
count-set p (x ∷ xs) zero v old h = ground (arith, some_inj h)
count-set p (x ∷ xs) (suc i) v old h = omega (arith, count-set p xs i v old h)

pub count-get_elem? : (xs : List ℕ) (i f : ℕ) → get_elem? xs i ≡ some f → 0 < count f xs
unfolding count
count-get_elem? [] i f h = absurd (none_ne_some h)
count-get_elem? (x ∷ xs) zero f h = ground (arith, some_inj h)
count-get_elem? (x ∷ xs) (suc i) f h = omega (arith, count-get_elem? xs i f h)

pub count-le : (p : ℕ) (xs : List ℕ) → count p xs ≤ length xs
unfolding count
count-le p [] = omega arith
count-le p (x ∷ xs) = ground (arith, count-le p xs)

pub AllFd-set : (xs : List ℕ) (i v : ℕ) → AllFd xs → IsFd v → AllFd (set xs i v)
AllFd-set [] i v a h = a
AllFd-set (x ∷ xs) zero v a h = (h, a.1)
AllFd-set (x ∷ xs) (suc i) v a h = (a.0, AllFd-set xs i v a.1 h)

pub AllFd-get : (xs : List ℕ) (i f : ℕ) → AllFd xs → get_elem? xs i ≡ some f → IsFd f
AllFd-get [] i f a h = absurd (ground arith)
AllFd-get (x ∷ xs) zero f a h = ground (arith, some_inj h)
AllFd-get (x ∷ xs) (suc i) f a h = AllFd-get xs i f a.1 h

-- The free descriptor that the loop finds holds −1.
pub empty_fd_free :
    (i : ℕ) (xs : List ℕ) (j : ℕ)
    → AllFd xs
    → empty_fd i xs ≡ some j
    → (m : ℕ) × (j ≡ i + m) × (get_elem? xs m ≡ some minus_one)
unfolding empty_fd
empty_fd_free i [] j a h = absurd (ground arith)
empty_fd_free i (x ∷ xs) j a h = elim (Bool-cases (neg x)) [
  | inl free ↦ (0, ground (arith, a.0), ground (arith, a.0))
  | inr used ↦
      let (m, e, g) = empty_fd_free (suc i) xs j a.1 (ground arith) in (suc m, omega (arith, e), g)
]

pub first_index_passes :
    (rounds i : ℕ) (test : ℕ → Bool) (j : ℕ)
    → first_index rounds i test ≡ some j
    → (test j ≡ true) × (j < i + rounds)
unfolding first_index
first_index_passes zero i test j h = absurd (ground arith)
first_index_passes (suc rounds) i test j h = elim (Bool-cases (test i)) [
  | inl e ↦ (ground arith, ground arith)
  | inr e ↦
      let (t, l) = first_index_passes rounds (suc i) test j (ground arith) in (t, omega (arith, l))
]

module _ (pid : Pid) (t : VfsTask) where
  found_nil : vfs_findbypid pid [] ≢ some t
  unfolding vfs_findbypid
  found_nil = none_ne_some

  pub found_head :
      (u : VfsTask) (ts : List VfsTask)
      → (u.pid == pid) ≡ true
      → vfs_findbypid pid (u ∷ ts) ≡ some t
      → u ≡ t
  unfolding vfs_findbypid
  found_head u ts e h =
      some_inj (subst (λ b. (if b then some u else vfs_findbypid pid ts) ≡ some t) e h)

  pub found_tail :
      (u : VfsTask) (ts : List VfsTask)
      → (u.pid == pid) ≡ false
      → vfs_findbypid pid (u ∷ ts) ≡ some t
      → vfs_findbypid pid ts ≡ some t
  unfolding vfs_findbypid
  found_tail u ts e h = subst (λ b. (if b then some u else vfs_findbypid pid ts) ≡ some t) e h

  pub refs-put :
      (p : ℕ) (t' : VfsTask) (ts : List VfsTask)
      → vfs_findbypid pid ts ≡ some t
      → refs p (put_task pid t' ts) + count p t.fd ≡ refs p ts + count p t'.fd
  unfolding refs put_task
  refs-put p t' [] h = absurd (found_nil h)
  refs-put p t' (u ∷ ts) h = elim (Bool-cases (u.pid == pid)) [
    | inl e ↦
        let same : count p u.fd ≡ count p t.fd = ap (λ x. count p x.fd) (found_head u ts e h) in
        rw e (omega (arith, same))
    | inr e ↦ rw e (omega (arith, refs-put p t' ts (found_tail u ts e h)))
  ]

  pub refs-remove :
      (p : ℕ) (ts : List VfsTask)
      → vfs_findbypid pid ts ≡ some t
      → refs p (remove_task pid ts) + count p t.fd ≡ refs p ts
  unfolding refs remove_task
  refs-remove p [] h = absurd (found_nil h)
  refs-remove p (u ∷ ts) h = elim (Bool-cases (u.pid == pid)) [
    | inl e ↦
        let same : count p u.fd ≡ count p t.fd = ap (λ x. count p x.fd) (found_head u ts e h) in
        rw e (omega (arith, same))
    | inr e ↦ rw e (omega (arith, refs-remove p ts (found_tail u ts e h)))
  ]

  pub AllTasks-find :
      (ts : List VfsTask)
      → AllTasks ts
      → vfs_findbypid pid ts ≡ some t
      → (length t.fd ≡ max_fd) × AllFd t.fd
  AllTasks-find [] a h = absurd (found_nil h)
  AllTasks-find (u ∷ ts) a h = elim (Bool-cases (u.pid == pid)) [
    | inl e ↦ subst (λ x. (length x.fd ≡ max_fd) × AllFd x.fd) (found_head u ts e h) a.0
    | inr e ↦ AllTasks-find ts a.1 (found_tail u ts e h)
  ]

module _ (pid : Pid) where
  pub AllTasks-put :
      (t' : VfsTask) (ts : List VfsTask)
      → AllTasks ts
      → (length t'.fd ≡ max_fd) × AllFd t'.fd
      → AllTasks (put_task pid t' ts)
  unfolding put_task
  AllTasks-put t' [] a w = a
  AllTasks-put t' (u ∷ ts) a w =
      if_elim AllTasks (u.pid == pid) _ _ (λ _. (w, a.1)) (λ _. (a.0, AllTasks-put t' ts a.1 w))

  pub AllTasks-remove : (ts : List VfsTask) → AllTasks ts → AllTasks (remove_task pid ts)
  unfolding remove_task
  AllTasks-remove [] a = a
  AllTasks-remove (u ∷ ts) a =
      if_elim AllTasks (u.pid == pid) _ _ (λ _. a.1) (λ _. (a.0, AllTasks-remove ts a.1))

  pub length-put : (t' : VfsTask) (ts : List VfsTask) → length (put_task pid t' ts) ≡ length ts
  unfolding put_task
  length-put t' [] = refl
  length-put t' (u ∷ ts) = ground (arith, length-put t' ts)

  pub length-remove_le : (ts : List VfsTask) → length (remove_task pid ts) ≤ length ts
  unfolding remove_task
  length-remove_le [] = omega arith
  length-remove_le (u ∷ ts) = ground (arith, length-remove_le ts)

pub refs-le : (p : ℕ) (ts : List VfsTask) → AllTasks ts → refs p ts ≤ max_fd * length ts
unfolding refs
refs-le p [] a = omega arith
refs-le p (t ∷ ts) a = omega (arith, refs-le p ts a.1, count-le p t.fd, a.0.0)

pub refs-append : (p : ℕ) (ts us : List VfsTask) → refs p (ts ++ us) ≡ refs p ts + refs p us
unfolding refs
refs-append p [] us = omega arith
refs-append p (t ∷ ts) us = omega (arith, refs-append p ts us)

pub AllTasks-append : (ts us : List VfsTask) → AllTasks ts → AllTasks us → AllTasks (ts ++ us)
AllTasks-append [] us a b = b
AllTasks-append (t ∷ ts) us a b = (a.0, AllTasks-append ts us a.1 b)
