-- ===== src/Servers/Sema/Run.antt =====
-- The passes of `semasrv` one after the other: how many tasks enter by a semaphore.
use avros.Base.{
  ◌≢◌, count, ℕ, ◌+◌, ◌<◌, ◌≤◌, ◌≡◌, refl, arith, ◌⊎◌, inl, inr, Bool-cases, false, [], ◌==◌,
}
use avros.Kernel.State.{Pid}
use avros.Queue.{Ptr, null}
use avros.Servers.Memory.{Memory}
use avros.Servers.Sema.{
  sizeof_sema, SemaCmd, SemaMsg, sema_error, sema_create, sema_delete, sema_wait, sema_signal,
  sema_get, SemaSrv, value_of, queue_of, semasrv, semasrv_pass, waiter,
}
use avros.Servers.Sema.Balance.{granted, signals, Sound, Kept, Sound-by, none_named}
use avros.Servers.Sema.Passes.{Usable, Spared, create-new, pass-Balanced}

module _ {H : Type 0} (memory : Memory H) where
  -- What a semaphore needs is kept by every pass, that of a new semaphore included.
  pub semasrv-Kept :
      (client : Pid) (msg : SemaMsg) (k : SemaSrv H)
      → Usable memory client msg k
      → Kept k
      → Kept (semasrv memory client msg k).1
  unfolding semasrv Kept
  semasrv-Kept client msg k u o s z = by_command msg.cmd refl
    where
      by_command :
          (cmd : SemaCmd) → msg.cmd ≡ cmd → Sound (semasrv_pass memory cmd client msg k).1 s
      by_command sema_create c = elim (Bool-cases ((memory.take k.heap sizeof_sema).0 == s)) [
        | inl e ↦
            Sound-by s (semasrv_pass memory sema_create client msg k).1 _
              (create-new memory s client msg k z e)
              (none_named (semasrv_pass memory sema_create client msg k).1) (inr refl)
        | inr n ↦ (pass-Balanced memory sema_create s client msg k c z u n o).1
      ]
      by_command sema_wait c = (pass-Balanced memory sema_wait s client msg k c z u tt o).1
      by_command sema_signal c = (pass-Balanced memory sema_signal s client msg k c z u tt o).1
      by_command sema_delete c = (pass-Balanced memory sema_delete s client msg k c z u tt o).1
      by_command sema_get c = (pass-Balanced memory sema_get s client msg k c z u tt o).1
      by_command sema_error c = (pass-Balanced memory sema_error s client msg k c z u tt o).1

  -- A request for a semaphore names one that was made and not deleted since, or null; and `s` itself
  -- is not freed.
  pub record InUse (s : Ptr) (msg : SemaMsg) (j : SemaSrv H) : Type 0 where
    pub live :
        msg.cmd ≢ sema_create
        → msg.cmd ≢ sema_error
        → (msg.sema == null) ≡ false
        → 0 < count msg.sema j.sema_q
    pub held : msg.cmd ≡ sema_delete → msg.sema ≡ s → (waiter s j == 0) ≡ false

  -- The passes of the server: `n` signals of `s` were taken, and `g` tasks entered by it.
  pub data Run (s : Ptr) (k : SemaSrv H) : ℕ → ℕ → SemaSrv H → Type 0 where
    start : Run s k 0 0 k
    pass :
        {n g : ℕ} {j : SemaSrv H} (client : Pid) (msg : SemaMsg)
        → Run s k n g j
        → Usable memory client msg j
        → Spared memory s msg.cmd j
        → InUse s msg j
        → Run s k
            (n + signals s msg)
            (g + granted s (semasrv memory client msg j).0)
            (semasrv memory client msg j).1

  Run-Kept : {s : Ptr} {k k' : SemaSrv H} {n g : ℕ} → Run s k n g k' → Kept k → Kept k'
  Run-Kept start o = o
  Run-Kept (pass {j} client msg r u p used) o = semasrv-Kept client msg j u (Run-Kept r o)

  signals_le : (s : Ptr) (m : SemaMsg) → signals s m ≤ 1
  signals_le s m = ground arith

  Run-count :
      {s : Ptr} {k k' : SemaSrv H} {n g : ℕ}
      → Run s k n g k'
      → Kept k
      → (s == null) ≡ false
      → value_of k s + n + 1 < 65536
      → value_of k' s + g ≡ value_of k s + n
  unfolding semasrv
  Run-count start o z b = refl
  Run-count {s} {k} (pass {n} {g} {j} client msg r u p used) o z b =
      let h = Run-count r o z (omega arith) in
      let f =
        (pass-Balanced memory msg.cmd s client msg j refl z u p (Run-Kept r o)).0
          (omega (arith, h)) in
      omega (arith, h, f)

  -- However the requests come for semaphores that are not deleted, the tasks that entered by a semaphore and what is left of its
  -- count are together the count at the start and the signals taken since: never do more tasks
  -- enter than the semaphore admits. The count is left at zero if a task still waits. The
  -- semaphore is not null, not made anew and not deleted, a request names no semaphore that was
  -- deleted, as its block may be used for something else, the count stays below the largest
  -- number, and the heap hands out blocks at new addresses.
  pub Run-admits :
      {s : Ptr} {k k' : SemaSrv H} {n g : ℕ}
      → Run s k n g k'
      → Kept k
      → (s == null) ≡ false
      → value_of k s + n + 1 < 65536
      → (value_of k' s + g ≡ value_of k s + n)
        × (g ≤ value_of k s + n)
        × ((value_of k' s ≡ 0) ⊎ (queue_of k' s ≡ []))
  unfolding Kept
  Run-admits {s} r o z b =
      let h = Run-count r o z b in (h, omega (arith, h), (Run-Kept r o s z).idle)
