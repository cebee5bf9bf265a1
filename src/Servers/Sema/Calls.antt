-- ===== src/Servers/Sema/Calls.antt =====
-- The calls of servers/sema.c as the caller meets them: which of them `semasrv` answers.
use avros.Base.{
  ◌<◌, List, [], ◌∷◌, ◌&&◌, ◌∙◌, ap, sym, subst, arith, count, List-cases, ==_refl, ◌≡◌, refl, Bool,
  true, false, not, ◌||◌, none, some, ◌==◌, if◌then◌else◌, Bool-cases, inl, inr,
}
use mathlib.Core.Option
use avros.Kernel.State.{Pid}
use avros.Queue.{Ptr, null}
use avros.Servers.Memory.{Memory}
use avros.Servers.Sema.{
  SemaCall, createsema, deletesema, waitsema, signalsema, getsema, sema_request, SemaMsg, SemaSrv,
  semasrv, semasrv_pass, waiter, first_client, queue_of, value_of, decreasesema,
}
use avros.Servers.Sema.Balance.{Kept}

-- The calls that wait for an answer.
abbrev pub is_sendrec_call : SemaCall → Bool
is_sendrec_call (signalsema _) = false
is_sendrec_call _ = true

abbrev pub is_empty : List Ptr → Bool
is_empty [] = true
is_empty (x ∷ xs) = false

first_counted : (x : Ptr) (xs : List Ptr) → 0 < count x (x ∷ xs)
unfolding count
first_counted x xs = rw (==_refl x) (omega arith)

module _ {H : Type 0} where
  -- The calls that leave the caller without an answer: to wait while the count is zero, and to
  -- delete a semaphore whose queue is not empty.
  unfoldable pub is_held : SemaCall → SemaSrv H → Bool
  is_held (waitsema s) k = s == null || value_of k s == 0
  is_held (deletesema s) k = not (s == null) && not (is_empty (queue_of k s))
  is_held _ k = false

  -- The first task of the queue is found, as each has a pid.
  waiter-is_empty :
      (k : SemaSrv H) (s : Ptr)
      → Kept k
      → (waiter s k == 0) ≡ not (not (s == null) && not (is_empty (queue_of k s)))
  unfolding Kept waiter first_client
  waiter-is_empty k s o = elim (Bool-cases (s == null)) [
    | inl e ↦ rw (e, waiter, first_client) refl
    | inr n ↦ elim (List-cases (queue_of k s)) [
      | inl e ↦ rw (n, e, waiter, first_client) refl
      | inr (x, cs, e) ↦
          let first : 0 < count x (queue_of k s) =
            subst (λ q. 0 < count x q) (sym e) (first_counted x cs) in
          let (named, pid) = (o s n).named x first in
          rw (n, e, waiter, first_client) (rw named (rw pid refl))
    ]
  ]

  -- In a state where a task waits for a semaphore only while its count is zero, and each waiting
  -- task has a pid, a call that waits for an answer gets it from its own pass of the server, and no
  -- other task does, unless it waits while the count is zero or for a semaphore that is null, or
  -- deletes a semaphore whose queue is not empty: then nobody is answered.
  pub semasrv-is_held :
      (memory : Memory H) (call : SemaCall) (client : Pid) (m : SemaMsg) (k : SemaSrv H)
      → Kept k
      → is_sendrec_call call ≡ true
      → Option.map (λ (r : Pid × SemaMsg). r.0) (semasrv memory client (sema_request call m) k).0
        ≡ (if is_held call k then none else some client)
  unfolding semasrv sema_request is_held
  semasrv-is_held memory (createsema v) client m k o h = refl
  semasrv-is_held memory (getsema s) client m k o h = refl
  semasrv-is_held memory (signalsema s) client m k o h = absurd (cc)
  semasrv-is_held memory (deletesema s) client m k o h =
      let found = waiter-is_empty k s o in
      elim (Bool-cases (not (s == null) && not (is_empty (queue_of k s)))) [
        | inl e ↦ let none_free = found ∙ ap not e in rw (none_free, semasrv_pass) (rw e refl)
        | inr n ↦ let free = found ∙ ap not n in rw (free, semasrv_pass) (rw n refl)
      ]
  semasrv-is_held memory (waitsema s) client m k o h = elim (Bool-cases (s == null)) [
    | inl e ↦ rw (e, decreasesema) refl
    | inr n ↦ elim (Bool-cases (value_of k s == 0)) [
      | inl e ↦ rw (n, e, decreasesema) refl
      | inr v ↦ rw (n, v, decreasesema) refl
    ]
  ]
