-- ===== src/Kernel/Places.antt =====
-- Where a task stands: how often it is in the kernel's queues, all together.
use avros.Base.{
  ℕ, zero, suc, ◌+◌, ◌<◌, ◌≤◌, ◌≡◌, refl, List, [], ◌∷◌, ◌++◌, arith, ◌==◌, if◌then◌else◌, update,
  count, count-end, count-erase, Bool-cases, inl, inr,
}
use avros.Kernel.State.{
  Pid, Kernel, prio_of, task_prio_queue_max, ready_end, ready_front, wake, block_front,
  remv_current, remv_blocked,
}

unfoldable pub ready_total : Pid → ℕ → (ℕ → List Pid) → ℕ
ready_total t zero q = 0
ready_total t (suc n) q = ready_total t n q + count t (q n)

pub ready_total-update_of_le :
    (t : Pid) (n p : ℕ) (l : List Pid) (q : ℕ → List Pid)
    → n ≤ p
    → ready_total t n (update q p l) ≡ ready_total t n q
unfolding ready_total
ready_total-update_of_le t zero p l q h = refl
ready_total-update_of_le t (suc n) p l q h = ground (arith, ready_total-update_of_le t n p l q)

pub ready_total-update :
    (t : Pid) (n p : ℕ) (l : List Pid) (q : ℕ → List Pid)
    → p < n
    → ready_total t n (update q p l) + count t (q p) ≡ ready_total t n q + count t l
unfolding ready_total
ready_total-update t zero p l q h = absurd (omega arith)
ready_total-update t (suc n) p l q h = elim (Bool-cases (p == n)) [
  | inl e ↦ ground (arith, ready_total-update_of_le t n p l q)
  | inr e ↦ ground (arith, ready_total-update t n p l q)
]

-- 1 at the task itself.
abbrev pub unit_at : Pid → Pid → ℕ
unit_at x t = if x == t then 1 else 0

module _ {H : Type 0} where
  unfoldable pub places : Pid → Kernel H → ℕ
  places t k = count t k.current + ready_total t task_prio_queue_max k.ready + count t k.blocked

  pub places-ready_end :
      (t p x : ℕ) (k : Kernel H) → p < 5 → places t (ready_end p x k) ≡ places t k + unit_at x t
  unfolding places
  places-ready_end t p x k h =
      omega
        (arith, ready_total-update t 5 p (k.ready p ++ x ∷ []) k.ready h, count-end t x (k.ready p))

  pub places-ready_front :
      (t p x : ℕ) (k : Kernel H) → p < 5 → places t (ready_front p x k) ≡ places t k + unit_at x t
  unfolding places count
  places-ready_front t p x k h = omega (arith, ready_total-update t 5 p (x ∷ k.ready p) k.ready h)

  pub places-remv_current :
      (t x : ℕ) (k : Kernel H)
      → 0 < count x k.current
      → places t (remv_current x k) + unit_at x t ≡ places t k
  unfolding places
  places-remv_current t x k h = omega (arith, count-erase t x k.current h)

  pub places-remv_blocked :
      (t x : ℕ) (k : Kernel H)
      → 0 < count x k.blocked
      → places t (remv_blocked x k) + unit_at x t ≡ places t k
  unfolding places
  places-remv_blocked t x k h = omega (arith, count-erase t x k.blocked h)

  pub places-block_front :
      (t x : ℕ) (k : Kernel H) → 0 < count x k.current → places t (block_front x k) ≡ places t k
  unfolding places count
  places-block_front t x k h = omega (arith, count-erase t x k.current h)

  pub places-wake :
      (t x : ℕ) (k : Kernel H)
      → 0 < count x k.blocked
      → prio_of k x < 5
      → places t (wake x k) ≡ places t k
  places-wake t x k h p =
      omega (
        arith,
        places-ready_end t (prio_of k x) x (remv_blocked x k) p,
        places-remv_blocked t x k h,
      )
