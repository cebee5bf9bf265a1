-- ===== src/Kernel/Rendezvous.antt =====
-- No message waits for a receiver that is there: of the blocked tasks no two could meet.
use avros.Base.{
  ◌<◌, ◌≤◌, ◌≡◌, refl, none, some, arith, ◌==◌, true, false, count, erase, find_first,
  find_first_passes, find_first_fails, count-find_first, count-erase, Bool-cases, if_elim, inl, inr,
  ◌∙◌, sym, subst,
}
use avros.Kernel.State.{
  Pid, receive, Kernel, context_of, wake, block_front, set_context, is_send, is_sendrec, is_receive,
  task_any,
}
use avros.Kernel.Calls.{meets, deliver}
use avros.Kernel.Loop.{
  handle_event, call_send, call_sendrec, call_receive, event_done, send_done, sendrec_done,
  receive_done,
}
use avros.Kernel.Search.{
  awaits, handle_event-cases, call_send-cases, call_sendrec-cases, call_receive-cases,
}

module _ {H : Type 0} where
  abbrev pub IsBlocked : Pid → Kernel H → Type 0
  IsBlocked t k = 0 < count t k.blocked

  abbrev pub Separated : Kernel H → Type 0
  Separated k = (a b : Pid) → IsBlocked a k → IsBlocked b k → meets a b k ≡ false

  pub meets_same :
      (a b : Pid) (k k' : Kernel H)
      → context_of k' a ≡ context_of k a
      → context_of k' b ≡ context_of k b
      → meets a b k' ≡ meets a b k
  unfolding meets
  meets_same a b k k' p q = rw (p, q)

  -- A task outside the two states of a rendez-vous meets nobody.
  pub meets_receiver :
      (a b : Pid) (k : Kernel H) → is_receive (context_of k a).code ≡ false → meets a b k ≡ false
  unfolding meets
  meets_receiver a b k h = ground arith

  pub meets_sender :
      (a b : Pid) (k : Kernel H)
      → is_send (context_of k b).code ≡ false
      → is_sendrec (context_of k b).code ≡ false
      → meets a b k ≡ false
  unfolding meets
  meets_sender a b k h i = ground arith

  -- `x` joins the blocked tasks or changes its registers there, the others keep theirs.
  pub Separated-join :
      (x : Pid) (k k' : Kernel H)
      → Separated k
      → ((a : Pid)
          → IsBlocked a k'
          → (a == x) ≡ false
          → IsBlocked a k × (context_of k' a ≡ context_of k a))
      → ((b : Pid) → IsBlocked b k' → (meets x b k' ≡ false) × (meets b x k' ≡ false))
      → Separated k'
  Separated-join x k k' s same apart a b ha hb = elim (Bool-cases (a == x)) [
    | inl ea ↦ subst (λ c. meets c b k' ≡ false) (sym (ground arith)) (apart b hb).0
    | inr na ↦ elim (Bool-cases (b == x)) [
      | inl eb ↦ subst (λ c. meets a c k' ≡ false) (sym (ground arith)) (apart a ha).1
      | inr nb ↦
          meets_same a b k k' (same a ha na).1 (same b hb nb).1
          ∙ s a b (same a ha na).0 (same b hb nb).0
    ]
  ]

  -- Every task is in one queue at most, `cur` is not blocked, and no task is called TASK_ANY.
  pub record Distinct (cur : Pid) (k : Kernel H) : Type 0 where
    pub once : (t : Pid) → count t k.blocked ≤ 1
    pub apart : count cur k.blocked ≡ 0
    pub named : (t : Pid) → IsBlocked t k → (t == task_any) ≡ false
    pub running : (cur == task_any) ≡ false

  erased :
      (t w : Pid) (k : Kernel H)
      → ((t : Pid) → count t k.blocked ≤ 1)
      → IsBlocked w k
      → 0 < count t (erase w k.blocked)
      → ((w == t) ≡ false) × IsBlocked t k
  erased t w k once h e = ground (arith, count-erase t w k.blocked, once t)

  -- `w` leaves the blocked tasks, and no other changes its registers there.
  pub Separated-leave :
      (w : Pid) (k k' : Kernel H)
      → Separated k
      → ((t : Pid) → count t k.blocked ≤ 1)
      → IsBlocked w k
      → k'.blocked ≡ erase w k.blocked
      → ((a : Pid) → (w == a) ≡ false → IsBlocked a k → context_of k' a ≡ context_of k a)
      → Separated k'
  Separated-leave w k k' s once h e same a b ha hb =
      let ga = erased a w k once h (subst (λ l. 0 < count a l) e ha) in
      let gb = erased b w k once h (subst (λ l. 0 < count b l) e hb) in
      meets_same a b k k' (same a ga.0 ga.1) (same b gb.0 gb.1) ∙ s a b ga.1 gb.1

  -- `x` joins the blocked tasks, where it meets none.
  Separated-block_front :
      (x : Pid) (k : Kernel H)
      → Separated k
      → meets x x k ≡ false
      → ((b : Pid) → IsBlocked b k → (meets x b k ≡ false) × (meets b x k ≡ false))
      → Separated (block_front x k)
  unfolding meets count
  Separated-block_front x k s self apart =
      Separated-join x k (block_front x k) s (λ a ha na. (ground arith, refl))
        λ b hb. elim (Bool-cases (b == x)) [
          | inl e ↦
              let q : b ≡ x = ground arith in
              subst (λ c. (meets x c k ≡ false) × (meets c x k ≡ false)) (sym q) (self, self)
          | inr n ↦ apart b (ground arith)
        ]

  deliver_others :
      (a rcvr sndr : Pid) (k : Kernel H)
      → (rcvr == a) ≡ false
      → context_of (deliver rcvr sndr k) a ≡ context_of k a
  unfolding deliver
  deliver_others a rcvr sndr k n = ground arith

  event-blocked :
      (cur w : Pid) (k : Kernel H) → (event_done cur (some w, k)).blocked ≡ erase w k.blocked
  unfolding event_done
  event-blocked cur w k = ground arith

  event-context :
      (cur w a : Pid) (k : Kernel H)
      → (w == a) ≡ false
      → context_of (event_done cur (some w, k)) a ≡ context_of k a
  unfolding event_done
  event-context cur w a k n = ground arith

  pub event-Separated :
      (cur : Pid) (k : Kernel H) → Separated k → Distinct cur k → Separated (handle_event cur k)
  event-Separated cur k s d = elim (handle_event-cases cur k) [
    | inl (e, q) ↦ subst Separated (sym q) (unfold meets in s)
    | inr (w, e, q) ↦
        let h = count-find_first (awaits k) k.blocked w e in
        subst Separated (sym q) (
          Separated-leave w k _ s d.once h (event-blocked cur w k)
            λ a n b. event-context cur w a k n)
  ]

  -- A task that sends blocks if no blocked task receives from it.
  sender_waits :
      (cur : Pid) (k : Kernel H)
      → is_receive (context_of k cur).code ≡ false
      → find_first (λ t. meets t cur k) k.blocked ≡ none
      → Separated k
      → Separated (block_front cur k)
  sender_waits cur k c e s =
      Separated-block_front cur k s (meets_receiver cur cur k c)
        λ b hb. (meets_receiver cur b k c, find_first_fails (λ t. meets t cur k) k.blocked b e hb)

  pub send-Separated :
      (cur : Pid) (k : Kernel H)
      → is_receive (context_of k cur).code ≡ false
      → Separated k
      → Distinct cur k
      → Separated (call_send cur k)
  send-Separated cur k c s d = elim (call_send-cases cur k) [
    | inl (e, q) ↦ subst Separated (sym q) (sender_waits cur k c e s)
    | inr (w, e, q) ↦
        let h = count-find_first (λ t. meets t cur k) k.blocked w e in
        subst Separated (sym q) (
          Separated-leave w k _ s d.once h (unfold send_done deliver in refl)
            λ a n b. unfold send_done in deliver_others a w cur k n)
  ]

  pub not_running :
      (a cur : Pid) (k : Kernel H) → Distinct cur k → IsBlocked a k → (cur == a) ≡ false
  not_running a cur k d h = elim (Bool-cases (cur == a)) [
    | inl e ↦ absurd (ground (arith, d.apart))
    | inr n ↦ n
  ]

  meets_names_receiver :
      (a b : Pid) (k : Kernel H) → meets a b k ≡ true → ((context_of k b).p0 == a) ≡ true
  unfolding meets
  meets_names_receiver a b k h = ground arith

  meets_names_sender :
      (a b : Pid) (k : Kernel H)
      → ((context_of k a).p0 == b) ≡ false
      → ((context_of k a).p0 == task_any) ≡ false
      → meets a b k ≡ false
  unfolding meets
  meets_names_sender a b k h i = ground arith

  -- A sender that awaits the reply of `cur` stays blocked and meets no other blocked task.
  replies :
      (cur w : Pid) (k : Kernel H)
      → Separated k
      → Distinct cur k
      → IsBlocked w k
      → meets cur w k ≡ true
      → Separated (
          set_context w
            (record (context_of (deliver cur w k) w) { code = receive })
            (deliver cur w k))
  replies cur w k s d h m =
      Separated-join w k k' s
        (λ a ha na. (
          stays a ha,
          ground (arith, deliver_others a cur w k (not_running a cur k d (stays a ha))),
        ))
        λ b hb. (
          meets_names_sender w b k' (ground (arith, asks, not_running b cur k d (stays b hb)))
              (ground (arith, asks, d.running)),
          meets_sender b w k' (ground arith) (ground arith),
        )
    where
      k' : Kernel H
      k' =
          set_context w (record (context_of (deliver cur w k) w) { code = receive })
            (deliver cur w k)

      stays : (a : Pid) → IsBlocked a k' → IsBlocked a k
      stays a ha = unfold deliver in ha

      asks : (context_of k' w).p0 ≡ cur
      asks = ground (
        arith,
        meets_names_receiver cur w k m,
        deliver_others w cur w k (not_running w cur k d h),
      )

  pub receive-Separated :
      (cur : Pid) (k : Kernel H)
      → is_send (context_of k cur).code ≡ false
      → is_sendrec (context_of k cur).code ≡ false
      → Separated k
      → Distinct cur k
      → Separated (call_receive cur k)
  receive-Separated cur k c c' s d = elim (call_receive-cases cur k) [
    | inl (e, q) ↦ subst Separated (sym q) (
        Separated-block_front cur k s (meets_sender cur cur k c c') λ b hb.
          (find_first_fails (λ t. meets cur t k) k.blocked b e hb, meets_sender b cur k c c'))
    | inr (w, e, q) ↦
        let h = count-find_first (λ t. meets cur t k) k.blocked w e in
        let m = find_first_passes (λ t. meets cur t k) k.blocked w e in
        subst Separated (sym q) (
          unfold receive_done in
          (if_elim Separated (is_sendrec (context_of (deliver cur w k) w).code) _ _
            (λ y. replies cur w k s d h m)
            (λ n.
              Separated-leave w k (wake w (deliver cur w k)) s d.once h (unfold deliver in refl)
                λ a na b. deliver_others a cur w k (not_running a cur k d b))))
  ]

  -- The sender of a request waits for the answer of the task that took it.
  requests :
      (cur w : Pid) (k : Kernel H)
      → Separated k
      → Distinct cur k
      → IsBlocked w k
      → meets w cur k ≡ true
      → Separated (sendrec_done cur (some w, deliver w cur k))
  unfolding sendrec_done
  requests cur w k s d h m =
      Separated-block_front cur k2
        (Separated-leave w k k2 s d.once h (unfold deliver in refl)
          λ a na b. ground (arith, deliver_others a w cur k na, not_running a cur k d b))
        (meets_sender cur cur k2 (ground arith) (ground arith))
        λ b hb. (
          meets_names_sender cur b k2
              (ground (arith, asks, erased b w k d.once h (unfold deliver in hb)))
              (ground (arith, asks, d.named w h)),
          meets_sender b cur k2 (ground arith) (ground arith),
        )
    where
      k1 : Kernel H
      k1 = deliver w cur k

      k2 : Kernel H
      k2 = wake w (set_context cur (record (context_of k1 cur) { code = receive }) k1)

      asks : (context_of k2 cur).p0 ≡ w
      asks = ground (
        arith,
        meets_names_receiver w cur k m,
        deliver_others cur w cur k (ground (arith, not_running w cur k d h)),
      )

  pub sendrec-Separated :
      (cur : Pid) (k : Kernel H)
      → is_receive (context_of k cur).code ≡ false
      → Separated k
      → Distinct cur k
      → Separated (call_sendrec cur k)
  sendrec-Separated cur k c s d = elim (call_sendrec-cases cur k) [
    | inl (e, q) ↦ subst Separated (sym q) (sender_waits cur k c e s)
    | inr (w, e, q) ↦
        let h = count-find_first (λ t. meets t cur k) k.blocked w e in
        let m = find_first_passes (λ t. meets t cur k) k.blocked w e in
        subst Separated (sym q) (requests cur w k s d h m)
  ]
