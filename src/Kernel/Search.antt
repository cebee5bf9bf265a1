-- ===== src/Kernel/Search.antt =====
-- What `q_forall` answers for the kernel's callbacks: the first blocked task that passes.
use Prim.Native.Nat.{bit_and}
use avros.Base.{
  ◌≡◌, refl, ap, ◌∙◌, Bool, false, not, Option, none, some, List, [], ◌∷◌, ◌==◌, if◌then◌else◌,
  find_first, Bool-cases, Option-cases, inl, inr, ◌⊎◌,
}
use avros.Kernel.State.{Pid, Kernel, context_of, is_waitevent, block_front}
use avros.Kernel.Loop.{
  send_done, sendrec_done, receive_done, event_done, call_send, call_sendrec, call_receive,
  handle_event,
}
use avros.Kernel.Calls.{q_forall, dispatchevent, meets, deliver, delivermsg, sendmsg, receivemsg}

module _ {H : Type 0} where
  unfoldable pub awaits : Kernel H → Pid → Bool
  awaits k t =
      if not (is_waitevent (context_of k t).code)
      then false
      else not (bit_and (context_of k t).p0 k.eventcode == 0)

  dispatchevent-awaits : (t : Pid) (k : Kernel H) → dispatchevent t k ≡ (awaits k t, k)
  unfolding dispatchevent awaits
  dispatchevent-awaits t k = elim (Bool-cases (is_waitevent (context_of k t).code)) [
    | inl e ↦ rw e (elim (Bool-cases (bit_and (context_of k t).p0 k.eventcode == 0)) [
      | inl z ↦ rw z
      | inr z ↦ rw z
    ])
    | inr e ↦ rw e
  ]

  pub q_forall-dispatchevent :
      (xs : List Pid) (k : Kernel H) → q_forall dispatchevent xs k ≡ (find_first (awaits k) xs, k)
  unfolding q_forall find_first
  q_forall-dispatchevent [] k = refl
  q_forall-dispatchevent (x ∷ xs) k =
      rw (dispatchevent-awaits x k) (elim (Bool-cases (awaits k x)) [
        | inl e ↦ rw e
        | inr e ↦ rw e (q_forall-dispatchevent xs k)
      ])

  abbrev pub sent : Pid → Option Pid → Kernel H → Kernel H
  sent cur none k = k
  sent cur (some w) k = deliver w cur k

  pub q_forall-sendmsg :
      (cur : Pid) (xs : List Pid) (k : Kernel H)
      → q_forall (sendmsg cur) xs k
        ≡ (let w = find_first (λ t. meets t cur k) xs in (w, sent cur w k))
  unfolding q_forall find_first sendmsg delivermsg
  q_forall-sendmsg cur [] k = refl
  q_forall-sendmsg cur (x ∷ xs) k = elim (Bool-cases (meets x cur k)) [
    | inl e ↦ rw e
    | inr e ↦ rw e (q_forall-sendmsg cur xs k)
  ]

  abbrev pub received : Pid → Option Pid → Kernel H → Kernel H
  received cur none k = k
  received cur (some w) k = deliver cur w k

  pub q_forall-receivemsg :
      (cur : Pid) (xs : List Pid) (k : Kernel H)
      → q_forall (receivemsg cur) xs k
        ≡ (let w = find_first (λ t. meets cur t k) xs in (w, received cur w k))
  unfolding q_forall find_first receivemsg delivermsg
  q_forall-receivemsg cur [] k = refl
  q_forall-receivemsg cur (x ∷ xs) k = elim (Bool-cases (meets cur x k)) [
    | inl e ↦ rw e
    | inr e ↦ rw e (q_forall-receivemsg cur xs k)
  ]

  -- What `call_send` does, by the first blocked task that it meets.
  pub call_send-cases :
      (cur : Pid) (k : Kernel H)
      → ((find_first (λ t. meets t cur k) k.blocked ≡ none) × (call_send cur k ≡ block_front cur k))
        ⊎ ((w : Pid) × (find_first (λ t. meets t cur k) k.blocked ≡ some w)
            × (call_send cur k ≡ send_done cur (some w, deliver w cur k)))
  unfolding call_send
  call_send-cases cur k =
      let q = ap (send_done cur) (q_forall-sendmsg cur k.blocked k) in
      elim (Option-cases (find_first (λ t. meets t cur k) k.blocked)) [
        | inl e ↦ inl (e, q ∙ ap (λ o. send_done cur (o, sent cur o k)) e)
        | inr (w, e) ↦ inr (w, e, q ∙ ap (λ o. send_done cur (o, sent cur o k)) e)
      ]

  -- What `call_sendrec` does, by the first blocked task that it meets.
  pub call_sendrec-cases :
      (cur : Pid) (k : Kernel H)
      → ((find_first (λ t. meets t cur k) k.blocked ≡ none)
          × (call_sendrec cur k ≡ block_front cur k))
        ⊎ ((w : Pid) × (find_first (λ t. meets t cur k) k.blocked ≡ some w)
            × (call_sendrec cur k ≡ sendrec_done cur (some w, deliver w cur k)))
  unfolding call_sendrec
  call_sendrec-cases cur k =
      let q = ap (sendrec_done cur) (q_forall-sendmsg cur k.blocked k) in
      elim (Option-cases (find_first (λ t. meets t cur k) k.blocked)) [
        | inl e ↦ inl (e, q ∙ ap (λ o. sendrec_done cur (o, sent cur o k)) e)
        | inr (w, e) ↦ inr (w, e, q ∙ ap (λ o. sendrec_done cur (o, sent cur o k)) e)
      ]

  -- What `call_receive` does, by the first blocked task that it meets.
  pub call_receive-cases :
      (cur : Pid) (k : Kernel H)
      → ((find_first (λ t. meets cur t k) k.blocked ≡ none)
          × (call_receive cur k ≡ block_front cur k))
        ⊎ ((w : Pid) × (find_first (λ t. meets cur t k) k.blocked ≡ some w)
            × (call_receive cur k ≡ receive_done cur (some w, deliver cur w k)))
  unfolding call_receive
  call_receive-cases cur k =
      let q = ap (receive_done cur) (q_forall-receivemsg cur k.blocked k) in
      elim (Option-cases (find_first (λ t. meets cur t k) k.blocked)) [
        | inl e ↦ inl (e, q ∙ ap (λ o. receive_done cur (o, received cur o k)) e)
        | inr (w, e) ↦ inr (w, e, q ∙ ap (λ o. receive_done cur (o, received cur o k)) e)
      ]

  -- What `handle_event` does, by the first blocked task that waits for the event.
  pub handle_event-cases :
      (old : Pid) (k : Kernel H)
      → ((find_first (awaits k) k.blocked ≡ none)
          × (handle_event old k ≡ record k { eventcode = 0 }))
        ⊎ ((w : Pid) × (find_first (awaits k) k.blocked ≡ some w)
            × (handle_event old k ≡ event_done old (some w, k)))
  unfolding handle_event
  handle_event-cases old k =
      let q = ap (event_done old) (q_forall-dispatchevent k.blocked k) in
      elim (Option-cases (find_first (awaits k) k.blocked)) [
        | inl e ↦ inl (e, q ∙ ap (λ o. event_done old (o, k)) e)
        | inr (w, e) ↦ inr (w, e, q ∙ ap (λ o. event_done old (o, k)) e)
      ]
