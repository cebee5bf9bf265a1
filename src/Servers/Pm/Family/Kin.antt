-- ===== src/Servers/Pm/Family/Kin.antt =====
-- servers/pm.c: what the parts of a request leave alone.
use avros.Base.{
  ℕ, ◌≡◌, inl, inr, refl, Bool, List, [], ◌∷◌, ◌==◌, if◌then◌else◌, update, erase, if_elim,
  Bool-cases, ap, sym, ◌∙◌, ==→eq,
}
use avros.Kernel.State.{Pid}
use avros.Kernel.Calls.{q_forall}
use avros.Queue.{Ptr, null}
use avros.Servers.Pm.State.{
  PmTask, PmMsg, PmBus, Pm, pm_client, pm_pidof, set_task, kfree, pm_delchunks, free_chunks,
  findchunk, sizeof_mem_chunk,
}
use avros.Servers.Pm.Launch.{take_args, pm_setuptask, launch, do_pmalloc, do_pmfree, do_exec}

-- What a callback keeps on every item, `q_forall` keeps.
pub q_forall_inv {ℓ κ} :
    {S : Type ℓ} (P : S → Type κ) (callback : ℕ → S → Bool × S) (xs : List ℕ) (s : S)
    → ((x : ℕ) (s : S) → P s → P (callback x s).1)
    → P s
    → P (q_forall callback xs s).1
unfolding q_forall
q_forall_inv P callback [] s keep p = p
q_forall_inv P callback (x ∷ xs) s keep p = elim (Bool-cases (callback x s).0) [
  | inl e ↦ rw e (keep x s p)
  | inr e ↦ rw e (q_forall_inv P callback xs (callback x s).1 keep (keep x s p))
]

module _ {W : Type 0} where
  -- The queues are the same, and the items but for their chunks and arguments.
  pub record Kin (k k' : Pm W) : Type 0 where
    pub task_q : k'.task_q ≡ k.task_q
    pub wait_q : k'.wait_q ≡ k.wait_q
    pub zombie_q : k'.zombie_q ≡ k.zombie_q
    pub pid : (x : Ptr) → (k'.tasks x).pid ≡ (k.tasks x).pid
    pub word : (x : Ptr) → (k'.tasks x).word ≡ (k.tasks x).word
    pub parent : (x : Ptr) → (k'.tasks x).parent ≡ (k.tasks x).parent

  pub Kin-refl : (k : Pm W) → Kin k k
  Kin-refl k = record {
    task_q = refl;
    wait_q = refl;
    zombie_q = refl;
    pid = λ x. refl;
    word = λ x. refl;
    parent = λ x. refl;
  }

  pub Kin-trans : (k k1 k2 : Pm W) → Kin k k1 → Kin k1 k2 → Kin k k2
  Kin-trans k k1 k2 a b = record {
    task_q = b.task_q ∙ a.task_q;
    wait_q = b.wait_q ∙ a.wait_q;
    zombie_q = b.zombie_q ∙ a.zombie_q;
    pid = λ x. b.pid x ∙ a.pid x;
    word = λ x. b.word x ∙ a.word x;
    parent = λ x. b.parent x ∙ a.parent x;
  }

  pub Kin-sys : (w : W) (k : Pm W) → Kin k (record k { sys = w })
  Kin-sys w k = record {
    task_q = refl;
    wait_q = refl;
    zombie_q = refl;
    pid = λ x. refl;
    word = λ x. refl;
    parent = λ x. refl;
  }

  Kin-chunks :
      (w : W) (chunks : Ptr → Ptr) (k : Pm W) → Kin k (record k { sys = w; chunks = chunks })
  Kin-chunks w chunks k = record {
    task_q = refl;
    wait_q = refl;
    zombie_q = refl;
    pid = λ x. refl;
    word = λ x. refl;
    parent = λ x. refl;
  }

  -- A field that a write to a task leaves alone.
  pub field-set_task {ℓ} :
      {A : Type ℓ} (field : PmTask → A) (p : Ptr) (t : PmTask) (k : Pm W)
      → field t ≡ field (k.tasks p)
      → (x : Ptr) → field ((set_task p t k).tasks x) ≡ field (k.tasks x)
  field-set_task field p t k e x = elim (Bool-cases (p == x)) [
    | inl same ↦ rw same (e ∙ ap (λ y. field (k.tasks y)) (==→eq p x same))
    | inr other ↦ rw other refl
  ]

  -- A write to a task that leaves alone what stands in the queues.
  Kin-set_task :
      (p : Ptr) (t : PmTask) (k : Pm W)
      → t.pid ≡ (k.tasks p).pid
      → t.word ≡ (k.tasks p).word
      → t.parent ≡ (k.tasks p).parent
      → Kin k (set_task p t k)
  Kin-set_task p t k pid word parent = record {
    task_q = refl;
    wait_q = refl;
    zombie_q = refl;
    pid = field-set_task (λ t. t.pid) p t k pid;
    word = field-set_task (λ t. t.word) p t k word;
    parent = field-set_task (λ t. t.parent) p t k parent;
  }

  module _ (bus : PmBus W) where
    free_if-Kin : (p : Ptr) (k : Pm W) → Kin k (if p == null then k else kfree bus p k)
    free_if-Kin p k = if_elim (Kin k) (p == null) _ _ (λ _. Kin-refl k) (λ _. Kin-sys _ k)

    delchunks-Kin : (task chunk : Ptr) (k : Pm W) → Kin k (pm_delchunks bus task chunk k).1
    unfolding pm_delchunks
    delchunks-Kin task chunk k =
        let k1 = if k.chunks chunk == null then k else kfree bus (k.chunks chunk) k in
        let k2 =
          set_task task (record (k1.tasks task) { chunk_q = erase chunk (k1.tasks task).chunk_q })
            k1 in
        Kin-trans k k1 _ (free_if-Kin (k.chunks chunk) k)
          (Kin-trans k1 k2 _ (Kin-set_task task _ k1 refl refl refl) (Kin-sys _ k2))

    pub free_chunks-Kin : (task : Ptr) (k : Pm W) → Kin k (free_chunks bus task k)
    unfolding free_chunks
    free_chunks-Kin task k =
        q_forall_inv (Kin k) (pm_delchunks bus task) (k.tasks task).chunk_q k
          (λ x s r. Kin-trans k s _ r (delchunks-Kin task x s)) (Kin-refl k)

    take_args-Kin : (task newargs : Ptr) (k : Pm W) → Kin k (take_args bus task newargs k)
    unfolding take_args
    take_args-Kin task newargs k =
        let k1 = if (k.tasks task).args == null then k else kfree bus (k.tasks task).args k in
        Kin-trans k k1 _ (free_if-Kin (k.tasks task).args k) (Kin-set_task task _ k1 refl refl refl)

    pub setuptask-Kin :
        (task : Ptr) (stacksize entry : ℕ) (argv : Ptr) (k : Pm W)
        → Kin k (pm_setuptask bus task stacksize entry argv k).1
    unfolding pm_setuptask
    setuptask-Kin task stacksize entry argv k =
        let (newargs, w) = bus.memory.take k.sys (bus.argstack_size argv k.sys) in
        let w1 = bus.stoptask (pm_pidof task k) (bus.cook_argstack newargs argv w) in
        let k1 = record k { sys = w1 } in
        let k2 = free_chunks bus task k1 in
        if_elim (λ (r : Bool × Pm W). Kin k r.1) (newargs == null) _ _ (λ _. Kin-sys w k)
          λ _. Kin-trans k k1 _ (Kin-sys w1 k) (
            Kin-trans k1 k2 _ (free_chunks-Kin task k1) (
              Kin-trans k2 (take_args bus task newargs k2) _ (take_args-Kin task newargs k2)
                (Kin-sys _ (take_args bus task newargs k2))))

    pub launch-Kin :
        (pm_task : Ptr) (task : Pid) (stacksize entry : ℕ) (argv : Ptr) (msg : PmMsg) (k : Pm W)
        → Kin k (launch bus pm_task task stacksize entry argv msg k).1
    unfolding launch
    launch-Kin pm_task task stacksize entry argv msg k =
        let r = pm_setuptask bus pm_task stacksize entry argv k in
        let e = setuptask-Kin pm_task stacksize entry argv k in
        if_elim (λ (m : PmMsg × Pm W). Kin k m.1) r.0 _ _ (λ _. Kin-trans k r.1 _ e (Kin-sys _ r.1))
          (λ _. e)

    pub exec-Kin : (msg : PmMsg) (k : Pm W) → Kin k (do_exec bus msg k).1
    unfolding do_exec
    exec-Kin msg k =
        let (prg, w) = bus.ex_getprg msg.w0 k.sys in
        let k1 = record k { sys = w } in
        let r = pm_setuptask bus (pm_client k1) prg.1 prg.0 msg.w1 k1 in
        let e =
          Kin-trans k k1 r.1 (Kin-sys w k) (setuptask-Kin (pm_client k1) prg.1 prg.0 msg.w1 k1) in
        if_elim (λ (m : Bool × Pm W). Kin k m.1) (prg.0 == null) _ _ (λ _. Kin-sys w k)
          λ _. if_elim (Kin k) r.0 _ _ (λ _. Kin-trans k r.1 _ e (Kin-sys _ r.1)) (λ _. e)

    pub pmalloc-Kin : (msg : PmMsg) (k : Pm W) → Kin k (do_pmalloc bus msg k).1
    unfolding do_pmalloc
    pmalloc-Kin msg k =
        let chunk = bus.memory.take k.sys sizeof_mem_chunk in
        let ptr = bus.memory.take chunk.1 msg.w0 in
        if_elim (λ (m : PmMsg × Pm W). Kin k m.1) (chunk.0 == null) _ _ (λ _. Kin-sys _ k)
          λ _.
            if_elim (λ (m : PmMsg × Pm W). Kin k m.1) (ptr.0 == null) _ _ (λ _. Kin-sys _ k)
              λ _.
                (let k1 = record k { sys = ptr.1; chunks = update k.chunks chunk.0 ptr.0 } in
                  Kin-trans k k1 _ (Kin-chunks _ _ k)
                    (Kin-set_task (pm_client k) _ k1 refl refl refl))

    pub pmfree-Kin : (msg : PmMsg) (k : Pm W) → Kin k (do_pmfree bus msg k).1
    unfolding do_pmfree
    pmfree-Kin msg k =
        let c = pm_client k in
        let chunk = findchunk c msg.w0 k in
        let k1 = if k.chunks chunk == null then k else kfree bus (k.chunks chunk) k in
        let k2 = set_task c (record (k.tasks c) { chunk_q = erase chunk (k.tasks c).chunk_q }) k1 in
        let freed = free_if-Kin (k.chunks chunk) k in
        if_elim (λ (m : PmMsg × Pm W). Kin k m.1) (chunk == null) _ _ (λ _. Kin-sys _ k)
          λ _. Kin-trans k k1 _ freed (
            Kin-trans k1 k2 _
              (Kin-set_task c _ k1 (sym (freed.pid c)) (sym (freed.word c)) (sym (freed.parent c)))
              (Kin-sys _ k2))
