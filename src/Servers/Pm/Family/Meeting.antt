-- ===== src/Servers/Pm/Family/Meeting.antt =====
-- servers/pm.c: the exit of a task and the wait of its parent, in both orders.
use avros.Base.{
  ℕ, ◌<◌, ◌≡◌, inl, inr, refl, Bool, true, false, ◌&&◌, ◌||◌, not, none, some, List, [], ◌∷◌, ◌++◌,
  arith, ◌==◌, if◌then◌else◌, if_true, if_false, count, count_ne, find_first, Bool-cases, ap, ap₂,
  sym, ◌∙◌, ==→eq, ==_refl,
}
use avros.Kernel.State.{task_any}
use avros.Kernel.Calls.{q_forall}
use avros.Queue.{Ptr, null}
use avros.Servers.Pm.State.{
  PmMsg, PmBus, Pm, ptr_of, pm_client, pm_pidof, set_task, is_child, is_awaited, first_by,
  pm_findmyparent, pm_findzombie,
}
use avros.Servers.Pm.Exit.{waits, wake_parent, become_zombie, tell_parent, reap, do_wait}
use avros.Servers.Pm.Family.Kin.{field-set_task}
use avros.Servers.Pm.Family.Invariant.{parent_of}
use avros.Servers.Pm.Family.Moved.{ne_sym}

pub find_first-none :
    (test : Ptr → Bool) (q : List Ptr)
    → ((x : Ptr) → 0 < count x q → test x ≡ false)
    → find_first test q ≡ none
unfolding find_first count
find_first-none test [] fails = refl
find_first-none test (x ∷ q) fails =
    rw (fails x (ground (arith, ==_refl x)))
      (find_first-none test q λ y h. fails y (omega (arith, h)))

pub find_first-end :
    (test : Ptr → Bool) (q : List Ptr) (c : Ptr)
    → find_first test q ≡ none
    → test c ≡ true
    → find_first test (q ++ c ∷ []) ≡ some c
unfolding find_first
find_first-end test [] c fails passes = rw passes refl
find_first-end test (x ∷ q) c fails passes = ground (arith, find_first-end test q c)

-- An item of a list that is the only one to pass the test.
pub find_first-equal :
    (p : Ptr) (q : List Ptr) → 0 < count p q → find_first (λ x. p == x) q ≡ some p
unfolding find_first count
find_first-equal p [] h = absurd (omega (arith, h))
find_first-equal p (x ∷ q) h = elim (Bool-cases (p == x)) [
  | inl e ↦ rw e (ap some (sym (==→eq p x e)))
  | inr e ↦ let differ = ne_sym p x e in rw e (find_first-equal p q (ground arith))
]

module _ {W : Type 0} where
  -- A callback that only tests finds what the test finds.
  pub first_by-find_first :
      (callback : Ptr → Pm W → Bool × Pm W) (test : Ptr → Bool) (q : List Ptr) (k : Pm W)
      → ((x : Ptr) → callback x k ≡ (test x, k))
      → first_by callback q k ≡ ptr_of (find_first test q)
  unfolding q_forall find_first
  first_by-find_first callback test [] k same = refl
  first_by-find_first callback test (x ∷ q) k same = rw (same x) (elim (Bool-cases (test x)) [
    | inl e ↦ rw e refl
    | inr e ↦ rw e (first_by-find_first callback test q k same)
  ])

  -- The parent of the client in a queue, if it is there.
  pub findmyparent_there :
      (p : Ptr) (q : List Ptr) (k : Pm W)
      → parent_of k (pm_client k) ≡ p
      → 0 < count p q
      → first_by pm_findmyparent q k ≡ p
  unfolding pm_findmyparent
  findmyparent_there p q k parent here =
      first_by-find_first pm_findmyparent (λ x. parent_of k (pm_client k) == x) q k (λ x. refl)
      ∙ rw parent (ap ptr_of (find_first-equal p q here))

  pub findmyparent_gone :
      (p : Ptr) (q : List Ptr) (k : Pm W)
      → parent_of k (pm_client k) ≡ p
      → count p q ≡ 0
      → first_by pm_findmyparent q k ≡ null
  unfolding pm_findmyparent
  findmyparent_gone p q k parent gone =
      first_by-find_first pm_findmyparent (λ x. parent_of k (pm_client k) == x) q k (λ x. refl)
      ∙ rw parent (ap ptr_of (find_first-none (λ x. p == x) q λ x h. count_ne p x q gone h))

  -- What `do_wait` notes of its request.
  abbrev pub asked : PmMsg → Pm W → Pm W
  asked msg k = let c = pm_client k in set_task c (record (k.tasks c) { word = msg.w0 }) k

  -- The zombies that the client awaits: its children, all or the one of the pid.
  abbrev pub wanted : ℕ → Ptr → Pm W → Bool
  wanted waitfor x k = (waitfor == pm_pidof x k) || (waitfor == task_any)

  pub is_awaited-asked :
      (msg : PmMsg) (k : Pm W) (x : Ptr)
      → is_awaited (asked msg k) x ≡ is_child k x && wanted msg.w0 x k
  is_awaited-asked msg k x =
      let c = pm_client k in
      let t = record (k.tasks c) { word = msg.w0 } in
      let word : ((asked msg k).tasks c).word ≡ msg.w0 =
        ap (λ b. (if b then t else k.tasks c).word) (==_refl c) in
      let parent = field-set_task (λ t. t.parent) c t k refl x in
      let pid = field-set_task (λ t. t.pid) c t k refl x in
      ap₂ ◌&&◌ (ap (λ y. y == c) parent)
        (ap₂ (λ y w. (w == (if x == null then null else y)) || (w == task_any)) pid word)

  module _ (bus : PmBus W) where
    -- The client whose parent runs becomes a zombie.
    pub tell_parent-become_zombie :
        (msg : PmMsg) (k : Pm W) (p : Ptr)
        → parent_of k (pm_client k) ≡ p
        → (p == null) ≡ false
        → count p k.wait_q ≡ 0
        → tell_parent bus msg k ≡ (none, become_zombie bus msg k)
    unfolding tell_parent
    tell_parent-become_zombie msg k p parent real gone =
        rw (parent, real, findmyparent_gone p k.wait_q k parent gone) refl

    -- The client whose parent waits for it wakes it.
    pub tell_parent-wake_parent :
        (msg : PmMsg) (k : Pm W) (p : Ptr)
        → parent_of k (pm_client k) ≡ p
        → (p == null) ≡ false
        → 0 < count p k.wait_q
        → waits bus p k ≡ true
        → tell_parent bus msg k ≡ wake_parent bus p msg k
    unfolding tell_parent
    tell_parent-wake_parent msg k p parent real here awaited =
        let found = findmyparent_there p k.wait_q k parent here in
        if_false (parent_of k (pm_client k) == null) _ _ (ap (λ x. x == null) parent ∙ real)
        ∙ if_true (waits bus (first_by pm_findmyparent k.wait_q k) k) _ _
            (ap (λ x. waits bus x k) found ∙ awaited)
        ∙ ap (λ x. wake_parent bus x msg k) found

    -- The client with a zombie that it awaits gets it.
    pub do_wait-reap :
        (msg : PmMsg) (k : Pm W) (z : Ptr)
        → find_first (is_awaited (asked msg k)) k.zombie_q ≡ some z
        → (z == null) ≡ false
        → do_wait bus msg k ≡ reap bus z msg (asked msg k)
    unfolding do_wait pm_findzombie
    do_wait-reap msg k z first real =
        let k1 = asked msg k in
        let found =
          first_by-find_first pm_findzombie (is_awaited k1) k1.zombie_q k1 (λ x. refl)
          ∙ ap ptr_of first in
        if_true (not (first_by pm_findzombie k1.zombie_q k1 == null)) _ _
          (ap (λ x. not (x == null)) found ∙ ap not real)
        ∙ ap (λ x. reap bus x msg k1) found

    -- The last zombie, if it is awaited and no other is a child of the client.
    pub do_wait-last :
        (msg : PmMsg) (k : Pm W) (c : Ptr) (zs : List Ptr)
        → k.zombie_q ≡ zs ++ c ∷ []
        → (c == null) ≡ false
        → is_child k c ≡ true
        → wanted msg.w0 c k ≡ true
        → ((x : Ptr) → 0 < count x zs → is_child k x ≡ false)
        → do_wait bus msg k ≡ reap bus c msg (asked msg k)
    do_wait-last msg k c zs queue real child awaited others =
        let test = is_awaited (asked msg k) in
        let fails =
          find_first-none test zs
            λ x h. is_awaited-asked msg k x ∙ ap (λ b. b && wanted msg.w0 x k) (others x h) in
        do_wait-reap msg k c
          (ap (find_first test) queue
            ∙ find_first-end test zs c fails (is_awaited-asked msg k c ∙ ap₂ ◌&&◌ child awaited))
          real
