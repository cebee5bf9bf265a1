-- ===== src/Queue/Walk.antt =====
-- `q_forall` of lib/queue.c against the walk over a list, with callbacks that change the memory.
use avros.Base.{
  ℕ, zero, suc, ◌<◌, ◌≡◌, refl, List, [], ◌∷◌, ◌++◌, append_assoc, arith, ◌==◌, if◌then◌else◌, Bool,
  true, false, ap, ◌∙◌, sym, subst, Bool-cases, inl, inr, length, Option, some, none, find_first,
}
use avros.Queue.{Ptr, null, Mem, forall_loop, q_forall, q_remv}
use avros.Queue.Chain.{first, Linked, IsQueue, Linked-split}
use avros.Queue.Remove.{q_remv_lem}

-- The callback is called on the items in order, until it returns one.
unfoldable pub walk {ℓ} : {S : Type ℓ} → (Ptr → Ptr → S → Ptr × S) → Ptr → List Ptr → S → Ptr × S
walk callback que [] s = (null, s)
walk callback que (x ∷ xs) s =
    let r = callback que x s in
    let rest = walk callback que xs r.1 in if r.0 == null then rest else (r.0, r.1)

module _ {ℓ} {S : Type ℓ} (mem : S → Mem) (callback : Ptr → Ptr → S → Ptr × S) (que : Ptr) where
  -- What the callback must keep: `P`, on the items to come, which says where the next one is.
  pub Keeps : (List Ptr → S → Type 0) → Type ℓ
  Keeps P =
      (x : Ptr) (xs : List Ptr) (s : S)
      → P (x ∷ xs) s
      → ((x == null) ≡ false) × ((mem s).next x ≡ first xs null) × P xs (callback que x s).1

  choose :
      (b : Bool) (ret : Ptr) (s' : S) {r : Option (Ptr × S)} {w : Ptr × S}
      → r ≡ some w
      → (if b then r else some (ret, s')) ≡ some (if b then w else (ret, s'))
  choose true ret s' e = e
  choose false ret s' e = refl

  loop_walks :
      (P : List Ptr → S → Type 0) (xs : List Ptr) (it : Ptr) (fuel : ℕ) (s : S)
      → Keeps P
      → P xs s
      → it ≡ first xs null
      → length xs < fuel
      → forall_loop mem callback que fuel it s ≡ some (walk callback que xs s)
  unfolding forall_loop walk Keeps
  loop_walks P xs it zero s c p e h = absurd (omega arith)
  loop_walks P [] it (suc fuel) s c p e h = rw e refl
  loop_walks P (x ∷ xs) it (suc fuel) s c p e h =
      let f = c x xs s p in
      let rest =
        loop_walks P xs ((mem s).next x) fuel (callback que x s).1 c f.2 f.1 (omega arith) in
      rw (e, f.0) (choose ((callback que x s).0 == null) _ _ rest)

  -- With one round more than there are items, the loop ends with what the walk returns.
  forall-walk :
      (P : List Ptr → S → Type 0) (xs : List Ptr) (fuel : ℕ) (s : S)
      → (que == null) ≡ false
      → Keeps P
      → P xs s
      → (mem s).head que ≡ first xs null
      → length xs < fuel
      → q_forall mem callback fuel que s ≡ some (walk callback que xs s)
  unfolding q_forall
  forall-walk P xs fuel s i c p e h = rw i (loop_walks P xs ((mem s).head que) fuel s c p e h)

-- A callback that only looks at the items.
abbrev pub looking : (Ptr → Bool) → Ptr → Ptr → Mem → Ptr × Mem
looking test que it m = (if test it then it else null, m)

abbrev pub or_null : Option Ptr → Ptr
or_null none = null
or_null (some x) = x

module _ (m : Mem) (q : Ptr) where
  walk-looking :
      (test : Ptr → Bool) (b : Ptr) (xs : List Ptr)
      → Linked m b xs null
      → walk (looking test) q xs m ≡ (or_null (find_first test xs), m)
  unfolding walk find_first
  walk-looking test b [] l = refl
  walk-looking test b (x ∷ xs) l = elim (Bool-cases (test x)) [
    | inl e ↦ rw (e, l.0) refl
    | inr n ↦ rw n (walk-looking test x xs l.3)
  ]

  Looked : List Ptr → Mem → Type 0
  Looked xs m' = (m' ≡ m) × ((b : Ptr) × Linked m b xs null)

  looking-Keeps : (test : Ptr → Bool) → Keeps (λ m. m) (looking test) q Looked
  unfolding Looked Keeps
  looking-Keeps test x xs s p =
      let l = p.1.1 in (l.0, ap (λ m. m.next x) p.0 ∙ l.2, (p.0, (x, l.3)))

  -- On a queue, with one round more than it has items, a walk whose callback only tests the items
  -- ends, changes nothing, and returns the first item that passes, or NULL if none does.
  pub q_forall-find_first :
      (test : Ptr → Bool) (xs : List Ptr) (fuel : ℕ)
      → IsQueue m q xs
      → (q == null) ≡ false
      → length xs < fuel
      → q_forall (λ m. m) (looking test) fuel q m ≡ some (or_null (find_first test xs), m)
  unfolding Looked
  q_forall-find_first test xs fuel k i h =
      forall-walk (λ m. m) (looking test) q Looked xs fuel m i (looking-Keeps test)
        (refl, (null, k.linked)) k.head h
      ∙ ap some (walk-looking test null xs k.linked)

-- A callback that takes the items that pass the test out of the queue, and goes on.
unfoldable pub sweeping : (Ptr → Bool) → Ptr → Ptr → Mem → Ptr × Mem
sweeping test que it m = (null, if test it then (q_remv que it m).1 else m)

unfoldable pub reject : (Ptr → Bool) → List Ptr → List Ptr
reject test [] = []
reject test (x ∷ xs) = if test x then reject test xs else x ∷ reject test xs

module _ (q : Ptr) (i : (q == null) ≡ false) where
  -- The queue holds the items that were kept, then those to come.
  Swept : List Ptr → Mem → Type 0
  Swept xs m = (kept : List Ptr) × IsQueue m q (kept ++ xs)

  Swept-step :
      (test : Ptr → Bool) (x : Ptr) (kept xs : List Ptr) (m : Mem)
      → IsQueue m q (kept ++ x ∷ xs)
      → IsQueue (sweeping test q x m).1 q ((if test x then kept else kept ++ x ∷ []) ++ xs)
  unfolding sweeping
  Swept-step test x kept xs m k = elim (Bool-cases (test x)) [
    | inl e ↦ rw e (q_remv_lem m q x kept xs k i).1
    | inr n ↦ rw n (subst (IsQueue m q) (sym (append_assoc kept (x ∷ []) xs)) k)
  ]

  sweeping-Keeps : (test : Ptr → Bool) → Keeps (λ m. m) (sweeping test) q Swept
  unfolding Swept Keeps
  sweeping-Keeps test x xs m (kept, k) =
      let l = (Linked-split m null kept (x ∷ xs) null k.linked).1 in
      (l.0, l.2, (_, Swept-step test x kept xs m k))

  walk-sweeping :
      (test : Ptr → Bool) (kept xs : List Ptr) (m : Mem)
      → IsQueue m q (kept ++ xs)
      → ((walk (sweeping test) q xs m).0 ≡ null)
        × IsQueue (walk (sweeping test) q xs m).1 q (kept ++ reject test xs)
  unfolding walk reject sweeping
  walk-sweeping test kept [] m k = (refl, k)
  walk-sweeping test kept (x ∷ xs) m k = elim (Bool-cases (test x)) [
    | inl e ↦ rw e (walk-sweeping test kept xs (q_remv q x m).1 (q_remv_lem m q x kept xs k i).1)
    | inr n ↦
        let f =
          walk-sweeping test (kept ++ x ∷ []) xs m
            (subst (IsQueue m q) (sym (append_assoc kept (x ∷ []) xs)) k) in
        rw n (
          f.0,
          subst (IsQueue (walk (sweeping test) q xs m).1 q)
              (append_assoc kept (x ∷ []) (reject test xs)) f.1,
        )
  ]

  -- On a queue, with one round more than it has items, a walk whose callback takes the items that
  -- pass a test out of the queue ends, returns NULL, and leaves a queue of exactly the items that do
  -- not pass, in their order.
  pub q_forall-q_remv :
      (test : Ptr → Bool) (xs : List Ptr) (fuel : ℕ) (m : Mem)
      → IsQueue m q xs
      → length xs < fuel
      → (m' : Mem) × (q_forall (λ m. m) (sweeping test) fuel q m ≡ some (null, m'))
        × IsQueue m' q (reject test xs)
  unfolding Swept
  q_forall-q_remv test xs fuel m k h =
      let f = walk-sweeping test [] xs m k in
      (
        (walk (sweeping test) q xs m).1,
        forall-walk (λ m. m) (sweeping test) q Swept xs fuel m i (sweeping-Keeps test) ([], k)
              k.head h
            ∙ ap (λ r. some (r, (walk (sweeping test) q xs m).1)) f.0,
        f.1,
      )
