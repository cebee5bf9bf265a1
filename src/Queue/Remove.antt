-- ===== src/Queue/Remove.antt =====
-- `q_remv` of lib/queue.c against lists, and the move of an item from a queue to another.
use avros.Base.{
  ℕ, ◌+◌, ◌<◌, ◌≤◌, ◌≡◌, refl, List, [], ◌∷◌, ◌++◌, arith, ◌==◌, if◌then◌else◌, false, count,
  count_ne, count-append, count-end, ==_refl, ◌∙◌, sym, subst,
}
use avros.Queue.{Ptr, null, Mem, unlink_prev, q_remv, q_end}
use avros.Queue.Chain.{
  first, last, Once, IsQueue, Untouched, Apart, IsQueue-Untouched, Linked-same, Linked-append,
  Linked-split, first-append, last-append, counted_append, counted_mid, ne_sym, first_mid,
}
use avros.Queue.Insert.{q_end_lem}
use avros.Queue.Retarget.{exclude, unlinked, Left-half, Right-half, q_remv_result}

module _ (m : Mem) (q item : Ptr) where
  -- The counts of a list without repetition, around the item.
  around :
      (xs ys : List Ptr) (p : Ptr)
      → Once (xs ++ item ∷ ys)
      → count p xs + (if item == p then 1 else 0) + count p ys ≤ 1
  unfolding count
  around xs ys p o = omega (arith, o p, count-append p xs (item ∷ ys))

  abbrev Removed : List Ptr → List Ptr → Type 0
  Removed xs ys =
      IsQueue (unlinked m q item) q (xs ++ ys) × Untouched q (xs ++ ys) m (unlinked m q item)

  Removed-by : (xs ys : List Ptr) → IsQueue m q (xs ++ item ∷ ys) → Removed xs ys
  Removed-by xs ys k =
      let parts = Linked-split m null xs (item ∷ ys) null k.linked in
      let not_left : count item xs ≡ 0 = rw_item (around xs ys item k.once) in
      let a =
        Left-half m q item xs (first ys null) parts.1.1 parts.1.2
          (k.head ∙ first_mid xs item ys null) (λ t. omega (arith, around xs ys t k.once))
          parts.0 in
      let m1 = unlink_prev q item m in
      let b =
        Right-half m1 q item ys (last null xs) (a.prevs item ∙ parts.1.1)
          (a.nexts item not_left ∙ parts.1.2) (a.tails q ∙ k.tail ∙ last-append null xs (item ∷ ys))
          (λ t. omega (arith, around xs ys t k.once))
          (Linked-same m m1 item ys null
            (λ p h. (a.nexts p (omega (arith, around xs ys p k.once)), a.prevs p)) parts.1.3) in
      (
        record {
          head = b.heads q ∙ a.head ∙ sym (first-append xs ys null);
          tail = b.tail ∙ sym (last-append null xs ys);
          linked =
              Linked-append (unlinked m q item) null xs ys null
                (Linked-same m1 (unlinked m q item) null xs (first ys null)
                  (λ p h. (b.nexts p, b.prevs p (omega (arith, around xs ys p k.once)))) a.linked)
                b.linked;
          once = λ t. omega (arith, around xs ys t k.once, count-append t xs ys);
        },
        record {
          next = λ p i. b.nexts p ∙ a.nexts p (counted_append p xs ys i).0;
          prev = λ p i. b.prevs p (counted_append p xs ys i).1 ∙ a.prevs p;
          head = λ r i. b.heads r ∙ a.heads r i;
          tail = λ r i. b.tails r i ∙ a.tails r;
        },
      )
    where
      rw_item :
          count item xs + (if item == item then 1 else 0) + count item ys ≤ 1 → count item xs ≡ 0
      rw_item h = let e = ==_refl item in ground arith

  -- With an item of the queue, `q_remv` returns it and takes it out, keeps the order of the others,
  -- and changes no item but those that stay and no other queue's head.
  pub q_remv_lem :
      (xs ys : List Ptr)
      → IsQueue m q (xs ++ item ∷ ys)
      → (q == null) ≡ false
      → ((q_remv q item m).0 ≡ item)
        × IsQueue (q_remv q item m).1 q (xs ++ ys)
        × Untouched q (xs ++ ys) m (q_remv q item m).1
  q_remv_lem xs ys k i =
      let f = Removed-by xs ys k in
      let h = (Linked-split m null xs (item ∷ ys) null k.linked).1.0 in
      subst
        (λ (r : Ptr × Mem). (r.0 ≡ item) × IsQueue r.1 q (xs ++ ys) × Untouched q (xs ++ ys) m r.1)
        (sym (q_remv_result m q item h i)) (refl, f.0, f.1)

  -- The way the kernel and the servers move an item: `Q_END(&r, Q_REMV(&q, item))`.
  abbrev pub moved_to : Ptr → Ptr × Mem
  moved_to r = let (it, m1) = q_remv q item m in q_end r it m1

  appended :
      (r it : Ptr) (xs zs : List Ptr) (m1 : Mem)
      → it ≡ item
      → IsQueue m1 q xs
      → IsQueue m1 r zs
      → (item == null) ≡ false
      → (q == r) ≡ false
      → (r == null) ≡ false
      → count item xs ≡ 0
      → count item zs ≡ 0
      → Apart xs zs
      → IsQueue (q_end r it m1).1 q xs × IsQueue (q_end r it m1).1 r (zs ++ item ∷ [])
  appended r it xs zs m1 e k l h n i c d apart =
      let f = q_end_lem m1 r item zs l h i d in
      subst (λ it. IsQueue (q_end r it m1).1 q xs × IsQueue (q_end r it m1).1 r (zs ++ item ∷ []))
        (sym e)
        (
          IsQueue-Untouched f.2 (ne_sym q r n)
              (λ p g. omega (arith, count-end p item zs, apart p g, item_or p xs g c)) k,
          f.1,
        )
    where
      item_or :
          (p : Ptr) (xs : List Ptr)
          → 0 < count p xs
          → count item xs ≡ 0
          → ◌≡◌ {A = ℕ} (if item == p then 1 else 0) 0
      item_or p xs g c = rw (count_ne item p xs c g)

  -- Moving an item of a queue to the end of another queue that shares no item with it leaves two
  -- queues: the first of its other items in order, the second of its items and then the moved one.
  pub q_end-q_remv :
      (r : Ptr) (xs ys zs : List Ptr)
      → IsQueue m q (xs ++ item ∷ ys)
      → IsQueue m r zs
      → (q == null) ≡ false
      → (r == null) ≡ false
      → (q == r) ≡ false
      → Apart (xs ++ item ∷ ys) zs
      → IsQueue (moved_to r).1 q (xs ++ ys) × IsQueue (moved_to r).1 r (zs ++ item ∷ [])
  unfolding count
  q_end-q_remv r xs ys zs k l i j n apart =
      let f = q_remv_lem xs ys k i in
      let h = (Linked-split m null xs (item ∷ ys) null k.linked).1.0 in
      let off : (p : Ptr) → 0 < count p zs → count p (xs ++ ys) ≡ 0 = λ p g. omega (
        arith,
        count-append p xs ys,
        count-append p xs (item ∷ ys),
        exclude (count p (xs ++ item ∷ ys)) _ (apart p) g,
      ) in
      let once = around xs ys item k.once in
      let e = ==_refl item in
      appended r (q_remv q item m).0 (xs ++ ys) zs (q_remv q item m).1 f.0 f.1
        (IsQueue-Untouched f.2 n off l) h n j (ground (arith, count-append item xs ys))
        (apart item (counted_mid item xs ys))
        (λ p g. apart p (omega (arith, g, count-append p xs ys, count-append p xs (item ∷ ys))))
