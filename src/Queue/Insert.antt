-- ===== src/Queue/Insert.antt =====
-- `q_front` and `q_end` of lib/queue.c against lists.
use avros.Base.{
  append_assoc, ◌<◌, ◌≡◌, refl, List, [], ◌∷◌, ◌++◌, arith, ◌==◌, false, count, count_ne, ap, ap₂,
  ==_refl, ◌∙◌, sym, subst, inl, inr,
}
use avros.Queue.{
  Ptr, null, Mem, set_next, set_prev, set_head, set_tail, q_init, link_front, link_end, front_links,
  q_front, end_links, q_end,
}
use avros.Queue.Chain.{
  Once-end, Linked, Once, IsQueue, Untouched, Linked-same, first-append, last-append, Once-cons,
  Once-tail, Once-head, last-cases, not_counted, counted_append, counted_mid, ne_sym, first_mid,
}

q_init-IsQueue : (m : Mem) (q : Ptr) → (q == null) ≡ false → IsQueue (q_init q m) q []
unfolding q_init count
q_init-IsQueue m q h = record {
  head = ground arith;
  tail = ground arith;
  linked = tt;
  once = λ t. omega arith;
}

module _ (m : Mem) (q item : Ptr) where
  abbrev fronted : Mem
  fronted = set_head q item (front_links q item m)

  q_front_result : (item == null) ≡ false → (q == null) ≡ false → q_front q item m ≡ (item, fronted)
  unfolding q_front
  q_front_result h i = ground arith

  front_nil :
      m.head q ≡ null
      → m.tail q ≡ null
      → front_links q item m ≡ set_tail q item (set_prev item null (set_next item null m))
  unfolding front_links
  front_nil e f =
      ap (λ h. link_front h q item m) e
      ∙ ap₂ (λ t h. set_tail q item (set_prev item h (set_next item t m))) f e

  front_cons :
      (y : Ptr)
      → m.head q ≡ y
      → (y == null) ≡ false
      → front_links q item m ≡ set_prev y item (set_prev item (m.prev y) (set_next item y m))
  unfolding front_links
  front_cons y e n = ap (λ h. link_front h q item m) e ∙ rw (n, link_front) (rw (==_refl item))

  -- The memory after a non-empty queue with head `y` got a new front item.
  abbrev pushed : Ptr → Mem
  pushed y = set_head q item (set_prev y item (set_prev item (m.prev y) (set_next item y m)))

  pushed_links :
      (y : Ptr)
      → (item == y) ≡ false
      → ((pushed y).prev item ≡ m.prev y)
        × ((pushed y).next item ≡ y)
        × ((pushed y).prev y ≡ item)
        × ((pushed y).next y ≡ m.next y)
  pushed_links y n = (ground arith, ground arith, ground arith, ground arith)

  pushed_others :
      (y p : Ptr)
      → (item == p) ≡ false
      → (y == p) ≡ false
      → ((pushed y).next p ≡ m.next p) × ((pushed y).prev p ≡ m.prev p)
  pushed_others y p n o = (ground arith, ground arith)

  pushed-IsQueue :
      (y : Ptr) (ys : List Ptr)
      → IsQueue m q (y ∷ ys)
      → (item == null) ≡ false
      → count item (y ∷ ys) ≡ 0
      → IsQueue (pushed y) q (item ∷ y ∷ ys)
  unfolding count
  pushed-IsQueue y ys k h n =
      let ne : (item == y) ≡ false = count_ne item y (y ∷ ys) n (ground arith) in
      let f = pushed_links y ne in
      let others = λ (p : Ptr) (i : 0 < count p ys).
        pushed_others y p (count_ne item p (y ∷ ys) n (ground arith))
          (count_ne y p ys (Once-head y ys k.once) i) in
      record {
        head = head_same;
        tail = k.tail;
        linked = (
          h,
          f.0 ∙ k.linked.1,
          f.1,
          (k.linked.0, f.2, f.3 ∙ k.linked.2, Linked-same m (pushed y) y ys null others k.linked.3),
        );
        once = Once-cons item (y ∷ ys) n k.once;
      }
    where
      head_same : (pushed y).head q ≡ item
      head_same = rw (==_refl q)

  fronted-Untouched :
      (xs : List Ptr) → IsQueue m q xs → (item == null) ≡ false → Untouched q (item ∷ xs) m fronted
  unfolding count
  fronted-Untouched [] k h = rw (front_nil k.head k.tail) (record {
    next = λ p i. ground arith;
    prev = λ p i. ground arith;
    head = λ r i. ground arith;
    tail = λ r i. ground arith;
  })
  fronted-Untouched (y ∷ ys) k h =
      let others = λ (p : Ptr) (i : count p (item ∷ y ∷ ys) ≡ 0).
        let f = not_counted p item (y ∷ ys) i in pushed_others y p f.0 (not_counted p y ys f.1).0 in
      rw (front_cons y k.head k.linked.0) (record {
        next = λ p i. (others p i).0;
        prev = λ p i. (others p i).1;
        head = λ r i. rw i;
        tail = λ r i. refl;
      })

  fronted-IsQueue :
      (xs : List Ptr)
      → IsQueue m q xs
      → (item == null) ≡ false
      → count item xs ≡ 0
      → IsQueue fronted q (item ∷ xs)
  fronted-IsQueue [] k h n = rw (front_nil k.head k.tail) (record {
    head = rw (==_refl q);
    tail = rw (==_refl q);
    linked = (h, rw (==_refl item), rw (==_refl item), tt);
    once = Once-cons item [] n k.once;
  })
  fronted-IsQueue (y ∷ ys) k h n = rw (front_cons y k.head k.linked.0) (pushed-IsQueue y ys k h n)

  -- With an item that is not null and not in the queue, `q_front` returns it and puts it in front of
  -- the queue's items, and changes no other item and no other queue's head.
  pub q_front_lem :
      (xs : List Ptr)
      → IsQueue m q xs
      → (item == null) ≡ false
      → (q == null) ≡ false
      → count item xs ≡ 0
      → ((q_front q item m).0 ≡ item)
        × IsQueue (q_front q item m).1 q (item ∷ xs)
        × Untouched q (item ∷ xs) m (q_front q item m).1
  q_front_lem xs k h i n =
      subst
        (λ (r : Ptr × Mem).
          (r.0 ≡ item) × IsQueue r.1 q (item ∷ xs) × Untouched q (item ∷ xs) m r.1)
        (sym (q_front_result h i)) (refl, fronted-IsQueue xs k h n, fronted-Untouched xs k h)

  abbrev ended : Mem
  ended = set_tail q item (end_links q item m)

  q_end_result : (item == null) ≡ false → (q == null) ≡ false → q_end q item m ≡ (item, ended)
  unfolding q_end
  q_end_result h i = ground arith

  end_nil :
      m.head q ≡ null
      → m.tail q ≡ null
      → end_links q item m ≡ set_head q item (set_prev item null (set_next item null m))
  unfolding end_links
  end_nil e f =
      ap (λ t. link_end t q item m) f
      ∙ ap₂ (λ t h. set_head q item (set_prev item h (set_next item t m))) f e

  end_snoc :
      (z : Ptr)
      → m.tail q ≡ z
      → (z == null) ≡ false
      → end_links q item m ≡ set_next z item (set_next item (m.next z) (set_prev item z m))
  unfolding end_links
  end_snoc z e n = ap (λ t. link_end t q item m) e ∙ rw (n, link_end) (rw (==_refl item))

  -- The memory after a non-empty queue with last item `z` got a new last item.
  abbrev added : Ptr → Mem
  added z = set_tail q item (set_next z item (set_next item (m.next z) (set_prev item z m)))

  added_links :
      (z : Ptr)
      → (item == z) ≡ false
      → ((added z).prev item ≡ z)
        × ((added z).next item ≡ m.next z)
        × ((added z).prev z ≡ m.prev z)
        × ((added z).next z ≡ item)
  added_links z n = (ground arith, ground arith, ground arith, ground arith)

  added_others :
      (z p : Ptr)
      → (item == p) ≡ false
      → (z == p) ≡ false
      → ((added z).next p ≡ m.next p) × ((added z).prev p ≡ m.prev p)
  added_others z p n o = (ground arith, ground arith)

  added-Linked :
      (z b : Ptr) (ys : List Ptr)
      → Linked m b (ys ++ z ∷ []) null
      → (item == null) ≡ false
      → Once (ys ++ z ∷ [])
      → count item (ys ++ z ∷ []) ≡ 0
      → Linked (added z) b (ys ++ z ∷ item ∷ []) null
  added-Linked z b [] l h o n =
      let f = added_links z (count_ne item z (z ∷ []) n (counted_mid z [] [])) in
      (l.0, f.2 ∙ l.1, f.3, (h, f.0, f.1 ∙ l.2, tt))
  added-Linked z b (y ∷ ys) l h o n =
      let not_item : (item == y) ≡ false =
        count_ne item y (y ∷ ys ++ z ∷ []) n (counted_mid y [] _) in
      let not_z : (y == z) ≡ false =
        count_ne y z (ys ++ z ∷ []) (Once-head y _ o) (counted_mid z ys []) in
      let same = added_others z y not_item (ne_sym y z not_z) in
      (
        l.0,
        same.1 ∙ l.1,
        same.0 ∙ l.2 ∙ first_mid ys z [] null ∙ sym (first_mid ys z (item ∷ []) null),
        added-Linked z y ys l.3 h (Once-tail y _ o) (not_counted item y _ n).1,
      )

  -- The tail of a non-empty queue is an item.
  last-not_null : (b z : Ptr) (ys : List Ptr) → Linked m b (ys ++ z ∷ []) null → (z == null) ≡ false
  last-not_null b z [] l = l.0
  last-not_null b z (y ∷ ys) l = last-not_null y z ys l.3

  abbrev Ended : List Ptr → Type 0
  Ended xs = IsQueue ended q (xs ++ item ∷ []) × Untouched q (xs ++ item ∷ []) m ended

  Ended-nil : IsQueue m q [] → (item == null) ≡ false → Ended []
  unfolding count
  Ended-nil k h = rw (end_nil k.head k.tail) (
    record {
      head = rw (==_refl q);
      tail = rw (==_refl q);
      linked = (h, rw (==_refl item), rw (==_refl item), tt);
      once = Once-cons item [] refl k.once;
    },
    record {
      next = λ p i. ground arith;
      prev = λ p i. ground arith;
      head = λ r i. ground arith;
      tail = λ r i. ground arith;
    },
  )

  Ended-snoc :
      (ys : List Ptr) (z : Ptr)
      → IsQueue m q (ys ++ z ∷ [])
      → (item == null) ≡ false
      → count item (ys ++ z ∷ []) ≡ 0
      → Ended (ys ++ z ∷ [])
  Ended-snoc ys z k h n =
      let t = k.tail ∙ last-append null ys (z ∷ []) in
      let others = λ (p : Ptr) (i : count p ((ys ++ z ∷ []) ++ item ∷ []) ≡ 0).
        let f = counted_append p (ys ++ z ∷ []) (item ∷ []) i in
        added_others z p (not_counted p item [] f.1).0
          (not_counted p z [] (counted_append p ys (z ∷ []) f.0).1).0 in
      rw (end_snoc z t (last-not_null null z ys k.linked)) (
        record {
          head =
              k.head
              ∙ first_mid ys z [] null
              ∙ sym (first-append (ys ++ z ∷ []) (item ∷ []) null ∙ first_mid ys z [] item);
          tail = rw (==_refl q) (sym (last-append null (ys ++ z ∷ []) (item ∷ [])));
          linked =
              subst (λ l. Linked (added z) null l null) (sym (append_assoc ys (z ∷ []) (item ∷ [])))
                (added-Linked z null ys k.linked h k.once n);
          once = Once-end item (ys ++ z ∷ []) k.once n;
        },
        record {
          next = λ p i. (others p i).0;
          prev = λ p i. (others p i).1;
          head = λ r i. refl;
          tail = λ r i. rw i;
        },
      )

  Ended-by :
      (xs : List Ptr) → IsQueue m q xs → (item == null) ≡ false → count item xs ≡ 0 → Ended xs
  Ended-by xs k h n = elim (last-cases xs) [
    | inl e ↦ subst Ended (sym e) (Ended-nil (subst (IsQueue m q) e k) h)
    | inr (ys, z, e) ↦
        subst Ended (sym e)
          (Ended-snoc ys z (subst (IsQueue m q) e k) h (subst (λ l. count item l ≡ 0) e n))
  ]

  -- With an item that is not null and not in the queue, `q_end` returns it and puts it behind the
  -- queue's items, and changes no other item and no other queue's head.
  pub q_end_lem :
      (xs : List Ptr)
      → IsQueue m q xs
      → (item == null) ≡ false
      → (q == null) ≡ false
      → count item xs ≡ 0
      → ((q_end q item m).0 ≡ item)
        × IsQueue (q_end q item m).1 q (xs ++ item ∷ [])
        × Untouched q (xs ++ item ∷ []) m (q_end q item m).1
  q_end_lem xs k h i n =
      let f = Ended-by xs k h n in
      subst
        (λ (r : Ptr × Mem).
          (r.0 ≡ item) × IsQueue r.1 q (xs ++ item ∷ []) × Untouched q (xs ++ item ∷ []) m r.1)
        (sym (q_end_result h i)) (refl, f.0, f.1)
