-- ===== src/Queue/Retarget.antt =====
-- lib/queue.c: the links around an item that is taken out.
use avros.Base.{
  ℕ, zero, suc, ◌<◌, ◌≡◌, refl, List, [], ◌∷◌, arith, ◌==◌, if◌then◌else◌, false, count, count_ne,
  ap₂, ==_refl, ◌∙◌, sym, subst,
}
use avros.Queue.{
  Ptr, null, Mem, set_next, set_prev, set_head, set_tail, unlink_prev, unlink_next, q_remv,
}
use avros.Queue.Chain.{
  first, last, Linked, Once, Linked-same, Once-tail, Once-head, not_counted, ne_sym,
}

last_counted : (y : Ptr) (ys : List Ptr) → 0 < count (last y ys) (y ∷ ys)
unfolding count
last_counted y [] = rw (==_refl y) (omega arith)
last_counted y (z ∷ zs) = omega (arith, last_counted z zs)

last-not_null :
    (m : Mem) (b y : Ptr) (ys : List Ptr) (a : Ptr)
    → Linked m b (y ∷ ys) a
    → (last y ys == null) ≡ false
last-not_null m b y [] a l = l.0
last-not_null m b y (z ∷ zs) a l = last-not_null m y z zs a l.3

-- A write to the last item's `next` moves the end of the chain.
retarget_next :
    (m : Mem) (b y : Ptr) (ys : List Ptr) (a n : Ptr)
    → Once (y ∷ ys)
    → Linked m b (y ∷ ys) a
    → Linked (set_next (last y ys) n m) b (y ∷ ys) n
retarget_next m b y [] a n o l = (l.0, l.1, rw (==_refl y), tt)
retarget_next m b y (z ∷ zs) a n o l =
    let off : (last z zs == y) ≡ false =
      ne_sym y (last z zs)
        (count_ne y (last z zs) (z ∷ zs) (Once-head y _ o) (last_counted z zs)) in
    (l.0, l.1, rw off l.2, retarget_next m y z zs a n (Once-tail y _ o) l.3)

-- A write to the first item's `prev` moves the start of the chain.
retarget_prev :
    (m : Mem) (b y : Ptr) (ys : List Ptr) (a p : Ptr)
    → Once (y ∷ ys)
    → Linked m b (y ∷ ys) a
    → Linked (set_prev y p m) p (y ∷ ys) a
retarget_prev m b y ys a p o l = (
  l.0,
  rw (==_refl y),
  l.2,
  Linked-same m (set_prev y p m) y ys a (λ t h. (refl, rw (count_ne y t ys (Once-head y ys o) h)))
      l.3,
)

pub exclude : (a b : ℕ) → (0 < a → b ≡ 0) → 0 < b → a ≡ 0
exclude zero b h g = refl
exclude (suc a) b h g = absurd (omega (arith, h (omega arith)))

-- What the first half of the removal does to the items before, and the second half to those
-- after.
pub record Left (q n : Ptr) (xs : List Ptr) (m m' : Mem) : Type 0 where
  pub head : m'.head q ≡ first xs n
  pub linked : Linked m' null xs n
  pub nexts : (p : Ptr) → count p xs ≡ 0 → m'.next p ≡ m.next p
  pub prevs : (p : Ptr) → m'.prev p ≡ m.prev p
  pub heads : (r : Ptr) → (q == r) ≡ false → m'.head r ≡ m.head r
  pub tails : (r : Ptr) → m'.tail r ≡ m.tail r

pub record Right (q p : Ptr) (xs : List Ptr) (m m' : Mem) : Type 0 where
  pub tail : m'.tail q ≡ last p xs
  pub linked : Linked m' p xs null
  pub nexts : (t : Ptr) → m'.next t ≡ m.next t
  pub prevs : (t : Ptr) → count t xs ≡ 0 → m'.prev t ≡ m.prev t
  pub heads : (r : Ptr) → m'.head r ≡ m.head r
  pub tails : (r : Ptr) → (q == r) ≡ false → m'.tail r ≡ m.tail r

module _ (m : Mem) (q item : Ptr) where
  unlink_prev_at :
      (p n : Ptr)
      → m.prev item ≡ p
      → m.next item ≡ n
      → unlink_prev q item m ≡ (if p == null then set_head q n m else set_next p n m)
  unfolding unlink_prev
  unlink_prev_at p n e f = ap₂ (λ p n. if p == null then set_head q n m else set_next p n m) e f

  unlink_next_at :
      (p n : Ptr)
      → m.prev item ≡ p
      → m.next item ≡ n
      → unlink_next q item m ≡ (if n == null then set_tail q p m else set_prev n p m)
  unfolding unlink_next
  unlink_next_at p n e f = ap₂ (λ p n. if n == null then set_tail q p m else set_prev n p m) e f

  pub Left-half :
      (xs : List Ptr) (n : Ptr)
      → m.prev item ≡ last null xs
      → m.next item ≡ n
      → m.head q ≡ first xs item
      → Once xs
      → Linked m null xs item
      → Left q n xs m (unlink_prev q item m)
  Left-half [] n e f h o l = subst (Left q n [] m) (sym (unlink_prev_at null n e f)) (record {
    head = rw (==_refl q);
    linked = tt;
    nexts = λ p i. refl;
    prevs = λ p. refl;
    heads = λ r i. rw i;
    tails = λ r. refl;
  })
  Left-half (y ∷ ys) n e f h o l =
      subst (Left q n (y ∷ ys) m)
        (sym (unlink_prev_at (last y ys) n e f ∙ rw (last-not_null m null y ys item l)))
        (record {
          head = h;
          linked = retarget_next m null y ys item n o l;
          nexts = λ p i.
              rw (ne_sym p (last y ys) (count_ne p (last y ys) (y ∷ ys) i (last_counted y ys)));
          prevs = λ p. refl;
          heads = λ r i. refl;
          tails = λ r. refl;
        })

  pub Right-half :
      (xs : List Ptr) (p : Ptr)
      → m.prev item ≡ p
      → m.next item ≡ first xs null
      → m.tail q ≡ last item xs
      → Once xs
      → Linked m item xs null
      → Right q p xs m (unlink_next q item m)
  Right-half [] p e f h o l = subst (Right q p [] m) (sym (unlink_next_at p null e f)) (record {
    tail = rw (==_refl q);
    linked = tt;
    nexts = λ t. refl;
    prevs = λ t i. refl;
    heads = λ r. refl;
    tails = λ r i. rw i;
  })
  Right-half (y ∷ ys) p e f h o l =
      subst (Right q p (y ∷ ys) m) (sym (unlink_next_at p y e f ∙ rw l.0)) (record {
        tail = h;
        linked = retarget_prev m item y ys null p o l;
        nexts = λ t. refl;
        prevs = λ t i. rw (not_counted t y ys i).0;
        heads = λ r. refl;
        tails = λ r i. refl;
      })

  abbrev pub unlinked : Mem
  unlinked = unlink_next q item (unlink_prev q item m)

  pub q_remv_result :
      (item == null) ≡ false → (q == null) ≡ false → q_remv q item m ≡ (item, unlinked)
  unfolding q_remv
  q_remv_result h i = ground arith
