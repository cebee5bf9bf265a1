-- ===== src/Queue/Chain.antt =====
-- Which items a queue holds: a chain of distinct items, linked both ways.
use avros.Base.{
  count-end, Bool-cases, inl, inr, ◌⊎◌, ◌<◌, ◌≤◌, ◌≡◌, refl, List, [], ◌∷◌, ◌++◌, arith, ◌==◌,
  false, count, count-append, ap, ◌∙◌,
}
use avros.Queue.{Ptr, null, Mem}

abbrev pub first : List Ptr → Ptr → Ptr
first [] after = after
first (x ∷ xs) after = x

abbrev pub last : Ptr → List Ptr → Ptr
last before [] = before
last before (x ∷ xs) = last x xs

-- The items are linked in order, from `before` to `after`.
abbrev pub Linked : Mem → Ptr → List Ptr → Ptr → Type 0
Linked m before [] after = Unit {0}
Linked m before (x ∷ xs) after =
    ((x == null) ≡ false) × (m.prev x ≡ before) × (m.next x ≡ first xs after) × Linked m x xs after

abbrev pub Once : List Ptr → Type 0
Once xs = (t : Ptr) → count t xs ≤ 1

pub record IsQueue (m : Mem) (que : Ptr) (xs : List Ptr) : Type 0 where
  pub head : m.head que ≡ first xs null
  pub tail : m.tail que ≡ last null xs
  pub linked : Linked m null xs null
  pub once : Once xs

-- `m'` differs from `m` at most at the items of `xs` and at the head of `que`.
pub record Untouched (que : Ptr) (xs : List Ptr) (m m' : Mem) : Type 0 where
  pub next : (p : Ptr) → count p xs ≡ 0 → m'.next p ≡ m.next p
  pub prev : (p : Ptr) → count p xs ≡ 0 → m'.prev p ≡ m.prev p
  pub head : (q : Ptr) → (que == q) ≡ false → m'.head q ≡ m.head q
  pub tail : (q : Ptr) → (que == q) ≡ false → m'.tail q ≡ m.tail q

abbrev pub Apart : List Ptr → List Ptr → Type 0
Apart xs ys = (p : Ptr) → 0 < count p xs → count p ys ≡ 0

pub Linked-same :
    (m m' : Mem) (b : Ptr) (xs : List Ptr) (a : Ptr)
    → ((p : Ptr) → 0 < count p xs → (m'.next p ≡ m.next p) × (m'.prev p ≡ m.prev p))
    → Linked m b xs a
    → Linked m' b xs a
unfolding count
Linked-same m m' b [] a same l = tt
Linked-same m m' b (x ∷ xs) a same l =
    let here = same x (ground arith) in
    (l.0, here.1 ∙ l.1, here.0 ∙ l.2, Linked-same m m' x xs a (λ p h. same p (ground arith)) l.3)

pub Linked-append :
    (m : Mem) (b : Ptr) (xs ys : List Ptr) (a : Ptr)
    → Linked m b xs (first ys a)
    → Linked m (last b xs) ys a
    → Linked m b (xs ++ ys) a
Linked-append m b [] ys a l r = r
Linked-append m b (x ∷ []) ys a l r = (l.0, l.1, l.2, r)
Linked-append m b (x ∷ y ∷ xs) ys a l r = (l.0, l.1, l.2, Linked-append m x (y ∷ xs) ys a l.3 r)

pub Linked-split :
    (m : Mem) (b : Ptr) (xs ys : List Ptr) (a : Ptr)
    → Linked m b (xs ++ ys) a
    → Linked m b xs (first ys a) × Linked m (last b xs) ys a
Linked-split m b [] ys a l = (tt, l)
Linked-split m b (x ∷ []) ys a l = ((l.0, l.1, l.2, tt), l.3)
Linked-split m b (x ∷ y ∷ xs) ys a l =
    let rest = Linked-split m x (y ∷ xs) ys a l.3 in ((l.0, l.1, l.2, rest.0), rest.1)

pub first-append : (xs ys : List Ptr) (a : Ptr) → first (xs ++ ys) a ≡ first xs (first ys a)
first-append [] ys a = refl
first-append (x ∷ xs) ys a = refl

pub last-append : (b : Ptr) (xs ys : List Ptr) → last b (xs ++ ys) ≡ last (last b xs) ys
last-append b [] ys = refl
last-append b (x ∷ xs) ys = last-append x xs ys

-- A queue is not changed by what touches other items and another head.
pub IsQueue-Untouched :
    {q r : Ptr} {xs ys : List Ptr} {m m' : Mem}
    → Untouched q xs m m'
    → (q == r) ≡ false
    → Apart ys xs
    → IsQueue m r ys
    → IsQueue m' r ys
IsQueue-Untouched {r} {ys} {m} {m'} u n apart k = record {
  head = u.head r n ∙ k.head;
  tail = u.tail r n ∙ k.tail;
  linked =
      Linked-same m m' null ys null (λ p h. (u.next p (apart p h), u.prev p (apart p h))) k.linked;
  once = k.once;
}

pub Once-cons : (x : Ptr) (xs : List Ptr) → count x xs ≡ 0 → Once xs → Once (x ∷ xs)
unfolding count
Once-cons x xs n o t =
    let p = o t in elim (Bool-cases (x == t)) [ inl e ↦ ground arith | inr m ↦ ground arith ]

pub Once-tail : (x : Ptr) (xs : List Ptr) → Once (x ∷ xs) → Once xs
unfolding count
Once-tail x xs o t = let p = o t in omega arith

pub Once-head : (x : Ptr) (xs : List Ptr) → Once (x ∷ xs) → count x xs ≡ 0
unfolding count
Once-head x xs o = let p = o x in ground arith

-- A list is empty or has a last item.
pub last-cases : (xs : List Ptr) → (xs ≡ []) ⊎ ((ys : List Ptr) × (y : Ptr) × (xs ≡ ys ++ y ∷ []))
last-cases [] = inl refl
last-cases (x ∷ xs) = elim (last-cases xs) [
  | inl e ↦ inr ([], x, ap (λ l. x ∷ l) e)
  | inr (ys, y, e) ↦ inr (x ∷ ys, y, ap (λ l. x ∷ l) e)
]

pub not_counted :
    (p x : Ptr) (xs : List Ptr) → count p (x ∷ xs) ≡ 0 → ((x == p) ≡ false) × (count p xs ≡ 0)
unfolding count
not_counted p x xs h = (ground arith, omega arith)

pub counted_mid : (z : Ptr) (ys l : List Ptr) → 0 < count z (ys ++ z ∷ l)
unfolding count
counted_mid z [] l = ground arith
counted_mid z (y ∷ ys) l = omega (arith, counted_mid z ys l)

pub ne_sym : (a b : Ptr) → (a == b) ≡ false → (b == a) ≡ false
ne_sym a b h = ground arith

pub first_mid :
    (ys : List Ptr) (z : Ptr) (l : List Ptr) (a : Ptr) → first (ys ++ z ∷ l) a ≡ first ys z
first_mid [] z l a = refl
first_mid (y ∷ ys) z l a = refl

pub counted_append :
    (p : Ptr) (xs ys : List Ptr) → count p (xs ++ ys) ≡ 0 → (count p xs ≡ 0) × (count p ys ≡ 0)
counted_append p xs ys h =
    (omega (arith, count-append p xs ys), omega (arith, count-append p xs ys))

pub Once-end : (item : Ptr) (xs : List Ptr) → Once xs → count item xs ≡ 0 → Once (xs ++ item ∷ [])
Once-end item xs o n t =
    let p = o t in
    elim (Bool-cases (item == t)) [
      | inl e ↦ ground (arith, count-end t item xs)
      | inr f ↦ ground (arith, count-end t item xs)
    ]
