-- ===== src/Malloc/Give.antt =====
-- `do_free` of misc/malloc.c.
use avros.Base.{
  ℕ, ◌+◌, ◌<◌, ◌≤◌, ◌≡◌, refl, sym, ap, ap₂, ◌∙◌, subst, arith, Bool, true, false, ◌&&◌, List, [],
  ◌∷◌, ◌++◌, ◌==◌, Bool-cases, inl, inr,
}
use avros.Kernel.State.{u16}
use avros.Malloc.{Chunk, sizeof_chunk, mark_free, merge, merge_all, do_free, chunklist_init}
use avros.Malloc.Tiling.{
  Tiled, Tiled-le, Merged, starts_free, used, used_free, used_taken, IsHeap, all_free,
}

abbrev head_addr : List (ℕ × ℕ) → ℕ
head_addr [] = 0
head_addr (b ∷ _) = b.0

abbrev head_block : List (ℕ × ℕ) → ℕ × ℕ
head_block [] = (0, 0)
head_block (b ∷ _) = b

abbrev others : List (ℕ × ℕ) → List (ℕ × ℕ)
others [] = []
others (_ ∷ bs) = bs

-- The chunks in use lie where the tiling is.
used_from :
    (a : ℕ) (cs : List Chunk) (e q sz : ℕ) (us vs : List (ℕ × ℕ))
    → Tiled a cs e
    → used cs ≡ us ++ (q, sz) ∷ vs
    → a ≤ q
unfolding used
used_from a [] e q sz [] vs t u = absurd (cc)
used_from a [] e q sz (x ∷ us) vs t u = absurd (cc)
used_from a (c ∷ cs) e q sz us vs t u = elim (Bool-cases c.free) [
  | inl f ↦ omega (arith, used_from (a + c.size) cs e q sz us vs t.2 (sym (used_free c cs f) ∙ u))
  | inr f ↦
      taken (λ us w. used_from (a + c.size) cs e q sz us vs t.2 w) us (sym (used_taken c cs f) ∙ u)
]
  where
    taken :
        ((us : List (ℕ × ℕ)) → used cs ≡ us ++ (q, sz) ∷ vs → a + c.size ≤ q)
        → (us : List (ℕ × ℕ)) → (c.addr, c.size) ∷ used cs ≡ us ++ (q, sz) ∷ vs
        → a ≤ q
    taken later [] w = omega (arith, t.0, ap head_addr w)
    taken later (x ∷ us) w = omega (arith, later us (ap others w))

mark_here :
    (c : Chunk) (cs : List Chunk) (p : ℕ)
    → (c.addr + sizeof_chunk == p) ≡ true
    → mark_free p (c ∷ cs) ≡ record c { free = true } ∷ cs
unfolding mark_free
mark_here c cs p e = rw e refl

mark_later :
    (c : Chunk) (cs : List Chunk) (p : ℕ)
    → (c.addr + sizeof_chunk == p) ≡ false
    → mark_free p (c ∷ cs) ≡ c ∷ mark_free p cs
unfolding mark_free
mark_later c cs p e = rw e refl

-- The chunk of the block is no longer in use.
abbrev Marked : ℕ → ℕ → List (ℕ × ℕ) → List Chunk → Type 0
Marked a e rest cs = Tiled a cs e × (used cs ≡ rest)

mark_free-Marked :
    (a : ℕ) (cs : List Chunk) (e q sz : ℕ) (us vs : List (ℕ × ℕ))
    → Tiled a cs e
    → used cs ≡ us ++ (q, sz) ∷ vs
    → Marked a e (us ++ vs) (mark_free (q + sizeof_chunk) cs)
unfolding used
mark_free-Marked a [] e q sz [] vs t u = absurd (cc)
mark_free-Marked a [] e q sz (x ∷ us) vs t u = absurd (cc)
mark_free-Marked a (c ∷ cs) e q sz us vs t u = elim (Bool-cases c.free) [
  | inl f ↦
      let w = sym (used_free c cs f) ∙ u in
      let far : (c.addr + sizeof_chunk == q + sizeof_chunk) ≡ false =
        ground (arith, used_from (a + c.size) cs e q sz us vs t.2 w) in
      let ih = mark_free-Marked (a + c.size) cs e q sz us vs t.2 w in
      subst (Marked a e (us ++ vs)) (sym (mark_later c cs (q + sizeof_chunk) far))
        ((t.0, t.1, ih.0), used_free c (mark_free (q + sizeof_chunk) cs) f ∙ ih.1)
  | inr f ↦
      taken (λ us w. mark_free-Marked (a + c.size) cs e q sz us vs t.2 w) us f
        (sym (used_taken c cs f) ∙ u)
]
  where
    taken :
        ((us : List (ℕ × ℕ))
          → used cs ≡ us ++ (q, sz) ∷ vs
          → Marked (a + c.size) e (us ++ vs) (mark_free (q + sizeof_chunk) cs))
        → (us : List (ℕ × ℕ)) → c.free ≡ false
        → (c.addr, c.size) ∷ used cs ≡ us ++ (q, sz) ∷ vs
        → Marked a e (us ++ vs) (mark_free (q + sizeof_chunk) (c ∷ cs))
    taken later [] f w =
        let here : (c.addr + sizeof_chunk == q + sizeof_chunk) ≡ true =
          ground (arith, ap head_addr w) in
        subst (Marked a e vs) (sym (mark_here c cs (q + sizeof_chunk) here))
          (t, used_free (record c { free = true }) cs refl ∙ ap others w)
    taken later (x ∷ us) f w =
        let far : (c.addr + sizeof_chunk == q + sizeof_chunk) ≡ false =
          ground (arith, used_from (a + c.size) cs e q sz us vs t.2 (ap others w)) in
        let ih = later us (ap others w) in
        subst (Marked a e (x ∷ us ++ vs)) (sym (mark_later c cs (q + sizeof_chunk) far)) (
          (t.0, t.1, ih.0),
          used_taken c (mark_free (q + sizeof_chunk) cs) f
              ∙ ap₂ (λ b bs. b ∷ bs) (ap head_block w) ih.1,
        )

-- The chunk that two free neighbours become.
abbrev joined : Chunk → Chunk → Chunk
joined c d = record c { size = u16 (c.size + d.size) }

merge_join :
    (c d : Chunk) (ds : List Chunk)
    → (c.free && d.free) ≡ true
    → merge c (d ∷ ds) ≡ merge (joined c d) ds
unfolding merge
merge_join c d ds e = rw e refl

merge_keep :
    (c d : Chunk) (ds : List Chunk) → (c.free && d.free) ≡ false → merge c (d ∷ ds) ≡ c ∷ merge d ds
unfolding merge
merge_keep c d ds e = rw e refl

abbrev Joined : ℕ → ℕ → Bool → List (ℕ × ℕ) → List Chunk → Type 0
Joined a e free rest cs = Tiled a cs e × Merged cs × (starts_free cs ≡ free) × (used cs ≡ rest)

used-same : (c : Chunk) (cs ds : List Chunk) → used cs ≡ used ds → used (c ∷ cs) ≡ used (c ∷ ds)
used-same c cs ds h = elim (Bool-cases c.free) [
  | inl f ↦ used_free c cs f ∙ h ∙ sym (used_free c ds f)
  | inr f ↦ used_taken c cs f ∙ ap (λ l. (c.addr, c.size) ∷ l) h ∙ sym (used_taken c ds f)
]

merge-Joined :
    (a : ℕ) (c : Chunk) (cs : List Chunk) (e : ℕ)
    → Tiled a (c ∷ cs) e
    → e < 65536
    → Joined a e c.free (used (c ∷ cs)) (merge c cs)
merge-Joined a c [] e t b = unfold merge in (t, (ground arith, tt), refl, refl)
merge-Joined a c (d ∷ ds) e t b = elim (Bool-cases (c.free && d.free)) [
  | inl f ↦
      let fc : c.free ≡ true = ground arith in
      let fd : d.free ≡ true = ground arith in
      let s : u16 (c.size + d.size) ≡ c.size + d.size =
        omega (arith, Tiled-le (a + c.size + d.size) ds e t.2.2, b, t.0) in
      let ih =
        merge-Joined a (joined c d) ds e
          (t.0, omega (arith, s, t.1), subst (λ x. Tiled x ds e) (omega (arith, s)) t.2.2) b in
      let same : used (joined c d ∷ ds) ≡ used (c ∷ d ∷ ds) =
        used_free (joined c d) ds fc ∙ sym (used_free d ds fd) ∙ sym (used_free c (d ∷ ds) fc) in
      subst (Joined a e c.free (used (c ∷ d ∷ ds))) (sym (merge_join c d ds f))
        (ih.0, ih.1, ih.2, ih.3 ∙ same)
  | inr f ↦
      let ih = merge-Joined (a + c.size) d ds e t.2 b in
      subst (Joined a e c.free (used (c ∷ d ∷ ds))) (sym (merge_keep c d ds f)) (
        (t.0, t.1, ih.0),
        (ap (λ x. c.free && x) ih.2 ∙ f, ih.1),
        refl,
        used-same c (merge d ds) (d ∷ ds) ih.3,
      )
]

merge_all-Joined :
    (a : ℕ) (cs : List Chunk) (e : ℕ)
    → Tiled a cs e
    → e < 65536
    → IsHeap a (merge_all cs) e × (used (merge_all cs) ≡ used cs)
merge_all-Joined a [] e t b =
    unfold merge_all in (record { tiled = t; merged = tt; below = b }, refl)
merge_all-Joined a (c ∷ cs) e t b =
    let f = merge-Joined a c cs e t b in
    unfold merge_all in (record { tiled = f.0; merged = f.1; below = b }, f.3)

-- To free a block in use takes it, and no other, out of the blocks in use, and leaves the chunks
-- a tiling of the heap in which no two neighbours are free.
pub do_free-IsHeap :
    (a : ℕ) (cs : List Chunk) (e q sz : ℕ) (us vs : List (ℕ × ℕ))
    → IsHeap a cs e
    → used cs ≡ us ++ (q, sz) ∷ vs
    → IsHeap a (do_free cs (q + sizeof_chunk)) e × (used (do_free cs (q + sizeof_chunk)) ≡ us ++ vs)
unfolding do_free
do_free-IsHeap a cs e q sz us vs h u =
    let z : (q + sizeof_chunk == 0) ≡ false = ground arith in
    let m = mark_free-Marked a cs e q sz us vs h.tiled u in
    let f = merge_all-Joined a (mark_free (q + sizeof_chunk) cs) e m.0 h.below in
    rw z (f.0, f.1 ∙ m.1)

abbrev Whole : ℕ → ℕ → List Chunk → Type 0
Whole a e cs =
    (size : ℕ) × (cs ≡ record { addr = a; size = size; free = true } ∷ []) × (a + size ≡ e)

whole : (a : ℕ) (cs : List Chunk) (e : ℕ) → a < e → IsHeap a cs e → used cs ≡ [] → Whole a e cs
whole a [] e l h u = absurd (omega (arith, h.tiled))
whole a (c ∷ cs) e l h u =
    let f = all_free a c cs e h u in
    (
      c.size,
      ap (λ t. c ∷ t) f.0
          ∙ ap (λ x. record { addr = x; size = c.size; free = c.free } ∷ []) h.tiled.0
          ∙ ap (λ x. record { addr = a; size = c.size; free = x } ∷ []) f.1,
      f.2,
    )

-- To free the last block in use leaves one free chunk, the whole heap, as `chunklist_init` made
-- it: no memory is lost to fragments.
pub do_free-chunklist_init :
    (a : ℕ) (cs : List Chunk) (n q sz : ℕ)
    → 0 < n
    → IsHeap a cs (a + n)
    → used cs ≡ (q, sz) ∷ []
    → do_free cs (q + sizeof_chunk) ≡ chunklist_init a n
unfolding chunklist_init
do_free-chunklist_init a cs n q sz l h u =
    let f = do_free-IsHeap a cs (a + n) q sz [] [] h u in
    let w = whole a (do_free cs (q + sizeof_chunk)) (a + n) (omega arith) f.0 f.1 in
    w.1 ∙ ap (λ x. record { addr = a; size = x; free = true } ∷ []) (omega (arith, w.2))
