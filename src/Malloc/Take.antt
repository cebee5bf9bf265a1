-- ===== src/Malloc/Take.antt =====
-- `do_malloc` of misc/malloc.c.
use avros.Base.{
  ℕ, ◌+◌, ◌-◌, ◌<◌, ◌≤◌, ◌≡◌, refl, sym, ap, ◌∙◌, subst, arith, Bool, true, false, ◌&&◌, List, [],
  ◌∷◌, ◌++◌, ◌==◌, ltb, leb, if◌then◌else◌, Bool-cases, inl, inr, ◌⊎◌,
}
use avros.Kernel.State.{u16}
use avros.Malloc.{Chunk, sizeof_chunk, malloc_loop, do_malloc}
use avros.Malloc.Tiling.{Tiled, Tiled-le, Merged, starts_free, used, used_free, used_taken, IsHeap}

-- A free chunk with room for the header and `len` bytes.
abbrev pub fits : ℕ → Chunk → Bool
fits len c = c.free && leb (len + sizeof_chunk) c.size

unfoldable pub any_fits : ℕ → List Chunk → Bool
any_fits len [] = false
any_fits len (c ∷ cs) = if fits len c then true else any_fits len cs

module _ (len : ℕ) (small : len + 10 < 65536) where
  -- The chunk that is cut in two.
  abbrev front : Chunk → Chunk
  front c = record { addr = c.addr; size = len + sizeof_chunk; free = false }

  abbrev back : Chunk → Chunk
  back c = record {
    addr = c.addr + len + sizeof_chunk;
    size = c.size - (len + sizeof_chunk);
    free = c.free;
  }

  loop_next :
      (c : Chunk) (cs : List Chunk)
      → fits len c ≡ false
      → malloc_loop len (c ∷ cs) ≡ ((malloc_loop len cs).0, c ∷ (malloc_loop len cs).1)
  unfolding malloc_loop
  loop_next c cs f = elim (Bool-cases c.free) [
    | inr n ↦ rw n refl
    | inl e ↦
        let g : ltb c.size (u16 (len + sizeof_chunk)) ≡ true = ground arith in rw e (rw g refl)
  ]

  loop_whole :
      (c : Chunk) (cs : List Chunk)
      → fits len c ≡ true
      → c.size ≤ len + 10
      → malloc_loop len (c ∷ cs) ≡ (c.addr + sizeof_chunk, record c { free = false } ∷ cs)
  unfolding malloc_loop
  loop_whole c cs f h =
      let e : c.free ≡ true = ground arith in
      let g : ltb c.size (u16 (len + sizeof_chunk)) ≡ false = ground arith in
      let i : leb c.size (u16 (len + sizeof_chunk + sizeof_chunk)) ≡ true = ground arith in
      rw e (rw g (rw i refl))

  loop_split :
      (c : Chunk) (cs : List Chunk)
      → fits len c ≡ true
      → len + 10 < c.size
      → c.addr + c.size < 65536
      → malloc_loop len (c ∷ cs) ≡ (c.addr + sizeof_chunk, front c ∷ back c ∷ cs)
  unfolding malloc_loop
  loop_split c cs f h b =
      let e : c.free ≡ true = ground arith in
      let g : ltb c.size (u16 (len + sizeof_chunk)) ≡ false = ground arith in
      let i : leb c.size (u16 (len + sizeof_chunk + sizeof_chunk)) ≡ false = ground arith in
      let p : u16 (c.size + (65536 - u16 (c.size + (65536 - u16 (len + sizeof_chunk)))))
          ≡ len + sizeof_chunk =
        omega arith in
      let q : u16 (c.addr + len + sizeof_chunk) ≡ c.addr + len + sizeof_chunk = omega arith in
      let r : u16 (c.size + (65536 - u16 (len + sizeof_chunk))) ≡ c.size - (len + sizeof_chunk) =
        omega arith in
      rw e (rw g (rw i (rw p (rw q (rw r refl)))))

  -- A chunk of at least `len` bytes and the header is in use that was not, and no other.
  pub record Took (a : ℕ) (cs : List Chunk) (e : ℕ) (p : ℕ) (cs' : List Chunk) : Type 0 where
    pub at : ℕ
    pub size : ℕ
    pub before : List (ℕ × ℕ)
    pub after : List (ℕ × ℕ)
    pub was : used cs ≡ before ++ after
    pub is : used cs' ≡ before ++ (at, size) ∷ after
    pub result : p ≡ at + sizeof_chunk
    pub enough : len + sizeof_chunk ≤ size
    pub tiled : Tiled a cs' e
    pub merged : Merged cs'
    pub start : (starts_free cs ≡ true) ⊎ (starts_free cs' ≡ false)

  Took-whole :
      (a : ℕ) (c : Chunk) (cs : List Chunk) (e : ℕ)
      → fits len c ≡ true
      → Tiled a (c ∷ cs) e
      → Merged (c ∷ cs)
      → Took a (c ∷ cs) e (c.addr + sizeof_chunk) (record c { free = false } ∷ cs)
  Took-whole a c cs e f t m = record {
    at = c.addr;
    size = c.size;
    before = [];
    after = used cs;
    was = used_free c cs (ground arith);
    is = used_taken (record c { free = false }) cs refl;
    result = refl;
    enough = ground arith;
    tiled = t;
    merged = (refl, m.1);
    start = inr refl;
  }

  Took-split :
      (a : ℕ) (c : Chunk) (cs : List Chunk) (e : ℕ)
      → fits len c ≡ true
      → len + 10 < c.size
      → Tiled a (c ∷ cs) e
      → Merged (c ∷ cs)
      → Took a (c ∷ cs) e (c.addr + sizeof_chunk) (front c ∷ back c ∷ cs)
  Took-split a c cs e f h t m = record {
    at = c.addr;
    size = len + sizeof_chunk;
    before = [];
    after = used cs;
    was = used_free c cs (ground arith);
    is =
        used_taken (front c) (back c ∷ cs) refl
        ∙ ap (λ l. (c.addr, len + sizeof_chunk) ∷ l) (used_free (back c) cs (ground arith));
    result = refl;
    enough = omega arith;
    tiled = (
      t.0,
      omega arith,
      (omega (arith, t.0), omega arith, subst (λ x. Tiled x cs e) (omega arith) t.2),
    );
    merged = (refl, m);
    start = inr refl;
  }

  Took-next :
      (a : ℕ) (c : Chunk) (cs : List Chunk) (e p : ℕ) (cs' : List Chunk)
      → Tiled a (c ∷ cs) e
      → Merged (c ∷ cs)
      → Took (a + c.size) cs e p cs'
      → Took a (c ∷ cs) e p (c ∷ cs')
  Took-next a c cs e p cs' t m k = elim (Bool-cases c.free) [
    | inl f ↦ record {
      at = k.at;
      size = k.size;
      before = k.before;
      after = k.after;
      was = used_free c cs f ∙ k.was;
      is = used_free c cs' f ∙ k.is;
      result = k.result;
      enough = k.enough;
      tiled = (t.0, t.1, k.tiled);
      merged = (
        elim k.start [ inl s ↦ absurd (let n = m.0 in ground arith) | inr s ↦ ground arith ],
        k.merged,
      );
      start = inl f;
    }
    | inr f ↦ record {
      at = k.at;
      size = k.size;
      before = (c.addr, c.size) ∷ k.before;
      after = k.after;
      was = used_taken c cs f ∙ ap (λ l. (c.addr, c.size) ∷ l) k.was;
      is = used_taken c cs' f ∙ ap (λ l. (c.addr, c.size) ∷ l) k.is;
      result = k.result;
      enough = k.enough;
      tiled = (t.0, t.1, k.tiled);
      merged = (ground arith, k.merged);
      start = inr f;
    }
  ]

  loop_takes :
      (a : ℕ) (cs : List Chunk) (e : ℕ)
      → Tiled a cs e
      → Merged cs
      → e < 65536
      → any_fits len cs ≡ true
      → Took a cs e (malloc_loop len cs).0 (malloc_loop len cs).1
  unfolding any_fits
  loop_takes a [] e t m b h = absurd (ground arith)
  loop_takes a (c ∷ cs) e t m b h = elim (Bool-cases (fits len c)) [
    | inr f ↦
        subst (λ (r : ℕ × List Chunk). Took a (c ∷ cs) e r.0 r.1) (sym (loop_next c cs f))
          (Took-next a c cs e _ _ t m (loop_takes (a + c.size) cs e t.2 m.1 b (rest f h)))
    | inl f ↦ elim (Bool-cases (leb c.size (len + 10))) [
      | inl g ↦
          subst (λ (r : ℕ × List Chunk). Took a (c ∷ cs) e r.0 r.1)
            (sym (loop_whole c cs f (ground arith))) (Took-whole a c cs e f t m)
      | inr g ↦
          let big : len + 10 < c.size = ground arith in
          subst (λ (r : ℕ × List Chunk). Took a (c ∷ cs) e r.0 r.1)
            (sym (loop_split c cs f big (omega (arith, t.0, Tiled-le (a + c.size) cs e t.2, b))))
            (Took-split a c cs e f big t m)
    ]
  ]
    where
      rest : {x : Bool} {y : Bool} → x ≡ false → (if x then true else y) ≡ true → y ≡ true
      rest f h = ground arith

  abbrev pushed : Chunk → ℕ × List Chunk → ℕ × List Chunk
  pushed c r = (r.0, c ∷ r.1)

  loop_fails : (cs : List Chunk) → any_fits len cs ≡ false → malloc_loop len cs ≡ (0, cs)
  unfolding any_fits
  loop_fails [] h = unfold malloc_loop in refl
  loop_fails (c ∷ cs) h = elim (Bool-cases (fits len c)) [
    | inl f ↦ absurd (ground arith)
    | inr f ↦
        loop_next c cs f ∙ ap (λ (r : ℕ × List Chunk). pushed c r) (loop_fails cs (ground arith))
  ]

  -- A request for memory, of not almost the whole address space, is met if a free chunk has room
  -- for it and its header: then one chunk more is in use, of at least that size and with the
  -- result behind its header, and the heap keeps its shape. If no chunk has room, the result is
  -- null and nothing changes.
  pub do_malloc-Took :
      (a : ℕ) (cs : List Chunk) (e : ℕ)
      → 0 < len
      → IsHeap a cs e
      → ((any_fits len cs ≡ true) × Took a cs e (do_malloc cs len).0 (do_malloc cs len).1)
        ⊎ ((any_fits len cs ≡ false) × (do_malloc cs len ≡ (0, cs)))
  unfolding do_malloc
  do_malloc-Took a cs e z h = elim (Bool-cases (any_fits len cs)) [
    | inl f ↦ inl (
      f,
      let n : (len == 0) ≡ false = ground arith in
          rw n (loop_takes a cs e h.tiled h.merged h.below f),
    )
    | inr f ↦ inr (f, let n : (len == 0) ≡ false = ground arith in rw n (loop_fails cs f))
  ]
