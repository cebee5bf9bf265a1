-- ===== src/Malloc/Tiling.antt =====
-- The chunks of misc/malloc.c as a tiling of the heap.
use avros.Base.{
  ℕ, ◌+◌, ◌<◌, ◌≤◌, ◌≡◌, refl, sym, ◌∙◌, arith, Bool, true, false, ◌&&◌, List, [], ◌∷◌,
  if◌then◌else◌, Bool-cases, inl, inr,
}
use avros.Malloc.{Chunk, sizeof_chunk, chunklist_init}

-- The chunks follow each other from `a` to `e`, and each has room for its header.
abbrev pub Tiled : ℕ → List Chunk → ℕ → Type 0
Tiled a [] e = a ≡ e
Tiled a (c ∷ cs) e = (c.addr ≡ a) × (sizeof_chunk ≤ c.size) × Tiled (a + c.size) cs e

abbrev pub starts_free : List Chunk → Bool
starts_free [] = false
starts_free (c ∷ _) = c.free

-- No two neighbours are free.
abbrev pub Merged : List Chunk → Type 0
Merged [] = Unit {0}
Merged (c ∷ cs) = ((c.free && starts_free cs) ≡ false) × Merged cs

-- The chunks in use: their addresses and sizes.
unfoldable pub used : List Chunk → List (ℕ × ℕ)
used [] = []
used (c ∷ cs) = if c.free then used cs else (c.addr, c.size) ∷ used cs

-- What the allocator keeps true of the heap between `a` and `e`.
pub record IsHeap (a : ℕ) (cs : List Chunk) (e : ℕ) : Type 0 where
  pub tiled : Tiled a cs e
  pub merged : Merged cs
  pub below : e < 65536

pub Tiled-le : (a : ℕ) (cs : List Chunk) (e : ℕ) → Tiled a cs e → a ≤ e
Tiled-le a [] e t = omega (arith, t)
Tiled-le a (c ∷ cs) e t = omega (arith, Tiled-le (a + c.size) cs e t.2)

pub chunklist_init-IsHeap :
    (a n : ℕ) → 5 ≤ n → a + n < 65536 → IsHeap a (chunklist_init a n) (a + n)
unfolding chunklist_init
chunklist_init-IsHeap a n h b = record { tiled = (refl, h, refl); merged = (refl, tt); below = b }

pub used_free : (c : Chunk) (cs : List Chunk) → c.free ≡ true → used (c ∷ cs) ≡ used cs
unfolding used
used_free c cs e = rw e refl

pub used_taken :
    (c : Chunk) (cs : List Chunk) → c.free ≡ false → used (c ∷ cs) ≡ (c.addr, c.size) ∷ used cs
unfolding used
used_taken c cs e = rw e refl

-- When no chunk is in use, the heap is one free chunk again, or empty.
pub all_free :
    (a : ℕ) (c : Chunk) (cs : List Chunk) (e : ℕ)
    → IsHeap a (c ∷ cs) e
    → used (c ∷ cs) ≡ []
    → (cs ≡ []) × (c.free ≡ true) × (a + c.size ≡ e)
unfolding used
all_free a c [] e h u = (refl, ground arith, h.tiled.2)
all_free a c (d ∷ ds) e h u = elim (Bool-cases c.free) [
  | inr f ↦ let g = sym (used_taken c (d ∷ ds) f) ∙ u in absurd (cc)
  | inl f ↦ elim (Bool-cases d.free) [
    | inl i ↦ let m = h.merged.0 in absurd (ground arith)
    | inr i ↦ let g = sym (used_taken d ds i) ∙ sym (used_free c (d ∷ ds) f) ∙ u in absurd (cc)
  ]
]
