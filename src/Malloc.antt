-- ===== src/Malloc.antt =====
-- misc/malloc.c: the allocator. `Tiling` says how its chunks cover the heap, `Take` is about
-- `do_malloc`, `Give` about `do_free`.
mod Tiling
mod Take
mod Give
mod Tests
use avros.Base.{
  ℕ, ◌+◌, ◌-◌, ◌%◌, Bool, true, false, not, ◌&&◌, List, [], ◌∷◌, ◌==◌, ltb, leb, if◌then◌else◌,
}
use avros.Kernel.State.{u16}

-- `sizeof(chunk_t)`, packed.
abbrev pub sizeof_chunk : ℕ
sizeof_chunk = 5

-- A chunk of the list, with its address; `next` is the order of the list.
pub record Chunk : Type 0 where
  pub addr : ℕ
  pub size : ℕ
  pub free : Bool

-- The result, and the list from `it` on. `size_t` has 16 bits.
unfoldable pub malloc_loop : ℕ → List Chunk → ℕ × List Chunk
malloc_loop len [] = (0, [])
malloc_loop len (it ∷ rest) =
    let r = malloc_loop len rest in
    let next : ℕ × List Chunk = (r.0, it ∷ r.1) in
    if not it.free
    then next
    else if ltb it.size (u16 (len + sizeof_chunk))
    then next
    else if leb it.size (u16 (len + sizeof_chunk + sizeof_chunk))
    then (it.addr + sizeof_chunk, record it { free = false } ∷ rest)
    else let ch : Chunk = record {
      addr = u16 (it.addr + len + sizeof_chunk);
      size = u16 (it.size + (0x10000 - u16 (len + sizeof_chunk)));
      free = it.free;
    } in
      (
        it.addr + sizeof_chunk,
        record it { size = u16 (it.size + (0x10000 - ch.size)); free = false } ∷ ch ∷ rest,
      )

unfoldable pub do_malloc : List Chunk → ℕ → ℕ × List Chunk
unfolding malloc_loop
do_malloc it len = if len == 0 then (0, it) else malloc_loop len it

-- The write to the chunk before `p`.
unfoldable pub mark_free : ℕ → List Chunk → List Chunk
mark_free p [] = []
mark_free p (it ∷ rest) =
    if it.addr + sizeof_chunk == p then record it { free = true } ∷ rest else it ∷ mark_free p rest

-- The two loops of `do_free` from the chunk `it` on: while it and the next one are free they
-- become one, then the next one is `it`.
unfoldable pub merge : Chunk → List Chunk → List Chunk
merge it [] = it ∷ []
merge it (next ∷ rest) =
    let merged = merge (record it { size = u16 (it.size + next.size) }) rest in
    let kept = it ∷ merge next rest in if it.free && next.free then merged else kept

unfoldable pub merge_all : List Chunk → List Chunk
unfolding merge
merge_all [] = []
merge_all (it ∷ rest) = merge it rest

unfoldable pub do_free : List Chunk → ℕ → List Chunk
unfolding mark_free merge_all
do_free it p = if p == 0 then it else merge_all (mark_free p it)

unfoldable pub chunklist_init : ℕ → ℕ → List Chunk
chunklist_init it heap_size = record { addr = it; size = heap_size; free = true } ∷ []
