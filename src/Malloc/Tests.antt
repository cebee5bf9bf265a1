-- ===== src/Malloc/Tests.antt =====
-- A heap of a hundred bytes, and the theorems at it.
use avros.Base.{◌≡◌, ◌⊎◌, refl, List, [], ◌∷◌, arith, true, false}
use avros.Malloc.{Chunk, do_malloc, do_free, chunklist_init}
use avros.Malloc.Tiling.{IsHeap, used, chunklist_init-IsHeap}
use avros.Malloc.Take.{any_fits, Took, do_malloc-Took}
use avros.Malloc.Give.{do_free-IsHeap, do_free-chunklist_init}

abbrev small_heap : List Chunk
small_heap = chunklist_init 1000 100

small_heap-IsHeap : IsHeap 1000 small_heap 1100
small_heap-IsHeap = chunklist_init-IsHeap 1000 100 (omega arith) (omega arith)

do_malloc-Took_example :
    ((any_fits 20 small_heap ≡ true)
      × Took 20
          (omega arith)
          1000
          small_heap
          1100
          (do_malloc small_heap 20).0
          (do_malloc small_heap 20).1)
    ⊎ ((any_fits 20 small_heap ≡ false) × (do_malloc small_heap 20 ≡ (0, small_heap)))
do_malloc-Took_example =
    do_malloc-Took 20 (omega arith) 1000 small_heap 1100 (omega arith) small_heap-IsHeap

-- A block of 25 bytes is in use, and the rest is free.
abbrev one_used : List Chunk
one_used =
    record { addr = 1000; size = 25; free = false }
    ∷ record { addr = 1025; size = 75; free = true }
    ∷ []

one_used-IsHeap : IsHeap 1000 one_used 1100
one_used-IsHeap = record {
  tiled = (refl, omega arith, (refl, omega arith, refl));
  merged = (refl, (refl, tt));
  below = omega arith;
}

do_free-IsHeap_example :
    IsHeap 1000 (do_free one_used 1005) 1100 × (used (do_free one_used 1005) ≡ [])
unfolding used
do_free-IsHeap_example = do_free-IsHeap 1000 one_used 1100 1000 25 [] [] one_used-IsHeap refl

do_free-chunklist_init_example : do_free one_used 1005 ≡ chunklist_init 1000 100
unfolding used
do_free-chunklist_init_example =
    do_free-chunklist_init 1000 one_used 100 1000 25 (omega arith) one_used-IsHeap refl
