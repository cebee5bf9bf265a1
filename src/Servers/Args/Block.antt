-- ===== src/Servers/Args/Block.antt =====
-- The block of an argument vector of servers/pm.c is as large as `pm_argstack_size` says.
use avros.Base.{
  ℕ, suc, ◌+◌, ◌*◌, ◌%◌, ◌/◌, ◌<◌, ◌≤◌, ◌≡◌, ◌∙◌, arith, ◌⊎◌, inl, inr, List, [], ◌∷◌, length,
  update, update-other,
}
use avros.Servers.Args.{
  argc, strings_size, pm_argstack_size, strcpy, set_ptr, cook_loop, cook_argstack,
}

-- `a` lies outside the `n` bytes from `at` on.
abbrev pub Outside : ℕ → ℕ → ℕ → Type 0
Outside at n a = (a < at) ⊎ (at + n ≤ a)

pub strcpy-Outside :
    (to : ℕ) (s : List ℕ) (mem : ℕ → ℕ) (a : ℕ)
    → Outside to (length s + 1) a
    → strcpy to s mem a ≡ mem a
unfolding strcpy
strcpy-Outside to [] mem a (inl h) = update-other mem to a 0 (ground arith)
strcpy-Outside to [] mem a (inr h) = update-other mem to a 0 (ground arith)
strcpy-Outside to (c ∷ cs) mem a (inl h) =
    strcpy-Outside (to + 1) cs (update mem to c) a (inl (omega arith))
    ∙ update-other mem to a c (ground arith)
strcpy-Outside to (c ∷ cs) mem a (inr h) =
    strcpy-Outside (to + 1) cs (update mem to c) a (inr (omega arith))
    ∙ update-other mem to a c (ground arith)

set_ptr-Outside : (at p : ℕ) (mem : ℕ → ℕ) (a : ℕ) → Outside at 2 a → set_ptr at p mem a ≡ mem a
unfolding set_ptr
set_ptr-Outside at p mem a (inl h) =
    update-other (update mem at (p % 256)) (at + 1) a (p / 256 % 256) (ground arith)
    ∙ update-other mem at a (p % 256) (ground arith)
set_ptr-Outside at p mem a (inr h) =
    update-other (update mem at (p % 256)) (at + 1) a (p / 256 % 256) (ground arith)
    ∙ update-other mem at a (p % 256) (ground arith)

-- The loop with the strings still to come, between the pointers and the end of the block.
cook_loop-Outside :
    (newargv i bottom size : ℕ) (argv : List (List ℕ)) (mem : ℕ → ℕ) (a : ℕ)
    → newargv + 2 * (i + argc argv + 1) ≤ bottom
    → bottom + strings_size argv ≤ newargv + size
    → Outside newargv size a
    → cook_loop newargv i bottom argv mem a ≡ mem a
unfolding cook_loop argc strings_size
cook_loop-Outside newargv i bottom size [] mem a h g (inl o) =
    set_ptr-Outside _ 0 mem a (inl (omega arith))
cook_loop-Outside newargv i bottom size [] mem a h g (inr o) =
    set_ptr-Outside _ 0 mem a (inr (omega arith))
cook_loop-Outside newargv i bottom size (s ∷ argv) mem a h g o =
    cook_loop-Outside newargv (suc i) (bottom + (length s + 1)) size argv
      (strcpy bottom s (set_ptr (newargv + 2 * i) bottom mem)) a (omega arith) (omega arith) o
    ∙ here o
  where
    here : Outside newargv size a → strcpy bottom s (set_ptr (newargv + 2 * i) bottom mem) a ≡ mem a
    here (inl o) =
        strcpy-Outside bottom s (set_ptr (newargv + 2 * i) bottom mem) a (inl (omega arith))
        ∙ set_ptr-Outside (newargv + 2 * i) bottom mem a (inl (omega arith))
    here (inr o) =
        strcpy-Outside bottom s (set_ptr (newargv + 2 * i) bottom mem) a (inr (omega arith))
        ∙ set_ptr-Outside (newargv + 2 * i) bottom mem a (inr (omega arith))

-- A vector that takes less than the 16-bit address space is copied without a write outside the
-- `pm_argstack_size` bytes that are allocated for it.
pub cook_argstack-Outside :
    (bottom : ℕ) (argv : List (List ℕ)) (mem : ℕ → ℕ) (a : ℕ)
    → strings_size argv + 2 * (argc argv + 1) < 65536
    → Outside bottom (pm_argstack_size argv) a
    → cook_argstack bottom argv mem a ≡ mem a
unfolding cook_argstack pm_argstack_size
cook_argstack-Outside bottom argv mem a h o =
    cook_loop-Outside bottom 0 (bottom + 2 * (argc argv + 1)) (pm_argstack_size argv) argv mem a
      (omega arith) (omega arith) o
