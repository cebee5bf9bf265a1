-- ===== src/Servers/Args.antt =====
-- The argument vectors of servers/pm.c: the block that holds the pointers and then the strings.
-- `Block` is about the place that they take. A vector is the list of its strings, empty for a
-- null pointer.
mod Block
mod Tests
use avros.Base.{ℕ, zero, suc, ◌+◌, ◌*◌, ◌/◌, ◌%◌, List, [], ◌∷◌, length, update}
use avros.Kernel.State.{u16}

unfoldable pub argc : List (List ℕ) → ℕ
argc [] = 0
argc (s ∷ argv) = suc (argc argv)

-- The loop of `pm_argstack_size`: the characters of the strings with their ends.
unfoldable pub strings_size : List (List ℕ) → ℕ
strings_size [] = 0
strings_size (s ∷ argv) = (length s + 1) + strings_size argv

unfoldable pub pm_argstack_size : List (List ℕ) → ℕ
unfolding strings_size argc
pm_argstack_size argv = u16 (strings_size argv + 2 * (argc argv + 1))

unfoldable pub strcpy : ℕ → List ℕ → (ℕ → ℕ) → ℕ → ℕ
strcpy to [] mem = update mem to 0
strcpy to (c ∷ cs) mem = strcpy (to + 1) cs (update mem to c)

-- A pointer is stored low byte first.
unfoldable pub set_ptr : ℕ → ℕ → (ℕ → ℕ) → ℕ → ℕ
set_ptr at p mem = update (update mem at (p % 256)) (at + 1) (p / 256 % 256)

unfoldable pub cook_loop : ℕ → ℕ → ℕ → List (List ℕ) → (ℕ → ℕ) → ℕ → ℕ
unfolding strcpy set_ptr
cook_loop newargv i bottom [] mem = set_ptr (newargv + 2 * i) 0 mem
cook_loop newargv i bottom (s ∷ argv) mem =
    cook_loop newargv (suc i) (bottom + (length s + 1)) argv
      (strcpy bottom s (set_ptr (newargv + 2 * i) bottom mem))

unfoldable pub cook_argstack : ℕ → List (List ℕ) → (ℕ → ℕ) → ℕ → ℕ
unfolding cook_loop argc
cook_argstack bottom argv mem = cook_loop bottom 0 (bottom + 2 * (argc argv + 1)) argv mem
