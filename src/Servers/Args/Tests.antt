-- ===== src/Servers/Args/Tests.antt =====
-- A vector of two strings, and the theorem at it.
use avros.Base.{ℕ, ◌≡◌, List, [], ◌∷◌, arith, inr}
use avros.Servers.Args.{argc, strings_size, pm_argstack_size, cook_argstack}
use avros.Servers.Args.Block.{cook_argstack-Outside}

abbrev sh_x : List (List ℕ)
sh_x = (115 ∷ 104 ∷ []) ∷ (120 ∷ []) ∷ []

abbrev memory : ℕ → ℕ
memory a = a

cook_argstack-Outside_example : cook_argstack 1000 sh_x memory 1011 ≡ 1011
unfolding argc strings_size pm_argstack_size
cook_argstack-Outside_example =
    cook_argstack-Outside 1000 sh_x memory 1011 (omega arith) (inr (omega arith))
