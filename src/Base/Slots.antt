-- ===== src/Base/Slots.antt =====
-- Tables of slots, each of which is free or holds something.
use mathlib.Core.List.{List, [], ◌∷◌}
use mathlib.Core.Option.{Option, none, some}
use mathlib.Core.Path.{◌≡◌, refl, ap}
use native.Mathlib.Omega.{arith}
use Prim.Native.Nat.{ℕ, zero, suc, ◌≤◌}

module _ {F : Type 0} where
  abbrev pub fd_at : ℕ → List (Option F) → Option F
  fd_at i [] = none
  fd_at zero (f ∷ fs) = f
  fd_at (suc i) (f ∷ fs) = fd_at i fs

  abbrev pub put : ℕ → Option F → List (Option F) → List (Option F)
  put i g [] = []
  put zero g (f ∷ fs) = g ∷ fs
  put (suc i) g (f ∷ fs) = f ∷ put i g fs

  -- The lowest free slot, and how many there are.
  abbrev pub free_fd : List (Option F) → ℕ
  free_fd [] = 0
  free_fd (none ∷ fs) = 0
  free_fd (some f ∷ fs) = suc (free_fd fs)

  abbrev pub free_count : List (Option F) → ℕ
  free_count [] = 0
  free_count (none ∷ fs) = suc (free_count fs)
  free_count (some f ∷ fs) = free_count fs

  pub put-free_fd : (fs : List (Option F)) → put (free_fd fs) none fs ≡ fs
  put-free_fd [] = refl
  put-free_fd (none ∷ fs) = refl
  put-free_fd (some f ∷ fs) = ap (λ gs. some f ∷ gs) (put-free_fd fs)

  -- A copy of a slot at the lowest free one.
  abbrev pub copied : ℕ → List (Option F) → List (Option F)
  copied i fs = put (free_fd fs) (fd_at i fs) fs

  pub free_count-put :
      (f : F) (fs : List (Option F))
      → 1 ≤ free_count fs
      → suc (free_count (put (free_fd fs) (some f) fs)) ≡ free_count fs
  free_count-put f [] l = absurd (omega (arith, l))
  free_count-put f (none ∷ fs) l = refl
  free_count-put f (some g ∷ fs) l = free_count-put f fs l
