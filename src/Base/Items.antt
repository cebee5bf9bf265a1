-- ===== src/Base/Items.antt =====
-- Lists of item addresses: what a queue of the program stands for.
use Prim.Native.Nat.{ℕ, ◌+◌, ◌-◌, ◌<◌, ◌≤◌}
use mathlib.Core.Path.{◌≡◌, refl}
use mathlib.Core.Logic.{inl, inr, ◌⊎◌}
use mathlib.Core.Bool.{Bool, true, false}
use mathlib.Core.List.{List, [], ◌∷◌, ◌++◌}
use mathlib.Core.Option.{Option, none, some}
use native.Mathlib.Omega.{arith}
use avros.Base.Tests.{==_refl, ◌==◌, if◌then◌else◌, Bool-cases}

-- A list is empty or has a first item.
pub List-cases : (xs : List ℕ) → (xs ≡ []) ⊎ ((x : ℕ) × (rest : List ℕ) × (xs ≡ x ∷ rest))
List-cases [] = inl refl
List-cases (x ∷ rest) = inr (x, rest, refl)

-- How often `a` stands in the list.
unfoldable pub count : ℕ → List ℕ → ℕ
count a [] = 0
count a (x ∷ xs) = (if x == a then 1 else 0) + count a xs

-- The list less the first `a`.
unfoldable pub erase : ℕ → List ℕ → List ℕ
erase a [] = []
erase a (x ∷ xs) = if x == a then xs else x ∷ erase a xs

pub erase-head : (t : ℕ) (xs : List ℕ) → erase t (t ∷ xs) ≡ xs
unfolding erase
erase-head t xs = rw (==_refl t)

-- The first item that passes the test.
unfoldable pub find_first : (ℕ → Bool) → List ℕ → Option ℕ
find_first p [] = none
find_first p (x ∷ xs) = if p x then some x else find_first p xs

abbrev pub is_some {ℓ} : {A : Type ℓ} → Option A → Bool
is_some none = false
is_some (some _) = true

abbrev pub head_item : List ℕ → Option ℕ
head_item [] = none
head_item (x ∷ _) = some x

pub count-append : (a : ℕ) (xs ys : List ℕ) → count a (xs ++ ys) ≡ count a xs + count a ys
unfolding count
count-append a [] ys = omega arith
count-append a (x ∷ xs) ys = omega (arith, count-append a xs ys)

pub count-end :
    (a x : ℕ) (xs : List ℕ) → count a (xs ++ x ∷ []) ≡ count a xs + (if x == a then 1 else 0)
unfolding count
count-end a x xs = omega (arith, count-append a xs (x ∷ []))

pub count-erase :
    (a b : ℕ) (xs : List ℕ)
    → 0 < count b xs
    → count a (erase b xs) + (if b == a then 1 else 0) ≡ count a xs
unfolding count erase
count-erase a b [] h = absurd (omega arith)
count-erase a b (x ∷ xs) h = ground (arith, count-erase a b xs)

pub count-erase_le : (a b : ℕ) (xs : List ℕ) → count a (erase b xs) ≤ count a xs
unfolding count erase
count-erase_le a b [] = omega arith
count-erase_le a b (x ∷ xs) = ground (arith, count-erase_le a b xs)

pub count-erase_other :
    (a b : ℕ) (xs : List ℕ) → (b == a) ≡ false → count a (erase b xs) ≡ count a xs
unfolding count erase
count-erase_other a b [] e = refl
count-erase_other a b (x ∷ xs) e = ground (arith, count-erase_other a b xs e)

pub count-erase_same : (a : ℕ) (xs : List ℕ) → count a (erase a xs) ≡ count a xs - 1
unfolding count erase
count-erase_same a [] = refl
count-erase_same a (x ∷ xs) = ground (arith, count-erase_same a xs)

pub count-find_first :
    (p : ℕ → Bool) (xs : List ℕ) (x : ℕ) → find_first p xs ≡ some x → 0 < count x xs
unfolding count find_first
count-find_first p [] x h = absurd (ground arith)
count-find_first p (y ∷ xs) x h = ground (arith, count-find_first p xs x)

pub find_first_passes : (p : ℕ → Bool) (xs : List ℕ) (x : ℕ) → find_first p xs ≡ some x → p x ≡ true
unfolding find_first
find_first_passes p [] x h = absurd (ground arith)
find_first_passes p (y ∷ xs) x h = ground (arith, find_first_passes p xs x)

pub find_first_fails :
    (p : ℕ → Bool) (xs : List ℕ) (x : ℕ) → find_first p xs ≡ none → 0 < count x xs → p x ≡ false
unfolding count find_first
find_first_fails p [] x h m = absurd (omega arith)
find_first_fails p (y ∷ xs) x h m = ground (arith, find_first_fails p xs x)

pub count_ne : (a b : ℕ) (xs : List ℕ) → count a xs ≡ 0 → 0 < count b xs → (a == b) ≡ false
count_ne a b xs h g = elim (Bool-cases (a == b)) [ inl e ↦ absurd (ground arith) | inr n ↦ n ]
