-- ===== src/Usr/Tests.antt =====
-- A number and a line, and the theorems at them.
use avros.Base.{ℕ, ◌≡◌, [], ◌∷◌, arith}
use avros.Usr.Print.{mfputu, read_digits, decimal, read_digits-mfputu}
use avros.Usr.Line.{getcmd, Inside, getcmd-Inside}

read_digits-mfputu_example : read_digits 10 decimal 0 (mfputu 1024) ≡ 1024
read_digits-mfputu_example = read_digits-mfputu 1024 (omega arith)

abbrev zeros : ℕ → ℕ
zeros i = 0

getcmd-Inside_example : Inside 4 zeros (getcmd 4 (101 ∷ 99 ∷ 104 ∷ 111 ∷ 33 ∷ 10 ∷ []) zeros)
getcmd-Inside_example = getcmd-Inside 4 (101 ∷ 99 ∷ 104 ∷ 111 ∷ 33 ∷ 10 ∷ []) zeros (omega arith)
