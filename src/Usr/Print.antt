-- ===== src/Usr/Print.antt =====
-- The printing of numbers of usr/lib/mstdlib.c, as the characters that are written.
use avros.Base.{
  ℕ, zero, suc, ◌+◌, ◌-◌, ◌*◌, ◌/◌, ◌%◌, ◌<◌, ◌≡◌, refl, ap, ◌∙◌, arith, true, List, [], ◌∷◌, ◌++◌,
  ◌==◌, ltb, leb, if◌then◌else◌, Bool-cases, ==→eq, inl, inr,
}

-- `mfputu`, with the calls that are left. A 16-bit number has five digits at most.
unfoldable pub putu_calls : ℕ → ℕ → List ℕ
putu_calls zero num = []
putu_calls (suc calls) num =
    let rest = putu_calls calls (num / 10) in
    (if num / 10 == 0 then [] else rest) ++ (num % 10 + 48) ∷ []

unfoldable pub mfputu : ℕ → List ℕ
unfolding putu_calls
mfputu num = putu_calls 5 num

abbrev pub hex_digit : ℕ → ℕ
hex_digit d = d + (if ltb 9 d then 87 else 48)

-- `mfputx_internal`: four digits at most.
unfoldable pub putx_calls : ℕ → ℕ → List ℕ
putx_calls zero num = []
putx_calls (suc calls) num =
    let rest = putx_calls calls (num / 16) in
    (if num / 16 == 0 then [] else rest) ++ hex_digit (num % 16) ∷ []

unfoldable pub mfputx : ℕ → List ℕ
unfolding putx_calls
mfputx num = 48 ∷ 120 ∷ putx_calls 4 num

-- The number that digits stand for, after those that `acc` stands for.
unfoldable pub read_digits : ℕ → (ℕ → ℕ) → ℕ → List ℕ → ℕ
read_digits base digit acc [] = acc
read_digits base digit acc (c ∷ cs) = read_digits base digit (acc * base + digit c) cs

abbrev pub decimal : ℕ → ℕ
decimal c = c - 48

abbrev pub hexadecimal : ℕ → ℕ
hexadecimal c = if leb 97 c then c - 87 else c - 48

read_digits-append :
    (base : ℕ) (digit : ℕ → ℕ) (acc : ℕ) (xs : List ℕ) (c : ℕ)
    → read_digits base digit acc (xs ++ c ∷ []) ≡ read_digits base digit acc xs * base + digit c
unfolding read_digits
read_digits-append base digit acc [] c = refl
read_digits-append base digit acc (x ∷ xs) c =
    read_digits-append base digit (acc * base + digit x) xs c

power : ℕ → ℕ → ℕ
power base zero = 1
power base (suc n) = base * power base n

putu_calls_reads :
    (calls num : ℕ) → num < power 10 calls → read_digits 10 decimal 0 (putu_calls calls num) ≡ num
unfolding putu_calls power
putu_calls_reads zero num h = unfold read_digits in (omega arith)
putu_calls_reads (suc calls) num h =
    let ih = putu_calls_reads calls (num / 10) (omega arith) in
    let d : decimal (num % 10 + 48) ≡ num % 10 = omega arith in
    elim (Bool-cases (num / 10 == 0)) [
      | inl e ↦ rw e (read_digits-append 10 decimal 0 [] (num % 10 + 48) ∙ zero_first num e)
      | inr e ↦ rw e (
          read_digits-append 10 decimal 0 (putu_calls calls (num / 10)) (num % 10 + 48)
          ∙ ap (λ x. x * 10 + decimal (num % 10 + 48)) ih
          ∙ omega (arith, d))
    ]
  where
    zero_first :
        (num : ℕ)
        → (num / 10 == 0) ≡ true
        → read_digits 10 decimal 0 [] * 10 + decimal (num % 10 + 48) ≡ num
    zero_first num e = unfold read_digits in (ground arith)

-- The decimal digits of a 16-bit number stand for it again.
pub read_digits-mfputu : (num : ℕ) → num < 65536 → read_digits 10 decimal 0 (mfputu num) ≡ num
unfolding mfputu power
read_digits-mfputu num h = putu_calls_reads 5 num (omega arith)

hex_digit_reads : (d : ℕ) → d < 16 → hexadecimal (hex_digit d) ≡ d
hex_digit_reads d h = ground arith

putx_calls_reads :
    (calls num : ℕ)
    → num < power 16 calls
    → read_digits 16 hexadecimal 0 (putx_calls calls num) ≡ num
unfolding putx_calls power
putx_calls_reads zero num h = unfold read_digits in (omega arith)
putx_calls_reads (suc calls) num h =
    let ih = putx_calls_reads calls (num / 16) (omega arith) in
    let c = hex_digit (num % 16) in
    let d : hexadecimal c ≡ num % 16 = hex_digit_reads (num % 16) (omega arith) in
    elim (Bool-cases (num / 16 == 0)) [
      | inl e ↦ rw e (read_digits-append 16 hexadecimal 0 [] c ∙ zero_first num c d e)
      | inr e ↦ rw e (
          read_digits-append 16 hexadecimal 0 (putx_calls calls (num / 16)) c
          ∙ ap (λ x. x * 16 + hexadecimal c) ih
          ∙ omega (arith, d))
    ]
  where
    zero_first :
        (num c : ℕ)
        → hexadecimal c ≡ num % 16
        → (num / 16 == 0) ≡ true
        → read_digits 16 hexadecimal 0 [] * 16 + hexadecimal c ≡ num
    zero_first num c d e =
        unfold read_digits in (let q : num / 16 ≡ 0 = ==→eq _ _ e in omega (arith, d, q))

-- A 16-bit number is printed in hexadecimal as 0x and digits that stand for it again.
pub read_digits-mfputx :
    (num : ℕ)
    → num < 65536
    → (ds : List ℕ) × (mfputx num ≡ 48 ∷ 120 ∷ ds) × (read_digits 16 hexadecimal 0 ds ≡ num)
unfolding mfputx power
read_digits-mfputx num h = (putx_calls 4 num, refl, putx_calls_reads 4 num (omega arith))
