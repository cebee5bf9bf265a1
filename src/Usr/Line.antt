-- ===== src/Usr/Line.antt =====
-- usr/sh.c: `getcmd` reads a command line into a buffer.
use avros.Base.{
  ℕ, ◌+◌, ◌-◌, ◌%◌, ◌<◌, ◌≤◌, ◌≡◌, refl, sym, ap, ◌∙◌, subst, arith, Bool, true, false, ◌&&◌, ◌||◌,
  not, Option, none, some, List, [], ◌∷◌, ◌++◌, length, ◌==◌, leb, ltb, if◌then◌else◌, update,
  update-other, Bool-cases, inl, inr,
}
use avros.Drivers.Message.{minus_one}

abbrev pub is_newline : ℕ → Bool
is_newline c = (c == 13) || (c == 10)

-- The loop of `getcmd` over what `readc` returns, up to the end of the file: the buffer of `len`
-- characters, or `none` for EOF. A `char` keeps the low byte.
unfoldable pub getcmd_loop : ℕ → List ℕ → ℕ → (ℕ → ℕ) → Option (ℕ → ℕ)
getcmd_loop len [] i cmd = none
getcmd_loop len (c ∷ input) i cmd =
    let i1 = if leb (len - 1) i then i - 1 else i in
    let rest =
      getcmd_loop len input (if i1 + 1 == len - 1 then i1 else i1 + 1) (update cmd i1 (c % 256)) in
    if c == minus_one then none else if is_newline c then some (update cmd i1 0) else rest

unfoldable pub getcmd : ℕ → List ℕ → (ℕ → ℕ) → Option (ℕ → ℕ)
unfolding getcmd_loop
getcmd len input cmd = getcmd_loop len input 0 cmd

-- An ordinary character: a byte that is not the end of the line.
abbrev pub is_plain : ℕ → Bool
is_plain c = ltb c 256 && not (is_newline c)

abbrev pub ArePlain : List ℕ → Type 0
ArePlain [] = Unit {0}
ArePlain (c ∷ cs) = (is_plain c ≡ true) × ArePlain cs

-- The place where the next character goes.
abbrev place : ℕ → ℕ → ℕ
place len i = if leb (len - 1) i then i - 1 else i

getcmd_plain :
    (len c : ℕ) (input : List ℕ) (i : ℕ) (cmd : ℕ → ℕ)
    → (c == minus_one) ≡ false
    → is_newline c ≡ false
    → getcmd_loop len (c ∷ input) i cmd
      ≡ getcmd_loop len input
          (if place len i + 1 == len - 1 then place len i else place len i + 1)
          (update cmd (place len i) (c % 256))
unfolding getcmd_loop
getcmd_plain len c input i cmd e f = rw e (rw f refl)

-- The buffer outside its `len` characters is not written.
abbrev pub Inside : ℕ → (ℕ → ℕ) → Option (ℕ → ℕ) → Type 0
Inside len cmd none = Unit {0}
Inside len cmd (some cmd') = (a : ℕ) → len ≤ a → cmd' a ≡ cmd a

Inside-update :
    (len i v : ℕ) (cmd : ℕ → ℕ) (r : Option (ℕ → ℕ))
    → i < len
    → Inside len (update cmd i v) r
    → Inside len cmd r
Inside-update len i v cmd none h s = tt
Inside-update len i v cmd (some r) h s = λ a l. s a l ∙ update-other cmd i a v (ground arith)

getcmd_loop-Inside :
    (len : ℕ) (input : List ℕ) (i : ℕ) (cmd : ℕ → ℕ)
    → 2 ≤ len
    → i + 2 ≤ len
    → Inside len cmd (getcmd_loop len input i cmd)
getcmd_loop-Inside len [] i cmd l h = unfold getcmd_loop in tt
getcmd_loop-Inside len (c ∷ input) i cmd l h = elim (Bool-cases (c == minus_one)) [
  | inl e ↦ subst (Inside len cmd) (sym (at_eof e)) tt
  | inr n ↦ elim (Bool-cases (is_newline c)) [
    | inl e ↦
        subst (Inside len cmd) (sym (at_newline n e))
          (λ a g. update-other cmd (place len i) a 0 (ground arith))
    | inr m ↦
        let i1 = place len i in
        let next : (if i1 + 1 == len - 1 then i1 else i1 + 1) + 2 ≤ len = ground arith in
        subst (Inside len cmd) (sym (getcmd_plain len c input i cmd n m)) (
          Inside-update len i1 (c % 256) cmd _ (ground arith)
            (getcmd_loop-Inside len input _ (update cmd i1 (c % 256)) l next))
  ]
]
  where
    at_eof : (c == minus_one) ≡ true → getcmd_loop len (c ∷ input) i cmd ≡ none
    at_eof e = unfold getcmd_loop in (rw e refl)

    at_newline :
        (c == minus_one) ≡ false
        → is_newline c ≡ true
        → getcmd_loop len (c ∷ input) i cmd ≡ some (update cmd (place len i) 0)
    at_newline n e = unfold getcmd_loop in (rw n (rw e refl))

-- However long the line is, `getcmd` does not write outside a buffer of two characters or more.
pub getcmd-Inside :
    (len : ℕ) (input : List ℕ) (cmd : ℕ → ℕ) → 2 ≤ len → Inside len cmd (getcmd len input cmd)
unfolding getcmd
getcmd-Inside len input cmd l = getcmd_loop-Inside len input 0 cmd l (omega arith)

-- A string with its end, at a place of a buffer.
unfoldable pub string_at : ℕ → List ℕ → (ℕ → ℕ) → ℕ → ℕ
string_at i [] cmd = update cmd i 0
string_at i (c ∷ cs) cmd = string_at (i + 1) cs (update cmd i c)

getcmd_loop-string_at :
    (len : ℕ) (line : List ℕ) (n : ℕ) (input : List ℕ) (i : ℕ) (cmd : ℕ → ℕ)
    → ArePlain line
    → is_newline n ≡ true
    → i + length line + 2 ≤ len
    → getcmd_loop len (line ++ n ∷ input) i cmd ≡ some (string_at i line cmd)
unfolding string_at
getcmd_loop-string_at len [] n input i cmd p e h =
    let f : (n == minus_one) ≡ false = ground arith in
    let g : leb (len - 1) i ≡ false = ground arith in
    unfold getcmd_loop in (rw f (rw e (rw g refl)))
getcmd_loop-string_at len (c ∷ line) n input i cmd p e h =
    let g : leb (len - 1) i ≡ false = ground arith in
    let k : (i + 1 == len - 1) ≡ false = ground arith in
    let small : c % 256 ≡ c = ground (arith, p.0) in
    getcmd_plain len c (line ++ n ∷ input) i cmd (ground (arith, p.0)) (ground (arith, p.0))
    ∙ ap
        (λ d.
          getcmd_loop len (line ++ n ∷ input)
            (if place len i + 1 == len - 1 then place len i else place len i + 1)
            (update cmd (place len i) d))
        small
    ∙ ap
        (λ b.
          let j = if b then i - 1 else i in
          getcmd_loop len (line ++ n ∷ input) (if j + 1 == len - 1 then j else j + 1)
            (update cmd j c))
        g
    ∙ ap (λ b. getcmd_loop len (line ++ n ∷ input) (if b then i else i + 1) (update cmd i c)) k
    ∙ getcmd_loop-string_at len line n input (i + 1) (update cmd i c) p.1 e (omega arith)

-- A line of ordinary characters that is at least two shorter than the buffer is in the buffer,
-- with its end, when the newline came.
pub getcmd-string_at :
    (len : ℕ) (line : List ℕ) (n : ℕ) (input : List ℕ) (cmd : ℕ → ℕ)
    → ArePlain line
    → is_newline n ≡ true
    → length line + 2 ≤ len
    → getcmd len (line ++ n ∷ input) cmd ≡ some (string_at 0 line cmd)
unfolding getcmd
getcmd-string_at len line n input cmd p e h =
    getcmd_loop-string_at len line n input 0 cmd p e (omega arith)
