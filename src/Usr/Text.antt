-- ===== src/Usr/Text.antt =====
-- usr/sh.c: strings in a buffer.
use avros.Base.{
  ℕ, zero, suc, ◌+◌, ◌≤◌, ◌<◌, ◌≡◌, false, some, List, [], ◌∷◌, length, arith, ◌==◌, if_true,
  if_false, update, update-other, update-same, ==_refl, if◌then◌else◌, ap, ◌∙◌, subst, ◌>>=◌,
}
use avros.Usr.Line.{string_at}
use avros.Usr.Words.Scan.{Prefix, Prefix-le}
use avros.Usr.Shell.{read_string}

pub read_string-Prefix :
    (size : ℕ) (mem : ℕ → ℕ) (p : ℕ) (cs : List ℕ) (t : ℕ)
    → Prefix mem p cs t
    → mem t ≡ 0
    → length cs < size
    → read_string size mem p ≡ some cs
unfolding read_string
read_string-Prefix zero mem p cs t h z l = absurd (omega (arith, l))
read_string-Prefix (suc size) mem p [] t h z l =
    if_true (mem p == 0) _ _ (ap (λ c. c == 0) (ap mem h ∙ z))
read_string-Prefix (suc size) mem p (c ∷ cs) t (e, n, h) z l =
    if_false (mem p == 0) _ _ (ap (λ d. d == 0) e ∙ n)
    ∙ ap (λ o. o >>= λ ds. some (mem p ∷ ds))
        (read_string-Prefix size mem (p + 1) cs t h z (omega (arith, l)))
    ∙ ap (λ d. some (d ∷ cs)) e

pub Prefix-length :
    (mem : ℕ → ℕ) (p : ℕ) (cs : List ℕ) (t : ℕ) → Prefix mem p cs t → t ≡ p + length cs
Prefix-length mem p [] t h = omega (arith, h)
Prefix-length mem p (c ∷ cs) t (_, _, h) = omega (arith, Prefix-length mem (p + 1) cs t h)

-- The text moves by one place.
pub Prefix-move :
    (mem mem' : ℕ → ℕ) (q : ℕ) (cs : List ℕ) (t : ℕ)
    → ((a : ℕ) → q ≤ a → a < t → mem' a ≡ mem (a + 1))
    → Prefix mem (q + 1) cs (t + 1)
    → Prefix mem' q cs t
Prefix-move mem mem' q [] t moved h = omega (arith, h)
Prefix-move mem mem' q (c ∷ cs) t moved (e, n, h) = (
  moved q (omega arith) (omega (arith, Prefix-le mem (q + 1 + 1) cs (t + 1) h)) ∙ e,
  n,
  Prefix-move mem mem' (q + 1) cs t (λ a l. moved a (omega (arith, l))) h,
)

-- None of the characters is the end of a string.
abbrev pub NotEnd : List ℕ → Type 0
NotEnd [] = Unit {0}
NotEnd (c ∷ cs) = ((c == 0) ≡ false) × NotEnd cs

string_at-before :
    (i : ℕ) (cs : List ℕ) (cmd : ℕ → ℕ) (a : ℕ) → a < i → string_at i cs cmd a ≡ cmd a
unfolding string_at
string_at-before i [] cmd a l = update-other cmd i a 0 (ground (arith, l))
string_at-before i (c ∷ cs) cmd a l =
    string_at-before (i + 1) cs (update cmd i c) a (omega (arith, l))
    ∙ update-other cmd i a c (ground (arith, l))

pub string_at-Prefix :
    (i : ℕ) (cs : List ℕ) (cmd : ℕ → ℕ)
    → NotEnd cs
    → Prefix (string_at i cs cmd) i cs (i + length cs)
unfolding string_at
string_at-Prefix i [] cmd all = omega arith
string_at-Prefix i (c ∷ cs) cmd (n, all) =
    let e : i + 1 + length cs ≡ i + suc (length cs) = omega arith in
    (
      string_at-before (i + 1) cs (update cmd i c) i (omega arith) ∙ update-same cmd i c,
      n,
      subst (Prefix (string_at (i + 1) cs (update cmd i c)) (i + 1) cs) e
          (string_at-Prefix (i + 1) cs (update cmd i c) all),
    )

pub string_at-end :
    (i : ℕ) (cs : List ℕ) (cmd : ℕ → ℕ) (t : ℕ) → i + length cs ≡ t → string_at i cs cmd t ≡ 0
unfolding string_at
string_at-end i [] cmd t e =
    let e' : i ≡ t = omega (arith, e) in
    ap (λ a. if a == t then 0 else cmd t) e' ∙ ap (λ b. if b then 0 else cmd t) (==_refl t)
string_at-end i (c ∷ cs) cmd t e = string_at-end (i + 1) cs (update cmd i c) t (omega (arith, e))
