-- ===== src/Usr/Words/Parts.antt =====
-- usr/sh.c: the words of a text, and a round of the loop of `parse_args` on a character of them.
use avros.Base.{
  ℕ, suc, ◌≤◌, ◌≡◌, refl, Bool, true, false, ◌&&◌, ◌||◌, not, Option, some, is_some, List, [], ◌∷◌,
  arith, ◌==◌, if◌then◌else◌, if_true, if_false, update, ap, ap₂, ◌∙◌,
}
use avros.Usr.Words.{
  Parse, parse_none, parse_letter, blank, letter, char_kind, is_blank, is_letter, parse_letter_at,
  parse_char,
}
use avros.Usr.Words.Scan.{Prefix}

abbrev pub with_word : List ℕ → List (List ℕ) → List (List ℕ)
with_word [] ws = ws
with_word (x ∷ w) ws = (x ∷ w) ∷ ws

-- The rest of the word that is being read, and the words after it.
unfoldable pub parts : List ℕ → List ℕ × List (List ℕ)
parts [] = ([], [])
parts (c ∷ cs) = let (w, ws) = parts cs in if is_blank c then ([], with_word w ws) else (c ∷ w, ws)

-- The words of a text, which blanks divide.
unfoldable pub words : List ℕ → List (List ℕ)
unfolding parts
words cs = with_word (parts cs).0 (parts cs).1

-- A string with its end.
abbrev pub IsString : (ℕ → ℕ) → ℕ → List ℕ → Type 0
IsString mem p cs = (t : ℕ) × Prefix mem p cs t × (mem t ≡ 0)

-- The entries from the `i`-th on point to the words, and those after them are as before.
abbrev pub Names : (ℕ → ℕ) → (ℕ → Option ℕ) → (ℕ → Option ℕ) → ℕ → List (List ℕ) → Type 0
Names mem before args i [] = (k : ℕ) → i ≤ k → args k ≡ before k
Names mem before args i (w ∷ ws) =
    ((p : ℕ) × (args i ≡ some p) × IsString mem p w) × Names mem before args (suc i) ws

-- A character that is neither a redirection nor the end of a line.
abbrev pub in_words : ℕ → Bool
in_words c = not ((c == 60) || (c == 62)) && not ((c == 10) || (c == 13))

abbrev pub AreWords : List ℕ → Type 0
AreWords [] = Unit {0}
AreWords (c ∷ cs) = (in_words c ≡ true) × AreWords cs

pub kind_blank : (c : ℕ) → is_blank c ≡ true → char_kind c ≡ blank
unfolding char_kind
kind_blank c h = ground arith

pub kind_letter : (c : ℕ) → is_blank c ≡ false → in_words c ≡ true → char_kind c ≡ letter
unfolding char_kind
kind_letter c h g = ground arith

pub parts-blank : (c : ℕ) (cs : List ℕ) → is_blank c ≡ true → parts (c ∷ cs) ≡ ([], words cs)
unfolding parts words
parts-blank c cs e = if_true (is_blank c) _ _ e

pub parts-letter :
    (c : ℕ) (cs : List ℕ) → is_blank c ≡ false → parts (c ∷ cs) ≡ (c ∷ (parts cs).0, (parts cs).1)
unfolding parts
parts-letter c cs e = if_false (is_blank c) _ _ e

-- A round, in the two states that occur between words and in a word.
pub not_word-blank :
    (r : Bool) (t : ℕ) (s : Parse)
    → is_letter s.state ≡ false
    → parse_char r blank t s ≡ record s { mem = update s.mem t 0 }
unfolding parse_char
not_word-blank r t s e =
    if_false (is_some (s.args s.i) && is_letter s.state) _ _
      (ap (λ x. is_some (s.args s.i) && x) e ∙ and_false (is_some (s.args s.i)))
  where
    and_false : (b : Bool) → (b && false) ≡ false
    and_false true = refl
    and_false false = refl

pub word-blank :
    (r : Bool) (t p : ℕ) (s : Parse)
    → s.state ≡ parse_letter
    → s.args s.i ≡ some p
    → parse_char r blank t s ≡ record s { mem = update s.mem t 0; i = suc s.i; state = parse_none }
unfolding parse_char
word-blank r t p s e f =
    if_true (is_some (s.args s.i) && is_letter s.state) _ _
      (ap₂ (λ o x. is_some o && is_letter x) f e)

pub none-letter :
    (r : Bool) (t : ℕ) (s : Parse)
    → s.state ≡ parse_none
    → parse_char r letter t s ≡ record s { args = update s.args s.i (some t); state = parse_letter }
unfolding parse_char parse_letter_at
none-letter r t s e = ap (λ x. parse_letter_at r x t s) e

pub word-letter :
    (r : Bool) (t : ℕ) (s : Parse)
    → s.state ≡ parse_letter
    → parse_char r letter t s ≡ record s { state = parse_letter }
unfolding parse_char parse_letter_at
word-letter r t s e = ap (λ x. parse_letter_at r x t s) e
