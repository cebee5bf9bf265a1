-- ===== src/Usr/Words/Count.antt =====
-- usr/sh.c: how far `parse_args` goes in its table of words.
use avros.Base.{
  ℕ, suc, ◌+◌, ◌≤◌, ◌≡◌, refl, Bool, some, List, [], ◌∷◌, length, arith, ◌&&◌, is_some, if_elim,
  Bool-cases, inl, inr, update, ap,
}
use avros.Usr.Words.{Parse, parse_none, parse_letter, is_blank, is_letter, blank, parse_char}
use avros.Usr.Words.Scan.{scan}
use avros.Usr.Words.Parts.{
  with_word, parts, words, AreWords, kind_blank, kind_letter, parts-blank, parts-letter,
  not_word-blank, none-letter, word-letter,
}

length-with_word : (w : List ℕ) (ws : List (List ℕ)) → length ws ≤ length (with_word w ws)
length-with_word [] ws = omega arith
length-with_word (x ∷ w) ws = omega arith

-- The index after a text, in the two states between words and in a word: it grows by the words.
abbrev IndexIn : Bool → List ℕ → Parse → Parse → Type 0
IndexIn r cs s s' =
    (s.state ≡ parse_none → s'.i ≤ s.i + length (words cs))
    × (s.state ≡ parse_letter → s'.i ≤ s.i + suc (length (parts cs).1))

blank_in_word :
    (r : Bool) (t : ℕ) (s : Parse) (cs : List ℕ)
    → ((s1 : Parse) → IndexIn r cs s1 (scan r cs (t + 1) s1))
    → s.state ≡ parse_letter
    → (scan r cs (t + 1) (parse_char r blank t s)).i ≤ s.i + suc (length (words cs))
unfolding parse_char words
blank_in_word r t s cs next e =
    if_elim (λ (s' : Parse). (scan r cs (t + 1) s').i ≤ s.i + suc (length (words cs)))
      (is_some (s.args s.i) && is_letter s.state) _ _
      (λ _. omega (
        arith,
        (next (record s { mem = update s.mem t 0; i = suc s.i; state = parse_none })).0 refl,
      ))
      λ _. omega (
        arith,
        (next (record s { mem = update s.mem t 0 })).1 e,
        length-with_word (parts cs).0 (parts cs).1,
      )

pub scan-IndexIn :
    (r : Bool) (cs : List ℕ) (t : ℕ) (s : Parse) → AreWords cs → IndexIn r cs s (scan r cs t s)
unfolding scan words parts
scan-IndexIn r [] t s all = (λ e. omega arith, λ e. omega arith)
scan-IndexIn r (c ∷ cs) t s (in_c, all) = elim (Bool-cases (is_blank c)) [
  | inl b ↦
      let same = parts-blank c cs b in
      let count : length (words (c ∷ cs)) ≡ length (words cs) =
        ap (λ x. length (with_word x.0 x.1)) same in
      let rest : length (parts (c ∷ cs)).1 ≡ length (words cs) = ap (λ x. length x.1) same in
      let kind = ap (λ k. (scan r cs (t + 1) (parse_char r k t s)).i) (kind_blank c b) in
      (
        λ e.
            let s1 = record s { mem = update s.mem t 0 } in
            let step =
              ap (λ s'. (scan r cs (t + 1) s').i) (not_word-blank r t s (ap is_letter e)) in
            omega (arith, count, kind, step, (scan-IndexIn r cs (t + 1) s1 all).0 e),
        λ e.
            omega (
              arith,
              rest,
              kind,
              blank_in_word r t s cs (λ s1. scan-IndexIn r cs (t + 1) s1 all) e,
            ),
      )
  | inr b ↦
      let same = parts-letter c cs b in
      let count : length (words (c ∷ cs)) ≡ suc (length (parts cs).1) =
        ap (λ x. length (with_word x.0 x.1)) same in
      let rest : length (parts (c ∷ cs)).1 ≡ length (parts cs).1 = ap (λ x. length x.1) same in
      let kind = ap (λ k. (scan r cs (t + 1) (parse_char r k t s)).i) (kind_letter c b in_c) in
      (
        λ e.
            let s1 = record s { args = update s.args s.i (some t); state = parse_letter } in
            let step = ap (λ s'. (scan r cs (t + 1) s').i) (none-letter r t s e) in
            omega (arith, count, kind, step, (scan-IndexIn r cs (t + 1) s1 all).1 refl),
        λ e.
            let s1 = record s { state = parse_letter } in
            let step = ap (λ s'. (scan r cs (t + 1) s').i) (word-letter r t s e) in
            omega (arith, rest, kind, step, (scan-IndexIn r cs (t + 1) s1 all).1 refl),
      )
]
