-- ===== src/Usr/Words/Split.antt =====
-- usr/sh.c: the words that `parse_args` finds.
use avros.Base.{
  ℕ, suc, ◌+◌, ◌≤◌, ◌<◌, ◌≡◌, refl, Bool, Option, some, List, [], ◌∷◌, ◌++◌, append-nil,
  append_assoc, arith, if◌then◌else◌, update, update-other, ==_refl, Bool-cases, inl, inr, ap, sym,
  ◌∙◌, subst,
}
use avros.Usr.Words.{
  Parse, parse_none, parse_letter, CharKind, char_kind, is_blank, is_letter, parse_char,
}
use avros.Usr.Words.Scan.{
  Prefix, Prefix-le, Prefix-agree, Prefix-end, scan, scan-mem, scan-args, parse_char-mem,
}
use avros.Usr.Words.Parts.{
  with_word, parts, words, IsString, Names, AreWords, kind_blank, kind_letter, parts-blank,
  parts-letter, not_word-blank, word-blank, none-letter, word-letter,
}

-- What comes after the words, from the place `u` with the character `d` on: it ends the last word,
-- and leaves the words alone.
module _ (r : Bool) (after : Parse → Parse) (u d : ℕ) (before : ℕ → Option ℕ)
    (after_mem : (s : Parse) (a : ℕ) → a < u → (after s).mem a ≡ s.mem a)
    (after_end : (s : Parse) → s.mem u ≡ d → (after s).mem u ≡ 0)
    (after_args : (s : Parse) → (after s).args ≡ s.args) where
  abbrev pub finish : List ℕ → ℕ → Parse → Parse
  finish cs t s = after (scan r cs t s)

  abbrev pub Found : Parse → ℕ → List (List ℕ) → Type 0
  Found s i ws = Names s.mem before s.args i ws

  abbrev pub Between : List ℕ → ℕ → Parse → Type 0
  Between cs t s =
      s.state ≡ parse_none
      → ((k : ℕ) → s.i ≤ k → s.args k ≡ before k)
      → Found (finish cs t s) s.i (words cs)

  abbrev pub Within : List ℕ → ℕ → Parse → Type 0
  Within cs t s =
      (p : ℕ) (w : List ℕ)
      → s.state ≡ parse_letter
      → s.args s.i ≡ some p
      → Prefix s.mem p w t
      → ((k : ℕ) → s.i < k → s.args k ≡ before k)
      → Found (finish cs t s) s.i ((w ++ (parts cs).0) ∷ (parts cs).1)

  -- A round leaves the rest of the text alone.
  rest_kept :
      (k : CharKind) (cs : List ℕ) (t : ℕ) (s s1 : Parse)
      → parse_char r k t s ≡ s1
      → Prefix s.mem (t + 1) cs u
      → s.mem u ≡ d
      → Prefix s1.mem (t + 1) cs u × (s1.mem u ≡ d)
  rest_kept k cs t s s1 step h z =
      let same : (a : ℕ) → t + 1 ≤ a → s1.mem a ≡ s.mem a = λ a l.
        ap (λ (s' : Parse). s'.mem a) (sym step) ∙ parse_char-mem r k t s a (ground (arith, l)) in
      (
        Prefix-agree s.mem s1.mem (t + 1) cs u (λ a l _. same a l) h,
        same u (Prefix-le s.mem (t + 1) cs u h) ∙ z,
      )

  Found-next :
      (c : ℕ) (cs : List ℕ) (t i : ℕ) (s s1 : Parse) (ws ws1 : List (List ℕ))
      → parse_char r (char_kind c) t s ≡ s1
      → ws ≡ ws1
      → Found (finish cs (t + 1) s1) i ws1
      → Found (finish (c ∷ cs) t s) i ws
  unfolding scan
  Found-next c cs t i s s1 ws ws1 step same found =
      subst (λ s'. Found (finish cs (t + 1) s') i ws) (sym step)
        (subst (Found (finish cs (t + 1) s1) i) (sym same) found)

  -- The word that ended at `t` stays where it is.
  word_found :
      (cs : List ℕ) (t p i : ℕ) (w : List ℕ) (s : Parse)
      → i < s.i
      → s.args i ≡ some p
      → Prefix s.mem p w t
      → s.mem t ≡ 0
      → t < u
      → (q : ℕ) × ((finish cs (t + 1) s).args i ≡ some q) × IsString (finish cs (t + 1) s).mem q w
  word_found cs t p i w s l f g z b =
      let s' = scan r cs (t + 1) s in
      let same : (a : ℕ) → a ≤ t → (after s').mem a ≡ s.mem a = λ a m.
        after_mem s' a (omega (arith, m, b)) ∙ scan-mem r cs (t + 1) s a (omega (arith, m)) in
      (
        p,
        ap (λ o. o i) (after_args s') ∙ scan-args r cs (t + 1) s i l ∙ f,
        (
          t,
          Prefix-agree s.mem (after s').mem p w t (λ a _ m. same a (omega (arith, m))) g,
          same t (omega arith) ∙ z,
        ),
      )

  pub scan-words :
      (cs : List ℕ) (t : ℕ) (s : Parse)
      → Prefix s.mem t cs u
      → s.mem u ≡ d
      → AreWords cs
      → Between cs t s × Within cs t s
  unfolding scan words parts
  scan-words [] t s h z all = (
    λ e fresh k l. ap (λ f. f k) (after_args s) ∙ fresh k l,
    λ p w e f g fresh. (
      (
        p,
        ap (λ o. o s.i) (after_args s) ∙ f,
        (
          u,
          subst (λ l. Prefix (after s).mem p l u) (sym (append-nil w))
              (Prefix-agree s.mem (after s).mem p w u (λ a _ l. after_mem s a l)
                (subst (λ v. Prefix s.mem p w v) h g)),
          after_end s z,
        ),
      ),
      λ k l. ap (λ o. o k) (after_args s) ∙ fresh k l,
    ),
  )
  scan-words (c ∷ cs) t s (e, n, h) z (in_c, all) = elim (Bool-cases (is_blank c)) [
    | inl b ↦
        let k = kind_blank c b in
        let s0 = record s { mem = update s.mem t 0 } in
        let s1 = record s0 { i = suc s.i; state = parse_none } in
        let here : s0.mem t ≡ 0 = ap (λ x. if x then 0 else s.mem t) (==_refl t) in
        let before_u : t < u = omega (arith, Prefix-le s.mem (t + 1) cs u h) in
        let same = parts-blank c cs b in
        (
          λ none_yet fresh.
              let step =
                ap (λ x. parse_char r x t s) k ∙ not_word-blank r t s (ap is_letter none_yet) in
              let (h', z') = rest_kept (char_kind c) cs t s s0 step h z in
              Found-next c cs t s.i s s0 _ _ step (ap (λ x. with_word x.0 x.1) same)
                ((scan-words cs (t + 1) s0 h' z' all).0 none_yet fresh),
          λ p w in_word f g fresh.
              let step = ap (λ x. parse_char r x t s) k ∙ word-blank r t p s in_word f in
              let (h', z') = rest_kept (char_kind c) cs t s s1 step h z in
              let g' =
                Prefix-agree s.mem s1.mem p w t
                  (λ a _ l. update-other s.mem t a 0 (ground (arith, l))) g in
              Found-next c cs t s.i s s1 _ (w ∷ words cs) step
                (ap (λ x. (w ++ x.0) ∷ x.1) same ∙ ap (λ l. l ∷ words cs) (append-nil w))
                (
                  word_found cs t p s.i w s1 (omega arith) f g' here before_u,
                  (scan-words cs (t + 1) s1 h' z' all).0 refl (λ j l. fresh j (omega (arith, l))),
                ),
        )
    | inr b ↦
        let k = kind_letter c b in_c in
        let s0 = record s { state = parse_letter } in
        let s1 = record s0 { args = update s.args s.i (some t) } in
        let same = parts-letter c cs b in
        (
          λ none_yet fresh.
              let step = ap (λ x. parse_char r x t s) k ∙ none-letter r t s none_yet in
              let (h', z') = rest_kept (char_kind c) cs t s s1 step h z in
              Found-next c cs t s.i s s1 _ _ step (ap (λ x. with_word x.0 x.1) same) (
                (scan-words cs (t + 1) s1 h' z' all).1 t (c ∷ []) refl
                  (ap (λ x. if x then some t else s.args s.i) (==_refl s.i)) (e, n, refl)
                  λ j l.
                    update-other s.args s.i j (some t) (ground (arith, l))
                    ∙ fresh j (omega (arith, l))),
          λ p w in_word f g fresh.
              let step = ap (λ x. parse_char r x t s) k ∙ word-letter r t s in_word in
              let (h', z') = rest_kept (char_kind c) cs t s s0 step h z in
              Found-next c cs t s.i s s0 _ _ step
                (ap (λ x. (w ++ x.0) ∷ x.1) same
                  ∙ ap (λ l. l ∷ (parts cs).1) (sym (append_assoc w (c ∷ []) (parts cs).0)))
                ((scan-words cs (t + 1) s0 h' z' all).1 p (w ++ c ∷ []) refl f
                  (Prefix-end s.mem p w t c g e n) fresh),
        )
  ]
