-- ===== src/Usr/Words/Command.antt =====
-- usr/sh.c: the words of a job and its redirection.
use avros.Base.{
  ℕ, ◌+◌, ◌≤◌, ◌<◌, ◌≡◌, refl, Bool, true, false, ◌&&◌, Option, some, is_some, List, [], ◌∷◌, ◌++◌,
  append-nil, length, arith, if_elim, Bool-cases, inl, inr, ap, sym, ◌∙◌, subst,
}
use avros.Usr.Words.{
  Parse, ParseState, parse_none, parse_letter, parse_sin, parse_sout, char_kind, is_blank,
  is_letter, parse_letter_at, parse_char, parse_args, max_args, cleared,
}
use avros.Usr.Words.Scan.{
  Prefix, Prefix-le, Prefix-agree, Prefix-append, scan, scan-append, scan-mem, scan-mem_after,
  parse_loop-scan,
}
use avros.Usr.Words.Parts.{words, IsString, Names, in_words, AreWords, kind_letter, kind_blank}
use avros.Usr.Words.Count.{scan-IndexIn}
use avros.Usr.Words.Split.{scan-words}
use avros.Usr.Words.Redirect.{
  spaces, Redirect, redirect_char, redirect_text, IsRedirect, Redirects, Took, redirect-Took,
  Prefix-spaces, nothing, redirect,
}

abbrev is_file : ParseState → Bool
is_file parse_sin = true
is_file parse_sout = true
is_file _ = false

-- Neither pointer is set, and none is waited for.
abbrev NoFile : Parse → Parse → Type 0
NoFile s s' = (is_file s'.state ≡ false) × ((s'.stin ≡ s.stin) × (s'.stout ≡ s.stout))

letter-NoFile :
    (x : ParseState) (t : ℕ) (s : Parse) → is_file x ≡ false → NoFile s (parse_letter_at true x t s)
unfolding parse_letter_at
letter-NoFile parse_none t s e = (refl, (refl, refl))
letter-NoFile parse_letter t s e = (refl, (refl, refl))
letter-NoFile parse_sin t s e = cc
letter-NoFile parse_sout t s e = cc

char-NoFile :
    (c t : ℕ) (s : Parse)
    → in_words c ≡ true
    → is_file s.state ≡ false
    → NoFile s (parse_char true (char_kind c) t s)
unfolding parse_char
char-NoFile c t s w e = elim (Bool-cases (is_blank c)) [
  | inl b ↦ rw (kind_blank c b) (
      if_elim (NoFile s) (is_some (s.args s.i) && is_letter s.state) _ _ (λ _. (refl, (refl, refl)))
        λ _. (e, (refl, refl)))
  | inr b ↦ rw (kind_letter c b w) (letter-NoFile s.state t s e)
]

scan-NoFile :
    (cs : List ℕ) (t : ℕ) (s : Parse)
    → AreWords cs
    → is_file s.state ≡ false
    → NoFile s (scan true cs t s)
unfolding scan
scan-NoFile [] t s all e = (e, (refl, refl))
scan-NoFile (c ∷ cs) t s (w, all) e =
    let (f, (g, h)) = char-NoFile c t s w e in
    let (i, (j, k)) = scan-NoFile cs (t + 1) _ all f in (i, (j ∙ g, k ∙ h))

-- What `parse_args` starts from.
abbrev start : (ℕ → ℕ) → (ℕ → Option ℕ) → Option ℕ → Option ℕ → Parse
start mem args stin stout = record {
  mem = mem;
  args = cleared args;
  i = 0;
  state = parse_none;
  stin = stin;
  stout = stout;
}

redirect-files :
    (is_input : Bool) (n c : ℕ) (file : List ℕ) (v : ℕ) (s r : Parse) (stin stout : Option ℕ)
    → Took is_input v s r
    → IsString r.mem v (c ∷ file)
    → s.stin ≡ stin
    → s.stout ≡ stout
    → Redirects (redirect is_input n c file) r stin stout
redirect-files true n c file v s r stin stout took text e f = ((v, took.stin, text), took.stout ∙ f)
redirect-files false n c file v s r stin stout took text e f =
    ((v, took.stout, text), took.stin ∙ e)

-- The words and the redirection of a text that stands in the buffer.
found_all :
    (rd : Redirect) (front : List ℕ) (t u : ℕ) (mem : ℕ → ℕ) (args : ℕ → Option ℕ)
    (stin stout : Option ℕ)
    → Prefix mem t (front ++ redirect_text rd) u
    → mem u ≡ 0
    → AreWords front
    → IsRedirect rd
    → let s = start mem args stin stout in
      let r = scan true (redirect_text rd) (t + length front) (scan true front t s) in
      Names r.mem (cleared args) r.args 0 (words front) × Redirects rd r stin stout
found_all nothing front t u mem args stin stout h z all w =
    let s = start mem args stin stout in
    let h' = subst (λ l. Prefix mem t l u) (append-nil front) h in
    unfold scan in
    (
      (scan-words true (λ s'. s') u 0 (cleared args) (λ s' a l. refl) (λ s' e. e) (λ s'. refl) front
            t s h' z all).0
          refl (λ k l. refl),
      (scan-NoFile front t s all refl).1,
    )
found_all (redirect is_input n c file) front t u mem args stin stout h z all w =
    let s = start mem args stin stout in
    let m = t + length front in
    let s1 = scan true front t s in
    let tail = redirect_char is_input ∷ spaces n (c ∷ file) in
    let (in_front, (at_m, _, behind)) = Prefix-append mem t front tail u h in
    let took = λ (s' : Parse). redirect-Took is_input n c file m (m + 1 + n) s' refl w in
    let names =
      (scan-words true (scan true tail m) m (redirect_char is_input) (cleared args)
          (λ s' a l. scan-mem true tail m s' a l) (λ s' e. (took s').1) (λ s'. (took s').0.args)
          front t s in_front at_m all).0
        refl (λ k l. refl) in
    let (_, (stin_same, stout_same)) = scan-NoFile front t s all refl in
    let v = m + 1 + n in
    let r = scan true tail m s1 in
    let kept : (a : ℕ) → v ≤ a → r.mem a ≡ mem a =
      λ a l. (took s1).0.mem a l ∙ scan-mem_after true front t s a (omega (arith, l)) in
    let text = Prefix-spaces mem n (m + 1) v (c ∷ file) u refl behind in
    (
      names,
      redirect-files is_input n c file v s1 r stin stout (took s1).0
          (
            u,
            Prefix-agree mem r.mem v (c ∷ file) u (λ a l _. kept a l) text,
            kept u (Prefix-le mem v (c ∷ file) u text) ∙ z,
          )
          stin_same stout_same,
    )

-- The redirection leaves the index alone.
redirect-i :
    (rd : Redirect) (m : ℕ) (s : Parse) → IsRedirect rd → (scan true (redirect_text rd) m s).i ≡ s.i
redirect-i nothing m s w = unfold scan in refl
redirect-i (redirect is_input n c file) m s w =
    (redirect-Took is_input n c file m (m + 1 + n) s refl w).0.i

-- `parse_args` on a job of at most MAX_ARGS words, and at most one redirection behind them: with
-- fuel for the characters and one more it ends; the pointers in `args` are to the words in order,
-- each with its end, and the others of its nine entries are null; the pointer of the redirection is
-- to the name of the file, and the other one is left alone.
pub parse_args-words :
    (rd : Redirect) (front : List ℕ) (fuel t u : ℕ) (mem : ℕ → ℕ) (args : ℕ → Option ℕ)
    (stin stout : Option ℕ)
    → Prefix mem t (front ++ redirect_text rd) u
    → mem u ≡ 0
    → AreWords front
    → IsRedirect rd
    → length (front ++ redirect_text rd) < fuel
    → length (words front) ≤ max_args
    → (r : Parse) × (parse_args true fuel t mem args stin stout ≡ some r)
      × Names r.mem (cleared args) r.args 0 (words front)
      × Redirects rd r stin stout
unfolding parse_args
parse_args-words rd front fuel t u mem args stin stout h z all w l few =
    let s = start mem args stin stout in
    let m = t + length front in
    let (names, files) = found_all rd front t u mem args stin stout h z all w in
    let r = scan true (redirect_text rd) m (scan true front t s) in
    let parts_of = scan-append true front (redirect_text rd) t m s refl in
    let last : r.i ≤ max_args = omega (
      arith,
      few,
      redirect-i rd m (scan true front t s) w,
      (scan-IndexIn true front t s all).0 refl,
    ) in
    (
      r,
      parse_loop-scan true (front ++ redirect_text rd) fuel t u s h z l
            (subst (λ (s' : Parse). s'.i ≤ max_args) (sym parts_of) last)
          ∙ ap some parts_of,
      names,
      files,
    )
