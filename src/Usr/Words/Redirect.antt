-- ===== src/Usr/Words/Redirect.antt =====
-- usr/sh.c: a job whose words are followed by a redirection, or by none.
use avros.Base.{
  ℕ, zero, suc, ◌+◌, ◌≤◌, ◌≡◌, refl, Bool, true, false, Option, some, List, [], ◌∷◌, arith,
  if◌then◌else◌, update, update-other, ==_refl, ap, sym, ◌∙◌, subst,
}
use avros.Usr.Words.{
  Parse, ParseState, parse_letter, parse_sin, parse_sout, char_kind, is_blank, is_letter,
  parse_letter_at, parse_char,
}
use avros.Usr.Words.Scan.{Prefix, scan, scan-mem}
use avros.Usr.Words.Parts.{IsString, in_words, kind_letter, word-letter, not_word-blank}

abbrev pub spaces : ℕ → List ℕ → List ℕ
spaces zero cs = cs
spaces (suc n) cs = 32 ∷ spaces n cs

-- What may follow the words: nothing, or `<` or `>`, a number of spaces and the name of a file.
pub data Redirect : Type 0 where
  nothing : Redirect
  redirect : (is_input : Bool) (n c : ℕ) (file : List ℕ) → Redirect

abbrev pub redirect_char : Bool → ℕ
redirect_char is_input = if is_input then 60 else 62

abbrev pub redirect_text : Redirect → List ℕ
redirect_text nothing = []
redirect_text (redirect is_input n c file) = redirect_char is_input ∷ spaces n (c ∷ file)

abbrev pub IsWord : List ℕ → Type 0
IsWord [] = Unit {0}
IsWord (c ∷ cs) = (is_blank c ≡ false) × (in_words c ≡ true) × IsWord cs

abbrev pub IsRedirect : Redirect → Type 0
IsRedirect nothing = Unit {0}
IsRedirect (redirect is_input n c file) = IsWord (c ∷ file)

-- The pointer is to the string.
abbrev pub PointsTo : (ℕ → ℕ) → Option ℕ → List ℕ → Type 0
PointsTo mem o cs = (p : ℕ) × (o ≡ some p) × IsString mem p cs

-- Which of the files is given, and the pointers that are left as they were.
abbrev pub Redirects : Redirect → Parse → Option ℕ → Option ℕ → Type 0
Redirects nothing s stin stout = (s.stin ≡ stin) × (s.stout ≡ stout)
Redirects (redirect true n c file) s stin stout =
    PointsTo s.mem s.stin (c ∷ file) × (s.stout ≡ stout)
Redirects (redirect false n c file) s stin stout =
    PointsTo s.mem s.stout (c ∷ file) × (s.stin ≡ stin)

-- The letters of a word that has begun change nothing.
record Same (s s' : Parse) : Type 0 where
  pub mem : s'.mem ≡ s.mem
  pub args : s'.args ≡ s.args
  pub i : s'.i ≡ s.i
  pub stin : s'.stin ≡ s.stin
  pub stout : s'.stout ≡ s.stout

scan-letters :
    (cs : List ℕ) (t : ℕ) (s : Parse)
    → IsWord cs
    → s.state ≡ parse_letter
    → Same s (scan true cs t s)
unfolding scan
scan-letters [] t s all e = record { mem = refl; args = refl; i = refl; stin = refl; stout = refl }
scan-letters (c ∷ cs) t s (b, w, all) e =
    let s1 = record s { state = parse_letter } in
    let step = ap (λ k. parse_char true k t s) (kind_letter c b w) ∙ word-letter true t s e in
    let rest = scan-letters cs (t + 1) s1 all refl in
    subst (λ s'. Same s (scan true cs (t + 1) s')) (sym step)
      (record {
        mem = rest.mem;
        args = rest.args;
        i = rest.i;
        stin = rest.stin;
        stout = rest.stout;
      })

abbrev file_state : Bool → ParseState
file_state is_input = if is_input then parse_sin else parse_sout

-- The pointer to a file is set, and the words are left alone.
pub record Took (is_input : Bool) (v : ℕ) (s s' : Parse) : Type 0 where
  pub mem : (a : ℕ) → v ≤ a → s'.mem a ≡ s.mem a
  pub args : s'.args ≡ s.args
  pub i : s'.i ≡ s.i
  pub stin : s'.stin ≡ (if is_input then some v else s.stin)
  pub stout : s'.stout ≡ (if is_input then s.stout else some v)

letter-Took :
    (is_input : Bool) (v : ℕ) (s : Parse)
    → Took is_input v s (parse_letter_at true (file_state is_input) v s)
      × ((parse_letter_at true (file_state is_input) v s).state ≡ parse_letter)
unfolding parse_letter_at
letter-Took true v s =
    (record { mem = λ a l. refl; args = refl; i = refl; stin = refl; stout = refl }, refl)
letter-Took false v s =
    (record { mem = λ a l. refl; args = refl; i = refl; stin = refl; stout = refl }, refl)

scan-spaces :
    (is_input : Bool) (n c : ℕ) (file : List ℕ) (t v : ℕ) (s : Parse)
    → t + n ≡ v
    → s.state ≡ file_state is_input
    → IsWord (c ∷ file)
    → Took is_input v s (scan true (spaces n (c ∷ file)) t s)
unfolding scan parse_char
scan-spaces d zero c file t v s q e (b, w, all) =
    let s1 = parse_letter_at true (file_state d) t s in
    let step =
      ap (λ k. parse_char true k t s) (kind_letter c b w)
      ∙ ap (λ x. parse_letter_at true x t s) e in
    let here : t ≡ v = omega (arith, q) in
    let (took, in_word) = letter-Took d t s in
    let rest = scan-letters file (t + 1) s1 all in_word in
    subst (λ s'. Took d v s (scan true file (t + 1) s')) (sym step)
      (subst (λ x. Took d x s (scan true file (t + 1) s1)) here
        (record {
          mem = λ a l. ap (λ f. f a) rest.mem ∙ took.mem a l;
          args = rest.args ∙ took.args;
          i = rest.i ∙ took.i;
          stin = rest.stin ∙ took.stin;
          stout = rest.stout ∙ took.stout;
        }))
scan-spaces d (suc n) c file t v s q e w =
    let s0 = record s { mem = update s.mem t 0 } in
    let step = not_word-blank true t s (ap is_letter e ∙ no_letter d) in
    subst (λ s'. Took d v s (scan true (spaces n (c ∷ file)) (t + 1) s')) (sym step)
      (same_took (scan-spaces d n c file (t + 1) v s0 (omega (arith, q)) e w))
  where
    no_letter : (d : Bool) → is_letter (file_state d) ≡ false
    no_letter true = refl
    no_letter false = refl

    same_took : {s' : Parse} → Took d v (record s { mem = update s.mem t 0 }) s' → Took d v s s'
    same_took took = record {
      mem = λ a l. took.mem a l ∙ update-other s.mem t a 0 (ground (arith, q, l));
      args = took.args;
      i = took.i;
      stin = took.stin;
      stout = took.stout;
    }

-- The whole of a redirection: it ends the last word, and sets one pointer.
pub redirect-Took :
    (is_input : Bool) (n c : ℕ) (file : List ℕ) (m v : ℕ) (s : Parse)
    → m + 1 + n ≡ v
    → IsWord (c ∷ file)
    → let s' = scan true (redirect_char is_input ∷ spaces n (c ∷ file)) m s in
      Took is_input v s s' × (s'.mem m ≡ 0)
unfolding scan parse_char char_kind
redirect-Took true n c file m v s q w =
    let s0 = record s { state = parse_sin; mem = update s.mem m 0 } in
    let took = scan-spaces true n c file (m + 1) v s0 q refl w in
    (
      record {
        mem = λ a l. took.mem a l ∙ update-other s.mem m a 0 (ground (arith, q, l));
        args = took.args;
        i = took.i;
        stin = took.stin;
        stout = took.stout;
      },
      scan-mem true (spaces n (c ∷ file)) (m + 1) s0 m (omega arith)
          ∙ ap (λ b. if b then 0 else s.mem m) (==_refl m),
    )
redirect-Took false n c file m v s q w =
    let s0 = record s { state = parse_sout; mem = update s.mem m 0 } in
    let took = scan-spaces false n c file (m + 1) v s0 q refl w in
    (
      record {
        mem = λ a l. took.mem a l ∙ update-other s.mem m a 0 (ground (arith, q, l));
        args = took.args;
        i = took.i;
        stin = took.stin;
        stout = took.stout;
      },
      scan-mem true (spaces n (c ∷ file)) (m + 1) s0 m (omega arith)
          ∙ ap (λ b. if b then 0 else s.mem m) (==_refl m),
    )

pub Prefix-spaces :
    (mem : ℕ → ℕ) (n p v : ℕ) (cs : List ℕ) (u : ℕ)
    → p + n ≡ v
    → Prefix mem p (spaces n cs) u
    → Prefix mem v cs u
Prefix-spaces mem zero p v cs u q h =
    let e : p ≡ v = omega (arith, q) in subst (λ x. Prefix mem x cs u) e h
Prefix-spaces mem (suc n) p v cs u q (_, _, h) =
    Prefix-spaces mem n (p + 1) v cs u (omega (arith, q)) h
