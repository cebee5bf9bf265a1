-- ===== src/Usr/Words/Scan.antt =====
-- usr/sh.c: the loop of `parse_args` over the characters of a text.
use avros.Base.{
  ℕ, zero, suc, ◌+◌, ◌≤◌, ◌<◌, ◌≡◌, refl, Bool, false, ◌&&◌, none, some, is_some, List, [], ◌∷◌,
  ◌++◌, length, arith, ◌==◌, if◌then◌else◌, if_true, if_false, if_elim, update-other, ap, ◌∙◌,
  subst,
}
use avros.Usr.Words.{
  Parse, ParseState, parse_none, parse_letter, parse_sin, parse_sout, CharKind, less, greater,
  blank, line_end, letter, char_kind, is_letter, parse_letter_at, parse_char, parse_loop, outside,
  max_args,
}

-- The characters of the text stand from `p` up to `t`, and none is the end of a string.
abbrev pub Prefix : (ℕ → ℕ) → ℕ → List ℕ → ℕ → Type 0
Prefix mem p [] t = p ≡ t
Prefix mem p (c ∷ cs) t = (mem p ≡ c) × ((c == 0) ≡ false) × Prefix mem (p + 1) cs t

pub Prefix-le : (mem : ℕ → ℕ) (p : ℕ) (cs : List ℕ) (t : ℕ) → Prefix mem p cs t → p ≤ t
Prefix-le mem p [] t h = omega (arith, h)
Prefix-le mem p (c ∷ cs) t (_, _, h) = omega (arith, Prefix-le mem (p + 1) cs t h)

-- A memory that is the same at these places.
pub Prefix-agree :
    (mem mem' : ℕ → ℕ) (p : ℕ) (cs : List ℕ) (t : ℕ)
    → ((a : ℕ) → p ≤ a → a < t → mem' a ≡ mem a)
    → Prefix mem p cs t
    → Prefix mem' p cs t
Prefix-agree mem mem' p [] t same h = h
Prefix-agree mem mem' p (c ∷ cs) t same (e, n, h) = (
  same p (omega arith) (omega (arith, Prefix-le mem (p + 1) cs t h)) ∙ e,
  n,
  Prefix-agree mem mem' (p + 1) cs t (λ a l. same a (omega (arith, l))) h,
)

pub Prefix-end :
    (mem : ℕ → ℕ) (p : ℕ) (cs : List ℕ) (t c : ℕ)
    → Prefix mem p cs t
    → mem t ≡ c
    → (c == 0) ≡ false
    → Prefix mem p (cs ++ c ∷ []) (t + 1)
Prefix-end mem p [] t c h e n = (ap mem h ∙ e, n, omega (arith, h))
Prefix-end mem p (d ∷ cs) t c (f, m, h) e n = (f, m, Prefix-end mem (p + 1) cs t c h e n)

-- The rounds of the loop for a text, from a place on.
unfoldable pub scan : Bool → List ℕ → ℕ → Parse → Parse
unfolding parse_char char_kind
scan redirects [] t s = s
scan redirects (c ∷ cs) t s = scan redirects cs (t + 1) (parse_char redirects (char_kind c) t s)

pub scan-append :
    (redirects : Bool) (cs ds : List ℕ) (t u : ℕ) (s : Parse)
    → t + length cs ≡ u
    → scan redirects (cs ++ ds) t s ≡ scan redirects ds u (scan redirects cs t s)
unfolding scan
scan-append r [] ds t u s e = let e' : t ≡ u = omega (arith, e) in ap (λ v. scan r ds v s) e'
scan-append r (c ∷ cs) ds t u s e = scan-append r cs ds (t + 1) u _ (omega (arith, e))

-- A round writes to the buffer at its place at most, and does not touch the words before.
pub parse_char-mem :
    (redirects : Bool) (k : CharKind) (t : ℕ) (s : Parse) (a : ℕ)
    → (t == a) ≡ false
    → (parse_char redirects k t s).mem a ≡ s.mem a
unfolding parse_char parse_letter_at
parse_char-mem r less t s a e = update-other s.mem t a 0 e
parse_char-mem r greater t s a e = update-other s.mem t a 0 e
parse_char-mem r blank t s a e =
    if_elim (λ (s' : Parse). s'.mem a ≡ s.mem a) (is_some (s.args s.i) && is_letter s.state) _ _
      (λ _. update-other s.mem t a 0 e) λ _. update-other s.mem t a 0 e
parse_char-mem r line_end t s a e = update-other s.mem t a 0 e
parse_char-mem r letter t s a e = letter_mem s.state
  where
    letter_mem : (x : ParseState) → (parse_letter_at r x t s).mem a ≡ s.mem a
    letter_mem parse_none = refl
    letter_mem parse_letter = refl
    letter_mem parse_sin = refl
    letter_mem parse_sout = refl

abbrev pub Keeps : Parse → Parse → ℕ → Type 0
Keeps s s' j = (j < s.i) → (j < s'.i) × (s'.args j ≡ s.args j)

parse_char-args :
    (redirects : Bool) (k : CharKind) (t : ℕ) (s : Parse) (j : ℕ)
    → Keeps s (parse_char redirects k t s) j
unfolding parse_char parse_letter_at
parse_char-args r less t s j h = (h, refl)
parse_char-args r greater t s j h = (h, refl)
parse_char-args r blank t s j h =
    if_elim (λ (s' : Parse). (j < s'.i) × (s'.args j ≡ s.args j))
      (is_some (s.args s.i) && is_letter s.state) _ _ (λ _. (omega (arith, h), refl)) λ _. (h, refl)
parse_char-args r line_end t s j h = (h, refl)
parse_char-args r letter t s j h = letter_args s.state
  where
    letter_args :
        (x : ParseState)
        → (j < (parse_letter_at r x t s).i) × ((parse_letter_at r x t s).args j ≡ s.args j)
    letter_args parse_none = (h, update-other s.args s.i j (some t) (ground (arith, h)))
    letter_args parse_letter = (h, refl)
    letter_args parse_sin = (h, refl)
    letter_args parse_sout = (h, refl)

pub scan-mem :
    (redirects : Bool) (cs : List ℕ) (t : ℕ) (s : Parse) (a : ℕ)
    → a < t
    → (scan redirects cs t s).mem a ≡ s.mem a
unfolding scan
scan-mem r [] t s a h = refl
scan-mem r (c ∷ cs) t s a h =
    scan-mem r cs (t + 1) _ a (omega (arith, h))
    ∙ parse_char-mem r (char_kind c) t s a (ground (arith, h))

pub scan-args :
    (redirects : Bool) (cs : List ℕ) (t : ℕ) (s : Parse) (j : ℕ)
    → j < s.i
    → (scan redirects cs t s).args j ≡ s.args j
unfolding scan
scan-args r [] t s j h = refl
scan-args r (c ∷ cs) t s j h =
    let (h', e) = parse_char-args r (char_kind c) t s j h in scan-args r cs (t + 1) _ j h' ∙ e

parse_char-i :
    (redirects : Bool) (k : CharKind) (t : ℕ) (s : Parse) → s.i ≤ (parse_char redirects k t s).i
unfolding parse_char parse_letter_at
parse_char-i r less t s = omega arith
parse_char-i r greater t s = omega arith
parse_char-i r blank t s =
    if_elim (λ (s' : Parse). s.i ≤ s'.i) (is_some (s.args s.i) && is_letter s.state) _ _
      (λ _. omega arith) λ _. omega arith
parse_char-i r line_end t s = omega arith
parse_char-i r letter t s = letter_i s.state
  where
    letter_i : (x : ParseState) → s.i ≤ (parse_letter_at r x t s).i
    letter_i parse_none = omega arith
    letter_i parse_letter = omega arith
    letter_i parse_sin = omega arith
    letter_i parse_sout = omega arith

pub scan-i : (redirects : Bool) (cs : List ℕ) (t : ℕ) (s : Parse) → s.i ≤ (scan redirects cs t s).i
unfolding scan
scan-i r [] t s = omega arith
scan-i r (c ∷ cs) t s =
    omega (
      arith,
      parse_char-i r (char_kind c) t s,
      scan-i r cs (t + 1) (parse_char r (char_kind c) t s),
    )

-- A round does not go outside while the index is one of the table.
not_outside : (k : CharKind) (s : Parse) → s.i ≤ max_args → outside k s ≡ false
unfolding outside
not_outside less s l = refl
not_outside greater s l = refl
not_outside blank s l = ground (arith, l)
not_outside line_end s l = refl
not_outside letter s l = ground (arith, l)

-- With as much fuel as the text has characters and one more, the loop ends at the end of the text,
-- if the index stays in the table.
pub parse_loop-scan :
    (redirects : Bool) (cs : List ℕ) (fuel t u : ℕ) (s : Parse)
    → Prefix s.mem t cs u
    → s.mem u ≡ 0
    → length cs < fuel
    → (scan redirects cs t s).i ≤ max_args
    → parse_loop redirects fuel t s ≡ some (scan redirects cs t s)
unfolding parse_loop scan
parse_loop-scan r cs zero t u s h z l b = absurd (omega (arith, l))
parse_loop-scan r [] (suc fuel) t u s h z l b =
    if_true (s.mem t == 0) _ _ (ap (λ c. c == 0) (ap s.mem h ∙ z))
parse_loop-scan r (c ∷ cs) (suc fuel) t u s (e, n, h) z l b =
    let next = parse_char r (char_kind c) t s in
    let after = Prefix-le s.mem (t + 1) cs u h in
    let small : s.i ≤ max_args =
      omega (arith, b, parse_char-i r (char_kind c) t s, scan-i r cs (t + 1) next) in
    if_false (s.mem t == 0) _ _ (ap (λ d. d == 0) e ∙ n)
    ∙ ap
        (λ d.
          if outside (char_kind d) s
          then none
          else parse_loop r fuel (t + 1) (parse_char r (char_kind d) t s))
        e
    ∙ if_false (outside (char_kind c) s) _ _ (not_outside (char_kind c) s small)
    ∙ parse_loop-scan r cs fuel (t + 1) u next
        (Prefix-agree s.mem next.mem (t + 1) cs u
          (λ a l _. parse_char-mem r (char_kind c) t s a (ground (arith, l))) h)
        (parse_char-mem r (char_kind c) t s u (ground (arith, after)) ∙ z) (omega (arith, l)) b

pub scan-mem_after :
    (redirects : Bool) (cs : List ℕ) (t : ℕ) (s : Parse) (a : ℕ)
    → t + length cs ≤ a
    → (scan redirects cs t s).mem a ≡ s.mem a
unfolding scan
scan-mem_after r [] t s a h = refl
scan-mem_after r (c ∷ cs) t s a h =
    scan-mem_after r cs (t + 1) _ a (omega (arith, h))
    ∙ parse_char-mem r (char_kind c) t s a (ground (arith, h))

-- A text in two parts.
pub Prefix-append :
    (mem : ℕ → ℕ) (p : ℕ) (cs ds : List ℕ) (t : ℕ)
    → Prefix mem p (cs ++ ds) t
    → Prefix mem p cs (p + length cs) × Prefix mem (p + length cs) ds t
Prefix-append mem p [] ds t h =
    let e : p ≡ p + 0 = omega arith in (e, subst (λ q. Prefix mem q ds t) e h)
Prefix-append mem p (c ∷ cs) ds t (e, n, h) =
    let (f, g) = Prefix-append mem (p + 1) cs ds t h in
    let q : (p + 1) + length cs ≡ p + suc (length cs) = omega arith in
    ((e, n, subst (Prefix mem (p + 1) cs) q f), subst (λ v. Prefix mem v ds t) q g)
