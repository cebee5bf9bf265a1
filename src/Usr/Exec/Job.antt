-- ===== src/Usr/Exec/Job.antt =====
-- usr/sh.c: what `exec_job` does for a job of words and a redirection.
use avros.Base.{
  ℕ, zero, suc, ◌+◌, ◌*◌, ◌≤◌, ◌<◌, ◌≡◌, refl, true, false, Option, none, some, List, [], ◌∷◌, ◌++◌,
  length, length-append, arith, ◌==◌, ltb, if◌then◌else◌, not, ap, Bool, Option-cases, inl, inr,
  if_elim, ◌∙◌, subst,
}
use avros.Queue.{Ptr, null}
use avros.Usr.Line.{string_at}
use avros.Usr.Words.{Parse, max_args, cleared, is_blank}
use avros.Usr.Words.Scan.{Prefix}
use avros.Usr.Words.Parts.{words, parts, with_word, IsString, Names, AreWords}
use avros.Usr.Words.Command.{parse_args-words}
use avros.Usr.Words.Redirect.{
  Redirect, nothing, redirect, redirect_text, IsRedirect, Redirects, spaces,
}
use avros.Usr.Shell.{Shell, max_joblen, read_string, parse_text}
use avros.Usr.Text.{NotEnd, read_string-Prefix, string_at-Prefix, string_at-end}
use avros.Usr.Exec.{
  Ended, returned, replaced, arg_strings, file_string, close_from, run_job, exec_job,
}

-- The words are shorter than a block.
Fits : ℕ → List (List ℕ) → Type 0
Fits n [] = Unit {0}
Fits n (w ∷ ws) = (length w < n) × Fits n ws

with_word-Fits :
    (n : ℕ) (w : List ℕ) (ws : List (List ℕ)) → length w < n → Fits n ws → Fits n (with_word w ws)
unfolding Fits
with_word-Fits n [] ws l h = h
with_word-Fits n (c ∷ w) ws l h = (l, h)

parts-Fits :
    (n : ℕ) (cs : List ℕ) → length cs < n → (length (parts cs).0 ≤ length cs) × Fits n (parts cs).1
unfolding parts Fits
parts-Fits n [] l = (omega arith, record {})
parts-Fits n (c ∷ cs) l =
    let (f, fs) = parts-Fits n cs (omega (arith, l)) in
    if_elim (λ (r : List ℕ × List (List ℕ)). (length r.0 ≤ suc (length cs)) × Fits n r.1)
      (is_blank c) _ _ (λ _. (omega arith, with_word-Fits n _ _ (omega (arith, l, f)) fs))
      λ _. (omega (arith, f), fs)

words-Fits : (n : ℕ) (cs : List ℕ) → length cs < n → Fits n (words cs)
unfolding words
words-Fits n cs l = let (f, g) = parts-Fits n cs l in with_word-Fits n _ _ (omega (arith, l, f)) g

string-read :
    (n : ℕ) (mem : ℕ → ℕ) (p : ℕ) (cs : List ℕ)
    → IsString mem p cs
    → length cs < n
    → read_string n mem p ≡ some cs
string-read n mem p cs (t, h, z) l = read_string-Prefix n mem p cs t h z l

arg_strings-Names :
    (ws : List (List ℕ)) (fuel i : ℕ) (s : Parse) (before : ℕ → Option ℕ)
    → Names s.mem before s.args i ws
    → ((k : ℕ) → before k ≡ none)
    → Fits max_joblen ws
    → length ws < fuel
    → arg_strings fuel s i ≡ some ws
unfolding arg_strings Fits
arg_strings-Names ws zero i s before h b f l = absurd (omega (arith, l))
arg_strings-Names [] (suc fuel) i s before h b f l =
    let e : s.args i ≡ none = h i (omega arith) ∙ b i in rw (e, arg_strings) refl
arg_strings-Names (w ∷ ws) (suc fuel) i s before ((p, e, text), h) b (f, fs) l =
    let rest = arg_strings-Names ws fuel (suc i) s before h b fs (omega (arith, l)) in
    rw (e, arg_strings) (rw (string-read max_joblen s.mem p w text f) (rw rest refl))

-- The files of the redirection.
abbrev pub input_file : Redirect → Option (List ℕ)
input_file (redirect true n c file) = some (c ∷ file)
input_file _ = none

abbrev pub output_file : Redirect → Option (List ℕ)
output_file (redirect false n c file) = some (c ∷ file)
output_file _ = none

length-spaces : (n : ℕ) (cs : List ℕ) → length (spaces n cs) ≡ n + length cs
length-spaces zero cs = omega arith
length-spaces (suc n) cs = omega (arith, length-spaces n cs)

in_text : (n : ℕ) (cs : List ℕ) → suc (length (spaces n cs)) < max_joblen → length cs < max_joblen
in_text n cs l = omega (arith, l, length-spaces n cs)

redirect-Fits :
    (rd : Redirect) (s : Parse)
    → Redirects rd s none none
    → length (redirect_text rd) < max_joblen
    → (file_string s.mem s.stin ≡ some (input_file rd))
      × (file_string s.mem s.stout ≡ some (output_file rd))
unfolding file_string
redirect-Fits nothing s (e, f) l = (rw (e, file_string) refl, rw (f, file_string) refl)
redirect-Fits (redirect true n c file) s ((p, e, text), f) l = (
  rw (e, file_string)
      (rw (string-read max_joblen s.mem p (c ∷ file) text (in_text n (c ∷ file) l)) refl),
  rw (f, file_string) refl,
)
redirect-Fits (redirect false n c file) s ((p, e, text), f) l = (
  rw (f, file_string) refl,
  rw (e, file_string)
      (rw (string-read max_joblen s.mem p (c ∷ file) text (in_text n (c ∷ file) l)) refl),
)

module _ {W : Type 0} (shell : Shell W) where
  -- The standard descriptor `fd` is closed, so that the file that is opened then comes in its place;
  -- whether it can be opened.
  unfoldable pub in_place_of : ℕ → List ℕ → W → Bool × W
  in_place_of fd file w = elim (shell.open_name file (shell.close fd w)).0 [
    | none ↦ (false, shell.unknown file (shell.open_name file (shell.close fd w)).1)
    | some _ ↦ (true, (shell.open_name file (shell.close fd w)).1)
  ]

  unfoldable pub redirected : Redirect → W → Bool × W
  unfolding in_place_of
  redirected nothing w = (true, w)
  redirected (redirect true n c file) w = in_place_of 0 (c ∷ file) w
  redirected (redirect false n c file) w = in_place_of 1 (c ∷ file) w

  -- What a job of these words and this redirection comes to.
  unfoldable pub job_result : (W → W) → Redirect → List (List ℕ) → W → Ended × W
  unfolding redirected
  job_result freed rd [] w = (returned 0, freed w)
  job_result freed rd (first ∷ rest) w =
      let (ok, w1) = redirected rd w in
      let (failed, w2) = shell.execv first (first ∷ rest) w1 in
      if not ok
      then (returned 65535, freed w1)
      else if failed
      then (returned 65535, freed (shell.unknown first w2))
      else (replaced, w2)

  run_job-job_result :
      (freed : W → W) (rd : Redirect) (ws : List (List ℕ)) (w : W)
      → run_job shell freed (input_file rd) (output_file rd) ws w ≡ job_result freed rd ws w
  unfolding run_job job_result redirected in_place_of
  run_job-job_result freed rd [] w = refl
  run_job-job_result freed nothing (first ∷ rest) w = refl
  run_job-job_result freed (redirect true n c file) (first ∷ rest) w =
      elim (Option-cases (shell.open_name (c ∷ file) (shell.close 0 w)).0) [
        | inl e ↦ rw (e, redirected, in_place_of) refl
        | inr (d, e) ↦ rw (e, redirected, in_place_of) refl
      ]
  run_job-job_result freed (redirect false n c file) (first ∷ rest) w =
      elim (Option-cases (shell.open_name (c ∷ file) (shell.close 1 w)).0) [
        | inl e ↦ rw (e, redirected, in_place_of) refl
        | inr (d, e) ↦ rw (e, redirected, in_place_of) refl
      ]

  -- When there is memory, a job of at most MAX_ARGS words and at most one redirection behind them,
  -- which is shorter than the block, closes the descriptors 3 to 7 before it takes its text. Then,
  -- if it has a word, it closes descriptor 0 for `<` or 1 for `>` and opens the file of the
  -- redirection, and executes the program that the first word names with all the words. If the file
  -- cannot be opened, or the program not be executed, it says so and returns -1 with its blocks
  -- freed; without a word it frees them and returns 0.
  pub exec_job-job_result :
      (rd : Redirect) (front : List ℕ) (args cmd : Ptr) (w w1 w2 w3 : W)
      → shell.pmmalloc (shell.sizeof_ptr * (max_args + 1)) w ≡ (args, w1)
      → (args == null) ≡ false
      → shell.pmmalloc max_joblen
          (shell.close 7 (shell.close 6 (shell.close 5 (shell.close 4 (shell.close 3 w1)))))
        ≡ (cmd, w2)
      → (cmd == null) ≡ false
      → shell.receive w2 ≡ (front ++ redirect_text rd, w3)
      → NotEnd (front ++ redirect_text rd)
      → length (front ++ redirect_text rd) < max_joblen
      → AreWords front
      → IsRedirect rd
      → length (words front) ≤ max_args
      → exec_job shell w
        ≡ some (job_result (λ v. shell.pmfree args (shell.pmfree cmd v)) rd (words front) w3)
  unfolding exec_job parse_text close_from
  exec_job-job_result rd front args cmd w w1 w2 w3 a na c nc r chars l all ok few =
      let text = front ++ redirect_text rd in
      let mem = string_at 0 text (λ a. 0) in
      let (s, e, names, files) =
        parse_args-words rd front (suc (length text)) 0 (length text) mem (λ i. none) none none
          (subst (Prefix mem 0 text) (omega arith) (string_at-Prefix 0 text (λ a. 0) chars))
          (string_at-end 0 text (λ a. 0) (length text) (omega arith)) all ok (omega arith) few in
      let front_length = length-append front (redirect_text rd) in
      let program =
        arg_strings-Names (words front) (max_args + 1) 0 s (cleared (λ i. none)) names
          (λ k. if_elim (λ o. o ≡ none) (ltb k (max_args + 1)) _ _ (λ _. refl) (λ _. refl))
          (words-Fits max_joblen front (omega (arith, l, front_length))) (omega (arith, few)) in
      let short : ltb (length text) max_joblen ≡ true = ground (arith, l) in
      let (stin, stout) = redirect-Fits rd s files (omega (arith, l, front_length)) in
      rw a (
        rw c (
          rw r (
            rw e (
              rw program (
                rw stin (
                  rw stout (
                    rw na
                      (rw nc (rw short (ap some (run_job-job_result _ rd (words front) w3)))))))))))
