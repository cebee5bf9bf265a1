-- ===== src/Usr/Jobs/Rounds.antt =====
-- usr/sh.c: the loop over a line, against the jobs that the line is divided into.
use avros.Base.{
  ℕ, zero, suc, ◌+◌, ◌≤◌, ◌<◌, ◌≡◌, refl, Bool, true, false, ◌||◌, Option, some, List, [], ◌∷◌,
  ◌++◌, append-nil, append_assoc, length, arith, ◌==◌, if_true, if_false, update, update-other,
  update-same, length-append, fun_ext, ap, sym, ◌∙◌, subst, ◌>>=◌, >>=_assoc,
}
use avros.Queue.{Ptr}
use avros.Usr.Words.Scan.{Prefix, Prefix-le, Prefix-agree, Prefix-end}
use avros.Usr.Shell.{Shell, read_string}
use avros.Usr.Text.{read_string-Prefix, Prefix-length, Prefix-move}
use avros.Usr.Jobs.{
  Sh, LineChar, backslash, comment, pipeline, background, sequence, other, line_char, move_left,
  job_init, job_pipe, job_nopipe, execute, end_job, line_round, line_loop, command_line,
}
use avros.Usr.Jobs.Divide.{with_char, is_backslash, is_comment, divide, ends_well, run_jobs}

move_left-in : (mem : ℕ → ℕ) (p n a : ℕ) → p ≤ a → a < p + n → move_left mem p n a ≡ mem (a + 1)
move_left-in mem p n a h l = ground (arith, h, l)

move_left-before : (mem : ℕ → ℕ) (p n a : ℕ) → a < p → move_left mem p n a ≡ mem a
move_left-before mem p n a l = ground (arith, l)

module _ {W : Type 0} (shell : Shell W) (interactive : Bool) (cmdline : Ptr) (size : ℕ) where
  -- What `sh` does behind the loop.
  abbrev last_job : Sh W → Option W
  last_job s = do
    text ← read_string size s.mem s.jobstart
    r ← execute shell interactive true text (job_nopipe shell s.nextin s.sys)
    some (job_init shell (shell.pmfree cmdline r.1))

  -- The loop does with the rest of a line, behind the beginning `w` of a job, what the division
  -- says.
  abbrev Divides : ℕ → Type 0
  Divides fuel =
      (cs w : List ℕ) (u : ℕ) (s : Sh W)
      → Prefix s.mem s.jobstart w s.p
      → Prefix s.mem s.p cs u
      → s.mem u ≡ 0
      → ends_well false cs ≡ true
      → length w + length cs < size
      → length cs < fuel
      → (line_loop shell fuel size interactive s >>= last_job)
        ≡ run_jobs shell interactive cmdline (w ++ (divide false cs).0) (divide false cs).1 s.nextin
            s.sys

  -- A round and what follows, for a character of the kind `k` in front of `cs`.
  abbrev RoundDivides : ℕ → LineChar → Type 0
  RoundDivides fuel k =
      (c : ℕ) (cs w : List ℕ) (u : ℕ) (s : Sh W)
      → Prefix s.mem s.jobstart w s.p
      → Prefix s.mem s.p (c ∷ cs) u
      → s.mem u ≡ 0
      → (is_comment k || ends_well (is_backslash k) cs) ≡ true
      → length w + suc (length cs) < size
      → length cs < fuel
      → (line_round shell size interactive k s >>= λ s1.
          line_loop shell fuel size interactive s1 >>= last_job)
        ≡ (let r = with_char k c (divide (is_backslash k) cs) in
            run_jobs shell interactive cmdline (w ++ r.0) r.1 s.nextin s.sys)

  -- The text behind the job that has been ended.
  rest-Divides :
      (fuel : ℕ)
      → Divides fuel
      → (cs : List ℕ) (u : ℕ) (s : Sh W) (nextin : ℕ) (sys : W) → Prefix s.mem (s.p + 1) cs u
      → s.mem u ≡ 0
      → ends_well false cs ≡ true
      → length cs < size
      → length cs < fuel
      → (line_loop shell fuel size interactive (record {
        mem = update s.mem s.p 0;
        p = s.p + 1;
        jobstart = s.p + 1;
        nextin = nextin;
        sys = sys;
      })
          >>= last_job)
        ≡ run_jobs shell interactive cmdline (divide false cs).0 (divide false cs).1 nextin sys
  rest-Divides fuel next cs u s nextin sys h z ok l f =
      next cs [] u _ refl
        (Prefix-agree s.mem _ (s.p + 1) cs u
          (λ a b _. update-other s.mem s.p a 0 (ground (arith, b))) h)
        (update-other s.mem s.p u 0 (ground (arith, Prefix-le s.mem (s.p + 1) cs u h)) ∙ z) ok
        (omega (arith, l)) f

  end_job-text :
      (direct : Bool) (w : List ℕ) (s : Sh W) (k : Sh W → Option W)
      → Prefix s.mem s.jobstart w s.p
      → length w < size
      → (end_job shell size interactive direct s >>= k) ≡ (
          execute shell interactive direct w s.sys >>= λ r.
          k (record s { mem = update s.mem s.p 0; p = s.p + 1; jobstart = s.p + 1; sys = r.1 }))
  unfolding end_job
  end_job-text direct w s k h l =
      ap
        (λ o.
          (o >>= λ text. execute shell interactive direct text s.sys >>= λ r.
          some (record s { mem = update s.mem s.p 0; p = s.p + 1; jobstart = s.p + 1; sys = r.1 }))
          >>= k)
        (read_string-Prefix size (update s.mem s.p 0) s.jobstart w s.p
          (Prefix-agree s.mem _ s.jobstart w s.p
            (λ a _ b. update-other s.mem s.p a 0 (ground (arith, b))) h)
          (update-same s.mem s.p 0) l)
      ∙ >>=_assoc (execute shell interactive direct w s.sys) _ k (λ r. refl)

  other-Divides : (fuel : ℕ) → Divides fuel → RoundDivides fuel other
  unfolding line_round
  other-Divides fuel next c cs w u s in_w (e, n, h) z ok l f =
      next cs (w ++ c ∷ []) u (record s { p = s.p + 1 })
        (Prefix-end s.mem s.jobstart w s.p c in_w e n) h z ok
        (omega (arith, l, length-append w (c ∷ []))) f
      ∙ ap (λ v. run_jobs shell interactive cmdline v (divide false cs).1 s.nextin s.sys)
          (append_assoc w (c ∷ []) (divide false cs).0)

  comment-Divides : (fuel : ℕ) → Divides fuel → RoundDivides fuel comment
  unfolding line_round divide ends_well
  comment-Divides fuel next c cs w u s in_w (e, n, h) z ok l f =
      next [] w s.p (record s { mem = update s.mem s.p 0 })
        (Prefix-agree s.mem _ s.jobstart w s.p
          (λ a _ b. update-other s.mem s.p a 0 (ground (arith, b))) in_w)
        refl (update-same s.mem s.p 0) refl (omega (arith, l)) (omega (arith, f))

  pipeline-Divides : (fuel : ℕ) → Divides fuel → RoundDivides fuel pipeline
  unfolding line_round run_jobs
  pipeline-Divides fuel next c cs w u s in_w (e, n, h) z ok l f =
      let (nextin, sys) = job_pipe shell s.nextin s.sys in
      end_job-text false w (record s { nextin = nextin; sys = sys }) _ in_w (omega (arith, l))
      ∙ ap (λ k. execute shell interactive false w sys >>= k)
          (fun_ext λ r. rest-Divides fuel next cs u s nextin r.1 h z ok (omega (arith, l)) f)
      ∙ ap
          (λ v. execute shell interactive false v sys >>= λ r.
            run_jobs shell interactive cmdline (divide false cs).0 (divide false cs).1 nextin r.1)
          (sym (append-nil w))

  -- `&` and `;`: the job gets no pipe, and the next one starts from the beginning.
  boundary-Divides :
      (fuel : ℕ)
      → Divides fuel
      → (direct : Bool) (cs w : List ℕ) (u : ℕ) (s : Sh W) → Prefix s.mem s.jobstart w s.p
      → Prefix s.mem (s.p + 1) cs u
      → s.mem u ≡ 0
      → ends_well false cs ≡ true
      → length w + suc (length cs) < size
      → length cs < fuel
      → ((end_job shell size interactive direct (record s { sys = job_nopipe shell s.nextin s.sys })
            >>= λ s1. some (record s1 { nextin = 3; sys = job_init shell s1.sys }))
          >>= λ s1. line_loop shell fuel size interactive s1 >>= last_job)
        ≡ (execute shell interactive direct (w ++ []) (job_nopipe shell s.nextin s.sys) >>= λ r.
            run_jobs shell interactive cmdline
              (divide false cs).0
              (divide false cs).1
              3
              (job_init shell r.1))
  boundary-Divides fuel next direct cs w u s in_w h z ok l f =
      let sys = job_nopipe shell s.nextin s.sys in
      let after : ℕ × W → Option W = λ r.
        run_jobs shell interactive cmdline (divide false cs).0 (divide false cs).1 3
          (job_init shell r.1) in
      >>=_assoc (end_job shell size interactive direct (record s { sys = sys })) _ _ (λ s1. refl)
      ∙ end_job-text direct w (record s { sys = sys }) _ in_w (omega (arith, l))
      ∙ ap (λ k. execute shell interactive direct w sys >>= k)
          (fun_ext
            λ r. rest-Divides fuel next cs u s 3 (job_init shell r.1) h z ok (omega (arith, l)) f)
      ∙ ap (λ v. execute shell interactive direct v sys >>= after) (sym (append-nil w))

  background-Divides : (fuel : ℕ) → Divides fuel → RoundDivides fuel background
  unfolding line_round run_jobs
  background-Divides fuel next c cs w u s in_w (e, n, h) z ok l f =
      boundary-Divides fuel next false cs w u s in_w h z ok l f

  sequence-Divides : (fuel : ℕ) → Divides fuel → RoundDivides fuel sequence
  unfolding line_round run_jobs
  sequence-Divides fuel next c cs w u s in_w (e, n, h) z ok l f =
      boundary-Divides fuel next true cs w u s in_w h z ok l f

  -- The character behind the backslash moves to its place and is passed over.
  backslash-Divides : (fuel : ℕ) → Divides fuel → RoundDivides fuel backslash
  unfolding line_round divide ends_well
  backslash-Divides fuel next c [] w u s in_w (e, n, h) z ok l f = cc
  backslash-Divides fuel next c (d ∷ ds) w u s in_w (e, n, (e', n', h)) z ok l f =
      let count = suc (suc (length ds)) in
      let mem = move_left s.mem s.p (count + 1) in
      let end : u ≡ s.p + 1 + length ds + 1 =
        omega (arith, Prefix-length s.mem (s.p + 1 + 1) ds u h) in
      ap
        (λ o.
          (o >>= λ rest.
          some (record s { mem = move_left s.mem s.p (length rest + 1); p = s.p + 1 }))
          >>= λ s1. line_loop shell fuel size interactive s1 >>= last_job)
        (read_string-Prefix size s.mem s.p (c ∷ d ∷ ds) u (e, n, (e', n', h)) z (omega (arith, l)))
      ∙ next ds (w ++ d ∷ []) (s.p + 1 + length ds) (record s { mem = mem; p = s.p + 1 })
          (Prefix-end mem s.jobstart w s.p d
            (Prefix-agree s.mem mem s.jobstart w s.p (λ a _ b. move_left-before s.mem s.p _ a b)
              in_w)
            (move_left-in s.mem s.p _ s.p (omega arith) (omega arith) ∙ e') n')
          (Prefix-move s.mem mem (s.p + 1) ds _
            (λ a b b'. move_left-in s.mem s.p _ a (omega (arith, b)) (omega (arith, b')))
            (subst (Prefix s.mem (s.p + 1 + 1) ds) end h))
          (move_left-in s.mem s.p _ _ (omega arith) (omega arith) ∙ ap s.mem (sym end) ∙ z) ok
          (omega (arith, l, length-append w (d ∷ []))) (omega (arith, f))
      ∙ ap (λ v. run_jobs shell interactive cmdline v (divide false ds).1 s.nextin s.sys)
          (append_assoc w (d ∷ []) (divide false ds).0)

  round-Divides : (fuel : ℕ) → Divides fuel → (k : LineChar) → RoundDivides fuel k
  round-Divides fuel next backslash = backslash-Divides fuel next
  round-Divides fuel next comment = comment-Divides fuel next
  round-Divides fuel next pipeline = pipeline-Divides fuel next
  round-Divides fuel next background = background-Divides fuel next
  round-Divides fuel next sequence = sequence-Divides fuel next
  round-Divides fuel next other = other-Divides fuel next

  line_loop-Divides : (fuel : ℕ) → Divides fuel
  unfolding line_loop divide ends_well run_jobs
  line_loop-Divides zero cs w u s in_w h z ok l f = absurd (omega (arith, f))
  line_loop-Divides (suc fuel) [] w u s in_w h z ok l f =
      ap (λ o. o >>= last_job) (if_true (s.mem s.p == 0) _ _ (ap (λ d. d == 0) (ap s.mem h ∙ z)))
      ∙ ap
          (λ o. o >>= λ text.
            execute shell interactive true text (job_nopipe shell s.nextin s.sys) >>= λ r.
            some (job_init shell (shell.pmfree cmdline r.1)))
          (read_string-Prefix size s.mem s.jobstart w s.p in_w (ap s.mem h ∙ z) (omega (arith, l))
            ∙ ap some (sym (append-nil w)))
  line_loop-Divides (suc fuel) (c ∷ cs) w u s in_w (e, n, h) z ok l f =
      ap (λ o. o >>= last_job)
        (if_false (s.mem s.p == 0) _ _ (ap (λ d. d == 0) e ∙ n)
          ∙ ap
              (λ d.
                line_round shell size interactive (line_char d) s
                >>= line_loop shell fuel size interactive)
              e)
      ∙ >>=_assoc (line_round shell size interactive (line_char c) s) _ last_job (λ s1. refl)
      ∙ round-Divides fuel (line_loop-Divides fuel) (line_char c) c cs w u s in_w (e, n, h) z ok l
          (omega (arith, f))

  -- A line of characters that are not 0, which ends in one, fits into the block and does not end
  -- behind a backslash, is executed job by job: with the texts that the division by `|`, `&` and
  -- `;` gives, of which a backslash is not a part and at which `#` ends the line, and in front of
  -- each job the changes of the descriptors that the separator behind it calls for. As much fuel
  -- as the line has characters and one more is enough.
  pub command_line-divide :
      (fuel line u nextin : ℕ) (mem : ℕ → ℕ) (cs : List ℕ) (w : W)
      → Prefix mem line cs u
      → mem u ≡ 0
      → ends_well false cs ≡ true
      → length cs < size
      → length cs < fuel
      → command_line shell fuel size interactive cmdline line mem nextin w
        ≡ run_jobs shell interactive cmdline (divide false cs).0 (divide false cs).1 nextin w
  unfolding command_line
  command_line-divide fuel line u nextin mem cs w h z ok l f =
      line_loop-Divides fuel cs [] u
        (record { mem = mem; p = line; jobstart = line; nextin = nextin; sys = w }) refl h z ok
        (omega (arith, l)) f
