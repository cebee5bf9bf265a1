-- ===== src/Usr/Jobs/Tests.antt =====
-- A shell that keeps the calls that it makes, and the theorems about lines at it.
use avros.Base.{ℕ, ◌≡◌, refl, Bool, true, false, some, List, [], ◌∷◌, arith}
use avros.Usr.Line.{string_at}
use avros.Usr.Shell.{Shell}
use avros.Usr.Jobs.{command_line, sh_round, line_char}
use avros.Usr.Jobs.Divide.{divide, ends_well, run_jobs, to_pipe, in_sequence}
use avros.Usr.Jobs.Rounds.{command_line-divide}
use avros.Usr.Jobs.Typed.{sh_round-run_jobs}

data Did : Type 0 where
  closed copied : (fd : ℕ) → Did
  piped : Did
  started : (direct : Bool) → Did
  told : (text : List ℕ) → Did

abbrev test_shell : Shell (List Did)
test_shell = record {
  sizeof_ptr = 2;
  null_is = λ name. false;
  close = λ fd w. closed fd ∷ w;
  dup = λ fd w. (0, copied fd ∷ w);
  pipe = λ w. ((5, 6), piped ∷ w);
  open_name = λ name w. (some 0, w);
  execv = λ first args w. (false, w);
  pmmalloc = λ n w. (40, w);
  pmfree = λ p w. w;
  spawntask = λ direct w. (7, started direct ∷ w);
  send = λ pid text w. told text ∷ w;
  receive = λ w. ([], w);
  wait = λ w. (0, w);
  prompt = λ w. w;
  print_code = λ code w. w;
  print_cd = λ dir w. w;
  noargs = λ name w. w;
  unknown = λ name w. w;
}

abbrev zeros : ℕ → ℕ
zeros i = 0

-- a|b;c
abbrev three_jobs : List ℕ
three_jobs = 97 ∷ 124 ∷ 98 ∷ 59 ∷ 99 ∷ []

command_line-divide_example :
    command_line test_shell 6 128 true 40 0 (string_at 0 three_jobs zeros) 3 []
    ≡ run_jobs test_shell true 40 (97 ∷ []) ((to_pipe, 98 ∷ []) ∷ (in_sequence, 99 ∷ []) ∷ []) 3 []
unfolding divide line_char ends_well string_at
command_line-divide_example =
    command_line-divide test_shell true 40 128 6 0 5 3 (string_at 0 three_jobs zeros) three_jobs []
      (refl, refl, (refl, refl, (refl, refl, (refl, refl, (refl, refl, refl))))) refl refl
      (omega arith) (omega arith)

sh_round-run_jobs_example :
    sh_round test_shell 4 true (97 ∷ 124 ∷ 98 ∷ 10 ∷ []) zeros []
    ≡ run_jobs test_shell true 40 (97 ∷ []) ((to_pipe, 98 ∷ []) ∷ []) 3 []
unfolding divide line_char ends_well
sh_round-run_jobs_example =
    sh_round-run_jobs test_shell true 4 (97 ∷ 124 ∷ 98 ∷ []) 10 [] zeros []
      (refl, (refl, (refl, tt))) (refl, (refl, (refl, tt))) refl (omega arith) refl (omega arith)
