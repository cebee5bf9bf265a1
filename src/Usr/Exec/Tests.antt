-- ===== src/Usr/Exec/Tests.antt =====
-- The text of a job, and the theorems about it.
use avros.Base.{ℕ, ◌≡◌, refl, true, false, Option, none, some, List, [], ◌∷◌, ◌++◌, arith}
use avros.Usr.Line.{string_at}
use avros.Usr.Words.{Parse, parse_args, cleared}
use avros.Usr.Words.Parts.{words, parts, Names, AreWords}
use avros.Usr.Words.Redirect.{Redirect, redirect, Redirects, IsRedirect}
use avros.Usr.Words.Command.{parse_args-words}
use avros.Usr.Shell.{Shell}
use avros.Usr.Text.{NotEnd}
use avros.Usr.Exec.{replaced, exec_job}
use avros.Usr.Exec.Job.{job_result, exec_job-job_result}

-- cat -n < in
abbrev front : List ℕ
front = 99 ∷ 97 ∷ 116 ∷ 32 ∷ 45 ∷ 110 ∷ 32 ∷ []

abbrev input : Redirect
input = redirect true 1 105 (110 ∷ [])

abbrev text : List ℕ
text = front ++ 60 ∷ 32 ∷ 105 ∷ 110 ∷ []

abbrev nowhere : ℕ → Option ℕ
nowhere i = none

front_words : AreWords front
front_words = (refl, (refl, (refl, (refl, (refl, (refl, (refl, tt)))))))

input_name : IsRedirect input
input_name = (refl, refl, (refl, refl, tt))

text_chars : NotEnd text
text_chars =
    (refl, (refl, (refl, (refl, (refl, (refl, (refl, (refl, (refl, (refl, (refl, tt)))))))))))

parse_args-words_example :
    (r : Parse) × (parse_args true 12 0 (string_at 0 text (λ a. 0)) nowhere none none ≡ some r)
    × Names r.mem (cleared nowhere) r.args 0 ((99 ∷ 97 ∷ 116 ∷ []) ∷ (45 ∷ 110 ∷ []) ∷ [])
    × Redirects input r none none
unfolding string_at words parts
parse_args-words_example =
    parse_args-words input front 12 0 11 (string_at 0 text (λ a. 0)) nowhere none none
      (
        refl,
        refl,
        (
          refl,
          refl,
          (
            refl,
            refl,
            (
              refl,
              refl,
              (
                refl,
                refl,
                (
                  refl,
                  refl,
                  (refl, refl, (refl, refl, (refl, refl, (refl, refl, (refl, refl, refl))))),
                ),
              ),
            ),
          ),
        ),
      )
      refl front_words input_name (omega arith) (omega arith)

-- What the process has done, in its order.
data Did : Type 0 where
  closed : (fd : ℕ) → Did
  opened : (name : List ℕ) → Did
  executed : (first : List ℕ) (args : List (List ℕ)) → Did

abbrev test_shell : Shell (List Did)
test_shell = record {
  sizeof_ptr = 2;
  null_is = λ name. false;
  close = λ fd w. closed fd ∷ w;
  dup = λ fd w. (0, w);
  pipe = λ w. ((5, 6), w);
  open_name = λ name w. (some 0, opened name ∷ w);
  execv = λ first args w. (false, executed first args ∷ w);
  pmmalloc = λ n w. (40, w);
  pmfree = λ p w. w;
  spawntask = λ direct w. (7, w);
  send = λ pid sent w. w;
  receive = λ w. (text, w);
  wait = λ w. (0, w);
  prompt = λ w. w;
  print_code = λ code w. w;
  print_cd = λ dir w. w;
  noargs = λ name w. w;
  unknown = λ name w. w;
}

exec_job-job_result_example :
    exec_job test_shell []
    ≡ some (
      replaced,
      executed (99 ∷ 97 ∷ 116 ∷ []) ((99 ∷ 97 ∷ 116 ∷ []) ∷ (45 ∷ 110 ∷ []) ∷ [])
          ∷ opened (105 ∷ 110 ∷ [])
          ∷ closed 0
          ∷ closed 7
          ∷ closed 6
          ∷ closed 5
          ∷ closed 4
          ∷ closed 3
          ∷ [],
    )
unfolding words parts job_result
exec_job-job_result_example =
    exec_job-job_result test_shell input front 40 40 [] [] _ _ refl refl refl refl refl text_chars
      (omega arith) front_words input_name (omega arith)
