-- ===== src/Usr/Jobs/Divide.antt =====
-- usr/sh.c: the jobs of a line, with what stands between them.
use avros.Base.{ℕ, Bool, true, false, ◌||◌, not, Option, some, List, [], ◌∷◌, ◌>>=◌}
use avros.Queue.{Ptr}
use avros.Usr.Shell.{Shell}
use avros.Usr.Jobs.{
  LineChar, backslash, comment, pipeline, background, sequence, other, line_char, job_init,
  job_pipe, job_nopipe, execute,
}

-- What stands between two jobs.
pub data Sep : Type 0 where
  to_pipe in_background in_sequence : Sep

-- The text of the first job, and the jobs after it.
abbrev pub Jobs : Type 0
Jobs = List ℕ × List (Sep × List ℕ)

abbrev pub with_char : LineChar → ℕ → Jobs → Jobs
with_char backslash c rest = rest
with_char comment c rest = ([], [])
with_char pipeline c rest = ([], (to_pipe, rest.0) ∷ rest.1)
with_char background c rest = ([], (in_background, rest.0) ∷ rest.1)
with_char sequence c rest = ([], (in_sequence, rest.0) ∷ rest.1)
with_char other c rest = (c ∷ rest.0, rest.1)

abbrev pub is_backslash : LineChar → Bool
is_backslash backslash = true
is_backslash _ = false

abbrev pub is_comment : LineChar → Bool
is_comment comment = true
is_comment _ = false

-- The character behind a backslash stands for itself.
unfoldable pub divide : Bool → List ℕ → Jobs
unfolding line_char
divide escaped [] = ([], [])
divide true (c ∷ cs) = let rest = divide false cs in (c ∷ rest.0, rest.1)
divide false (c ∷ cs) = with_char (line_char c) c (divide (is_backslash (line_char c)) cs)

-- The line does not end behind a backslash.
unfoldable pub ends_well : Bool → List ℕ → Bool
unfolding line_char
ends_well escaped [] = not escaped
ends_well true (c ∷ cs) = ends_well false cs
ends_well false (c ∷ cs) = is_comment (line_char c) || ends_well (is_backslash (line_char c)) cs

module _ {W : Type 0} (shell : Shell W) (interactive : Bool) (cmdline : Ptr) where
  -- The jobs one after the other, by their texts.
  unfoldable pub run_jobs : List ℕ → List (Sep × List ℕ) → ℕ → W → Option W
  run_jobs w [] nextin sys = execute shell interactive true w (job_nopipe shell nextin sys) >>= λ r.
      some (job_init shell (shell.pmfree cmdline r.1))
  run_jobs w ((to_pipe, w') ∷ jobs) nextin sys =
      let (next, sys1) = job_pipe shell nextin sys in
      execute shell interactive false w sys1 >>= λ r. run_jobs w' jobs next r.1
  run_jobs w ((in_background, w') ∷ jobs) nextin sys =
      execute shell interactive false w (job_nopipe shell nextin sys) >>= λ r.
      run_jobs w' jobs 3 (job_init shell r.1)
  run_jobs w ((in_sequence, w') ∷ jobs) nextin sys =
      execute shell interactive true w (job_nopipe shell nextin sys) >>= λ r.
      run_jobs w' jobs 3 (job_init shell r.1)
