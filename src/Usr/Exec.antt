-- ===== src/Usr/Exec.antt =====
-- usr/sh.c: `exec_job`, the process that becomes the program of a job.
mod Job
mod Tests
use avros.Base.{
  ℕ, zero, suc, ◌+◌, ◌-◌, ◌*◌, ◌^◌, ◌≤◌, ◌<◌, ◌≡◌, refl, Bool, true, false, ◌||◌, not, Option,
  is_some, none, some, List, [], ◌∷◌, ◌++◌, length, arith, ◌==◌, ltb, if◌then◌else◌, if_true,
  if_false, ap, sym, ◌∙◌, subst, ◌>>=◌,
}
use avros.Kernel.State.{Pid}
use avros.Queue.{Ptr, null}
use avros.Usr.Words.{Parse, max_args, cleared}
use avros.Usr.Shell.{Shell, max_joblen, read_string, arg_string, parse_text}

abbrev pub max_fd : ℕ
max_fd = 8

abbrev pub stdmax : ℕ
stdmax = 3

-- How `exec_job` ends: it returns a code, or the program is executed in its place.
pub data Ended : Type 0 where
  returned : (code : ℕ) → Ended
  replaced : Ended

-- The code -1.
abbrev pub failure : ℕ
failure = 2 ^ 16 - 1

-- The arguments up to the null pointer.
unfoldable pub arg_strings : ℕ → Parse → ℕ → Option (List (List ℕ))
unfolding arg_string
arg_strings zero s i = none
arg_strings (suc fuel) s i =
    let rest = arg_strings fuel s (suc i) in
    elim (s.args i) [
      | none ↦ some []
      | some p ↦ read_string max_joblen s.mem p >>= λ w. rest >>= λ ws. some (w ∷ ws)
    ]

-- The name of a file, if there is one.
unfoldable pub file_string : (ℕ → ℕ) → Option ℕ → Option (Option (List ℕ))
unfolding read_string
file_string mem none = some none
file_string mem (some p) = read_string max_joblen mem p >>= λ file. some (some file)

module _ {W : Type 0} (shell : Shell W) where
  -- `for (i = from; i != MAX_FD; i++) close(i)`, for `n` descriptors
  unfoldable pub close_from : ℕ → ℕ → W → W
  close_from zero i w = w
  close_from (suc n) i w = close_from n (i + 1) (shell.close i w)

  -- A redirection of the descriptor `fd`, if it is given; the result says whether it fails.
  abbrev pub redirect_to : Option (List ℕ) → ℕ → W → Bool × W
  redirect_to none fd w = (false, w)
  redirect_to (some file) fd w =
      let (opened, w1) = shell.open_name file (shell.close fd w) in
      (not (is_some opened), if is_some opened then w1 else shell.unknown file w1)

  -- What is done when the line is parsed; `freed` frees the two blocks.
  unfoldable pub run_job :
      (W → W) → Option (List ℕ) → Option (List ℕ) → List (List ℕ) → W → Ended × W
  run_job freed stin stout [] w = (returned 0, freed w)
  run_job freed stin stout (first ∷ args) w =
      let (bad_in, w1) = redirect_to stin 0 w in
      let (bad_out, w2) = redirect_to stout 1 w1 in
      let (bad, w3) = shell.execv first (first ∷ args) w2 in
      if bad_in
      then (returned failure, freed w1)
      else if bad_out
      then (returned failure, freed w2)
      else if bad
      then (returned failure, freed (shell.unknown first w3))
      else (replaced, w3)

  -- No result if an assertion ends the process, if the text does not fit into the block, or if the
  -- arguments have no end.
  unfoldable pub exec_job : W → Option (Ended × W)
  unfolding close_from arg_strings parse_text file_string run_job
  exec_job w = do
    let (args, w1) = shell.pmmalloc (shell.sizeof_ptr * (max_args + 1)) w
    let (cmd, w2) = shell.pmmalloc max_joblen (close_from (max_fd - stdmax) stdmax w1)
    let (text, w3) = shell.receive w2
    let freed : W → W = λ v. shell.pmfree args (shell.pmfree cmd v)
    s ← parse_text true text
    program ← arg_strings (max_args + 1) s 0
    stin ← file_string s.mem s.stin
    stout ← file_string s.mem s.stout
    if (args == null) || (cmd == null) || not (ltb (length text) max_joblen)
        then none
        else some (run_job freed stin stout program w3)

  -- `launch_job`, which starts the process of a job and ends.
  unfoldable pub launch_job : W → Option W
  launch_job w =
      let (cmd, w1) = shell.pmmalloc max_joblen w in
      let (text, w2) = shell.receive w1 in
      let (pid, w3) = shell.spawntask true w2 in
      if cmd == null then none else some (shell.pmfree cmd (shell.send pid text w3))
