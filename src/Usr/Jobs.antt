-- ===== src/Usr/Jobs.antt =====
-- usr/sh.c: a command line is divided into jobs, which are executed with their input and output.
-- `Divide` and `Rounds` are about a line in the buffer, `Typed` about a line that is read.
mod Divide
mod Rounds
mod Typed
mod Tests
use avros.Base.{
  ℕ, zero, suc, ◌+◌, Bool, true, false, ◌&&◌, ◌||◌, not, Option, none, some, List, [], ◌∷◌, length,
  ◌==◌, ltb, leb, if◌then◌else◌, update, ◌>>=◌,
}
use avros.Kernel.State.{Pid}
use avros.Queue.{Ptr, null}
use avros.Usr.Line.{getcmd}
use avros.Usr.Shell.{Shell, max_joblen, read_string, builtin}

abbrev pub max_cmdline : ℕ
max_cmdline = 128

-- The characters of a line that the loop looks for.
pub data LineChar : Type 0 where
  backslash comment pipeline background sequence other : LineChar

unfoldable pub line_char : ℕ → LineChar
line_char c =
    if c == 92
    then backslash
    else if c == 35
    then comment
    else if c == 124
    then pipeline
    else if c == 38
    then background
    else if c == 59
    then sequence
    else other

-- The variables of `sh` while it goes through a line.
pub record Sh (W : Type 0) : Type 0 where
  pub mem : ℕ → ℕ
  pub p : ℕ
  pub jobstart : ℕ
  pub nextin : ℕ
  pub sys : W

-- `memmove(p, p + 1, n)`
abbrev pub move_left : (ℕ → ℕ) → ℕ → ℕ → ℕ → ℕ
move_left mem p n a = if leb p a && ltb a (p + n) then mem (a + 1) else mem a

module _ {W : Type 0} (shell : Shell W) where
  -- `JOB_INIT`, without the value of `nextin`, which is 3.
  unfoldable pub job_init : W → W
  job_init w =
      let (_, w1) = shell.dup 3 (shell.close 0 w) in
      let (_, w2) = shell.dup 4 (shell.close 1 w1) in w2

  -- `JOB_PIPE`, with the new `nextin`.
  unfoldable pub job_pipe : ℕ → W → ℕ × W
  job_pipe nextin w =
      let (_, w1) = shell.dup nextin (shell.close 0 w) in
      let (pip, w2) = shell.pipe (shell.close 5 w1) in
      let (_, w3) = shell.dup pip.1 (shell.close 1 w2) in (pip.0, shell.close pip.1 w3)

  -- `JOB_NOPIPE`
  unfoldable pub job_nopipe : ℕ → W → W
  job_nopipe nextin w =
      let (_, w1) = shell.dup nextin (shell.close 0 w) in
      let (_, w2) = shell.dup 4 (shell.close 1 (shell.close 5 w1)) in w2

  -- The part of `execute` behind `builtin`, with the text of the job; no result if there is no
  -- memory, as the assertion ends the shell, or if the text does not fit into the block.
  unfoldable pub start_job : Bool → Bool → List ℕ → W → Option (ℕ × W)
  start_job interactive direct text w =
      let (job, w1) = shell.pmmalloc max_joblen w in
      let (pid, w2) = shell.spawntask direct w1 in
      let (code, w3) = shell.wait (shell.pmfree job (shell.send pid text w2)) in
      if (job == null) || not (ltb (length text) max_joblen)
      then none
      else some (code, if direct && interactive then shell.print_code code w3 else w3)

  unfoldable pub execute : Bool → Bool → List ℕ → W → Option (ℕ × W)
  unfolding start_job builtin
  execute interactive true text w = builtin shell text w >>= λ (rc, w1).
      let job = start_job interactive true text w1 in if rc then some (0, w1) else job
  execute interactive false text w = start_job interactive false text w

  -- `*p++ = 0`, and the job that ends there is executed.
  unfoldable pub end_job : ℕ → Bool → Bool → Sh W → Option (Sh W)
  unfolding execute read_string
  end_job size interactive direct s = do
    let mem = update s.mem s.p 0
    text ← read_string size mem s.jobstart
    r ← execute interactive direct text s.sys
    some (record s { mem = mem; p = s.p + 1; jobstart = s.p + 1; sys = r.1 })

  -- A round of the loop over the line, of which at most `size` characters are read.
  unfoldable pub line_round : ℕ → Bool → LineChar → Sh W → Option (Sh W)
  unfolding read_string end_job job_pipe job_nopipe job_init
  line_round size interactive backslash s = read_string size s.mem s.p >>= λ rest.
      some (record s { mem = move_left s.mem s.p (length rest + 1); p = s.p + 1 })
  line_round size interactive comment s = some (record s { mem = update s.mem s.p 0 })
  line_round size interactive pipeline s =
      let (next, w) = job_pipe s.nextin s.sys in
      end_job size interactive false (record s { nextin = next; sys = w })
  line_round size interactive background s =
      end_job size interactive false (record s { sys = job_nopipe s.nextin s.sys }) >>= λ s1.
      some (record s1 { nextin = 3; sys = job_init s1.sys })
  line_round size interactive sequence s =
      end_job size interactive true (record s { sys = job_nopipe s.nextin s.sys }) >>= λ s1.
      some (record s1 { nextin = 3; sys = job_init s1.sys })
  line_round size interactive other s = some (record s { p = s.p + 1 })

  -- `while (*p)`
  unfoldable pub line_loop : ℕ → ℕ → Bool → Sh W → Option (Sh W)
  unfolding line_round line_char
  line_loop zero size interactive s = none
  line_loop (suc fuel) size interactive s =
      let rest =
        line_round size interactive (line_char (s.mem s.p)) s >>= line_loop fuel size interactive in
      if s.mem s.p == 0 then some s else rest

  -- What `sh` does with a line at the place `line` of the block `cmdline`; the result is the system.
  unfoldable pub command_line : ℕ → ℕ → Bool → Ptr → ℕ → (ℕ → ℕ) → ℕ → W → Option W
  unfolding line_loop
  command_line fuel size interactive cmdline line mem nextin w = do
    s ←
        line_loop fuel size interactive
          (record { mem = mem; p = line; jobstart = line; nextin = nextin; sys = w })
    text ← read_string size s.mem s.jobstart
    r ← execute interactive true text (job_nopipe s.nextin s.sys)
    some (job_init (shell.pmfree cmdline r.1))

  -- The beginning of `sh`: the name of a script may be given. The result says whether the lines come
  -- from the terminal, and is none in its place if the shell returns as there is no such file; the
  -- whole is none if the assertion fails.
  unfoldable pub sh_start : Option (List ℕ) → W → Option (Option Bool × W)
  unfolding job_init
  sh_start none w =
      let (_, w1) = shell.dup 0 w in
      let (_, w2) = shell.dup 1 w1 in
      let (_, w3) = shell.dup 0 (job_init w2) in some (some true, shell.close 5 w3)
  sh_start (some name) w =
      let (_, w1) = shell.dup 0 w in
      let (_, w2) = shell.dup 1 w1 in
      let (_, w3) = shell.dup 0 (job_init w2) in
      let (fin, w4) = shell.open_name name w3 in
      elim fin [
        | none ↦ some (none, shell.unknown name w4)
        | some fd ↦ if fd == 6 then some (some false, shell.close 5 w4) else none
      ]

  -- A round of the endless loop of `sh`: `input` is what `readc` gives, `block` what stands in the
  -- block before. No result at the end of the input, where the shell exits.
  unfoldable pub sh_round : ℕ → Bool → List ℕ → (ℕ → ℕ) → W → Option W
  unfolding getcmd command_line
  sh_round fuel interactive input block w =
      let (cmdline, w1) = shell.pmmalloc max_cmdline (if interactive then shell.prompt w else w) in
      let done = getcmd max_cmdline input block >>= λ mem.
      command_line fuel max_cmdline interactive cmdline 0 mem 3 w1 in
      if cmdline == null then none else done
