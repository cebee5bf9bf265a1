-- ===== src/Usr/Jobs/Typed.antt =====
-- usr/sh.c: a round of `sh`, from the prompt to the next one.
use avros.Base.{
  ℕ, ◌+◌, ◌≤◌, ◌<◌, ◌≡◌, refl, Bool, true, false, none, List, ◌∷◌, ◌++◌, length, arith, ap, ◌∙◌,
  ◌>>=◌, ◌==◌, if◌then◌else◌,
}
use avros.Queue.{null}
use avros.Usr.Line.{ArePlain, is_newline, string_at, getcmd-string_at}
use avros.Usr.Shell.{Shell}
use avros.Usr.Text.{NotEnd, string_at-Prefix, string_at-end}
use avros.Usr.Jobs.{command_line, sh_round, max_cmdline}
use avros.Usr.Jobs.Divide.{divide, ends_well, run_jobs}
use avros.Usr.Jobs.Rounds.{command_line-divide}

-- A round of the shell on a typed line that is two characters shorter than the buffer at least and
-- does not end behind a backslash: after the prompt, if it is interactive, it gets a block, and
-- executes the jobs that the line is divided into, from its first descriptors on; without a block
-- it ends. What comes behind the end of the line and what stood in the block do not matter, and as
-- much fuel as the line has characters and one more is enough.
pub sh_round-run_jobs :
    {W : Type 0} (shell : Shell W) (interactive : Bool) (fuel : ℕ) (line : List ℕ) (n : ℕ)
    (input : List ℕ) (block : ℕ → ℕ) (w : W)
    → ArePlain line
    → NotEnd line
    → is_newline n ≡ true
    → length line + 2 ≤ max_cmdline
    → ends_well false line ≡ true
    → length line < fuel
    → sh_round shell fuel interactive (line ++ n ∷ input) block w ≡ (
        let (cmdline, w1) =
          shell.pmmalloc max_cmdline (if interactive then shell.prompt w else w) in
        let done =
          run_jobs shell interactive cmdline (divide false line).0 (divide false line).1 3 w1 in
        if cmdline == null then none else done)
unfolding sh_round
sh_round-run_jobs shell interactive fuel line n input block w plain chars newline l ok f =
    let (cmdline, w1) = shell.pmmalloc max_cmdline (if interactive then shell.prompt w else w) in
    ap (λ o. if cmdline == null then none else o)
      (ap (λ o. o >>= λ mem. command_line shell fuel max_cmdline interactive cmdline 0 mem 3 w1)
          (getcmd-string_at max_cmdline line n input block plain newline l)
        ∙ command_line-divide shell interactive cmdline max_cmdline fuel 0 (0 + length line) 3
            (string_at 0 line block) line w1 (string_at-Prefix 0 line block chars)
            (string_at-end 0 line block (0 + length line) refl) ok (omega (arith, l)) f)
