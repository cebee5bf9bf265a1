-- ===== src/Usr/Shell.antt =====
-- usr/sh.c: what the shell calls, and its own commands `exit` and `cd`.
use avros.Base.{
  ℕ, zero, suc, ◌+◌, ◌*◌, Bool, true, false, ◌||◌, not, Option, none, some, List, [], ◌∷◌, length,
  ◌==◌, ltb, if◌then◌else◌, ◌>>=◌,
}
use avros.Kernel.State.{Pid}
use avros.Servers.Ex.{str_eq}
use avros.Queue.{Ptr, null}
use avros.Usr.Line.{string_at}
use avros.Usr.Words.{Parse, parse_args, max_args}

abbrev pub max_joblen : ℕ
max_joblen = 32

-- The file server, the process manager and the kernel, and the messages that are printed, with their
-- texts. `open_name` is `open`, which gives a descriptor or fails; `execv` answers whether it fails;
-- `spawntask` starts `exec_job` if its argument says direct and `launch_job` if not; what `pipe`
-- leaves in `pip` is a pair; `null_is` is what `!strcmp` answers on a null pointer; a pointer has
-- `sizeof_ptr` bytes.
pub record Shell (W : Type 0) : Type 0 where
  pub sizeof_ptr : ℕ
  pub null_is : List ℕ → Bool
  pub close : ℕ → W → W
  pub dup : ℕ → W → ℕ × W
  pub pipe : W → (ℕ × ℕ) × W
  pub open_name : List ℕ → W → Option ℕ × W
  pub execv : List ℕ → List (List ℕ) → W → Bool × W
  pub pmmalloc : ℕ → W → Ptr × W
  pub pmfree : Ptr → W → W
  pub spawntask : Bool → W → Pid × W
  pub send : Pid → List ℕ → W → W
  pub receive : W → List ℕ × W
  pub wait : W → ℕ × W
  pub prompt : W → W
  pub print_code : ℕ → W → W
  pub print_cd : List ℕ → W → W
  pub noargs : List ℕ → W → W
  pub unknown : List ℕ → W → W

-- The string at a place, if its end comes before `size` characters.
unfoldable pub read_string : ℕ → (ℕ → ℕ) → ℕ → Option (List ℕ)
read_string zero mem p = none
read_string (suc size) mem p =
    let rest = read_string size mem (p + 1) in
    if mem p == 0 then some [] else rest >>= λ cs. some (mem p ∷ cs)

abbrev pub exit_name : List ℕ
exit_name = 101 ∷ 120 ∷ 105 ∷ 116 ∷ []

abbrev pub cd_name : List ℕ
cd_name = 99 ∷ 100 ∷ []

-- The string that an argument points to; it stands in a block for a job.
unfoldable pub arg_string : Parse → ℕ → Option (List ℕ)
unfolding read_string
arg_string s i = s.args i >>= read_string max_joblen s.mem

-- A block with a text, after `parse_args`.
unfoldable pub parse_text : Bool → List ℕ → Option Parse
unfolding parse_args string_at
parse_text redirects text =
    parse_args redirects (suc (length text)) 0 (string_at 0 text (λ a. 0)) (λ i. none) none none

module _ {W : Type 0} (shell : Shell W) where
  -- `!strcmp(args[0], name)`
  abbrev pub is_command : Parse → List ℕ → Bool
  is_command s name = elim (arg_string s 0) [
    | none ↦ shell.null_is name
    | some first ↦ str_eq first name
  ]

  abbrev pub builtin_cd : Option (List ℕ) → W → W
  builtin_cd none w = shell.noargs cd_name w
  builtin_cd (some dir) w = shell.print_cd dir w

  -- `builtin` with the result of `parse_args`; no result if an assertion or `exit` ends the shell, or
  -- if the text does not fit into the block.
  unfoldable pub builtin_command : List ℕ → W → Parse → Option (Bool × W)
  builtin_command text w s =
      let (line, w1) = shell.pmmalloc max_joblen w in
      let (args, w2) = shell.pmmalloc (shell.sizeof_ptr * (max_args + 1)) w1 in
      let freed : W → W = λ v. shell.pmfree line (shell.pmfree args v) in
      if (line == null)
        || (args == null)
        || not (ltb (length text) max_joblen)
        || is_command s exit_name
      then none
      else if is_command s cd_name
      then some (true, freed (builtin_cd (arg_string s 1) w2))
      else some (false, freed w2)

  unfoldable pub builtin : List ℕ → W → Option (Bool × W)
  unfolding parse_text builtin_command
  builtin text w = parse_text false text >>= builtin_command text w
