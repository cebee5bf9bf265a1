-- ===== src/Usr/Words.antt =====
-- usr/sh.c: `parse_args` divides a job into the words of a command. A place in the buffer stands for
-- a pointer to it. `Scan` is about a loop over a text, `Parts` and `Split` about the words, `Redirect` about
-- the name of a file behind `<` or `>`, and `Command` about both.
pub mod Scan
pub mod Parts
pub mod Split
mod Count
pub mod Redirect
pub mod Command
use avros.Base.{
  ℕ, zero, suc, ◌+◌, Bool, true, false, ◌&&◌, ◌||◌, Option, none, some, is_some, ◌==◌, ltb,
  if◌then◌else◌, update,
}

abbrev pub max_args : ℕ
max_args = 8

pub data ParseState : Type 0 where
  parse_none parse_letter parse_sin parse_sout : ParseState

-- The buffer, what stands from `args` on, and the variables of `parse_args`.
pub record Parse : Type 0 where
  pub mem : ℕ → ℕ
  pub args : ℕ → Option ℕ
  pub i : ℕ
  pub state : ParseState
  pub stin : Option ℕ
  pub stout : Option ℕ

-- The cases of the switch on a character.
pub data CharKind : Type 0 where
  less greater blank line_end letter : CharKind

abbrev pub is_blank : ℕ → Bool
is_blank c = (c == 32) || (c == 9)

unfoldable pub char_kind : ℕ → CharKind
char_kind c =
    if c == 60
    then less
    else if c == 62
    then greater
    else if is_blank c
    then blank
    else if (c == 10) || (c == 13)
    then line_end
    else letter

abbrev pub is_letter : ParseState → Bool
is_letter parse_letter = true
is_letter _ = false

-- The default case: `t` is the place of the character. `redirects` says that `stin` and `stout` are
-- not null.
unfoldable pub parse_letter_at : Bool → ParseState → ℕ → Parse → Parse
parse_letter_at redirects parse_none t s = record s {
  args = update s.args s.i (some t);
  state = parse_letter;
}
parse_letter_at redirects parse_letter t s = record s { state = parse_letter }
parse_letter_at redirects parse_sin t s = record s {
  stin = if redirects then some t else s.stin;
  state = parse_letter;
}
parse_letter_at redirects parse_sout t s = record s {
  stout = if redirects then some t else s.stout;
  state = parse_letter;
}

-- A round of the loop.
unfoldable pub parse_char : Bool → CharKind → ℕ → Parse → Parse
unfolding parse_letter_at
parse_char redirects less t s = record s { state = parse_sin; mem = update s.mem t 0 }
parse_char redirects greater t s = record s { state = parse_sout; mem = update s.mem t 0 }
parse_char redirects blank t s =
    let s1 = record s { mem = update s.mem t 0 } in
    if is_some (s.args s.i) && is_letter s.state
    then record s1 { i = suc s.i; state = parse_none }
    else s1
parse_char redirects line_end t s = record s { mem = update s.mem t 0 }
parse_char redirects letter t s = parse_letter_at redirects s.state t s

-- `args` has `max_args + 1` entries; whether the round reads or writes one behind them.
abbrev pub is_none : ParseState → Bool
is_none parse_none = true
is_none _ = false

unfoldable pub outside : CharKind → Parse → Bool
outside blank s = ltb max_args s.i
outside letter s = is_none s.state && ltb max_args s.i
outside _ s = false

-- `while (*t)`; no result if the fuel is at its end first, or if a round goes outside `args`.
unfoldable pub parse_loop : Bool → ℕ → ℕ → Parse → Option Parse
unfolding parse_char char_kind outside
parse_loop redirects zero t s = none
parse_loop redirects (suc fuel) t s =
    let rest = parse_loop redirects fuel (t + 1) (parse_char redirects (char_kind (s.mem t)) t s) in
    let round = if outside (char_kind (s.mem t)) s then none else rest in
    if s.mem t == 0 then some s else round

-- The loop that sets the pointers to null.
abbrev pub cleared : (ℕ → Option ℕ) → ℕ → Option ℕ
cleared args k = if ltb k (max_args + 1) then none else args k

unfoldable pub parse_args :
    Bool → ℕ → ℕ → (ℕ → ℕ) → (ℕ → Option ℕ) → Option ℕ → Option ℕ → Option Parse
unfolding parse_loop
parse_args redirects fuel t mem args stin stout = parse_loop redirects fuel t (record {
  mem = mem;
  args = cleared args;
  i = 0;
  state = parse_none;
  stin = stin;
  stout = stout;
})
