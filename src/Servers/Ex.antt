-- ===== src/Servers/Ex.antt =====
-- servers/ex.c: the registry of programs. `Registry` is about what a look-up finds. A string is
-- the list of its characters before the end.
mod Registry
mod Tests
use avros.Base.{
  ℕ, suc, ◌+◌, Bool, true, false, ◌&&◌, Option, none, some, List, [], ◌∷◌, ◌++◌, length, ◌==◌,
  if◌then◌else◌, update,
}
use avros.Kernel.State.{Pid}
use avros.Queue.{Ptr, null}
use avros.Servers.Memory.{Memory}

abbrev sizeof_prg : ℕ
sizeof_prg = 10

-- `!strcmp(a, b)`
unfoldable pub str_eq : List ℕ → List ℕ → Bool
str_eq [] [] = true
str_eq (a ∷ s) (b ∷ t) = (a == b) && str_eq s t
str_eq _ _ = false

-- `ex_prg_t`: the name is a pointer to a copy on the heap.
pub record ExPrg : Type 0 where
  pub name : Ptr
  pub stack : ℕ
  pub ptr : ℕ

-- The queue, its items, the strings on the heap, and the heap.
pub record ExSrv (H : Type 0) : Type 0 where
  pub ex_prg_head : List Ptr
  pub prgs : Ptr → ExPrg
  pub strings : Ptr → List ℕ
  pub heap : H

-- `ex_msg_t` by its command; `ex_answer` is what EX_GETPRG leaves in the union.
pub data ExMsg : Type 0 where
  ex_none : ExMsg
  ex_regprg : (name : List ℕ) (ptr stack : ℕ) → ExMsg
  ex_getprg : (name : List ℕ) → ExMsg
  ex_answer : (ptr stack : ℕ) → ExMsg

module _ {H : Type 0} where
  -- The loop of `ex_get_prg`: the entry and the stack size of the first program of that name.
  unfoldable pub get_loop : List ℕ → List Ptr → ExSrv H → ℕ × ℕ
  unfolding str_eq
  get_loop name [] k = (0, 0)
  get_loop name (it ∷ rest) k =
      if str_eq name (k.strings (k.prgs it).name)
      then ((k.prgs it).ptr, (k.prgs it).stack)
      else get_loop name rest k

  unfoldable pub ex_get_prg : List ℕ → ExSrv H → ℕ × ℕ
  unfolding get_loop
  ex_get_prg name k = get_loop name k.ex_prg_head k

  module _ (memory : Memory H) where
    unfoldable pub ex_reg_prg : List ℕ → ℕ → ℕ → ExSrv H → Ptr × ExSrv H
    ex_reg_prg name ptr stack k =
        let (prg, heap1) = memory.take k.heap sizeof_prg in
        let (copy, heap2) = memory.take heap1 (length name + 1) in
        let k1 = record k {
          prgs = update k.prgs prg (record { name = copy; stack = stack; ptr = ptr });
          heap = heap2;
        } in
        if prg == null
        then (null, record k { heap = heap1 })
        else if copy == null
        then (null, k1)
        else (
          prg,
          record k1 {
            strings = update k.strings copy name;
            ex_prg_head = k.ex_prg_head ++ prg ∷ [];
          },
        )

    -- A pass of the loop of `ex` after `receive`: the answer to the client, if any, and the
    -- server.
    unfoldable pub ex : Pid → ExMsg → ExSrv H → Option (Pid × ExMsg) × ExSrv H
    unfolding ex_reg_prg ex_get_prg
    ex client (ex_regprg name ptr stack) k =
        let (prg, k1) = ex_reg_prg name ptr stack k in
        if prg == null then (none, k1) else (some (client, ex_regprg name ptr stack), k1)
    ex client (ex_getprg name) k =
        let (ptr, stack) = ex_get_prg name k in (some (client, ex_answer ptr stack), k)
    ex client msg k = (some (client, msg), k)
