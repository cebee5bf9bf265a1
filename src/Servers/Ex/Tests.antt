-- ===== src/Servers/Ex/Tests.antt =====
-- A registry with one program, and the look-up theorem at it.
use avros.Base.{ℕ, ◌+◌, ◌≡◌, refl, [], ◌∷◌, arith, count, some}
use avros.Servers.Memory.{Memory}
use avros.Servers.Ex.{ExSrv, ExMsg, ex_regprg, ex_getprg, ex_answer, ex}
use avros.Servers.Ex.Registry.{find_entry, registered, Run, start, pass, ex-find_entry}

abbrev rising : Memory ℕ
rising = record { take = λ h n. (h + 1, h + 1 + n); give = λ h p. h }

abbrev empty : ExSrv ℕ
empty = record {
  ex_prg_head = [];
  prgs = λ p. record { name = 0; stack = 0; ptr = 0 };
  strings = λ p. [];
  heap = 1000;
}

-- "sh" at 0x4000 with a stack of 160 bytes.
abbrev reg_sh : ExMsg
reg_sh = ex_regprg (115 ∷ 104 ∷ []) 0x4000 160

abbrev with_sh : ExSrv ℕ
with_sh = (ex rising 5 reg_sh empty).1

sh_registered : Run rising empty (registered rising reg_sh empty) with_sh
unfolding count
sh_registered = pass 5 reg_sh start (record { prg = refl; copy = λ it h. absurd (omega arith) })

ex-find_entry_example :
    (ex rising 6 (ex_getprg (115 ∷ 104 ∷ [])) with_sh).0 ≡ some (6, ex_answer 0x4000 160)
unfolding find_entry registered
ex-find_entry_example = ex-find_entry rising 6 (115 ∷ 104 ∷ []) refl sh_registered
