-- ===== src/Servers/Vfs/State.antt =====
-- servers/vfs.c: the tables of devices, of open files and of tasks, and the searches in them. An
-- `int` is its 16-bit word, a `char` its byte.
use avros.Base.{
  ℕ, zero, suc, ◌+◌, ◌%◌, Bool, true, false, Option, none, some, List, [], ◌∷◌, ◌==◌, ltb,
  if◌then◌else◌, update,
}
use avros.Kernel.State.{Pid}
use avros.Queue.{Ptr}
use avros.Servers.Memory.{Memory}
use avros.Drivers.Message.{VfsMsg, VfsCmd, vfs_repeat}

abbrev pub max_dev : ℕ
max_dev = 6

abbrev pub max_filp : ℕ
max_filp = 16

abbrev pub max_fd : ℕ
max_fd = 8

-- `filp_t`
pub record Filp : Type 0 where
  pub dev : ℕ
  pub ino : ℕ
  pub refcnt : ℕ
  pub pos : ℕ

abbrev pub no_filp : Filp
no_filp = record { dev = 0; ino = 0; refcnt = 0; pos = 0 }

-- `vfs_task_t`, with the address at which it stands.
pub record VfsTask : Type 0 where
  pub at : Ptr
  pub pid : Pid
  pub fd : List ℕ
  pub wdev : ℕ
  pub wino : ℕ
  pub rdev : ℕ
  pub rino : ℕ

-- The kernel calls of the server, on the rest of the system, `W`. A call that never comes back
-- has no result. `start_driver` creates a task with a stack, sets it up with an entry and its
-- argument, and starts it; `string_at` is the string at an address.
pub record Bus (W : Type 0) : Type 0 where
  pub sendrec : Pid → VfsMsg → W → Option (VfsMsg × W)
  pub send : Pid → VfsMsg → W → Option W
  pub start_driver : ℕ → ℕ → W → Pid × W
  pub memory : Memory W
  pub string_at : W → Ptr → List ℕ
  pub put_string : Ptr → List ℕ → W → W

-- The tables, the message that is worked on, and the rest of the system. The open files are a
-- function of their index: a descriptor never holds an index past the table (`Refs`).
pub record Vfs (W : Type 0) : Type 0 where
  pub devtab : ℕ → Pid
  pub pipedev_idx : ℕ
  pub debugn : ℕ
  pub filp : ℕ → Filp
  pub tasks : List VfsTask
  pub msg : VfsMsg
  pub sys : W

-- `n < 0`
abbrev pub neg : ℕ → Bool
neg n = ltb 32767 n

abbrev pub next_byte : ℕ → ℕ
next_byte n = (n + 1) % 256

abbrev pub before_byte : ℕ → ℕ
before_byte n = (n + 255) % 256

-- The first index, of `rounds` ones from `i` on, that passes the test.
unfoldable pub first_index : ℕ → ℕ → (ℕ → Bool) → Option ℕ
first_index zero i test = none
first_index (suc rounds) i test =
    let rest = first_index rounds (suc i) test in if test i then some i else rest

unfoldable pub find_empty_devtab : (ℕ → Pid) → Option ℕ
unfolding first_index
find_empty_devtab devtab = first_index max_dev 0 (λ i. devtab i == 0)

unfoldable pub find_empty_filp : (ℕ → Filp) → Option ℕ
unfolding first_index
find_empty_filp filp = first_index max_filp 0 (λ i. (filp i).refcnt == 0)

-- The loop of `find_empty_fd`, from the index `i` on.
unfoldable pub empty_fd : ℕ → List ℕ → Option ℕ
empty_fd i [] = none
empty_fd i (f ∷ fs) = let rest = empty_fd (suc i) fs in if neg f then some i else rest

unfoldable pub find_empty_fd : VfsTask → Option ℕ
unfolding empty_fd
find_empty_fd client = empty_fd 0 client.fd

unfoldable pub vfs_findbypid : Pid → List VfsTask → Option VfsTask
vfs_findbypid pid [] = none
vfs_findbypid pid (t ∷ ts) =
    let rest = vfs_findbypid pid ts in if t.pid == pid then some t else rest

-- A write to the task that `vfs_findbypid` found, and its removal from the queue.
unfoldable pub put_task : Pid → VfsTask → List VfsTask → List VfsTask
put_task pid t' [] = []
put_task pid t' (t ∷ ts) = if t.pid == pid then t' ∷ ts else t ∷ put_task pid t' ts

unfoldable pub remove_task : Pid → List VfsTask → List VfsTask
remove_task pid [] = []
remove_task pid (t ∷ ts) = if t.pid == pid then ts else t ∷ remove_task pid ts

abbrev pub is_repeat : VfsCmd → Bool
is_repeat vfs_repeat = true
is_repeat _ = false

-- The references to an open file.
abbrev pub with_refs : (ℕ → ℕ) → ℕ → (ℕ → Filp) → ℕ → Filp
with_refs f fp filp = update filp fp (record (filp fp) { refcnt = f (filp fp).refcnt })

module _ {W : Type 0} where
  -- A new message.
  abbrev pub with_msg : VfsMsg → Vfs W → Vfs W
  with_msg m k = record k { msg = m }

  -- `devtab[dev]`; a device number past the table is outside the memory of the table.
  abbrev pub dev_pid : ℕ → Vfs W → Option Pid
  dev_pid dev k = if ltb dev max_dev then some (k.devtab dev) else none

  -- `client->fd[fd] = fp` and no more.
  abbrev pub set_fd : Pid → VfsTask → List ℕ → Vfs W → Vfs W
  set_fd client t fds k = record k { tasks = put_task client (record t { fd = fds }) k.tasks }

  module _ (bus : Bus W) where
    -- `sendrec(pid, msg)` and `send(pid, msg)` with the message of the server.
    unfoldable pub exchange : Pid → Vfs W → Option (Vfs W)
    exchange pid k = elim (bus.sendrec pid k.msg k.sys) [
      | none ↦ none
      | some r ↦ some (record k { msg = r.0; sys = r.1 })
    ]

    unfoldable pub answer : Pid → Vfs W → Option (Vfs W)
    answer pid k = elim (bus.send pid k.msg k.sys) [
      | none ↦ none
      | some w ↦ some (record k { sys = w })
    ]
