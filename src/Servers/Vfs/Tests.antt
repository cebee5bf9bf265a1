-- ===== src/Servers/Vfs/Tests.antt =====
-- A server with the pipe device, a task that makes a pipe, and the theorems at them.
use avros.Base.{
  ℕ, ◌+◌, ◌%◌, ◌≤◌, ◌≡◌, ◌++◌, ltb, update, length, count, refl, none, some, Option, [], ◌∷◌, arith,
  ◌==◌, if◌then◌else◌, ◌>>=◌,
}
use avros.Drivers.Message.{
  VfsMsg, minus_one, vfs_addtask, vfs_pipe, vfs_hold, vfs_dup, vfs_writec, vfs_readc, vfs_close,
  vfs_final,
}
use avros.Drivers.Pipe.{pipedev, PdNode, pd_rw}
use avros.Servers.Vfs.State.{
  Vfs, Bus, VfsTask, Filp, no_filp, vfs_findbypid, put_task, exchange, answer, find_empty_filp,
  find_empty_fd, find_empty_devtab,
}
use avros.Servers.Vfs.Files.{do_dup, do_close, do_pipe, pipe_ends, rw_filp, release_node}
use avros.Servers.Vfs.Names.{vfs_get_node}
use avros.Servers.Vfs.Loop.{vfs, vfs_init}
use avros.Servers.Vfs.Talk.{PipeSys, pipe_bus, told_of}
use avros.Servers.Vfs.Pipes.{served, rw_filp-pipe}
use avros.Servers.Vfs.Refs.{here, next, Reach-IsCounted}
use avros.Servers.Vfs.Refs.Counts.{refs}
use avros.Servers.Vfs.Close.{closed, do_close-refs, do_close-do_dup}
use avros.Servers.Vfs.Descriptors.{
  client_fds, TwoEnds, one_end, do_dup-client_fds, pipe_ends-client_fds,
}
use avros.Servers.Vfs.Walk.{resolve, vfs_get_node-resolve}
use avros.Servers.Vfs.Refs.Keeps.{IsCounted}

-- The pipe device as the task 9, and a heap that has memory.
abbrev test_bus : Bus PipeSys
test_bus = record pipe_bus {
  start_driver = λ p a w. (9, w);
  memory = record { take = λ w n. (500, w); give = λ w p. w };
}

abbrev quiet : PipeSys
quiet = record { nodes = λ _. none; todo = []; told = [] }

abbrev blank : VfsMsg
blank = record { cmd = vfs_hold; client = 0; ino = 0; bnum = 0; data_of = 0 }

abbrev started : Vfs PipeSys
started = vfs_init test_bus 77 blank quiet

abbrev or_else : Option (Vfs PipeSys) → Vfs PipeSys
or_else none = started
or_else (some k) = k

-- The task 40 is made known, and makes a pipe.
abbrev with_task : Vfs PipeSys
with_task = or_else (vfs test_bus 3 0 30 (record blank { cmd = vfs_addtask; ino = 40 }) started)

abbrev with_pipe : Vfs PipeSys
with_pipe = or_else (vfs test_bus 3 0 40 (record blank { cmd = vfs_pipe }) with_task)

task_made :
    vfs test_bus 3 0 30 (record blank { cmd = vfs_addtask; ino = 40 }) started ≡ some with_task
unfolding vfs vfs_init answer pipe_bus find_empty_devtab
task_made = refl

pipe_made : vfs test_bus 3 0 40 (record blank { cmd = vfs_pipe }) with_task ≡ some with_pipe
unfolding vfs vfs_init answer pipe_bus find_empty_devtab exchange pipedev find_empty_filp
    find_empty_fd do_pipe vfs_findbypid put_task
pipe_made = refl

none_yet : length started.tasks ≤ 30
unfolding vfs_init find_empty_devtab
none_yet = omega arith

few_tasks : length with_task.tasks ≤ 30
unfolding vfs vfs_init answer pipe_bus find_empty_devtab
few_tasks = omega arith

Reach-IsCounted_example : IsCounted with_pipe
Reach-IsCounted_example =
    Reach-IsCounted test_bus with_pipe
      (next (next (here 77 blank quiet) none_yet 3 0 30 _ task_made) (few_tasks) 3 0 40 _ pipe_made)

-- The task 40 with both ends of a pipe, 0 and 1.
abbrev piped_task : VfsTask
piped_task = record {
  at = 500;
  pid = 40;
  fd = 0 ∷ 1 ∷ minus_one ∷ minus_one ∷ minus_one ∷ minus_one ∷ minus_one ∷ minus_one ∷ [];
  wdev = 1;
  wino = 0;
  rdev = 1;
  rino = 0;
}

abbrev pipe_filp : ℕ → Filp
pipe_filp p = if ltb p 2 then record { dev = 0; ino = 0; refcnt = 1; pos = 0 } else no_filp

-- A read of the task 41 waits in the pipe.
abbrev waiting_read : VfsMsg
waiting_read = record { cmd = vfs_readc; client = 41; ino = 0; bnum = 0; data_of = 0 }

abbrev pipe_node : PdNode
pipe_node = record { refcnt = 2; links = 0; msgs = waiting_read ∷ [] }

-- The server with a message of the task 40.
abbrev piped : VfsMsg → Vfs PipeSys
piped msg = record {
  devtab = λ d. if d == 0 then 9 else 0;
  pipedev_idx = 0;
  debugn = 0;
  filp = pipe_filp;
  tasks = piped_task ∷ [];
  msg = msg;
  sys = record { nodes = λ i. if i == 0 then some pipe_node else none; todo = []; told = [] };
}

piped-IsCounted : (msg : VfsMsg) → IsCounted (piped msg)
unfolding refs count
piped-IsCounted msg = record { fds = ground arith; few = omega arith; counts = λ p l. ground arith }

piped_found : (msg : VfsMsg) → vfs_findbypid 40 (piped msg).tasks ≡ some piped_task
unfolding vfs_findbypid
piped_found msg = refl

abbrev closing : VfsMsg
closing = record { cmd = vfs_close; client = 40; ino = 1; bnum = 0; data_of = 0 }

do_close-refs_example : do_close pipe_bus 3 40 (piped closing) ≡ (
    if refs 1 (piped_task ∷ []) == 1
    then release_node pipe_bus 3 1 (closed pipe_bus 3 40 piped_task 1 (piped closing))
    else some (closed pipe_bus 3 40 piped_task 1 (piped closing)))
do_close-refs_example =
    do_close-refs pipe_bus 3 40 piped_task 1 (piped closing) (piped-IsCounted closing)
      (piped_found closing) refl refl refl

abbrev copying : VfsMsg
copying = record { cmd = vfs_dup; client = 40; ino = 1; bnum = 0; data_of = 0 }

piped_free : find_empty_fd piped_task ≡ some 2
unfolding find_empty_fd
piped_free = refl

do_close-do_dup_example :
    (k2 : Vfs PipeSys) × ((do_dup 40 (piped copying) >>= do_close pipe_bus 3 40) ≡ some k2)
    × (k2.tasks ≡ piped_task ∷ [])
    × (k2.filp ≡ pipe_filp)
    × (k2.sys ≡ (piped copying).sys)
do_close-do_dup_example =
    do_close-do_dup pipe_bus 3 40 piped_task 1 2 (piped copying) (piped-IsCounted copying)
      (piped_found copying) refl refl refl piped_free

abbrev writing : VfsMsg
writing = record { cmd = vfs_writec; client = 40; ino = 1; bnum = 0; data_of = 65 }

-- The task 41 is told the datum, and then the answer is there.
rw_filp-pipe_example :
    rw_filp pipe_bus 2 1 (piped writing)
    ≡ some (record (piped writing) {
      msg = (served 2 1 9 pipe_node (piped writing)).0.1;
      sys = record {
        nodes =
            update (piped writing).sys.nodes 0 (some (served 2 1 9 pipe_node (piped writing)).1);
        todo = [];
        told = [] ++ told_of (served 2 1 9 pipe_node (piped writing)).0.0;
      };
      filp = update pipe_filp 1 (record (pipe_filp 1) {
        pos = (0 + (served 2 1 9 pipe_node (piped writing)).0.1.bnum) % 65536;
      });
    })
rw_filp-pipe_example =
    rw_filp-pipe 2 1 9 pipe_node (piped writing) refl refl refl refl refl (refl, tt) (omega arith)

told_write :
    told_of (served 2 1 9 pipe_node (piped writing)).0.0
    ≡ (41, record waiting_read { data_of = 65; cmd = vfs_final }) ∷ []
unfolding told_of pd_rw
told_write = refl

-- The name "a/b" at the address 600, for the task 40, and a device that knows no name.
abbrev named_bus : Bus PipeSys
named_bus = record test_bus { string_at = λ w p. if p == 600 then b'a' ∷ b'/' ∷ b'b' ∷ [] else [] }

vfs_get_node-resolve_example :
    vfs_get_node named_bus 40 0 600 (piped closing)
    ≡ resolve named_bus piped_task (b'a' ∷ b'/' ∷ b'b' ∷ []) (piped closing)
vfs_get_node-resolve_example =
    vfs_get_node-resolve named_bus 40 0 600 b'a' (b'/' ∷ b'b' ∷ []) piped_task (piped closing) refl
      refl (piped_found closing)

do_dup-client_fds_example :
    (k' : Vfs PipeSys) × (do_dup 40 (piped copying) ≡ some k')
    × (client_fds 40 k' ≡ some 0 ∷ some 1 ∷ some 1 ∷ none ∷ none ∷ none ∷ none ∷ none ∷ [])
unfolding vfs_findbypid
do_dup-client_fds_example =
    do_dup-client_fds 40 (piped copying) piped_task 1 (piped_found copying) refl refl

piping : find_empty_filp (piped copying).filp ≡ some 2
unfolding find_empty_filp
piping = refl

piping_on : find_empty_filp (one_end 0 2 (piped copying)) ≡ some 3
unfolding find_empty_filp
piping_on = refl

pipe_ends-client_fds_example :
    TwoEnds 40 2 3
      (pipe_ends 40 0 (piped copying))
      (some 0 ∷ some 1 ∷ none ∷ none ∷ none ∷ none ∷ none ∷ none ∷ [])
unfolding vfs_findbypid
pipe_ends-client_fds_example =
    pipe_ends-client_fds 40 0 2 3 (piped copying) piped_task (piped_found copying) piping piping_on
      (omega arith)
