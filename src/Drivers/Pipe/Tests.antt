-- ===== src/Drivers/Pipe/Tests.antt =====
-- An open pipe, and two reads and a write through it.
use avros.Base.{ℕ, ◌≡◌, refl, List, [], ◌∷◌, inl, inr}
use avros.Kernel.State.{Pid}
use avros.Drivers.Message.{VfsMsg, VfsCmd, vfs_readc, vfs_writec}
use avros.Drivers.Pipe.{PdNode}
use avros.Drivers.Pipe.Transfers.{run, readers, written, pair_up, IsOpen}
use avros.Drivers.Pipe.Fifo.{run-pair_up, IsOneSided}

abbrev open_pipe : PdNode
open_pipe = record { refcnt = 2; links = 0; msgs = [] }

abbrev request : VfsCmd → Pid → ℕ → VfsMsg
request cmd client d = record { cmd = cmd; client = client; ino = 0; bnum = 0; data_of = d }

abbrev three_requests : List VfsMsg
three_requests = request vfs_readc 70 0 ∷ request vfs_writec 80 65 ∷ request vfs_readc 71 0 ∷ []

run-pair_up_example : (run three_requests open_pipe).0 ≡ (70, 65) ∷ []
unfolding readers written pair_up IsOpen IsOneSided
run-pair_up_example =
    run-pair_up three_requests open_pipe refl (inl tt) (inl refl, (inr refl, (inl refl, tt)))
