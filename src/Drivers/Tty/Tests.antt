-- ===== src/Drivers/Tty/Tests.antt =====
-- A session at the terminal, and the theorem at it.
use avros.Base.{ℕ, ◌≡◌, refl, some, List, [], ◌∷◌}
use avros.Drivers.Message.{VfsMsg, vfs_hold}
use avros.Drivers.Pipe.Transfers.{pair_up}
use avros.Drivers.Tty.{tty_start, key}
use avros.Drivers.Tty.Reads.{reads, listing}
use avros.Drivers.Tty.Line.{edit, drop_last}
use avros.Drivers.Tty.Session.{
  TtyEvent, asks, prints, types, sends, run, readers, typed, edited, has_room, run-edited,
}

abbrev from : ℕ → VfsMsg
from client = record { cmd = vfs_hold; client = client; ino = 0; bnum = 0; data_of = 42 }

-- Two tasks read, and someone types two letters, a backspace, a letter and the end of the line.
abbrev session : List TtyEvent
session =
    asks (from 40)
    ∷ types (from 9) 97
    ∷ prints (from 40)
    ∷ types (from 9) 98
    ∷ types (from 9) 8
    ∷ sends (from 9)
    ∷ types (from 9) 99
    ∷ types (from 9) 10
    ∷ asks (from 41)
    ∷ []

run-edited_example : run (from 0) session (tty_start (λ a. 0)) ≡ some ((40, 97) ∷ (41, 99) ∷ [])
unfolding tty_start readers typed edited has_room key edit drop_last listing pair_up
run-edited_example = run-edited (from 0) session (tty_start (λ a. 0)) [] [] (reads [] tt) refl refl
