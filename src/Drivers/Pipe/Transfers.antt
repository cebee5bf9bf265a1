-- ===== src/Drivers/Pipe/Transfers.antt =====
-- drivers/pipe.c: what a run of reads and writes passes on, by the requests.
use avros.Base.{
  ℕ, ◌≡◌, refl, Bool, true, false, ◌&&◌, List, [], ◌∷◌, ◌++◌, ◌==◌, if◌then◌else◌, ap, ◌∙◌, ◌⊎◌,
}
use avros.Kernel.State.{Pid}
use avros.Drivers.Message.{VfsCmd, VfsMsg, cmd_code, vfs_hold, vfs_readc, vfs_writec}
use avros.Drivers.Pipe.{PdNode, Sent, at_most_one, pd_rw}

abbrev pub is_read : VfsCmd → Bool
is_read vfs_readc = true
is_read _ = false

abbrev pub is_write : VfsCmd → Bool
is_write vfs_writec = true
is_write _ = false

-- The tasks that read, and the data that was written, in the order of the requests.
unfoldable pub readers : List VfsMsg → List Pid
readers [] = []
readers (r ∷ rs) = if is_read r.cmd then r.client ∷ readers rs else readers rs

unfoldable pub written : List VfsMsg → List ℕ
written [] = []
written (r ∷ rs) = if is_write r.cmd then r.data_of ∷ written rs else written rs

unfoldable pub pair_up : List Pid → List ℕ → List (Pid × ℕ)
pair_up (p ∷ ps) (d ∷ ds) = (p, d) ∷ pair_up ps ds
pair_up _ _ = []

abbrev pub datas : List VfsMsg → List (Pid × ℕ)
datas [] = []
datas (c ∷ cs) = (c.client, c.data_of) ∷ datas cs

-- What a pass gives to readers: the answer to a read that need not wait, and what is released by
-- a write.
abbrev pub passed : VfsCmd → Sent → List (Pid × ℕ)
passed vfs_readc sent =
    if cmd_code sent.1.cmd == cmd_code vfs_hold then [] else (sent.1.client, sent.1.data_of) ∷ []
passed _ sent = datas sent.0

-- Requests to read and write, one after the other: what readers get, and the node.
unfoldable pub run : List VfsMsg → PdNode → List (Pid × ℕ) × PdNode
run [] n = ([], n)
run (r ∷ rs) n =
    let s = pd_rw n.msgs r n in let rest = run rs s.1 in (passed r.cmd s.0 ++ rest.0, rest.1)

abbrev pub AllOf : VfsCmd → List VfsMsg → Type 0
AllOf cmd [] = Unit {0}
AllOf cmd (r ∷ rs) = (r.cmd ≡ cmd) × AllOf cmd rs

abbrev pub AreRw : List VfsMsg → Type 0
AreRw [] = Unit {0}
AreRw (r ∷ rs) = ((r.cmd ≡ vfs_readc) ⊎ (r.cmd ≡ vfs_writec)) × AreRw rs

cons_if :
    (x : ℕ) (b : Bool) (l m r : List ℕ)
    → l ≡ m ++ r
    → (if b then x ∷ l else l) ≡ (if b then x ∷ m else m) ++ r
cons_if x true l m r e = ap (λ l. x ∷ l) e
cons_if x false l m r e = e

pub readers-append : (xs ys : List VfsMsg) → readers (xs ++ ys) ≡ readers xs ++ readers ys
unfolding readers
readers-append [] ys = refl
readers-append (x ∷ xs) ys = cons_if x.client (is_read x.cmd) _ _ _ (readers-append xs ys)

pub written-append : (xs ys : List VfsMsg) → written (xs ++ ys) ≡ written xs ++ written ys
unfolding written
written-append [] ys = refl
written-append (x ∷ xs) ys = cons_if x.data_of (is_write x.cmd) _ _ _ (written-append xs ys)

pub readers_write :
    (r : VfsMsg) (rs : List VfsMsg) → r.cmd ≡ vfs_writec → readers (r ∷ rs) ≡ readers rs
unfolding readers
readers_write r rs e = ap (λ c. if is_read c then r.client ∷ readers rs else readers rs) e

pub readers_read :
    (r : VfsMsg) (rs : List VfsMsg) → r.cmd ≡ vfs_readc → readers (r ∷ rs) ≡ r.client ∷ readers rs
unfolding readers
readers_read r rs e = ap (λ c. if is_read c then r.client ∷ readers rs else readers rs) e

pub written_write :
    (r : VfsMsg) (rs : List VfsMsg) → r.cmd ≡ vfs_writec → written (r ∷ rs) ≡ r.data_of ∷ written rs
unfolding written
written_write r rs e = ap (λ c. if is_write c then r.data_of ∷ written rs else written rs) e

pub written_read :
    (r : VfsMsg) (rs : List VfsMsg) → r.cmd ≡ vfs_readc → written (r ∷ rs) ≡ written rs
unfolding written
written_read r rs e = ap (λ c. if is_write c then r.data_of ∷ written rs else written rs) e

pub readers-writes : (q : List VfsMsg) → AllOf vfs_writec q → readers q ≡ []
unfolding readers
readers-writes [] a = refl
readers-writes (r ∷ rs) a = readers_write r rs a.0 ∙ readers-writes rs a.1

pub written-reads : (q : List VfsMsg) → AllOf vfs_readc q → written q ≡ []
unfolding written
written-reads [] a = refl
written-reads (r ∷ rs) a = written_read r rs a.0 ∙ written-reads rs a.1

pub AllOf-end :
    (cmd : VfsCmd) (q : List VfsMsg) (r : VfsMsg)
    → AllOf cmd q
    → r.cmd ≡ cmd
    → AllOf cmd (q ++ r ∷ [])
AllOf-end cmd [] r a e = (e, tt)
AllOf-end cmd (x ∷ xs) r a e = (a.0, AllOf-end cmd xs r a.1 e)

-- Both ends are open, or the pipe has a name.
unfoldable pub IsOpen : PdNode → Type 0
IsOpen n = (at_most_one n.refcnt && (n.links == 0)) ≡ false
