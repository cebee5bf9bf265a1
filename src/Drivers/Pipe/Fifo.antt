-- ===== src/Drivers/Pipe/Fifo.antt =====
-- The data that goes through a pipe of drivers/pipe.c while both its ends are open.
use avros.Base.{
  ℕ, ◌≡◌, refl, false, List, [], ◌∷◌, ◌++◌, append_assoc, append-nil, ◌==◌, ==_refl, if◌then◌else◌,
  ap, ap₂, sym, ◌∙◌, subst, ◌⊎◌, inl, inr,
}
use avros.Kernel.State.{Pid}
use avros.Drivers.Message.{VfsCmd, VfsMsg, cmd_code, vfs_readc, vfs_writec}
use avros.Drivers.Pipe.{PdNode, Sent, held, pd_meet, pd_rw}
use avros.Drivers.Pipe.Transfers.{
  readers, written, pair_up, passed, run, AllOf, AreRw, readers-append, written-append,
  readers_write, readers_read, written_write, written_read, readers-writes, written-reads,
  AllOf-end, IsOpen,
}

rw_held :
    (cmd : VfsCmd) (q : List VfsMsg) (r : VfsMsg) (n : PdNode)
    → IsOpen n
    → AllOf cmd q
    → r.cmd ≡ cmd
    → pd_rw q r n ≡ held r n
unfolding pd_rw IsOpen
rw_held cmd [] r n o a e = rw o refl
rw_held cmd (c ∷ cs) r n o a e =
    ap₂ (λ x y. if cmd_code x == cmd_code y then held r n else pd_meet x r c cs n) a.0 e
    ∙ rw (==_refl (cmd_code cmd)) refl

rw_meets :
    (x y : VfsCmd) (c r : VfsMsg) (cs : List VfsMsg) (n : PdNode)
    → c.cmd ≡ x
    → r.cmd ≡ y
    → (cmd_code x == cmd_code y) ≡ false
    → pd_rw (c ∷ cs) r n ≡ pd_meet x r c cs n
unfolding pd_rw
rw_meets x y c r cs n e f ne =
    ap₂ (λ x y. if cmd_code x == cmd_code y then held r n else pd_meet x r c cs n) e f ∙ rw ne refl

pub pair_up-nil : (ps : List Pid) → pair_up ps [] ≡ []
unfolding pair_up
pair_up-nil [] = refl
pair_up-nil (p ∷ ps) = refl

passed-held :
    (r : VfsMsg) (n : PdNode)
    → (r.cmd ≡ vfs_readc) ⊎ (r.cmd ≡ vfs_writec)
    → passed r.cmd (held r n).0 ≡ []
passed-held r n (inl e) = ap (λ c. passed c (held r n).0) e
passed-held r n (inr e) = ap (λ c. passed c (held r n).0) e

run_step :
    (r : VfsMsg) (rs : List VfsMsg) (n : PdNode) (s : Sent × PdNode)
    → pd_rw n.msgs r n ≡ s
    → (run (r ∷ rs) n).0 ≡ passed r.cmd s.0 ++ (run rs s.1).0
unfolding run
run_step r rs n s e = ap (λ (s : Sent × PdNode). passed r.cmd s.0 ++ (run rs s.1).0) e

-- The pairs of the requests that wait and those to come.
abbrev pairs : List VfsMsg → List (Pid × ℕ)
pairs rs = pair_up (readers rs) (written rs)

pairs_meet_write :
    (c r : VfsMsg) (cs rs : List VfsMsg)
    → AllOf vfs_readc (c ∷ cs)
    → r.cmd ≡ vfs_writec
    → pairs (c ∷ cs ++ r ∷ rs) ≡ (c.client, r.data_of) ∷ pairs (cs ++ rs)
unfolding pair_up
pairs_meet_write c r cs rs a f =
    ap₂ pair_up
      (readers_read c (cs ++ r ∷ rs) a.0
        ∙ ap (λ l. c.client ∷ l)
            (readers-append cs (r ∷ rs)
              ∙ ap (λ l. readers cs ++ l) (readers_write r rs f)
              ∙ sym (readers-append cs rs)))
      (written_read c (cs ++ r ∷ rs) a.0
        ∙ written-append cs (r ∷ rs)
        ∙ ap (λ l. l ++ written (r ∷ rs)) (written-reads cs a.1)
        ∙ written_write r rs f
        ∙ ap (λ l. r.data_of ∷ l)
            (sym (written-append cs rs ∙ ap (λ l. l ++ written rs) (written-reads cs a.1))))

pairs_meet_read :
    (c r : VfsMsg) (cs rs : List VfsMsg)
    → AllOf vfs_writec (c ∷ cs)
    → r.cmd ≡ vfs_readc
    → pairs (c ∷ cs ++ r ∷ rs) ≡ (r.client, c.data_of) ∷ pairs (cs ++ rs)
unfolding pair_up
pairs_meet_read c r cs rs a f =
    ap₂ pair_up
      (readers_write c (cs ++ r ∷ rs) a.0
        ∙ readers-append cs (r ∷ rs)
        ∙ ap (λ l. l ++ readers (r ∷ rs)) (readers-writes cs a.1)
        ∙ readers_read r rs f
        ∙ ap (λ l. r.client ∷ l)
            (sym (readers-append cs rs ∙ ap (λ l. l ++ readers rs) (readers-writes cs a.1))))
      (written_write c (cs ++ r ∷ rs) a.0
        ∙ ap (λ l. c.data_of ∷ l)
            (written-append cs (r ∷ rs)
              ∙ ap (λ l. written cs ++ l) (written_read r rs f)
              ∙ sym (written-append cs rs)))

-- Only reads wait, or only writes.
unfoldable pub IsOneSided : PdNode → Type 0
IsOneSided n = AllOf vfs_readc n.msgs ⊎ AllOf vfs_writec n.msgs

by_holding :
    (cmd : VfsCmd) (r : VfsMsg) (rs : List VfsMsg) (n : PdNode)
    → IsOpen n
    → AllOf cmd n.msgs
    → r.cmd ≡ cmd
    → (r.cmd ≡ vfs_readc) ⊎ (r.cmd ≡ vfs_writec)
    → (run rs (held r n).1).0 ≡ pairs ((n.msgs ++ r ∷ []) ++ rs)
    → (run (r ∷ rs) n).0 ≡ pairs (n.msgs ++ r ∷ rs)
by_holding cmd r rs n o a e w ih =
    run_step r rs n (held r n) (rw_held cmd n.msgs r n o a e)
    ∙ ap (λ l. l ++ (run rs (held r n).1).0) (passed-held r n w)
    ∙ ih
    ∙ ap pairs (append_assoc n.msgs (r ∷ []) rs)

-- The theorem for the requests that come after.
abbrev Rest : List VfsMsg → Type 0
Rest rs = (n : PdNode) → IsOpen n → IsOneSided n → (run rs n).0 ≡ pairs (n.msgs ++ rs)

hold_read :
    (r : VfsMsg) (rs : List VfsMsg) (n : PdNode)
    → IsOpen n
    → AllOf vfs_readc n.msgs
    → r.cmd ≡ vfs_readc
    → Rest rs
    → (run (r ∷ rs) n).0 ≡ pairs (n.msgs ++ r ∷ rs)
unfolding IsOneSided IsOpen
hold_read r rs n o a e rest =
    by_holding vfs_readc r rs n o a e (inl e)
      (rest (held r n).1 o (inl (AllOf-end vfs_readc n.msgs r a e)))

hold_write :
    (r : VfsMsg) (rs : List VfsMsg) (n : PdNode)
    → IsOpen n
    → AllOf vfs_writec n.msgs
    → r.cmd ≡ vfs_writec
    → Rest rs
    → (run (r ∷ rs) n).0 ≡ pairs (n.msgs ++ r ∷ rs)
unfolding IsOneSided IsOpen
hold_write r rs n o a e rest =
    by_holding vfs_writec r rs n o a e (inr e)
      (rest (held r n).1 o (inr (AllOf-end vfs_writec n.msgs r a e)))

meet_write :
    (q : List VfsMsg) (r : VfsMsg) (rs : List VfsMsg) (n : PdNode)
    → n.msgs ≡ q
    → IsOpen n
    → AllOf vfs_readc q
    → r.cmd ≡ vfs_writec
    → Rest rs
    → (run (r ∷ rs) n).0 ≡ pairs (n.msgs ++ r ∷ rs)
unfolding IsOneSided IsOpen pd_meet
meet_write [] r rs n m o a e rest = hold_write r rs n o (subst (AllOf vfs_writec) (sym m) tt) e rest
meet_write (c ∷ cs) r rs n m o a e rest =
    run_step r rs n (pd_meet vfs_readc r c cs n)
      (ap (λ q. pd_rw q r n) m ∙ rw_meets vfs_readc vfs_writec c r cs n a.0 e refl)
    ∙ ap (λ x. passed x (pd_meet vfs_readc r c cs n).0 ++ (run rs (record n { msgs = cs })).0) e
    ∙ ap (λ l. (c.client, r.data_of) ∷ l) (rest (record n { msgs = cs }) o (inl a.1))
    ∙ sym (ap (λ q. pairs (q ++ r ∷ rs)) m ∙ pairs_meet_write c r cs rs a e)

meet_read :
    (q : List VfsMsg) (r : VfsMsg) (rs : List VfsMsg) (n : PdNode)
    → n.msgs ≡ q
    → IsOpen n
    → AllOf vfs_writec q
    → r.cmd ≡ vfs_readc
    → Rest rs
    → (run (r ∷ rs) n).0 ≡ pairs (n.msgs ++ r ∷ rs)
unfolding IsOneSided IsOpen pd_meet
meet_read [] r rs n m o a e rest = hold_read r rs n o (subst (AllOf vfs_readc) (sym m) tt) e rest
meet_read (c ∷ cs) r rs n m o a e rest =
    run_step r rs n (pd_meet vfs_writec r c cs n)
      (ap (λ q. pd_rw q r n) m ∙ rw_meets vfs_writec vfs_readc c r cs n a.0 e refl)
    ∙ ap (λ x. passed x (pd_meet vfs_writec r c cs n).0 ++ (run rs (record n { msgs = cs })).0) e
    ∙ ap
        (λ x.
          (if cmd_code x == 0 then [] else (r.client, c.data_of) ∷ [])
          ++ (run rs (record n { msgs = cs })).0)
        e
    ∙ ap (λ l. (r.client, c.data_of) ∷ l) (rest (record n { msgs = cs }) o (inr a.1))
    ∙ sym (ap (λ q. pairs (q ++ r ∷ rs)) m ∙ pairs_meet_read c r cs rs a e)

-- While both ends of a pipe are open, or it has a name, and only reads or only writes wait, what
-- any reads and writes give to the readers is this: the first reader gets what was written
-- first, the second what was written second, and so on, those that waited counted first.
pub run-pair_up :
    (rs : List VfsMsg) (n : PdNode)
    → IsOpen n
    → IsOneSided n
    → AreRw rs
    → (run rs n).0 ≡ pair_up (readers (n.msgs ++ rs)) (written (n.msgs ++ rs))
unfolding IsOneSided IsOpen run pair_up pd_meet
run-pair_up [] n o (inl a) w =
    sym (ap₂ pair_up refl (ap written (append-nil n.msgs) ∙ written-reads n.msgs a) ∙ pair_up-nil _)
run-pair_up [] n o (inr a) w = sym (
    ap (λ l. pair_up l (written (n.msgs ++ [])))
      (ap readers (append-nil n.msgs) ∙ readers-writes n.msgs a))
run-pair_up (r ∷ rs) n o (inl a) (inl e, w) =
    hold_read r rs n o a e (λ m p s. run-pair_up rs m p s w)
run-pair_up (r ∷ rs) n o (inr a) (inr e, w) =
    hold_write r rs n o a e (λ m p s. run-pair_up rs m p s w)
run-pair_up (r ∷ rs) n o (inl a) (inr e, w) =
    meet_write n.msgs r rs n refl o a e (λ m p s. run-pair_up rs m p s w)
run-pair_up (r ∷ rs) n o (inr a) (inl e, w) =
    meet_read n.msgs r rs n refl o a e (λ m p s. run-pair_up rs m p s w)
