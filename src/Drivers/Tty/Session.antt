-- ===== src/Drivers/Tty/Session.antt =====
-- drivers/tty.c: requests and characters, one after the other.
use avros.Base.{
  ℕ, ◌≡◌, refl, Bool, true, false, ◌&&◌, Option, some, List, [], ◌∷◌, ◌++◌, append-nil, ltb, length,
  ap, sym, not, arith, if_false, ◌∙◌, ◌>>=◌,
}
use avros.Kernel.State.{Pid}
use avros.Drivers.Message.{
  VfsMsg, vfs_hold, vfs_readc, vfs_writec, vfs_rd_interrupt, vfs_wr_interrupt,
}
use avros.Drivers.Pipe.Transfers.{datas, pair_up}
use avros.Drivers.Pipe.Fifo.{pair_up-nil}
use avros.Drivers.Tty.{Tty, key, tty_key, tbuf_size, tty_usart0, usart_serve_read}
use avros.Drivers.Tty.Reads.{Shows, reads, chars, given, serve_read-Meets}
use avros.Drivers.Tty.Line.{line, edit, length-listing, key-Typed}

-- What the driver receives: a read, a write, a character in UDR0, and the end of a transmission.
pub data TtyEvent : Type 0 where
  asks : (msg : VfsMsg) → TtyEvent
  prints : (msg : VfsMsg) → TtyEvent
  types : (msg : VfsMsg) (c : ℕ) → TtyEvent
  sends : (msg : VfsMsg) → TtyEvent

-- The tasks that read, and the characters that are typed, in order.
unfoldable pub readers : List TtyEvent → List Pid
readers [] = []
readers (asks msg ∷ es) = msg.client ∷ readers es
readers (_ ∷ es) = readers es

unfoldable pub typed : List TtyEvent → List ℕ
typed [] = []
typed (types msg c ∷ es) = c ∷ typed es
typed (_ ∷ es) = typed es

-- What the keys give to the readers in the end, from a line on.
unfoldable pub edited : List ℕ → List ℕ → List ℕ
unfolding edit key
edited l [] = []
edited l (c ∷ cs) = let (out, l') = edit (key c) c l in out ++ edited l' cs

-- The buffer has room whenever a key comes.
unfoldable pub has_room : List ℕ → List ℕ → Bool
unfolding edit key
has_room l [] = true
has_room l (c ∷ cs) = ltb (length l) tbuf_size && has_room (edit (key c) c l).1 cs

-- What a pass gives to readers.
unfoldable pub pass : VfsMsg → TtyEvent → Tty → Option (List (Pid × ℕ) × Tty)
unfolding tty_usart0
pass garbage (asks msg) k =
    tty_usart0 vfs_readc garbage 0 (record msg { cmd = vfs_readc }) k >>= λ r.
    some (given r.0.1, r.1)
pass garbage (prints msg) k =
    tty_usart0 vfs_writec garbage 0 (record msg { cmd = vfs_writec }) k >>= λ r. some ([], r.1)
pass garbage (types msg c) k =
    tty_usart0 vfs_rd_interrupt garbage c (record msg { cmd = vfs_rd_interrupt }) k >>= λ r.
    some (datas r.0.0, r.1)
pass garbage (sends msg) k =
    tty_usart0 vfs_wr_interrupt garbage 0 (record msg { cmd = vfs_wr_interrupt }) k >>= λ r.
    some ([], r.1)

unfoldable pub run : VfsMsg → List TtyEvent → Tty → Option (List (Pid × ℕ))
unfolding pass
run garbage [] k = some []
run garbage (e ∷ es) k = pass garbage e k >>= λ r. run garbage es r.1 >>= λ rest. some (r.0 ++ rest)

pair_up-Shows :
    (q : List VfsMsg) (ps : List Pid) (ds : List ℕ)
    → Shows q ps ds
    → pair_up (ps ++ []) (ds ++ []) ≡ []
unfolding pair_up
pair_up-Shows q _ _ (reads _ all) = rw (append-nil _) (pair_up-nil _)
pair_up-Shows q _ _ (chars _ all) = refl

and_both : (a b : Bool) → (a && b) ≡ true → (a ≡ true) × (b ≡ true)
and_both true b h = (refl, h)
and_both false b h = absurd (ground arith)

-- A character that the line editor takes.
pass-types :
    (garbage msg : VfsMsg) (c : ℕ) (k : Tty) (r : List VfsMsg × Tty)
    → k.ttymode ≡ true
    → tty_key (key c) garbage c k ≡ some r
    → pass garbage (types msg c) k ≡ some (datas r.0, r.1)
unfolding pass tty_usart0
pass-types g msg c k r mode e =
    let m = record msg { cmd = vfs_rd_interrupt; ino = c } in
    ap (λ (o : Option ((List VfsMsg × VfsMsg) × Tty)). o >>= λ r. some (datas r.0.0, r.1))
      (if_false (not k.ttymode) _ _ (ap not mode)
        ∙ ap (λ o. o >>= λ r. some ((r.0, record m { cmd = vfs_hold }), r.1)) e)

-- What comes after a pass that gave `pairs`.
then_some :
    (pairs l : List (Pid × ℕ)) (rest : Option (List (Pid × ℕ)))
    → rest ≡ some l
    → (rest >>= λ r. some (pairs ++ r)) ≡ some (pairs ++ l)
then_some pairs l rest = ap (λ o. o >>= λ r. some (pairs ++ r))

-- The terminal in its usual mode, whose queue of reads shows `ps` and `ds`, gives the characters
-- `ds` and then those of the edited lines to the readers, the n-th to the n-th read, whatever is
-- written in between, if the buffer has room whenever a key comes.
pub run-edited :
    (garbage : VfsMsg) (es : List TtyEvent) (k : Tty) (ps : List Pid) (ds : List ℕ)
    → Shows k.rd_q ps ds
    → k.ttymode ≡ true
    → has_room (line k) (typed es) ≡ true
    → run garbage es k ≡ some (pair_up (ps ++ readers es) (ds ++ edited (line k) (typed es)))
unfolding run readers typed edited has_room pass tty_usart0
run-edited g [] k ps ds shows mode room = ap some (sym (pair_up-Shows k.rd_q ps ds shows))
run-edited g (asks msg ∷ es) k ps ds shows mode room =
    let r = usart_serve_read vfs_rd_interrupt (record msg { cmd = vfs_readc }) k.rd_q in
    let m = serve_read-Meets msg k.rd_q ps ds shows in
    then_some (given r.0) _ _
      (run-edited g es (record k { rd_q = r.1 }) m.readers_left m.chars_left m.shows mode room)
    ∙ ap some (m.pairs (readers es) (edited (line k) (typed es)))
run-edited g (prints msg ∷ es) k ps ds shows mode room =
    then_some [] _ _ (run-edited g es _ ps ds shows mode room)
run-edited g (sends msg ∷ es) k ps ds shows mode room =
    then_some [] _ _ (run-edited g es _ ps ds shows mode room)
run-edited g (types msg c ∷ es) k ps ds shows mode room =
    let rooms = and_both (ltb (length (line k)) tbuf_size) _ room in
    let here = ap (λ n. ltb n tbuf_size) (sym (length-listing k.tbuf 0 k.idx)) ∙ rooms.0 in
    let (r, (e, t)) = key-Typed g (key c) c k ps ds shows here in
    let m = t.meets in
    let later = (edit (key c) c (line k)).1 in
    ap (λ o. o >>= λ r. run g es r.1 >>= λ rest. some (r.0 ++ rest)) (pass-types g msg c k r mode e)
    ∙ then_some (datas r.0) _ _ (
        run-edited g es r.1 m.readers_left m.chars_left m.shows (t.same_mode ∙ mode)
          (ap (λ l. has_room l (typed es)) t.line_after ∙ rooms.1))
    ∙ ap
        (λ l. some (
          datas r.0
          ++ pair_up (m.readers_left ++ readers es) (m.chars_left ++ edited l (typed es))))
        t.line_after
    ∙ ap some (m.pairs (readers es) (edited later (typed es)))
