-- ===== src/Drivers/Tty/Reads.antt =====
-- drivers/tty.c: the readers and the characters in the queue of reads.
use avros.Base.{
  ℕ, zero, suc, ◌+◌, ◌≡◌, refl, List, [], ◌∷◌, ◌++◌, append_assoc, if◌then◌else◌, if_true, if_false,
  ap, ap₂, sym, ◌∙◌, subst,
}
use avros.Kernel.State.{Pid}
use avros.Queue.{null}
use avros.Drivers.Message.{VfsMsg, vfs_hold, vfs_final, vfs_repeat, vfs_rd_interrupt, vfs_readc}
use avros.Drivers.Pipe.Transfers.{pair_up, AllOf, AllOf-end, datas}
use avros.Drivers.Tty.{same_cmd, usart_serve_read, usart_reply_char, flush_loop}
use avros.Drivers.Ramdisk.{char_int}

abbrev clients : List VfsMsg → List Pid
clients [] = []
clients (c ∷ cs) = c.client ∷ clients cs

abbrev characters : List VfsMsg → List ℕ
characters [] = []
characters (c ∷ cs) = c.ino ∷ characters cs

-- The queue holds the reads of these tasks, which wait, or these characters, which came.
pub data Shows : List VfsMsg → List Pid → List ℕ → Type 0 where
  reads : (q : List VfsMsg) → AllOf vfs_readc q → Shows q (clients q) []
  chars : (q : List VfsMsg) → AllOf vfs_rd_interrupt q → Shows q [] (characters q)

-- What an answer gives to a reader.
abbrev pub given : VfsMsg → List (Pid × ℕ)
given m = if same_cmd m.cmd vfs_hold then [] else (m.client, m.data_of) ∷ []

clients-end :
    (q : List VfsMsg) (m : VfsMsg) (ps : List Pid)
    → clients (q ++ m ∷ []) ++ ps ≡ clients q ++ m.client ∷ ps
clients-end [] m ps = refl
clients-end (c ∷ q) m ps = ap (λ l. c.client ∷ l) (clients-end q m ps)

characters-end :
    (q : List VfsMsg) (m : VfsMsg) (ds : List ℕ)
    → characters (q ++ m ∷ []) ++ ds ≡ characters q ++ m.ino ∷ ds
characters-end [] m ds = refl
characters-end (c ∷ q) m ds = ap (λ l. c.ino ∷ l) (characters-end q m ds)

-- What becomes of a queue that shows `ps` and `ds` when the readers `ps1` and the characters `ds1`
-- come: what is given now comes before what the rest gives.
pub record Meets (gives : List (Pid × ℕ)) (q : List VfsMsg) (ps ps1 : List Pid) (ds ds1 : List ℕ)
    : Type 0 where
  pub readers_left : List Pid
  pub chars_left : List ℕ
  pub shows : Shows q readers_left chars_left
  pub pairs :
      (rs : List Pid) (cs : List ℕ)
      → gives ++ pair_up (readers_left ++ rs) (chars_left ++ cs)
        ≡ pair_up (ps ++ (ps1 ++ rs)) (ds ++ (ds1 ++ cs))

pub serve_read-Meets :
    (m : VfsMsg) (q : List VfsMsg) (ps : List Pid) (ds : List ℕ)
    → Shows q ps ds
    → let r = usart_serve_read vfs_rd_interrupt (record m { cmd = vfs_readc }) q in
      Meets (given r.0) r.1 ps (m.client ∷ []) ds []
unfolding usart_serve_read pair_up
serve_read-Meets m _ _ _ (reads [] all) = record {
  readers_left = m.client ∷ [];
  chars_left = [];
  shows = reads (record m { cmd = vfs_readc } ∷ []) (refl, tt);
  pairs = λ rs cs. refl;
}
serve_read-Meets m _ _ _ (chars [] all) = record {
  readers_left = m.client ∷ [];
  chars_left = [];
  shows = reads (record m { cmd = vfs_readc } ∷ []) (refl, tt);
  pairs = λ rs cs. refl;
}
serve_read-Meets m _ _ _ (reads (c ∷ q) all) =
    let asked = record m { cmd = vfs_readc } in
    let held : usart_serve_read vfs_rd_interrupt asked (c ∷ q)
        ≡ (record m { cmd = vfs_hold }, c ∷ (q ++ asked ∷ [])) =
      if_false (same_cmd c.cmd vfs_rd_interrupt) _ _
        (ap (λ x. same_cmd x vfs_rd_interrupt) all.0) in
    subst (λ r. Meets (given r.0) r.1 (clients (c ∷ q)) (m.client ∷ []) [] []) (sym held)
      (record {
        readers_left = clients (c ∷ (q ++ asked ∷ []));
        chars_left = [];
        shows = reads (c ∷ (q ++ asked ∷ [])) (AllOf-end vfs_readc (c ∷ q) asked all refl);
        pairs = λ rs cs. ap (λ l. pair_up l cs) (clients-end (c ∷ q) asked rs);
      })
serve_read-Meets m _ _ _ (chars (c ∷ q) all) =
    let asked = record m { cmd = vfs_readc } in
    let answer = record m { client = m.client; data_of = c.ino; bnum = 0; cmd = vfs_final } in
    let met : usart_serve_read vfs_rd_interrupt asked (c ∷ q) ≡ (answer, q) =
      if_true (same_cmd c.cmd vfs_rd_interrupt) _ _ (ap (λ x. same_cmd x vfs_rd_interrupt) all.0) in
    subst (λ r. Meets (given r.0) r.1 [] (m.client ∷ []) (characters (c ∷ q)) []) (sym met)
      (record {
        readers_left = [];
        chars_left = characters q;
        shows = chars q all.1;
        pairs = λ rs cs. refl;
      })

-- What a character does to the queue, with the messages that are sent for it.
reply_char-waits :
    (garbage : VfsMsg) (d : ℕ) (c : VfsMsg) (q : List VfsMsg)
    → c.cmd ≡ vfs_readc
    → usart_reply_char garbage d (c ∷ q)
      ≡ (record c { cmd = vfs_repeat; ino = d; bnum = 0; data_of = d } ∷ [], q)
unfolding usart_reply_char
reply_char-waits g d c q e =
    let msg = record g { cmd = vfs_rd_interrupt; client = null; ino = d } in
    let answer = record msg { client = c.client; data_of = d; bnum = 0; cmd = vfs_final } in
    ap
      (λ (r : VfsMsg × List VfsMsg).
        (if same_cmd r.0.cmd vfs_hold then [] else record r.0 { cmd = vfs_repeat } ∷ [], r.1))
      (if_true (same_cmd c.cmd vfs_readc) (answer, q) _ (ap (λ x. same_cmd x vfs_readc) e))

reply_char-comes :
    (garbage : VfsMsg) (d : ℕ) (c : VfsMsg) (q : List VfsMsg)
    → c.cmd ≡ vfs_rd_interrupt
    → usart_reply_char garbage d (c ∷ q)
      ≡ ([], c ∷ (q ++ record garbage { cmd = vfs_rd_interrupt; client = null; ino = d } ∷ []))
unfolding usart_reply_char
reply_char-comes g d c q e =
    let msg = record g { cmd = vfs_rd_interrupt; client = null; ino = d } in
    ap
      (λ (r : VfsMsg × List VfsMsg).
        (if same_cmd r.0.cmd vfs_hold then [] else record r.0 { cmd = vfs_repeat } ∷ [], r.1))
      (if_false (same_cmd c.cmd vfs_readc) _ (record msg { cmd = vfs_hold }, c ∷ (q ++ msg ∷ []))
        (ap (λ x. same_cmd x vfs_readc) e))

pub reply_char-Meets :
    (garbage : VfsMsg) (d : ℕ) (q : List VfsMsg) (ps : List Pid) (ds : List ℕ)
    → Shows q ps ds
    → let r = usart_reply_char garbage d q in Meets (datas r.0) r.1 ps [] ds (d ∷ [])
unfolding usart_reply_char pair_up
reply_char-Meets g d _ _ _ (reads [] all) = record {
  readers_left = [];
  chars_left = d ∷ [];
  shows = chars (record g { cmd = vfs_rd_interrupt; client = null; ino = d } ∷ []) (refl, tt);
  pairs = λ rs cs. refl;
}
reply_char-Meets g d _ _ _ (chars [] all) = record {
  readers_left = [];
  chars_left = d ∷ [];
  shows = chars (record g { cmd = vfs_rd_interrupt; client = null; ino = d } ∷ []) (refl, tt);
  pairs = λ rs cs. refl;
}
reply_char-Meets g d _ _ _ (reads (c ∷ q) all) =
    subst (λ r. Meets (datas r.0) r.1 (clients (c ∷ q)) [] [] (d ∷ []))
      (sym (reply_char-waits g d c q all.0))
      (record {
        readers_left = clients q;
        chars_left = [];
        shows = reads q all.1;
        pairs = λ rs cs. refl;
      })
reply_char-Meets g d _ _ _ (chars (c ∷ q) all) =
    let msg = record g { cmd = vfs_rd_interrupt; client = null; ino = d } in
    subst (λ r. Meets (datas r.0) r.1 [] [] (characters (c ∷ q)) (d ∷ []))
      (sym (reply_char-comes g d c q all.0))
      (record {
        readers_left = [];
        chars_left = characters (c ∷ (q ++ msg ∷ []));
        shows = chars (c ∷ (q ++ msg ∷ [])) (AllOf-end vfs_rd_interrupt (c ∷ q) msg all refl);
        pairs = λ rs cs. ap (pair_up rs) (characters-end (c ∷ q) msg cs);
      })

datas-append : (a b : List VfsMsg) → datas (a ++ b) ≡ datas a ++ datas b
datas-append [] b = refl
datas-append (m ∷ a) b = ap (λ l. (m.client, m.data_of) ∷ l) (datas-append a b)

-- One after the other.
pub Meets-then :
    {g1 g2 : List (Pid × ℕ)} {q1 q2 : List VfsMsg} (ps ps1 ps2 : List Pid) (ds ds1 ds2 : List ℕ)
    → (first : Meets g1 q1 ps ps1 ds ds1) → Meets g2 q2 first.readers_left ps2 first.chars_left ds2
    → Meets (g1 ++ g2) q2 ps (ps1 ++ ps2) ds (ds1 ++ ds2)
Meets-then {g1 = g1} {g2 = g2} ps ps1 ps2 ds ds1 ds2 first rest = record {
  readers_left = rest.readers_left;
  chars_left = rest.chars_left;
  shows = rest.shows;
  pairs = λ rs cs.
      append_assoc g1 g2 (pair_up (rest.readers_left ++ rs) (rest.chars_left ++ cs))
      ∙ ap (λ l. g1 ++ l) (rest.pairs rs cs)
      ∙ first.pairs (ps2 ++ rs) (ds2 ++ cs)
      ∙ ap₂ (λ p d. pair_up (ps ++ p) (ds ++ d)) (sym (append_assoc ps1 ps2 rs))
          (sym (append_assoc ds1 ds2 cs));
}

-- The characters of a buffer, from a place on, as the numbers that readers get.
unfoldable pub listing : (ℕ → ℕ) → ℕ → ℕ → List ℕ
listing buf i zero = []
listing buf i (suc n) = buf i ∷ listing buf (i + 1) n

unfoldable pub as_ints : List ℕ → List ℕ
as_ints [] = []
as_ints (c ∷ cs) = char_int c ∷ as_ints cs

pub flush_loop-Meets :
    (garbage : VfsMsg) (buf : ℕ → ℕ) (n i : ℕ) (q : List VfsMsg) (ps : List Pid) (ds : List ℕ)
    → Shows q ps ds
    → let r = flush_loop garbage buf n i q in
      Meets (datas r.0) r.1 ps [] ds (as_ints (listing buf i n))
unfolding flush_loop as_ints listing
flush_loop-Meets g buf zero i q ps ds shows = record {
  readers_left = ps;
  chars_left = ds;
  shows = shows;
  pairs = λ rs cs. refl;
}
flush_loop-Meets g buf (suc n) i q ps ds shows =
    let r = usart_reply_char g (char_int (buf i)) q in
    let first = reply_char-Meets g (char_int (buf i)) q ps ds shows in
    let rest =
      flush_loop-Meets g buf n (i + 1) r.1 first.readers_left first.chars_left first.shows in
    let r2 = flush_loop g buf n (i + 1) r.1 in
    subst (λ l. Meets l r2.1 ps [] ds (as_ints (listing buf i (suc n))))
      (sym (datas-append r.0 r2.0))
      (Meets-then ps [] [] ds (char_int (buf i) ∷ []) (as_ints (listing buf (i + 1) n)) first rest)
