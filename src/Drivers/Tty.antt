-- ===== src/Drivers/Tty.antt =====
-- drivers/tty.c: the terminal, from the messages of the file server to the register UDR0. The
-- queues are the lists of the requests in their containers; the heap is taken to have memory,
-- which the code does not test. `Line` is about the line
-- that is typed, `Reads` about who reads it, `Session` about both over many requests.
mod Line
mod Reads
mod Session
mod Tests
use avros.Base.{
  ℕ, zero, suc, ◌+◌, ◌-◌, ◌%◌, Bool, true, false, ◌||◌, not, Option, none, some, List, [], ◌∷◌,
  ◌++◌, ◌==◌, ltb, if◌then◌else◌, update, ◌>>=◌,
}
use avros.Queue.{null}
use avros.Drivers.Message.{
  VfsCmd, VfsMsg, cmd_code, minus_one, vfs_hold, vfs_repeat, vfs_final, vfs_rd_interrupt,
  vfs_wr_interrupt, vfs_readc, vfs_writec,
}
use avros.Drivers.Ramdisk.{char_int}

abbrev pub same_cmd : VfsCmd → VfsCmd → Bool
same_cmd a b = cmd_code a == cmd_code b

-- `interrupt.data` is the first word of the union.
abbrev pub interrupt_data : VfsMsg → ℕ
interrupt_data msg = msg.ino

-- A read request meets a character that came, or a character a request that waits; else it is
-- kept. The answer and the queue.
unfoldable pub usart_serve_read : VfsCmd → VfsMsg → List VfsMsg → VfsMsg × List VfsMsg
usart_serve_read served msg [] = (record msg { cmd = vfs_hold }, msg ∷ [])
usart_serve_read served msg (c ∷ cs) =
    let i = same_cmd msg.cmd vfs_rd_interrupt in
    if same_cmd c.cmd served
    then (
      record msg {
        client = (if i then c else msg).client;
        data_of = interrupt_data (if i then msg else c);
        bnum = 0;
        cmd = vfs_final;
      },
      cs,
    )
    else (record msg { cmd = vfs_hold }, c ∷ (cs ++ msg ∷ []))

-- The same for writes, and the bytes that are written to UDR0.
unfoldable pub usart0_serve_write : VfsCmd → VfsMsg → List VfsMsg → (List ℕ × VfsMsg) × List VfsMsg
usart0_serve_write served msg [] = (([], record msg { cmd = vfs_hold }), msg ∷ [])
usart0_serve_write served msg (c ∷ cs) =
    let m = if same_cmd msg.cmd vfs_wr_interrupt then c else msg in
    if same_cmd c.cmd served
    then ((m.data_of % 256 ∷ [], record msg { client = m.client; bnum = 0; cmd = vfs_final }), cs)
    else (([], record msg { cmd = vfs_hold }), c ∷ (cs ++ msg ∷ []))

-- The words of a message of its own that the code does not write are those of `garbage`.
unfoldable pub usart0_print_char : VfsMsg → ℕ → List VfsMsg → List ℕ × List VfsMsg
unfolding usart0_serve_write
usart0_print_char garbage c wr_q =
    let msg = record garbage { cmd = vfs_writec; client = null; data_of = c } in
    let ((bytes, _), q) = usart0_serve_write vfs_wr_interrupt msg wr_q in (bytes, q)

-- The message to the file server, if a request waits.
unfoldable pub usart_reply_char : VfsMsg → ℕ → List VfsMsg → List VfsMsg × List VfsMsg
unfolding usart_serve_read
usart_reply_char garbage c rd_q =
    let msg = record garbage { cmd = vfs_rd_interrupt; client = null; ino = c } in
    let (answer, q) = usart_serve_read vfs_readc msg rd_q in
    (if same_cmd answer.cmd vfs_hold then [] else record answer { cmd = vfs_repeat } ∷ [], q)

unfoldable pub flush_loop : VfsMsg → (ℕ → ℕ) → ℕ → ℕ → List VfsMsg → List VfsMsg × List VfsMsg
unfolding usart_reply_char
flush_loop garbage buf zero i rd_q = ([], rd_q)
flush_loop garbage buf (suc rounds) i rd_q =
    let (sent, q) = usart_reply_char garbage (char_int (buf i)) rd_q in
    let (rest, q') = flush_loop garbage buf rounds (i + 1) q in (sent ++ rest, q')

-- The variables of `tty_usart0`, and the bytes that were written to UDR0.
pub record Tty : Type 0 where
  pub rd_q : List VfsMsg
  pub wr_q : List VfsMsg
  pub tbuf : ℕ → ℕ
  pub idx : ℕ
  pub ttymode : Bool
  pub udr : List ℕ

abbrev pub tbuf_size : ℕ
tbuf_size = 128

unfoldable pub tty_flush : VfsMsg → Tty → List VfsMsg × Tty
unfolding flush_loop
tty_flush garbage k =
    let (sent, q) = flush_loop garbage k.tbuf k.idx 0 k.rd_q in
    (sent, record k { rd_q = q; idx = 0 })

-- `usart0_print_char(&wr_q, c)`
unfoldable pub print_char : VfsMsg → ℕ → Tty → Tty
unfolding usart0_print_char
print_char garbage c k =
    let (bytes, q) = usart0_print_char garbage c k.wr_q in
    record k { wr_q = q; udr = k.udr ++ bytes }

-- `tbuf[idx++] = c`; no result if that is behind the buffer, which the code does not test.
unfoldable pub put_char : ℕ → Tty → Option Tty
put_char c k =
    if ltb k.idx tbuf_size
    then some (record k { tbuf = update k.tbuf k.idx (c % 256); idx = k.idx + 1 })
    else none

-- The cases of the switch on a character.
pub data Key : Type 0 where
  ctrl_d ctrl_c backspace newline plain : Key

unfoldable pub key : ℕ → Key
key c =
    if c == 0x04
    then ctrl_d
    else if c == 0x03
    then ctrl_c
    else if c == 0x08
    then backspace
    else if (c == 13) || (c == 10)
    then newline
    else plain

-- What is sent for a character in the mode of a terminal, and the state.
unfoldable pub tty_key : Key → VfsMsg → ℕ → Tty → Option (List VfsMsg × Tty)
unfolding tty_flush print_char put_char usart_reply_char
tty_key ctrl_d garbage c k =
    let (sent, q) = usart_reply_char garbage minus_one k.rd_q in
    some (
      if k.idx == 0
      then (sent, record k { rd_q = q })
      else tty_flush garbage (print_char garbage 10 k))
tty_key ctrl_c garbage c k = some ([], print_char garbage 10 (record k { idx = 0 }))
tty_key backspace garbage c k = some ([], if k.idx == 0 then k else record k { idx = k.idx - 1 })
tty_key newline garbage c k = put_char c k >>= λ k1. some (tty_flush garbage k1)
tty_key plain garbage c k = put_char c k >>= λ k1. some ([], k1)

-- A pass of the loop of `tty_usart0` after `receive`, with what UDR0 holds: what is sent before
-- the answer, and the answer.
unfoldable pub tty_usart0 :
    VfsCmd → VfsMsg → ℕ → VfsMsg → Tty → Option ((List VfsMsg × VfsMsg) × Tty)
unfolding usart_serve_read usart0_serve_write key tty_key
tty_usart0 vfs_readc garbage udr0 msg k =
    let (answer, q) = usart_serve_read vfs_rd_interrupt msg k.rd_q in
    some (([], answer), record k { rd_q = q })
tty_usart0 vfs_writec garbage udr0 msg k =
    let ((bytes, answer), q) = usart0_serve_write vfs_wr_interrupt msg k.wr_q in
    some (([], answer), record k { wr_q = q; udr = k.udr ++ bytes })
tty_usart0 vfs_rd_interrupt garbage udr0 msg k =
    let m = record msg { ino = udr0 } in
    let (answer, q) = usart_serve_read vfs_readc m k.rd_q in
    if not k.ttymode
    then some (([], answer), record k { rd_q = q })
    else (tty_key (key udr0) garbage udr0 k >>= λ r. some ((r.0, record m { cmd = vfs_hold }), r.1))
tty_usart0 vfs_wr_interrupt garbage udr0 msg k =
    let ((bytes, answer), q) = usart0_serve_write vfs_writec msg k.wr_q in
    some (([], answer), record k { wr_q = q; udr = k.udr ++ bytes })
tty_usart0 _ garbage udr0 msg k = some (([], msg), k)

-- What `tty_usart0` sets up before its loop, on the memory of the buffer.
unfoldable pub tty_start : (ℕ → ℕ) → Tty
tty_start memory = record { rd_q = []; wr_q = []; tbuf = memory; idx = 0; ttymode = true; udr = [] }
