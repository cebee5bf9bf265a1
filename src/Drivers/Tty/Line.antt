-- ===== src/Drivers/Tty/Line.antt =====
-- drivers/tty.c: the line that is typed.
use avros.Base.{
  ℕ, zero, suc, ◌+◌, ◌-◌, ◌%◌, ◌≡◌, refl, true, false, some, List, [], ◌∷◌, ◌++◌, arith, ◌≤◌, ◌==◌,
  ltb, length, if◌then◌else◌, if_true, if_elim, ==→eq, ==_refl, update, ap, ap₂, sym, ◌∙◌, subst,
  ◌>>=◌,
}
use avros.Drivers.Message.{VfsMsg, minus_one}
use avros.Drivers.Tty.{
  Tty, Key, ctrl_d, ctrl_c, backspace, newline, plain, tty_key, put_char, tty_flush, print_char,
  usart_reply_char, tbuf_size,
}
use avros.Kernel.State.{Pid}
use avros.Drivers.Pipe.Transfers.{datas}
use avros.Drivers.Tty.Reads.{Shows, Meets, reply_char-Meets, flush_loop-Meets, listing, as_ints}

-- The line that is typed so far.
abbrev pub line : Tty → List ℕ
line k = listing k.tbuf 0 k.idx

unfoldable pub drop_last : List ℕ → List ℕ
drop_last [] = []
drop_last (x ∷ []) = []
drop_last (x ∷ (y ∷ l)) = x ∷ drop_last (y ∷ l)

-- A line editor on lists: what a key gives to the readers, and the line after it.
unfoldable pub edit : Key → ℕ → List ℕ → List ℕ × List ℕ
unfolding drop_last as_ints
edit ctrl_d c [] = (minus_one ∷ [], [])
edit ctrl_d c (x ∷ l) = (as_ints (x ∷ l), [])
edit ctrl_c c l = ([], [])
edit backspace c l = ([], drop_last l)
edit newline c l = (as_ints (l ++ c % 256 ∷ []), [])
edit plain c l = ([], l ++ c % 256 ∷ [])

drop_last-end : (l : List ℕ) (x : ℕ) → drop_last (l ++ x ∷ []) ≡ l
unfolding drop_last
drop_last-end [] x = refl
drop_last-end (y ∷ []) x = refl
drop_last-end (y ∷ (z ∷ l)) x = ap (λ m. y ∷ m) (drop_last-end (z ∷ l) x)

listing-end : (buf : ℕ → ℕ) (i n : ℕ) → listing buf i (suc n) ≡ listing buf i n ++ buf (i + n) ∷ []
unfolding listing
listing-end buf i zero = ap (λ j. buf j ∷ []) (omega arith)
listing-end buf i (suc n) =
    ap (λ l. buf i ∷ l)
      (listing-end buf (i + 1) n ∙ ap (λ j. listing buf (i + 1) n ++ buf j ∷ []) (omega arith))

pub length-listing : (buf : ℕ → ℕ) (i n : ℕ) → length (listing buf i n) ≡ n
unfolding listing
length-listing buf i zero = refl
length-listing buf i (suc n) = ap suc (length-listing buf (i + 1) n)

-- A write behind the listing does not change it.
listing-update :
    (buf : ℕ → ℕ) (c i n j : ℕ) → i + n ≤ j → listing (update buf j c) i n ≡ listing buf i n
unfolding listing
listing-update buf c i zero j h = refl
listing-update buf c i (suc n) j h =
    let other : (j == i) ≡ false = ground arith in
    ap₂ ◌∷◌ (ap (λ b. if b then c else buf i) other)
      (listing-update buf c (i + 1) n j (omega (arith, h)))

-- A character at the end of the line.
listing-put :
    (buf : ℕ → ℕ) (c n : ℕ) → listing (update buf n c) 0 (n + 1) ≡ listing buf 0 n ++ c ∷ []
listing-put buf c n =
    let after : n + 1 ≡ suc n = omega arith in
    ap (listing (update buf n c) 0) after
    ∙ listing-end (update buf n c) 0 n
    ∙ ap₂ (λ l x. l ++ x ∷ []) (listing-update buf c 0 n n (omega arith))
        (ap (update buf n c) zero_left ∙ ap (λ b. if b then c else buf n) (==_refl n))
  where
    zero_left : 0 + n ≡ n
    zero_left = omega arith

listing-drop_last :
    (buf : ℕ → ℕ) (n : ℕ) → (n == 0) ≡ false → listing buf 0 (n - 1) ≡ drop_last (listing buf 0 n)
listing-drop_last buf zero e = absurd (ground arith)
listing-drop_last buf (suc n) e =
    let less : suc n - 1 ≡ n = omega arith in
    ap (listing buf 0) less
    ∙ sym (ap drop_last (listing-end buf 0 n) ∙ drop_last-end (listing buf 0 n) (buf (0 + n)))

edit-ctrl_d :
    (buf : ℕ → ℕ) (c n : ℕ)
    → (n == 0) ≡ false
    → edit ctrl_d c (listing buf 0 n) ≡ (as_ints (listing buf 0 n), [])
unfolding listing edit
edit-ctrl_d buf c zero e = absurd (ground arith)
edit-ctrl_d buf c (suc n) e = refl

-- What a key does to the terminal, if the buffer has room.
pub record Typed (k : Tty) (ps : List Pid) (ds : List ℕ) (e : List ℕ × List ℕ) (sent : List VfsMsg)
    (k' : Tty) : Type 0 where
  pub line_after : line k' ≡ e.1
  pub meets : Meets (datas sent) k'.rd_q ps [] ds e.0
  pub same_mode : k'.ttymode ≡ k.ttymode

-- A line that is given to the readers.
flush-Typed :
    (garbage : VfsMsg) (k0 k : Tty) (ps : List Pid) (ds : List ℕ) (l : List ℕ)
    → Shows k.rd_q ps ds
    → line k ≡ l
    → k.ttymode ≡ k0.ttymode
    → let r = tty_flush garbage k in Typed k0 ps ds (as_ints l, []) r.0 r.1
unfolding tty_flush listing
flush-Typed g k0 k ps ds l shows same mode = record {
  line_after = refl;
  meets =
      subst (λ l. Meets (datas (tty_flush g k).0) (tty_flush g k).1.rd_q ps [] ds (as_ints l)) same
        (flush_loop-Meets g k.tbuf k.idx 0 k.rd_q ps ds shows);
  same_mode = mode;
}

none-Typed :
    (k k' : Tty) (ps : List Pid) (ds l : List ℕ)
    → Shows k'.rd_q ps ds
    → line k' ≡ l
    → k'.ttymode ≡ k.ttymode
    → Typed k ps ds ([], l) [] k'
none-Typed k k' ps ds l shows same mode = record {
  line_after = same;
  meets = record { readers_left = ps; chars_left = ds; shows = shows; pairs = λ rs cs. refl };
  same_mode = mode;
}

no_line : (k : Tty) → (k.idx == 0) ≡ true → line k ≡ []
unfolding listing
no_line k e = ap (listing k.tbuf 0) (==→eq k.idx 0 e)

ctrl_d-Typed :
    (garbage : VfsMsg) (c : ℕ) (k : Tty) (ps : List Pid) (ds : List ℕ)
    → Shows k.rd_q ps ds
    → let r = usart_reply_char garbage minus_one k.rd_q in
      let m =
        if k.idx == 0
        then (r.0, record k { rd_q = r.1 })
        else tty_flush garbage (print_char garbage 10 k) in
      Typed k ps ds (edit ctrl_d c (line k)) m.0 m.1
unfolding edit print_char
ctrl_d-Typed g c k ps ds shows =
    let r = usart_reply_char g minus_one k.rd_q in
    let k1 = print_char g 10 k in
    if_elim (λ (m : List VfsMsg × Tty). Typed k ps ds (edit ctrl_d c (line k)) m.0 m.1) (k.idx == 0)
      (r.0, record k { rd_q = r.1 }) (tty_flush g k1)
      (λ e.
        subst (λ l. Typed k ps ds (edit ctrl_d c l) r.0 (record k { rd_q = r.1 }))
          (sym (no_line k e))
          (record {
            line_after = no_line k e;
            meets = reply_char-Meets g minus_one k.rd_q ps ds shows;
            same_mode = refl;
          }))
      λ e.
        subst (λ ed. Typed k ps ds ed (tty_flush g k1).0 (tty_flush g k1).1)
          (sym (edit-ctrl_d k.tbuf c k.idx e)) (flush-Typed g k k1 ps ds (line k) shows refl refl)

backspace-Typed :
    (c : ℕ) (k : Tty) (ps : List Pid) (ds : List ℕ)
    → Shows k.rd_q ps ds
    → Typed k ps ds
        (edit backspace c (line k))
        []
        (if k.idx == 0 then k else record k { idx = k.idx - 1 })
unfolding edit drop_last
backspace-Typed c k ps ds shows =
    if_elim (Typed k ps ds (edit backspace c (line k)) []) (k.idx == 0) k _
      (λ e. none-Typed k k ps ds _ shows (no_line k e ∙ sym (ap drop_last (no_line k e))) refl)
      λ e. none-Typed k _ ps ds _ shows (listing-drop_last k.tbuf k.idx e) refl

abbrev put : ℕ → Tty → Tty
put c k = record k { tbuf = update k.tbuf k.idx (c % 256); idx = k.idx + 1 }

put-room : (c : ℕ) (k : Tty) → ltb k.idx tbuf_size ≡ true → put_char c k ≡ some (put c k)
unfolding put_char
put-room c k room = if_true (ltb k.idx tbuf_size) _ _ room

pub key-Typed :
    (garbage : VfsMsg) (x : Key) (c : ℕ) (k : Tty) (ps : List Pid) (ds : List ℕ)
    → Shows k.rd_q ps ds
    → ltb k.idx tbuf_size ≡ true
    → (r : List VfsMsg × Tty) × ((tty_key x garbage c k ≡ some r)
        × Typed k ps ds (edit x c (line k)) r.0 r.1)
unfolding tty_key edit listing print_char
key-Typed g ctrl_d c k ps ds shows room = (_, (refl, ctrl_d-Typed g c k ps ds shows))
key-Typed g ctrl_c c k ps ds shows room =
    let k' = print_char g 10 (record k { idx = 0 }) in
    (([], k'), (refl, none-Typed k k' ps ds [] shows refl refl))
key-Typed g backspace c k ps ds shows room = (_, (refl, backspace-Typed c k ps ds shows))
key-Typed g newline c k ps ds shows room =
    let k1 = put c k in
    (
      tty_flush g k1,
      (
        ap (λ o. o >>= λ k2. some (tty_flush g k2)) (put-room c k room),
        flush-Typed g k k1 ps ds _ shows (listing-put k.tbuf (c % 256) k.idx) refl,
      ),
    )
key-Typed g plain c k ps ds shows room =
    let k1 = put c k in
    (
      ([], k1),
      (
        ap (λ o. o >>= λ k2. some ([], k2)) (put-room c k room),
        none-Typed k k1 ps ds _ shows (listing-put k.tbuf (c % 256) k.idx) refl,
      ),
    )
