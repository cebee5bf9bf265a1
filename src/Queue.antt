-- ===== src/Queue.antt =====
-- lib/queue.c and lib/queue.h: doubly linked queues in memory. `Chain` says which list of items
-- a queue stands for; `Insert`, `Remove` and `Walk` relate the operations to lists.
pub mod Chain
pub mod Insert
pub mod Retarget
pub mod Remove
pub mod Walk
mod Tests
use avros.Base.{
  ℕ, zero, suc, Bool, true, false, ◌||◌, Option, none, some, ◌==◌, if◌then◌else◌, update,
}

abbrev pub Ptr : Type 0
Ptr = ℕ

abbrev pub null : Ptr
null = 0

-- The fields of the items and of the queue heads, by address. The microcontroller has no memory
-- protection: a read never faults.
pub record Mem : Type 0 where
  pub next : Ptr → Ptr
  pub prev : Ptr → Ptr
  pub head : Ptr → Ptr
  pub tail : Ptr → Ptr

abbrev pub set_next : Ptr → Ptr → Mem → Mem
set_next p v m = record m { next = update m.next p v }

abbrev pub set_prev : Ptr → Ptr → Mem → Mem
set_prev p v m = record m { prev = update m.prev p v }

abbrev pub set_head : Ptr → Ptr → Mem → Mem
set_head q v m = record m { head = update m.head q v }

abbrev pub set_tail : Ptr → Ptr → Mem → Mem
set_tail q v m = record m { tail = update m.tail q v }

unfoldable pub q_init : Ptr → Mem → Mem
q_init que m = if que == null then m else set_tail que null (set_head que null m)

-- The links of `q_front`, by the head that it reads, without the write to `que->head`.
unfoldable pub link_front : Ptr → Ptr → Ptr → Mem → Mem
link_front head que item m =
    if head == null
    then (let m1 = set_next item (m.tail que) m in
        let m2 = set_prev item (m1.head que) m1 in set_tail que item m2)
    else let m1 = set_next item head m in
      let m2 = set_prev item (m1.prev (m1.next item)) m1 in set_prev (m2.next item) item m2

unfoldable pub front_links : Ptr → Ptr → Mem → Mem
unfolding link_front
front_links que item m = link_front (m.head que) que item m

unfoldable pub q_front : Ptr → Ptr → Mem → Ptr × Mem
unfolding front_links
q_front que item m =
    if item == null || que == null
    then (null, m)
    else (item, set_head que item (front_links que item m))

-- The links of `q_end`, by the tail that it reads, without the write to `que->tail`.
unfoldable pub link_end : Ptr → Ptr → Ptr → Mem → Mem
link_end tail que item m =
    if tail == null
    then (let m1 = set_next item (m.tail que) m in
        let m2 = set_prev item (m1.head que) m1 in set_head que item m2)
    else let m1 = set_prev item tail m in
      let m2 = set_next item (m1.next (m1.prev item)) m1 in set_next (m2.prev item) item m2

unfoldable pub end_links : Ptr → Ptr → Mem → Mem
unfolding link_end
end_links que item m = link_end (m.tail que) que item m

unfoldable pub q_end : Ptr → Ptr → Mem → Ptr × Mem
unfolding end_links
q_end que item m =
    if item == null || que == null
    then (null, m)
    else (item, set_tail que item (end_links que item m))

-- The two halves of `q_remv`: around the item before, and around the item after.
unfoldable pub unlink_prev : Ptr → Ptr → Mem → Mem
unlink_prev que item m =
    if m.prev item == null
    then set_head que (m.next item) m
    else set_next (m.prev item) (m.next item) m

unfoldable pub unlink_next : Ptr → Ptr → Mem → Mem
unlink_next que item m =
    if m.next item == null
    then set_tail que (m.prev item) m
    else set_prev (m.next item) (m.prev item) m

unfoldable pub q_remv : Ptr → Ptr → Mem → Ptr × Mem
unfolding unlink_prev unlink_next
q_remv que item m =
    if item == null || que == null
    then (null, m)
    else (item, unlink_next que item (unlink_prev que item m))

-- `q_forall` over a state that holds the memory, as its callback may change all of it. The
-- rounds left are the fuel of the loop; `none` means that they ran out.
unfoldable pub forall_loop {ℓ} :
    {S : Type ℓ} → (S → Mem) → (Ptr → Ptr → S → Ptr × S) → Ptr → ℕ → Ptr → S → Option (Ptr × S)
forall_loop mem callback que zero it s = none
forall_loop mem callback que (suc fuel) it s =
    let (ret, s') = callback que it s in
    let rest = forall_loop mem callback que fuel ((mem s).next it) s' in
    if it == null then some (null, s) else if ret == null then rest else some (ret, s')

unfoldable pub q_forall {ℓ} :
    {S : Type ℓ} → (S → Mem) → (Ptr → Ptr → S → Ptr × S) → ℕ → Ptr → S → Option (Ptr × S)
unfolding forall_loop
q_forall mem callback fuel que s =
    if que == null then some (null, s) else forall_loop mem callback que fuel ((mem s).head que) s
