-- ===== src/Servers/Sema.antt =====
-- servers/sema.c: the semaphore server. `Spec` is the counting semaphore that it promises;
-- `Balance` and `Passes` are about one pass of its loop, `Run` about any number of them. A `cmd`
-- that the server does not know stands as `sema_error`, which it treats alike.
mod Spec
mod Balance
mod Passes
mod Run
mod Calls
mod Tests
use avros.Base.{
  ℕ, ◌+◌, ◌-◌, Bool, true, false, not, ◌||◌, Option, none, some, List, [], ◌∷◌, ◌++◌, ◌==◌,
  if◌then◌else◌, update, erase,
}
use avros.Kernel.State.{Pid, u16}
use avros.Queue.{Ptr, null}
use avros.Servers.Memory.{Memory}

-- The sizes of `client_t` and `sema_t`.
abbrev sizeof_client : ℕ
sizeof_client = 6

abbrev sizeof_sema : ℕ
sizeof_sema = 10

pub record Sema : Type 0 where
  pub value : ℕ
  pub client_q : List Ptr

pub data SemaCmd : Type 0 where
  sema_error sema_create sema_delete sema_wait sema_signal sema_get : SemaCmd

pub record SemaMsg : Type 0 where
  pub sema : Ptr
  pub cmd : SemaCmd
  pub val : ℕ

-- The queue of the semaphores, the semaphores, the pids of the waiting clients' items, and the
-- heap.
pub record SemaSrv (H : Type 0) : Type 0 where
  pub sema_q : List Ptr
  pub semas : Ptr → Sema
  pub pids : Ptr → Pid
  pub heap : H

abbrev pub q_first : List Ptr → Ptr
q_first [] = null
q_first (x ∷ _) = x

module _ {H : Type 0} where
  abbrev pub value_of : SemaSrv H → Ptr → ℕ
  value_of k s = (k.semas s).value

  abbrev pub queue_of : SemaSrv H → Ptr → List Ptr
  queue_of k s = (k.semas s).client_q

  abbrev pub set_value : Ptr → ℕ → SemaSrv H → SemaSrv H
  set_value s v k = record k { semas = update k.semas s (record (k.semas s) { value = v }) }

  abbrev pub set_queue : Ptr → List Ptr → SemaSrv H → SemaSrv H
  set_queue s q k = record k { semas = update k.semas s (record (k.semas s) { client_q = q }) }

  unfoldable pub decreasesema : Ptr → SemaSrv H → ℕ × SemaSrv H
  decreasesema s k =
      if s == null
      then (0, k)
      else (value_of k s, if value_of k s == 0 then k else set_value s (value_of k s - 1) k)

  unfoldable pub increasesema : Ptr → SemaSrv H → SemaSrv H
  increasesema s k = if s == null then k else set_value s (u16 (value_of k s + 1)) k

  -- FIRSTCLIENT
  unfoldable pub first_client : Ptr → SemaSrv H → Ptr
  first_client s k = if s == null then null else q_first (queue_of k s)

  unfoldable pub waiter : Ptr → SemaSrv H → Pid
  unfolding first_client
  waiter s k = if first_client s k == null then 0 else k.pids (first_client s k)

  unfoldable pub getvalue : Ptr → SemaSrv H → ℕ
  getvalue s k = if s == null then 0 else value_of k s

  module _ (memory : Memory H) where
    unfoldable pub newsema : ℕ → SemaSrv H → Ptr × SemaSrv H
    newsema val k =
        let (s, heap) = memory.take k.heap sizeof_sema in
        let k' = record k { heap = heap } in
        if s == null
        then (s, k')
        else (s, record k' { semas = update k.semas s (record { value = val; client_q = [] }) })

    unfoldable pub addclient : Ptr → Pid → SemaSrv H → Ptr × SemaSrv H
    addclient s pid k =
        let (cli, heap) = memory.take k.heap sizeof_client in
        let k' = record k { heap = heap } in
        if s == null || pid == 0 then (null, k) else if cli == null then (null, k') else (
          cli,
          set_queue s (queue_of k s ++ cli ∷ []) (record k' { pids = update k.pids cli pid }),
        )

    unfoldable pub removeclient : Ptr → Pid → SemaSrv H → Ptr × SemaSrv H
    unfolding first_client
    removeclient s pid k =
        let cli = first_client s k in
        if pid == 0
        then (null, k)
        else if cli == null
        then (null, k)
        else if not (k.pids cli == pid)
        then (null, k)
        else (
          cli,
          set_queue s (erase cli (queue_of k s)) (record k { heap = memory.give k.heap cli }),
        )

    -- A pass of the loop of `semasrv` after `receive`: the reply that is sent, if any, and the
    -- server. The block of a deleted semaphore goes back to the heap; what the state has at its
    -- address then says nothing of the memory.
    unfoldable pub semasrv_pass :
        SemaCmd → Pid → SemaMsg → SemaSrv H → Option (Pid × SemaMsg) × SemaSrv H
    unfolding newsema waiter decreasesema increasesema addclient removeclient getvalue
    semasrv_pass sema_create client msg k =
        let (s, k1) = newsema msg.val k in
        (
          some (client, record msg { sema = s }),
          if s == null then k1 else record k1 { sema_q = s ∷ k1.sema_q },
        )
    semasrv_pass sema_delete client msg k =
        if waiter msg.sema k == 0
        then (
          some (client, msg),
          record k {
            sema_q = if msg.sema == null then k.sema_q else erase msg.sema k.sema_q;
            heap = memory.give k.heap msg.sema;
          },
        )
        else (none, k)
    semasrv_pass sema_wait client msg k =
        let (val, k1) = decreasesema msg.sema k in
        if val == 0 then (none, (addclient msg.sema client k1).1) else (some (client, msg), k1)
    semasrv_pass sema_signal client msg k =
        let w = waiter msg.sema k in
        if w == 0
        then (none, increasesema msg.sema k)
        else (some (w, msg), (removeclient msg.sema w k).1)
    semasrv_pass sema_get client msg k =
        (some (client, record msg { val = getvalue msg.sema k }), k)
    semasrv_pass sema_error client msg k = (none, k)

    unfoldable pub semasrv : Pid → SemaMsg → SemaSrv H → Option (Pid × SemaMsg) × SemaSrv H
    unfolding semasrv_pass
    semasrv client msg k = semasrv_pass msg.cmd client msg k

-- The calls of the clients: the message, over what the variable held before, and whether the
-- caller then waits for the answer (`sendrec`) or goes on when the message is taken (`send`).
pub data SemaCall : Type 0 where
  createsema : (val : ℕ) → SemaCall
  deletesema waitsema signalsema getsema : (s : Ptr) → SemaCall

unfoldable pub sema_request : SemaCall → SemaMsg → SemaMsg
sema_request (createsema v) m = record m { cmd = sema_create; val = v }
sema_request (deletesema s) m = record m { cmd = sema_delete; sema = s }
sema_request (waitsema s) m = record m { cmd = sema_wait; sema = s }
sema_request (signalsema s) m = record m { cmd = sema_signal; sema = s }
sema_request (getsema s) m = record m { cmd = sema_get; sema = s }
