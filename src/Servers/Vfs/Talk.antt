-- ===== src/Servers/Vfs/Talk.antt =====
-- servers/vfs.c: what the file server and the pipe device say to each other.
use avros.Base.{
  ℕ, zero, suc, ◌<◌, ◌≡◌, refl, true, false, none, some, Option, List, [], ◌∷◌, ◌++◌, ◌==◌, length,
  ◌>>=◌, ap, ◌∙◌, arith, append-nil, append_assoc,
}
use avros.Kernel.State.{Pid}
use avros.Drivers.Message.{VfsMsg, vfs_final}
use avros.Drivers.Pipe.{Nodes, Sent, pipedev}
use avros.Servers.Vfs.State.{Vfs, Bus, is_repeat, exchange, answer}
use avros.Servers.Vfs.Files.{repeat_loop, transact, answer_waiting}

-- The pipe device, with the messages that it has still to send in the conversation it is in (the
-- last of them is the answer), and the messages that the server sent to tasks.
pub record PipeSys : Type 0 where
  pub nodes : Nodes
  pub todo : List VfsMsg
  pub told : List (Pid × VfsMsg)

-- The next message of the conversation.
next_message : PipeSys → Option (VfsMsg × PipeSys)
next_message w = elim w.todo [ [] ↦ none | m ∷ ms ↦ some (m, record w { todo = ms }) ]

-- A new conversation is what `pipedev` sends on the request.
converse_on : List VfsMsg → VfsMsg → PipeSys → Option (VfsMsg × PipeSys)
converse_on [] m w = pipedev m.cmd m w.nodes >>= λ r.
    next_message (record w { nodes = r.1; todo = r.0.0 ++ r.0.1 ∷ [] })
converse_on (_ ∷ _) m w = next_message w

converse : VfsMsg → PipeSys → Option (VfsMsg × PipeSys)
unfolding next_message converse_on
converse m w = converse_on w.todo m w

-- The system of a server with this device alone. The other kernel calls are not used.
unfoldable pub pipe_bus : Bus PipeSys
unfolding converse
pipe_bus = record {
  sendrec = λ pid m w. converse m w;
  send = λ pid m w. some (record w { told = w.told ++ (pid, m) ∷ [] });
  start_driver = λ p a w. (0, w);
  memory = record { take = λ w n. (0, w); give = λ w p. w };
  string_at = λ w p. [];
  put_string = λ p s w. w;
}

-- What the server tells the tasks whose requests the device released.
unfoldable pub told_of : List VfsMsg → List (Pid × VfsMsg)
told_of [] = []
told_of (m ∷ ms) = (m.client, record m { cmd = vfs_final }) ∷ told_of ms

-- The messages that release a task: they say VFS_REPEAT and name the task.
abbrev pub AllRepeat : List VfsMsg → Type 0
AllRepeat [] = Unit
AllRepeat (m ∷ ms) = ((is_repeat m.cmd ≡ true) × ((m.client == 0) ≡ false)) × AllRepeat ms

abbrev pub rounds : List VfsMsg → ℕ
rounds [] = 1
rounds (m ∷ ms) = suc (rounds ms)

-- The state of the server with the message `m` of a conversation in which `ms` are to come.
abbrev in_dialogue : Vfs PipeSys → VfsMsg → List VfsMsg → List (Pid × VfsMsg) → Vfs PipeSys
in_dialogue k m ms told = record k { msg = m; sys = record k.sys { todo = ms; told = told } }

-- The first message of a conversation, and those that are to come.
abbrev first : List VfsMsg → VfsMsg → VfsMsg
first [] last = last
first (m ∷ ms) last = m

abbrev others : List VfsMsg → VfsMsg → List VfsMsg
others [] last = []
others (m ∷ ms) last = ms ++ last ∷ []

exchange-next :
    (pid : Pid) (k : Vfs PipeSys) (m last : VfsMsg) (ms : List VfsMsg) (told : List (Pid × VfsMsg))
    → exchange pipe_bus pid (in_dialogue k m (ms ++ last ∷ []) told)
      ≡ some (in_dialogue k (first ms last) (others ms last) told)
unfolding exchange pipe_bus
exchange-next pid k m last [] told = refl
exchange-next pid k m last (x ∷ ms) told = refl

answer-told :
    (pid : Pid) (k : Vfs PipeSys) (m : VfsMsg) (ms : List VfsMsg) (told : List (Pid × VfsMsg))
    → answer pipe_bus pid (in_dialogue k m ms told)
      ≡ some (in_dialogue k m ms (told ++ (pid, m) ∷ []))
unfolding answer pipe_bus
answer-told pid k m ms told = refl

repeat_loop-pipe :
    (pid : Pid) (k : Vfs PipeSys) (ms : List VfsMsg) (last : VfsMsg) (told : List (Pid × VfsMsg))
    (fuel : ℕ)
    → AllRepeat ms
    → is_repeat last.cmd ≡ false
    → length ms < fuel
    → repeat_loop pipe_bus true fuel pid (in_dialogue k (first ms last) (others ms last) told)
      ≡ some (in_dialogue k last [] (told ++ told_of ms))
unfolding repeat_loop answer_waiting told_of
repeat_loop-pipe pid k ms last told zero a e l = absurd (omega arith)
repeat_loop-pipe pid k [] last told (suc fuel) a e l = rw (e, repeat_loop) (rw append-nil refl)
repeat_loop-pipe pid k (m ∷ ms) last told (suc fuel) a e l =
    rw (a.0.0, repeat_loop)
      (rw (a.0.1, answer_waiting)
        (rw (answer-told m.client k (record m { cmd = vfs_final }) (ms ++ last ∷ []) told) (
          rw
            (exchange-next pid k (record m { cmd = vfs_final }) last ms
              (told ++ (m.client, record m { cmd = vfs_final }) ∷ []))
            (repeat_loop-pipe pid k ms last (told ++ (m.client, record m { cmd = vfs_final }) ∷ [])
                fuel a.1 e (omega arith)
              ∙ ap (λ t. some (in_dialogue k last [] t)) (append_assoc told _ (told_of ms))))))

converse-idle :
    (m : VfsMsg) (w : PipeSys) (ms : List VfsMsg) (last : VfsMsg) (nodes : Nodes)
    → w.todo ≡ []
    → pipedev m.cmd m w.nodes ≡ some ((ms, last), nodes)
    → converse m w
      ≡ some (first ms last, record { nodes = nodes; todo = others ms last; told = w.told })
unfolding converse converse_on next_message
converse-idle m w ms last nodes idle served =
    ap (λ t. converse_on t m w) idle
    ∙ ap
        (λ (o : Option (Sent × Nodes)).
          o >>= λ r. next_message (record w { nodes = r.1; todo = r.0.0 ++ r.0.1 ∷ [] }))
        served
    ∙ at_first ms
  where
    at_first :
        (ms : List VfsMsg)
        → next_message (record w { nodes = nodes; todo = ms ++ last ∷ [] })
          ≡ some (first ms last, record { nodes = nodes; todo = others ms last; told = w.told })
    at_first [] = refl
    at_first (x ∷ xs) = refl

exchange-first :
    (pid : Pid) (k : Vfs PipeSys) (ms : List VfsMsg) (last : VfsMsg) (nodes : Nodes)
    → k.sys.todo ≡ []
    → pipedev k.msg.cmd k.msg k.sys.nodes ≡ some ((ms, last), nodes)
    → exchange pipe_bus pid k
      ≡ some (
          in_dialogue
            (record k { sys = record k.sys { nodes = nodes } })
            (first ms last)
            (others ms last)
            k.sys.told)
unfolding exchange pipe_bus
exchange-first pid k ms last nodes idle served =
    rw (converse-idle k.msg k.sys ms last nodes idle served, exchange) refl

pub transact-pipe :
    (pid : Pid) (k : Vfs PipeSys) (ms : List VfsMsg) (last : VfsMsg) (nodes : Nodes) (fuel : ℕ)
    → k.sys.todo ≡ []
    → pipedev k.msg.cmd k.msg k.sys.nodes ≡ some ((ms, last), nodes)
    → AllRepeat ms
    → is_repeat last.cmd ≡ false
    → length ms < fuel
    → transact pipe_bus true fuel pid k
      ≡ some (record k {
        msg = last;
        sys = record { nodes = nodes; todo = []; told = k.sys.told ++ told_of ms };
      })
unfolding transact
transact-pipe pid k ms last nodes fuel idle served a e l =
    rw (exchange-first pid k ms last nodes idle served) (
      repeat_loop-pipe pid (record k { sys = record k.sys { nodes = nodes } }) ms last k.sys.told
        fuel a e l)
