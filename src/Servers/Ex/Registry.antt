-- ===== src/Servers/Ex/Registry.antt =====
-- The registry of servers/ex.c as a list of names and programs.
use avros.Base.{
  ℕ, ◌+◌, ◌≡◌, refl, arith, false, Option, none, some, List, [], ◌∷◌, ◌++◌, append-nil,
  append_assoc, ◌<◌, length, ◌==◌, if◌then◌else◌, update, update-same, update-other, Bool-cases,
  if_elim, inl, inr, ap, ap₂, sym, ◌∙◌, count,
}
use mathlib.Core.List.{map, map-append}
use avros.Kernel.State.{Pid}
use avros.Queue.{Ptr, null}
use avros.Queue.Chain.{not_counted, ne_sym}
use avros.Servers.Memory.{Memory}
use avros.Servers.Ex.{
  sizeof_prg, str_eq, ExPrg, ExSrv, ExMsg, ex_regprg, ex_getprg, ex_none, ex_answer, get_loop,
  ex_get_prg, ex_reg_prg, ex,
}

pub record Entry : Type 0 where
  pub name : List ℕ
  pub ptr : ℕ
  pub stack : ℕ

-- The first entry of that name.
unfoldable pub find_entry : List ℕ → List Entry → Option Entry
unfolding str_eq
find_entry name [] = none
find_entry name (e ∷ es) = if str_eq name e.name then some e else find_entry name es

abbrev pub answer : Option Entry → ℕ × ℕ
answer none = (0, 0)
answer (some e) = (e.ptr, e.stack)

abbrev pub entry_of : (Ptr → ExPrg) → (Ptr → List ℕ) → Ptr → Entry
entry_of prgs strings it = record {
  name = strings (prgs it).name;
  ptr = (prgs it).ptr;
  stack = (prgs it).stack;
}

entries-update :
    (prgs : Ptr → ExPrg) (strings : Ptr → List ℕ) (prg copy : Ptr) (v : ExPrg) (s : List ℕ)
    (its : List Ptr)
    → count prg its ≡ 0
    → ((it : Ptr) → 0 < count it its → (copy == (prgs it).name) ≡ false)
    → map (entry_of (update prgs prg v) (update strings copy s)) its
      ≡ map (entry_of prgs strings) its
unfolding count
entries-update prgs strings prg copy v s [] f g = refl
entries-update prgs strings prg copy v s (it ∷ its) f g =
    let n = not_counted prg it its f in
    ap₂ (λ e es. e ∷ es)
      (ap
          (λ (w : ExPrg). record {
            name = update strings copy s w.name;
            ptr = w.ptr;
            stack = w.stack;
          })
          (update-other prgs prg it v (ne_sym it prg n.0))
        ∙ ap (λ t. record { name = t; ptr = (prgs it).ptr; stack = (prgs it).stack })
            (update-other strings copy (prgs it).name s (g it (ground arith))))
      (entries-update prgs strings prg copy v s its n.1 (λ x h. g x (ground arith)))

prgs-update :
    (prgs : Ptr → ExPrg) (strings : Ptr → List ℕ) (prg : Ptr) (v : ExPrg) (its : List Ptr)
    → count prg its ≡ 0
    → map (entry_of (update prgs prg v) strings) its ≡ map (entry_of prgs strings) its
prgs-update prgs strings prg v [] f = refl
prgs-update prgs strings prg v (it ∷ its) f =
    let n = not_counted prg it its f in
    ap₂ (λ e es. e ∷ es)
      (ap (λ (w : ExPrg). record { name = strings w.name; ptr = w.ptr; stack = w.stack })
        (update-other prgs prg it v (ne_sym it prg n.0)))
      (prgs-update prgs strings prg v its n.1)

module _ {H : Type 0} where
  abbrev pub view : ExSrv H → List Entry
  view k = map (entry_of k.prgs k.strings) k.ex_prg_head

  get_loop-find_entry :
      (name : List ℕ) (its : List Ptr) (k : ExSrv H)
      → get_loop name its k ≡ answer (find_entry name (map (entry_of k.prgs k.strings) its))
  unfolding get_loop find_entry
  get_loop-find_entry name [] k = refl
  get_loop-find_entry name (it ∷ its) k =
      elim (Bool-cases (str_eq name (k.strings (k.prgs it).name))) [
        | inl e ↦ rw e refl
        | inr n ↦ rw n (get_loop-find_entry name its k)
      ]

  -- The look-up finds the first entry.
  pub ex_get_prg-find_entry :
      (name : List ℕ) (k : ExSrv H) → ex_get_prg name k ≡ answer (find_entry name (view k))
  unfolding ex_get_prg
  ex_get_prg-find_entry name k = get_loop-find_entry name k.ex_prg_head k

  module _ (memory : Memory H) where
    abbrev pub new_prg : ExSrv H → Ptr
    new_prg k = (memory.take k.heap sizeof_prg).0

    abbrev pub new_copy : List ℕ → ExSrv H → Ptr
    new_copy name k = (memory.take (memory.take k.heap sizeof_prg).1 (length name + 1)).0

    -- The heap's blocks are at new addresses.
    pub record Usable (name : List ℕ) (k : ExSrv H) : Type 0 where
      pub prg : count (memory.take k.heap sizeof_prg).0 k.ex_prg_head ≡ 0
      pub copy :
          (it : Ptr)
          → 0 < count it k.ex_prg_head
          → ((memory.take (memory.take k.heap sizeof_prg).1 (length name + 1)).0
              == (k.prgs it).name)
            ≡ false

    abbrev pub Fits : ExMsg → ExSrv H → Type 0
    Fits (ex_regprg name _ _) k = Usable name k
    Fits _ k = Unit {0}

    -- What a request adds to the registry.
    unfoldable pub registered : ExMsg → ExSrv H → List Entry
    registered (ex_regprg name ptr stack) k =
        if (memory.take k.heap sizeof_prg).0 == null
        then []
        else if (memory.take (memory.take k.heap sizeof_prg).1 (length name + 1)).0 == null
        then []
        else record { name = name; ptr = ptr; stack = stack } ∷ []
    registered _ k = []

    reg-view :
        (name : List ℕ) (ptr stack : ℕ) (k : ExSrv H)
        → Usable name k
        → view (ex_reg_prg memory name ptr stack k).1
          ≡ view k ++ registered (ex_regprg name ptr stack) k
    unfolding ex_reg_prg registered
    reg-view name ptr stack k u = elim (Bool-cases ((memory.take k.heap sizeof_prg).0 == null)) [
      | inl a ↦ rw a (sym (append-nil (view k)))
      | inr a ↦
          elim (Bool-cases
            ((memory.take (memory.take k.heap sizeof_prg).1 (length name + 1)).0 == null)) [
              | inl b ↦ rw a (
                  rw b (
                    prgs-update k.prgs k.strings (new_prg k) _ k.ex_prg_head u.prg
                    ∙ sym (append-nil (view k))))
              | inr b ↦ rw a (rw b (added name ptr stack k u))
            ]
    ]
      where
        added :
            (name : List ℕ) (ptr stack : ℕ) (k : ExSrv H)
            → Usable name k
            → map
                (entry_of
                  (update k.prgs
                    (new_prg k)
                    (record { name = new_copy name k; stack = stack; ptr = ptr }))
                  (update k.strings (new_copy name k) name))
                (k.ex_prg_head ++ new_prg k ∷ [])
              ≡ view k ++ record { name = name; ptr = ptr; stack = stack } ∷ []
        added name ptr stack k u =
            let v : ExPrg = record { name = new_copy name k; stack = stack; ptr = ptr } in
            map-append _ k.ex_prg_head (new_prg k ∷ [])
            ∙ ap₂ (λ l m. l ++ m)
                (entries-update k.prgs k.strings (new_prg k) (new_copy name k) v name k.ex_prg_head
                  u.prg u.copy)
                (ap
                    (λ (w : ExPrg).
                      record {
                        name = update k.strings (new_copy name k) name w.name;
                        ptr = w.ptr;
                        stack = w.stack;
                      }
                      ∷ [])
                    (update-same k.prgs (new_prg k) v)
                  ∙ ap (λ s. record { name = s; ptr = ptr; stack = stack } ∷ [])
                      (update-same k.strings (new_copy name k) name))

    ex-view :
        (client : Pid) (msg : ExMsg) (k : ExSrv H)
        → Fits msg k
        → view (ex memory client msg k).1 ≡ view k ++ registered msg k
    unfolding ex registered ex_reg_prg
    ex-view client (ex_regprg name ptr stack) k u =
        if_elim
          (λ (r : Option (Pid × ExMsg) × ExSrv H).
            view r.1 ≡ view k ++ registered (ex_regprg name ptr stack) k)
          ((ex_reg_prg memory name ptr stack k).0 == null) _ _ (λ _. reg-view name ptr stack k u)
          (λ _. reg-view name ptr stack k u)
    ex-view client (ex_getprg name) k u = sym (append-nil (view k))
    ex-view client ex_none k u = sym (append-nil (view k))
    ex-view client (ex_answer p n) k u = sym (append-nil (view k))

    -- Requests one after the other, and what they registered, in order.
    pub data Run (k : ExSrv H) : List Entry → ExSrv H → Type 0 where
      start : Run k [] k
      pass :
          {es : List Entry} {j : ExSrv H} (client : Pid) (msg : ExMsg)
          → Run k es j
          → Fits msg j
          → Run k (es ++ registered msg j) (ex memory client msg j).1

    Run-view : {k k' : ExSrv H} {es : List Entry} → Run k es k' → view k' ≡ view k ++ es
    Run-view {k} start = sym (append-nil (view k))
    Run-view {k} (pass {es} {j} client msg r u) =
        ex-view client msg j u
        ∙ ap (λ l. l ++ registered msg j) (Run-view r)
        ∙ append_assoc (view k) es (registered msg j)

    -- After any requests to an empty registry, and with a heap whose blocks are at new
    -- addresses, the answer to a look-up is the entry and the stack size of the program that was
    -- registered first under the name, or zeros if there is none.
    pub ex-find_entry :
        (client : Pid) (name : List ℕ) {k k' : ExSrv H} {es : List Entry}
        → k.ex_prg_head ≡ []
        → Run k es k'
        → let a = answer (find_entry name es) in
          (ex memory client (ex_getprg name) k').0 ≡ some (client, ex_answer a.0 a.1)
    unfolding ex
    ex-find_entry client name {k} {k'} {es} h r =
        ap (λ (a : ℕ × ℕ). some (client, ex_answer a.0 a.1))
          (ex_get_prg-find_entry name k'
            ∙ ap (λ l. answer (find_entry name l))
                (Run-view r ∙ ap (λ l. map (entry_of k.prgs k.strings) l ++ es) h))
