-- ===== src/Drivers/Ramdisk/Create.antt =====
-- The node that drivers/ramdisk.c makes.
use avros.Base.{
  ℕ, zero, suc, ◌+◌, ◌<◌, ◌≤◌, ◌≡◌, refl, sym, ap, ◌∙◌, subst, arith, Option, none, some,
  Option-cases, Bool-cases, ==→eq, ◌==◌, ◌⊎◌, inl, inr, update,
}
use avros.Drivers.Message.{minus_one}
use avros.Drivers.Ramdisk.{MfNode, Nodes, empty_node, create_loop, mf_create_node, mf_max_nodes}

-- The node stands at the first free place, or there is no free place from `first` on.
abbrev pub Created : ℕ → ℕ → ℕ → Nodes → ℕ × Nodes → Type 0
Created rounds first flags nodes r =
    ((first ≤ r.0)
      × (r.0 < first + rounds)
      × (nodes r.0 ≡ none)
      × ((i : ℕ) → first ≤ i → i < r.0 → (n : MfNode) × (nodes i ≡ some n))
      × (r.1 ≡ update nodes r.0 (some (empty_node flags))))
    ⊎ ((r ≡ (minus_one, nodes))
        × ((i : ℕ) → first ≤ i → i < first + rounds → (n : MfNode) × (nodes i ≡ some n)))

abbrev after : ℕ → ℕ → ℕ → Nodes → Option MfNode → ℕ × Nodes
after rounds ino flags nodes none = (ino, update nodes ino (some (empty_node flags)))
after rounds ino flags nodes (some _) = create_loop rounds (suc ino) flags nodes

create_step :
    (rounds ino flags : ℕ) (nodes : Nodes) (o : Option MfNode)
    → nodes ino ≡ o
    → create_loop (suc rounds) ino flags nodes ≡ after rounds ino flags nodes o
unfolding create_loop
create_step rounds ino flags nodes o e =
    ap
      (λ (o : Option MfNode). elim o as (λ _. ℕ × Nodes) [
        | none ↦ (ino, update nodes ino (some (empty_node flags)))
        | some _ ↦ create_loop rounds (suc ino) flags nodes
      ])
      e
    ∙ same o
  where
    same :
        (o : Option MfNode)
        → (elim o as (λ _. ℕ × Nodes) [
          | none ↦ (ino, update nodes ino (some (empty_node flags)))
          | some _ ↦ create_loop rounds (suc ino) flags nodes
        ])
          ≡ after rounds ino flags nodes o
    same none = refl
    same (some _) = refl

-- A place that is taken goes before those that were looked at.
earlier :
    (first bound : ℕ) (nodes : Nodes) (n : MfNode)
    → nodes first ≡ some n
    → ((i : ℕ) → suc first ≤ i → i < bound → (n : MfNode) × (nodes i ≡ some n))
    → (i : ℕ) → first ≤ i
    → i < bound
    → (n : MfNode) × (nodes i ≡ some n)
earlier first bound nodes n e f i h l = elim (Bool-cases (first == i)) [
  | inl q ↦ (n, ap nodes (sym (==→eq first i q)) ∙ e)
  | inr q ↦ f i (ground arith) l
]

later :
    (rounds first flags : ℕ) (nodes : Nodes) (n : MfNode)
    → nodes first ≡ some n
    → {r : ℕ × Nodes} → Created rounds (suc first) flags nodes r
    → Created (suc rounds) first flags nodes r
later rounds first flags nodes n e {r} (inl f) =
    inl (omega (arith, f.0), omega (arith, f.1), f.2, earlier first r.0 nodes n e f.3, f.4)
later rounds first flags nodes n e (inr f) =
    inr (f.0, earlier first (first + suc rounds) nodes n e λ i h l. f.1 i h (omega arith))

create_loop-Created :
    (rounds first flags : ℕ) (nodes : Nodes)
    → Created rounds first flags nodes (create_loop rounds first flags nodes)
create_loop-Created zero first flags nodes =
    inr (unfold create_loop in refl, λ i h l. absurd (omega arith))
create_loop-Created (suc rounds) first flags nodes = elim (Option-cases (nodes first)) [
  | inl e ↦
      subst (Created (suc rounds) first flags nodes)
        (sym (create_step rounds first flags nodes none e))
        (inl (omega arith, omega arith, e, λ i h l. absurd (omega arith), refl))
  | inr (n, e) ↦
      subst (Created (suc rounds) first flags nodes)
        (sym (create_step rounds first flags nodes (some n) e))
        (later rounds first flags nodes n e (create_loop-Created rounds (suc first) flags nodes))
]

-- A new node stands at the first free place of the eight, and no other node changes; if none is
-- free the answer is −1 and nothing changes.
pub mf_create_node-Created :
    (flags : ℕ) (nodes : Nodes) → Created mf_max_nodes 0 flags nodes (mf_create_node flags nodes)
unfolding mf_create_node
mf_create_node-Created flags nodes = create_loop-Created mf_max_nodes 0 flags nodes
