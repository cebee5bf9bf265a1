-- ===== src/Servers/Memory.antt =====
-- kmalloc and kfree of kernel/kernel.c as a server sees them: an interface, and the kernel's
-- answer to the two calls as its implementation.
use avros.Base.{ℕ}
use avros.Kernel.State.{kmalloc, kfree, Platform, Kernel, context_of}
use avros.Kernel.Loop.{c_kmalloc, c_kfree, load_call, dispatch}
use avros.Kernel.State.{Pid, set_context}

pub record Memory (H : Type 0) : Type 0 where
  pub take : H → ℕ → ℕ × H
  pub give : H → ℕ → H

-- A task `cur` that makes the calls: the answer is the first parameter register.
unfoldable pub kernel_memory : {H : Type 0} → Platform H → Pid → Memory (Kernel H)
unfolding load_call dispatch
kernel_memory platform cur = record {
  take = λ k size.
      let k1 = set_context cur (load_call (c_kmalloc size) (context_of k cur)) k in
      let k2 = dispatch platform kmalloc cur k1 in ((context_of k2 cur).p0, k2);
  give = λ k ptr.
      let k1 = set_context cur (load_call (c_kfree ptr) (context_of k cur)) k in
      dispatch platform kfree cur k1;
}
