-- ===== src/Queue/Tests.antt =====
-- Two small queues, and the theorems at them.
use avros.Base.{◌≡◌, refl, [], ◌∷◌, arith, ◌==◌, if◌then◌else◌, Bool, count, some}
use avros.Queue.{Ptr, null, Mem, q_forall}
use avros.Queue.Chain.{IsQueue}
use avros.Queue.Remove.{q_end-q_remv, moved_to}
use avros.Queue.Walk.{sweeping, reject, q_forall-q_remv}

-- The queue at 100 holds 1, 2 and 3; the queue at 200 is empty.
abbrev three : Mem
three = record {
  next = λ p. if p == 1 then 2 else if p == 2 then 3 else 0;
  prev = λ p. if p == 3 then 2 else if p == 2 then 1 else 0;
  head = λ q. if q == 100 then 1 else 0;
  tail = λ q. if q == 100 then 3 else 0;
}

three-IsQueue : IsQueue three 100 (1 ∷ 2 ∷ 3 ∷ [])
unfolding count
three-IsQueue = record {
  head = refl;
  tail = refl;
  linked = (refl, refl, refl, (refl, refl, refl, (refl, refl, refl, tt)));
  once = λ t. ground arith;
}

empty-IsQueue : IsQueue three 200 []
unfolding count
empty-IsQueue = record { head = refl; tail = refl; linked = tt; once = λ t. omega arith }

q_end-q_remv_example :
    IsQueue (moved_to three 100 2 200).1 100 (1 ∷ 3 ∷ [])
    × IsQueue (moved_to three 100 2 200).1 200 (2 ∷ [])
unfolding count
q_end-q_remv_example =
    q_end-q_remv three 100 2 200 (1 ∷ []) (3 ∷ []) [] three-IsQueue empty-IsQueue refl refl refl
      (λ p h. refl)

abbrev is_two : Ptr → Bool
is_two p = p == 2

q_forall-q_remv_example :
    (m' : Mem) × (q_forall (λ m. m) (sweeping is_two) 4 100 three ≡ some (null, m'))
    × IsQueue m' 100 (1 ∷ 3 ∷ [])
unfolding reject
q_forall-q_remv_example =
    q_forall-q_remv 100 refl is_two (1 ∷ 2 ∷ 3 ∷ []) 4 three three-IsQueue (omega arith)
