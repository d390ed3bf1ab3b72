-- ===== src/Tests/Queue.antt =====
-- The queue on a run of two pushes.
use http_runtime.Base.{ℕ, zero, suc, Bool, true, false, none, some, [], ◌∷◌, ◌≡◌, refl, inl, arith}
use http_runtime.Queue.{
  write, link, wait, empty_queue, Queue, Nodes, node, queue_push, queue_pop, destroy_queue, done,
}
use http_runtime.Queue.Monitor.{state, Reachable, start, then_step, sleep, push, InOrder}
use http_runtime.Queue.Monitor.Sound.{Reachable-InOrder}
use http_runtime.Queue.Linked.{Apart}
use http_runtime.Queue.Refine.{Represents, queue_push_lem}
use http_runtime.Queue.Drain.{Answers, queue_pop_lem, destroy_queue_lem}

abbrev one_node : Nodes ℕ
one_node (suc zero) = some (node 7 0)
one_node _ = none

-- A queue with the element 7 at the address 1, shut down or not.
abbrev one : Bool → Queue ℕ
one b = record { head = 1; tail = 1; size = 1; is_shutdown = b; nodes = one_node }

one-Represents : (b : Bool) → Represents (one b) (7 ∷ [])
one-Represents b = record {
  ps = 1 ∷ [];
  linked = ((λ e. omega (arith, e)), refl, tt, tt);
  head_is = refl;
  tail_is = refl;
  size_is = refl;
  only = outside;
}
  where
    outside : (a : ℕ) → Apart a (1 ∷ []) → one_node a ≡ none
    outside zero h = refl
    outside (suc zero) h = absurd (h.0 refl)
    outside (suc (suc a)) h = refl

queue_push_lem_example :
    (q' : Queue ℕ) × ((queue_push (some 2) (some 8) (one false) ≡ done true q')
      × Represents q' (7 ∷ 8 ∷ []))
queue_push_lem_example =
    queue_push_lem (some 2) (some 8) (one false) (7 ∷ []) ((λ e. omega (arith, e)), refl)
      (one-Represents false)

queue_pop_lem_example : Answers true (7 ∷ []) (queue_pop (one true))
queue_pop_lem_example = queue_pop_lem (one true) (7 ∷ []) (one-Represents true)

destroy_queue_lem_example :
    (h : Nodes ℕ) × ((destroy_queue (one false) ≡ some h) × ((a : ℕ) → h a ≡ none))
destroy_queue_lem_example = destroy_queue_lem (one false) (7 ∷ []) (one-Represents false)

-- A thread sleeps on a new queue, and another one pushes 7 at the address 1.
abbrev pushed_once : Queue ℕ
pushed_once = record {
  head = 1;
  tail = 1;
  size = 1;
  is_shutdown = false;
  nodes = write (λ _. none) 1 (some (node 7 0));
}

sleeps : queue_pop (empty_queue {A = ℕ}) ≡ wait
unfolding queue_pop
sleeps = refl

pushes : queue_push (some 1) (some 7) empty_queue ≡ done true pushed_once
unfolding queue_push link
pushes = refl

woken_once : Reachable ℕ (state pushed_once 0 1 (7 ∷ []) [])
woken_once =
    then_step _ _
      (then_step _ _ (start empty_queue refl) (sleep empty_queue 0 0 0 [] [] (inl refl) sleeps))
      (push empty_queue pushed_once 1 0 [] [] (some 1) 7 ((λ e. omega (arith, e)), refl) pushes)

Reachable-InOrder_example : InOrder (state pushed_once 0 1 (7 ∷ []) [])
Reachable-InOrder_example = Reachable-InOrder (state pushed_once 0 1 (7 ∷ []) []) woken_once
