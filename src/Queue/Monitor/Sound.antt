-- ===== src/Queue/Monitor/Sound.antt =====
-- What holds in every state of the threads round one queue of src/core/queue.c.
use http_runtime.Base.{
  ◌+◌, ◌-◌, true, false, some, List, [], ◌∷◌, ◌++◌, ◌≡◌, refl, ap, sym, ◌∙◌, subst, inl, inr,
  length, length-append, arith, append_assoc,
}
use http_runtime.Queue.Refine.{Represents}
use http_runtime.Queue.Drain.{queue_pop_lem}
use http_runtime.Queue.{Queue, create_queue, empty_queue, queue_pop, queue_shutdown}
use http_runtime.Queue.Monitor.{
  System, state, awake, Step, push, refused, pop, sleep, leave, spurious, shut, Reachable, start,
  then_step, Calm, Calm-spurious, Calm-closed, InOrder, Calm-push, Calm-pop, push_shutdown,
  pop_shutdown, wait_open, closed_shut, pushed-Represents, refused-Represents, Answers-taken,
}

module _ {A : Type 0} where
  shut-Represents : (q : Queue A) (xs : List A) → Represents q xs → Represents (queue_shutdown q) xs
  shut-Represents q xs r = record {
    ps = r.ps;
    linked = r.linked;
    head_is = r.head_is;
    tail_is = r.tail_is;
    size_is = r.size_is;
    only = r.only;
  }

  Step-InOrder : (s t : System A) → Step A s t → InOrder s → InOrder t
  Step-InOrder _ _ (push q q' b w us vs p x fresh e) (xs, r, f, c) = (
    xs ++ x ∷ [],
    pushed-Represents p x q q' xs fresh r e,
    ap (λ l. l ++ x ∷ []) f ∙ append_assoc vs xs (x ∷ []),
    subst (λ n. Calm (b - 1) (awake b w) n q'.is_shutdown) (sym (length-append xs (x ∷ [])))
        (subst (Calm (b - 1) (awake b w) (length xs + 1))
          (sym (push_shutdown p (some x) q q' true e)) (Calm-push b w (length xs) q.is_shutdown c)),
  )
  Step-InOrder _ _ (refused q q' b w us vs p x fresh e) (xs, r, f, c) = (
    xs,
    refused-Represents p x q q' xs fresh r e,
    f,
    subst (Calm b w (length xs)) (sym (push_shutdown p x q q' false e)) c,
  )
  Step-InOrder _ _ (pop q q' b w w' us vs x enters e) (xs, r, f, c) =
      let (ys, g, r') =
        Answers-taken q.is_shutdown xs (queue_pop q) x q' (queue_pop_lem q xs r) e in
      (
        ys,
        r',
        f ∙ ap (λ l. vs ++ l) g ∙ sym (append_assoc vs (x ∷ []) ys),
        subst (Calm b w' (length ys)) (sym (pop_shutdown q q' x e)) (
            Calm-pop b w w' (length ys) q.is_shutdown enters
              (subst (λ l. Calm b w (length l) q.is_shutdown) g c)),
      )
  Step-InOrder _ _ (sleep q b w w' us vs enters e) (xs, r, f, c) =
      let (z, o) = wait_open q e in let s = r.size_is in (xs, r, f, inr (omega (arith, z, s), o))
  Step-InOrder _ _ (leave q b w w' us vs enters e) (xs, r, f, c) =
      (xs, r, f, Calm-closed b w w' (length xs) q.is_shutdown (closed_shut q e) c)
  Step-InOrder _ _ (spurious q b w us vs) (xs, r, f, c) =
      (xs, r, f, Calm-spurious b w (length xs) q.is_shutdown c)
  Step-InOrder _ _ (shut q b w us vs) (xs, r, f, c) = (xs, shut-Represents q xs r, f, inl refl)

  empty-Represents : Represents (empty_queue {A = A}) []
  empty-Represents = record {
    ps = [];
    linked = tt;
    head_is = refl;
    tail_is = refl;
    size_is = refl;
    only = λ a _. refl;
  }

  start-InOrder : (q : Queue A) → create_queue true true true ≡ some q → InOrder (state q 0 0 [] [])
  start-InOrder q e =
      let f : empty_queue ≡ q = cc in
      subst (λ q'. InOrder (state q' 0 0 [] [])) f ([], empty-Represents, refl, inl refl)

  -- In every state that threads bring a new queue to by their calls of `queue_push`, `queue_pop`
  -- and `queue_shutdown`, with spurious wake-ups at any time and `malloc` returning free
  -- addresses, the queue is well-formed and holds what was pushed and is not yet popped, so that
  -- what was popped is what was pushed, in this order; and either no thread sleeps in
  -- `pthread_cond_wait`, or the queue is open and at least as many threads are woken and on their
  -- way as there are elements.
  pub Reachable-InOrder : (s : System A) → Reachable A s → InOrder s
  Reachable-InOrder _ (start q e) = start-InOrder q e
  Reachable-InOrder _ (then_step s t r k) = Step-InOrder s t k (Reachable-InOrder s r)
