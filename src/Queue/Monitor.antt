-- ===== src/Queue/Monitor.antt =====
-- The threads round one queue of src/core/queue.c: what they push and pop, and the condition
-- variable.
pub mod Sound
use http_runtime.Base.{
  ℕ, zero, suc, ◌+◌, ◌-◌, ◌≤◌, ◌<◌, Bool, true, false, not, ◌&&◌, Option, none, some, List, [], ◌∷◌,
  ◌++◌, ◌≡◌, ◌≢◌, refl, ap, sym, ◌∙◌, subst, inl, inr, ◌⊎◌, ◌==◌, if◌then◌else◌, Bool-cases, length,
  arith, append_assoc, append-nil,
}
use http_runtime.Queue.Linked.{Linked}
use http_runtime.Queue.Refine.{Represents, Fresh, enqueue, queue_push_lem, push_open}
use http_runtime.Queue.Drain.{Answers, queue_pop_lem}
use http_runtime.Queue.{
  Queue, create_queue, Pushed, done, link, queue_push, Attempt, wait, closed, taken, take_first,
  queue_pop, queue_shutdown,
}

-- The queue; how many threads sleep in `pthread_cond_wait`, and how many were woken and have not
-- yet the lock; and what was pushed and popped so far.
pub data System (A : Type 0) : Type 0 where
  state : Queue A → ℕ → ℕ → List A → List A → System A

-- `pthread_cond_signal` wakes one of the sleeping threads, if there is one.
abbrev pub awake : ℕ → ℕ → ℕ
awake blocked woken = if blocked == 0 then woken else woken + 1

-- A thread passes the test of the loop in `queue_pop`: one that has just called it, or one that
-- was woken.
abbrev pub Enters : ℕ → ℕ → Type 0
Enters woken woken' = (woken ≡ woken') ⊎ (woken ≡ suc woken')

pub data Step (A : Type 0) : System A → System A → Type 0 where
  push :
      (q q' : Queue A) (b w : ℕ) (us vs : List A) (p : Option ℕ) (x : A)
      → Fresh p q
      → queue_push p (some x) q ≡ done true q'
      → Step A (state q b w us vs) (state q' (b - 1) (awake b w) (us ++ x ∷ []) vs)
  refused :
      (q q' : Queue A) (b w : ℕ) (us vs : List A) (p : Option ℕ) (x : Option A)
      → Fresh p q
      → queue_push p x q ≡ done false q'
      → Step A (state q b w us vs) (state q' b w us vs)
  pop :
      (q q' : Queue A) (b w w' : ℕ) (us vs : List A) (x : A)
      → Enters w w'
      → queue_pop q ≡ taken x q'
      → Step A (state q b w us vs) (state q' b w' us (vs ++ x ∷ []))
  sleep :
      (q : Queue A) (b w w' : ℕ) (us vs : List A)
      → Enters w w'
      → queue_pop q ≡ wait
      → Step A (state q b w us vs) (state q (b + 1) w' us vs)
  leave :
      (q : Queue A) (b w w' : ℕ) (us vs : List A)
      → Enters w w'
      → queue_pop q ≡ closed
      → Step A (state q b w us vs) (state q b w' us vs)
  spurious :
      (q : Queue A) (b w : ℕ) (us vs : List A)
      → Step A (state q (suc b) w us vs) (state q b (w + 1) us vs)
  shut :
      (q : Queue A) (b w : ℕ) (us vs : List A)
      → Step A (state q b w us vs) (state (queue_shutdown q) 0 (w + b) us vs)

-- The states that a new queue comes to.
pub data Reachable (A : Type 0) : System A → Type 0 where
  start : (q : Queue A) → create_queue true true true ≡ some q → Reachable A (state q 0 0 [] [])
  then_step : (s t : System A) → Reachable A s → Step A s t → Reachable A t

-- Nobody sleeps, or the queue is open and for each element there is a woken thread.
abbrev pub Calm : ℕ → ℕ → ℕ → Bool → Type 0
Calm b w n c = (b ≡ 0) ⊎ ((n ≤ w) × (c ≡ false))

-- The queue is well-formed, it holds what was pushed and not yet popped, in this order, and no
-- wake-up is lost.
abbrev pub InOrder : {A : Type 0} → System A → Type 0
InOrder {A = A} (state q b w us vs) =
    (xs : List A) × Represents q xs × (us ≡ vs ++ xs) × Calm b w (length xs) q.is_shutdown

pub Calm-push : (b w n : ℕ) (c : Bool) → Calm b w n c → Calm (b - 1) (awake b w) (n + 1) c
Calm-push b w n c h = ground arith

pub Calm-pop : (b w w' n : ℕ) (c : Bool) → Enters w w' → Calm b w (suc n) c → Calm b w' n c
Calm-pop b w w' n c e h = ground arith

pub Calm-spurious : (b w n : ℕ) (c : Bool) → Calm (suc b) w n c → Calm b (w + 1) n c
Calm-spurious b w n c h = ground arith

pub Calm-closed : (b w w' n : ℕ) (c : Bool) → c ≡ true → Calm b w n c → Calm b w' n c
Calm-closed b w w' n c e h = ground arith

module _ {A : Type 0} where
  link_shutdown :
      (p : ℕ) (q q' : Queue A) (r : Bool) → link p q ≡ done r q' → q'.is_shutdown ≡ q.is_shutdown
  unfolding link
  link_shutdown p q q' r e = ground arith

  pub push_shutdown :
      (p : Option ℕ) (x : Option A) (q q' : Queue A) (r : Bool)
      → queue_push p x q ≡ done r q'
      → q'.is_shutdown ≡ q.is_shutdown
  unfolding queue_push
  push_shutdown none none q q' r e = ground arith
  push_shutdown (some p) none q q' r e = ground arith
  push_shutdown none (some x) q q' r e = ground arith
  push_shutdown (some p) (some x) q q' r e = elim (Bool-cases q.is_shutdown) [
    | inl c ↦ ground arith
    | inr c ↦ link_shutdown p _ q' r (sym (push_open p x q c) ∙ e)
  ]

  pub pop_shutdown :
      (q q' : Queue A) (x : A) → queue_pop q ≡ taken x q' → q'.is_shutdown ≡ q.is_shutdown
  unfolding queue_pop take_first
  pop_shutdown q q' x e = ground arith

  pub wait_open : (q : Queue A) → queue_pop q ≡ wait → (q.size ≡ 0) × (q.is_shutdown ≡ false)
  unfolding queue_pop take_first
  wait_open q e = ground arith

  pub closed_shut : (q : Queue A) → queue_pop q ≡ closed → q.is_shutdown ≡ true
  unfolding queue_pop take_first
  closed_shut q e = ground arith

  enqueue-true :
      (p : Option ℕ) (x : A) (c : Bool) (xs : List A)
      → (enqueue p (some x) c xs).0 ≡ true
      → (enqueue p (some x) c xs).1 ≡ xs ++ x ∷ []
  enqueue-true none x c xs e = ground arith
  enqueue-true (some p) x true xs e = ground arith
  enqueue-true (some p) x false xs e = refl

  enqueue-false :
      (p : Option ℕ) (x : Option A) (c : Bool) (xs : List A)
      → (enqueue p x c xs).0 ≡ false
      → (enqueue p x c xs).1 ≡ xs
  enqueue-false none x c xs e = refl
  enqueue-false (some p) none c xs e = refl
  enqueue-false (some p) (some x) true xs e = refl
  enqueue-false (some p) (some x) false xs e = ground arith

  done_inj :
      (r r' : Bool) (q q' : Queue A)
      → ◌≡◌ {A = Pushed A} (done r q) (done r' q')
      → (r ≡ r') × (q ≡ q')
  done_inj r r' q q' e = (cc, cc)

  taken_inj :
      (x x' : A) (q q' : Queue A)
      → ◌≡◌ {A = Attempt A} (taken x q) (taken x' q')
      → (x ≡ x') × (q ≡ q')
  taken_inj x x' q q' e = (cc, cc)

  pub pushed-Represents :
      (p : Option ℕ) (x : A) (q q' : Queue A) (xs : List A)
      → Fresh p q
      → Represents q xs
      → queue_push p (some x) q ≡ done true q'
      → Represents q' (xs ++ x ∷ [])
  pushed-Represents p x q q' xs fresh r e =
      let (q'', (f, r')) = queue_push_lem p (some x) q xs fresh r in
      let (g, h) = done_inj _ _ _ _ (sym f ∙ e) in
      subst (λ s. Represents s (xs ++ x ∷ [])) h
        (subst (Represents q'') (enqueue-true p x q.is_shutdown xs g) r')

  pub refused-Represents :
      (p : Option ℕ) (x : Option A) (q q' : Queue A) (xs : List A)
      → Fresh p q
      → Represents q xs
      → queue_push p x q ≡ done false q'
      → Represents q' xs
  refused-Represents p x q q' xs fresh r e =
      let (q'', (f, r')) = queue_push_lem p x q xs fresh r in
      let (g, h) = done_inj _ _ _ _ (sym f ∙ e) in
      subst (λ s. Represents s xs) h
        (subst (Represents q'') (enqueue-false p x q.is_shutdown xs g) r')

  pub Answers-taken :
      (c : Bool) (xs : List A) (r : Attempt A) (x : A) (q' : Queue A)
      → Answers c xs r
      → r ≡ taken x q'
      → (ys : List A) × (xs ≡ x ∷ ys) × Represents q' ys
  Answers-taken true [] r x q' a e = absurd (let f = sym a ∙ e in cc)
  Answers-taken false [] r x q' a e = absurd (let f = sym a ∙ e in cc)
  Answers-taken c (y ∷ ys) r x q' a e =
      let (q'', (f, rep)) = a in
      let (g, h) = taken_inj _ _ _ _ (sym f ∙ e) in
      (ys, ap (λ z. z ∷ ys) g, subst (λ s. Represents s ys) h rep)
