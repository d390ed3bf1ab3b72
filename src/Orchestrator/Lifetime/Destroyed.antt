-- ===== src/Orchestrator/Lifetime/Destroyed.antt =====
-- What `destroy_runtime` of src/core/orchestrator.c gives back.
use http_runtime.Base.{
  ℕ, zero, suc, ◌+◌, Bool, true, false, Option, none, some, ◌∷◌, ◌==◌, ==_iff, ltb, ◌≡◌, refl, sym,
  ap, ◌∙◌, ◌⊎◌, inl, inr, arith,
}
use http_runtime.Orchestrator.Lifetime.{
  requests, responses, db_tasks, db_worker, dispatcher, http_worker, Act, queue_shutdown,
  destroy_queue, pthread_join, free_threads, free_runtime, Log, RuntimeParts, act_if, join_workers,
  destroy_runtime,
}
use http_runtime.Orchestrator.Lifetime.Live.{
  Line, absent, shut, Live, nothing, live, step, live_after, usable, shut_line, array, live_of,
}

abbrev pub After : Live → Log → Type 0
After l log = live_after log ≡ some l

pub then_After :
    (act : Act) (l l' : Live) (log : Log)
    → After l log
    → step act l ≡ some l'
    → After l' (act ∷ log)
unfolding live_after
then_After act l l' log h e = rw h e

if_After :
    (b : Bool) (act : Act) (l l' : Live) (log : Log)
    → After l log
    → (b ≡ true → step act l ≡ some l')
    → (b ≡ false → l ≡ l')
    → After l' (act_if b act log)
if_After true act l l' log h e f = then_After act l l' log h (e refl)
if_After false act l l' log h e f = h ∙ ap some (f refl)

pub same : (n : ℕ) → (n == n) ≡ true
same n = (==_iff n n).1 refl

-- A thread that runs pops from a queue that there is.
pub record Wired (o : RuntimeParts) : Type 0 where
  pub workers : (o.http_worker_count ≡ 0) ⊎ (o.request_queue ≡ true)
  pub dispatcher : (o.dispatcher_started ≡ false) ⊎ (o.response_queue ≡ true)
  pub db_worker : (o.db_worker_started ≡ false) ⊎ (o.db_queue ≡ true)

join_all :
    (left j s : ℕ) (r d : Line) (b : Option ℕ) (x y : Bool) (log : Log)
    → s ≡ left + j
    → After (live shut r d b s j x y) log
    → After (live shut r d b s s x y) (join_workers left j log)
unfolding join_workers
join_all zero j s r d b x y log e h =
    let f : j ≡ s = omega (arith, e) in h ∙ ap (λ i. some (live shut r d b s i x y)) f
join_all (suc left) j s r d b x y log e h =
    let l : ltb j s ≡ true = ground arith in
    join_all left (j + 1) s r d b x y (pthread_join (http_worker j) ∷ log) (omega (arith, e)) (
      then_After (pthread_join (http_worker j)) (live shut r d b s j x y)
        (live shut r d b s (j + 1) x y) log h (rw (same j, l) refl))

join_workers-After :
    (q : Bool) (s : ℕ) (r d : Line) (b : Option ℕ) (x y : Bool) (log : Log)
    → (s ≡ 0) ⊎ (q ≡ true)
    → After (live (shut_line q) r d b s 0 x y) log
    → After (live (shut_line q) r d b s s x y) (join_workers s 0 log)
unfolding join_workers
join_workers-After true s r d b x y log w h = join_all s 0 s r d b x y log (omega arith) h
join_workers-After false zero r d b x y log w h = h
join_workers-After false (suc s) r d b x y log (inl e) h = absurd (omega (arith, e))
join_workers-After false (suc s) r d b x y log (inr e) h = absurd (let f = e in cc)

-- A thread that may run is joined behind the shutdown of its queue.
wired_line : (x q : Bool) → (x ≡ false) ⊎ (q ≡ true) → x ≡ true → shut_line q ≡ shut
wired_line x q (inl e) f = absurd (let g = sym e ∙ f in cc)
wired_line x q (inr e) f = ap shut_line e

module _ (q r d t x y : Bool) (n s : ℕ) where
  abbrev block : Option ℕ
  block = array n t

  shut_responses :
      (log : Log)
      → After (live (shut_line q) (usable r) (usable d) block s s x y) log
      → After
          (live (shut_line q) (shut_line r) (usable d) block s s x y)
          (act_if r (queue_shutdown responses) log)
  shut_responses log h =
      if_After r (queue_shutdown responses) (live (shut_line q) (usable r) (usable d) block s s x y)
        (live (shut_line q) (shut_line r) (usable d) block s s x y) log h
        (λ e. rw e (rw (same s) refl)) (λ e. rw e refl)

  join_dispatcher :
      (log : Log)
      → (x ≡ false) ⊎ (r ≡ true)
      → After (live (shut_line q) (shut_line r) (usable d) block s s x y) log
      → After
          (live (shut_line q) (shut_line r) (usable d) block s s false y)
          (act_if x (pthread_join dispatcher) log)
  join_dispatcher log w h =
      if_After x (pthread_join dispatcher)
        (live (shut_line q) (shut_line r) (usable d) block s s x y)
        (live (shut_line q) (shut_line r) (usable d) block s s false y) log h
        (λ e. rw (wired_line x r w e, e) refl) (λ e. rw e refl)

  shut_db_tasks :
      (log : Log)
      → After (live (shut_line q) (shut_line r) (usable d) block s s false y) log
      → After
          (live (shut_line q) (shut_line r) (shut_line d) block s s false y)
          (act_if d (queue_shutdown db_tasks) log)
  shut_db_tasks log h =
      if_After d (queue_shutdown db_tasks)
        (live (shut_line q) (shut_line r) (usable d) block s s false y)
        (live (shut_line q) (shut_line r) (shut_line d) block s s false y) log h (λ e. rw e refl)
        (λ e. rw e refl)

  join_db_worker :
      (log : Log)
      → (y ≡ false) ⊎ (d ≡ true)
      → After (live (shut_line q) (shut_line r) (shut_line d) block s s false y) log
      → After
          (live (shut_line q) (shut_line r) (shut_line d) block s s false false)
          (act_if y (pthread_join db_worker) log)
  join_db_worker log w h =
      if_After y (pthread_join db_worker)
        (live (shut_line q) (shut_line r) (shut_line d) block s s false y)
        (live (shut_line q) (shut_line r) (shut_line d) block s s false false) log h
        (λ e. rw (wired_line y d w e, e) refl) (λ e. rw e refl)

  destroy_requests :
      (log : Log)
      → After (live (shut_line q) (shut_line r) (shut_line d) block s s false false) log
      → After
          (live absent (shut_line r) (shut_line d) block s s false false)
          (act_if q (destroy_queue requests) log)
  destroy_requests log h =
      if_After q (destroy_queue requests)
        (live (shut_line q) (shut_line r) (shut_line d) block s s false false)
        (live absent (shut_line r) (shut_line d) block s s false false) log h
        (λ e. rw e (rw (same s) refl)) (λ e. rw e refl)

  destroy_responses :
      (log : Log)
      → After (live absent (shut_line r) (shut_line d) block s s false false) log
      → After
          (live absent absent (shut_line d) block s s false false)
          (act_if r (destroy_queue responses) log)
  destroy_responses log h =
      if_After r (destroy_queue responses)
        (live absent (shut_line r) (shut_line d) block s s false false)
        (live absent absent (shut_line d) block s s false false) log h
        (λ e. rw e (rw (same s) refl)) (λ e. rw e refl)

  destroy_db_tasks :
      (log : Log)
      → After (live absent absent (shut_line d) block s s false false) log
      → After
          (live absent absent absent block s s false false)
          (act_if d (destroy_queue db_tasks) log)
  destroy_db_tasks log h =
      if_After d (destroy_queue db_tasks) (live absent absent (shut_line d) block s s false false)
        (live absent absent absent block s s false false) log h (λ e. rw e refl) (λ e. rw e refl)

  free_blocks :
      (log : Log)
      → After (live absent absent absent block s s false false) log
      → After nothing (free_runtime ∷ act_if t free_threads log)
  free_blocks log h =
      then_After free_runtime (live absent absent absent none s s false false) nothing
        (act_if t free_threads log)
        (if_After t free_threads (live absent absent absent block s s false false)
          (live absent absent absent none s s false false) log h (λ e. rw e (rw (same s) refl))
          (λ e. rw e refl))
        (rw (same s) refl)

-- `destroy_runtime` gives back what the runtime says that it has, in order.
pub destroy_runtime-After :
    (n : ℕ) (o : RuntimeParts) (log : Log)
    → Wired o
    → After (live_of n o) log
    → After nothing (destroy_runtime o log)
unfolding destroy_runtime
destroy_runtime-After n o log w h =
    let q = o.request_queue in
    let r = o.response_queue in
    let d = o.db_queue in
    let t = o.http_worker_threads in
    let x = o.dispatcher_started in
    let y = o.db_worker_started in
    let s = o.http_worker_count in
    let h1 =
      if_After q (queue_shutdown requests) (live_of n o)
        (live (shut_line q) (usable r) (usable d) (array n t) s 0 x y) log h (λ e. rw e refl)
        (λ e. rw e refl) in
    let h2 = join_workers-After q s (usable r) (usable d) (array n t) x y _ w.workers h1 in
    let h4 = join_dispatcher q r d t x y n s _ w.dispatcher (shut_responses q r d t x y n s _ h2) in
    let h6 = join_db_worker q r d t x y n s _ w.db_worker (shut_db_tasks q r d t x y n s _ h4) in
    let h9 =
      destroy_db_tasks q r d t x y n s _
        (destroy_responses q r d t x y n s _ (destroy_requests q r d t x y n s _ h6)) in
    free_blocks q r d t x y n s _ h9
