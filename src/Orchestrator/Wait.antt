-- ===== src/Orchestrator/Wait.antt =====
-- The polling of `wait_for_response` in src/core/orchestrator.c.
use http_runtime.Base.{
  ℕ, zero, suc, ◌+◌, ◌*◌, ◌≤◌, ◌<◌, true, false, Option, none, some, ◌≡◌, sym, ◌∙◌, subst, ltb→lt,
  lt→ltb, Bool-cases, Option-cases, inl, inr, ℤ, pos, negsuc, arith,
}
use http_runtime.Models.{Response}
use http_runtime.Orchestrator.{before, timeout_of, int_max, poll, wait_for_response}

module _ {W : Type 0} (get : ℤ → W → Option Response × W) (sleep : ℕ → W → W) where
  -- The state before the poll `k`, where those before it found nothing.
  abbrev pub after_polls : ℤ → ℕ → W → W
  after_polls request_id zero w = w
  after_polls request_id (suc k) w = after_polls request_id k (sleep 100000 (get request_id w).1)

  -- What the poll `k` finds.
  abbrev pub found : ℤ → ℕ → W → Option Response
  found request_id k w = (get request_id (after_polls request_id k w)).0

  poll_hit :
      (fuel elapsed : ℕ) (request_id timeout_ms : ℤ) (w : W) (resp : Response)
      → before elapsed timeout_ms ≡ true
      → (get request_id w).0 ≡ some resp
      → poll get sleep (suc fuel) elapsed request_id timeout_ms w
        ≡ some (some resp, (get request_id w).1)
  unfolding poll
  poll_hit fuel elapsed request_id timeout_ms w resp e f = ground arith

  poll_miss :
      (fuel elapsed : ℕ) (request_id timeout_ms : ℤ) (w : W)
      → before elapsed timeout_ms ≡ true
      → elapsed + 100 ≤ int_max
      → (get request_id w).0 ≡ none
      → poll get sleep (suc fuel) elapsed request_id timeout_ms w
        ≡ poll get sleep fuel
            (elapsed + 100)
            request_id
            timeout_ms
            (sleep 100000 (get request_id w).1)
  unfolding poll
  poll_miss fuel elapsed request_id timeout_ms w e l f = ground arith

  poll_over :
      (fuel elapsed : ℕ) (request_id timeout_ms : ℤ) (w : W)
      → before elapsed timeout_ms ≡ false
      → poll get sleep (suc fuel) elapsed request_id timeout_ms w ≡ some (none, w)
  unfolding poll
  poll_over fuel elapsed request_id timeout_ms w e = ground arith

  before→lt : (n : ℕ) (t : ℤ) → before n t ≡ true → n < timeout_of t
  before→lt n (pos t) e = ltb→lt n t e
  before→lt n (negsuc t) e = absurd (let f : false ≡ true = e in cc)

  -- The answer of the first poll in time that found a response, or NULL where none did.
  abbrev pub Finds : ℕ → ℤ → ℤ → W → Option Response → Type 0
  Finds elapsed request_id timeout_ms w (some resp) =
      (k : ℕ) × (before (elapsed + k * 100) timeout_ms ≡ true)
      × ((j : ℕ) → j < k → found request_id j w ≡ none)
      × (found request_id k w ≡ some resp)
  Finds elapsed request_id timeout_ms w none =
      (j : ℕ) → before (elapsed + j * 100) timeout_ms ≡ true → found request_id j w ≡ none

  next_round : (elapsed j : ℕ) → elapsed + 100 + j * 100 ≡ elapsed + suc j * 100
  next_round elapsed j = omega arith

  Finds-later :
      (elapsed : ℕ) (request_id timeout_ms : ℤ) (w : W) (o : Option Response)
      → (get request_id w).0 ≡ none
      → Finds (elapsed + 100) request_id timeout_ms (sleep 100000 (get request_id w).1) o
      → Finds elapsed request_id timeout_ms w o
  Finds-later elapsed request_id timeout_ms w (some resp) e (k, b, n, f) =
      (suc k, subst (λ x. before x timeout_ms ≡ true) (next_round elapsed k) b, earlier, f)
    where
      earlier : (j : ℕ) → j < suc k → found request_id j w ≡ none
      earlier zero l = e
      earlier (suc j) l = n j (omega (arith, l))
  Finds-later elapsed request_id timeout_ms w none e n = each
    where
      each : (j : ℕ) → before (elapsed + j * 100) timeout_ms ≡ true → found request_id j w ≡ none
      each zero b = e
      each (suc j) b = n j (subst (λ x. before x timeout_ms ≡ true) (sym (next_round elapsed j)) b)

  before_mono : (m n : ℕ) (t : ℤ) → m ≤ n → before n t ≡ true → before m t ≡ true
  before_mono m n (pos t) l e = lt→ltb m t (omega (arith, l, ltb→lt n t e))
  before_mono m n (negsuc t) l e = e

  Finds-over :
      (elapsed : ℕ) (request_id timeout_ms : ℤ) (w : W)
      → before elapsed timeout_ms ≡ false
      → Finds elapsed request_id timeout_ms w none
  Finds-over elapsed request_id timeout_ms w e j b =
      let f = before_mono elapsed (elapsed + j * 100) timeout_ms (omega arith) b in
      absurd (let g = sym e ∙ f in cc)

  abbrev Polled : ℕ → ℕ → ℤ → ℤ → W → Type 0
  Polled fuel elapsed request_id timeout_ms w =
      (o : Option Response) × (w' : W) × (poll get sleep (suc fuel) elapsed request_id timeout_ms w
        ≡ some (o, w'))
      × Finds elapsed request_id timeout_ms w o

  -- One round, given what the others do.
  poll-round :
      (fuel elapsed : ℕ) (request_id timeout_ms : ℤ) (w : W)
      → (before elapsed timeout_ms ≡ true
          → (get request_id w).0 ≡ none
          → Polled fuel elapsed request_id timeout_ms w)
      → Polled fuel elapsed request_id timeout_ms w
  poll-round fuel elapsed request_id timeout_ms w rest =
      elim (Bool-cases (before elapsed timeout_ms)) [
        | inr e ↦ (
          none,
          w,
          poll_over fuel elapsed request_id timeout_ms w e,
          Finds-over elapsed request_id timeout_ms w e,
        )
        | inl e ↦ elim (Option-cases (get request_id w).0) [
          | inl f ↦ rest e f
          | inr (resp, f) ↦ (
            some resp,
            _,
            poll_hit fuel elapsed request_id timeout_ms w resp e f,
            (
              0,
              before_mono (elapsed + 0) elapsed timeout_ms (omega arith) e,
              (λ j k. absurd (omega (arith, k))),
              f,
            ),
          )
        ]
      ]

  poll-Finds :
      (fuel elapsed : ℕ) (request_id timeout_ms : ℤ) (w : W)
      → timeout_of timeout_ms + 100 ≤ suc int_max
      → timeout_of timeout_ms ≤ elapsed + fuel
      → Polled fuel elapsed request_id timeout_ms w
  poll-Finds zero elapsed request_id timeout_ms w m l =
      poll-round zero elapsed request_id timeout_ms w
        (λ e f. absurd (let g = before→lt elapsed timeout_ms e in omega (arith, g, l)))
  poll-Finds (suc fuel) elapsed request_id timeout_ms w m l =
      let (o, w', g, h) =
        poll-Finds fuel (elapsed + 100) request_id timeout_ms (sleep 100000 (get request_id w).1) m
          (omega (arith, l)) in
      poll-round (suc fuel) elapsed request_id timeout_ms w (λ e f. (
        o,
        w',
        poll_miss (suc fuel) elapsed request_id timeout_ms w e
              (let b = before→lt elapsed timeout_ms e in omega (arith, b, m)) f
            ∙ g,
        Finds-later elapsed request_id timeout_ms w o f h,
      ))

  -- For a timeout of at most 2147483548 ms, by which `elapsed` stays an `int`, `wait_for_response`
  -- ends after finitely many polls, whatever the database answers. It returns
  -- the response of the first of its polls, 100 ms apart and all before the timeout, that finds
  -- one, and NULL when each of them finds none.
  pub wait_for_response-Finds :
      (request_id timeout_ms : ℤ) (w : W)
      → timeout_of timeout_ms + 100 ≤ suc int_max
      → (o : Option Response) × (w' : W) × (wait_for_response get sleep request_id timeout_ms w
          ≡ some (o, w'))
        × Finds 0 request_id timeout_ms w o
  unfolding wait_for_response
  wait_for_response-Finds request_id timeout_ms w m =
      poll-Finds (timeout_of timeout_ms) 0 request_id timeout_ms w m (omega arith)
