-- ===== src/Worker/Handles.antt =====
-- The worker of src/core/worker.c gives back what it takes, but for header lists.
use http_runtime.Base.{
  ℕ, ◌+◌, ◌-◌, ◌≤◌, Option-cases, Bool, true, false, Option, none, some, List, [], ◌∷◌, ◌≡◌, refl,
  sym, ◌∙◌, subst, inl, inr, ◌==◌, length, Bytes, arith,
}
use http_runtime.Models.{Request}
use http_runtime.Models.Create.{WorkerTask}
use http_runtime.Exec.{
  Result, ok, failure, on_failure-Leads, Leads, Leads-pure, Leads-bind, Outcome, Outcome-if,
}
use http_runtime.Worker.Curl.{CurlOption, Curl, set_curl_method, set_curl_headers}
use http_runtime.Worker.Answers.{filled, transfer-some}
use http_runtime.Worker.Http.{
  Handles, Round, push_response_or_free, with_error, curl_error, make_response, init_curl,
  set_method, set_headers, set_option, set_options, request_options, transfer, free_header_list,
  handle_request, cleanup_round, begun, handle_data, handle_task, http_worker_routine,
  response_size,
}
use http_runtime.Worker.Lists.{
  is_some, bit, bit-le, is_some-true, is_some-false, set_curl_headers-Whole,
}

module _ {W : Type 0} (curl : Curl W) where
  module _ (base : Handles) where
    -- Which variables are set, that they are all that is owned beside `base`, and how many
    -- options were refused.
    abbrev At : ℕ → Bool → Bool → Bool → Round W → Type 0
    At n r c l s =
        (is_some s.response ≡ r)
        × (s.curl ≡ c)
        × (is_some s.header_list ≡ l)
        × (s.owned.responses ≡ base.responses + bit r)
        × (s.owned.curls ≡ base.curls + bit c)
        × (s.owned.lists ≡ base.lists + bit l)
        × (s.owned.refused ≡ base.refused + n)

    abbrev Stopped : Round W → Type 0
    Stopped s = (n : ℕ) × (r : Bool) × (c : Bool) × (l : Bool) × At n r c l s × (bit l ≤ n)

    push-At :
        (n : ℕ) (c l : Bool) (s : Round W)
        → At n true c l s
        → At n false c l (push_response_or_free curl s)
    unfolding push_response_or_free
    push-At n c l s (a, b, d, e, f, g, k) = ground arith

    with_error-At :
        (n : ℕ) (c l : Bool) (s : Round W) → At n true c l s → At n true c l (with_error curl s)
    with_error-At n c l s (a, b, d, e, f, g, k) = ground arith

    error-Stopped :
        (n : ℕ) (Q : Round W → Type 0) (c l : Bool) (s : Round W)
        → bit l ≤ n
        → At n true c l s
        → Outcome Stopped Q (curl_error curl s)
    unfolding curl_error
    error-Stopped n Q c l s w h =
        (n, false, c, l, push-At n c l (with_error curl s) (with_error-At n c l s h), w)

    make_response-At :
        (req : Request)
        → Leads Stopped (At 0 false false false) (At 0 true false false) (make_response curl req)
    unfolding make_response
    make_response-At req = record {
      at = λ s h.
          Outcome-if Stopped (At 0 true false false) (curl.malloc s.world response_size) _ _
            (λ e. (refl, h.1, h.2, omega (arith, h.3), h.4, h.5, h.6))
            (λ e. (0, false, false, false, h, omega arith));
    }

    init_curl-At : Leads Stopped (At 0 true false false) (At 0 true true false) (init_curl curl)
    unfolding init_curl
    init_curl-At = record {
      at = λ s h.
          Outcome-if Stopped (At 0 true true false) (curl.easy_init s.world).0 _ _
            (λ e. (h.0, refl, h.2, h.3, omega (arith, h.4), h.5, h.6))
            (λ e.
              error-Stopped 0 (At 0 true true false) false false
                (record s { world = (curl.easy_init s.world).1 }) (omega arith) h);
    }

    set_method-At :
        (req : Request)
        → Leads Stopped (At 0 true true false) (At 0 true true false) (set_method curl req)
    unfolding set_method
    set_method-At req = record {
      at = λ s h.
          let r = set_curl_method curl req s.world in
          Outcome-if Stopped (At 0 true true false) r.0 _ _ (λ e. h)
            (λ e.
              error-Stopped 0 (At 0 true true false) true false (record s { world = r.1 })
                (omega arith) h);
    }

    -- The header list is there or not.
    abbrev Ready : Round W → Type 0
    Ready s = (l : Bool) × At 0 true true l s

    set_headers-At :
        (headers : Option Bytes)
        → Leads Stopped (At 0 true true false) Ready (set_headers curl headers)
    unfolding set_headers
    set_headers-At none = record { at = λ s h. (false, h) }
    set_headers-At (some headers) = record {
      at = λ s h.
          let r = set_curl_headers curl headers s.world in
          let k = set_curl_headers-Whole curl headers s.world in
          Outcome-if Stopped Ready (length headers == 0) _ _ (λ e. (false, h))
            (λ e. elim (Option-cases r.0) [
              | inl f ↦
                  let z : r.2 ≡ 0 = rw f at k in
                  rw f (
                    error-Stopped 0 Ready true false
                      (record s {
                        world = r.1;
                        owned = record s.owned { lists = s.owned.lists + r.2 };
                      })
                      (omega arith) (h.0, h.1, h.2, h.3, h.4, omega (arith, h.5, z), h.6))
              | inr (list, f) ↦
                  let z : r.2 ≡ 1 = rw f at k in
                  rw f (true, (h.0, h.1, refl, h.3, h.4, omega (arith, h.5, z), h.6))
            ]);
    }

    set_option-At : (o : CurlOption) → Leads Stopped Ready Ready (set_option curl o)
    unfolding set_option
    set_option-At o = record {
      at = λ s h.
          let r = curl.setopt o s.world in
          Outcome-if Stopped Ready r.0 _ _ (λ e. h)
            (λ e.
              error-Stopped 1 Ready true h.0
                (record s { world = r.1; owned = record s.owned { refused = s.owned.refused + 1 } })
                (bit-le h.0) (h.1.0, h.1.1, h.1.2, h.1.3, h.1.4, h.1.5, omega (arith, h.1.6)));
    }

    set_options-At :
        (options : List CurlOption) → Leads Stopped Ready Ready (set_options curl options)
    unfolding set_options
    set_options-At [] = Leads-pure tt
    set_options-At (o ∷ options) = Leads-bind _ _ (set_option-At o) (λ _. set_options-At options)

    -- The response is sent.
    abbrev Sent : Round W → Type 0
    Sent s = (l : Bool) × At 0 false true l s

    transfer-At : Leads Stopped Ready Sent (transfer curl)
    transfer-At = record {
      at = λ s h.
          let (r, e) = is_some-true s.response h.1.0 in
          let (a1, a2, a3, a4, a5, a6, a7) = h.1 in
          subst (Outcome Stopped Sent) (sym (transfer-some curl s r e))
            (h.0, push-At 0 true h.0 (filled curl s r) (refl, a2, a3, a4, a5, a6, a7));
    }

    free_none : (s : Round W) → s.header_list ≡ none → free_header_list curl s ≡ (ok tt, s)
    unfolding free_header_list
    free_none s e = ground arith

    free_some :
        (s : Round W) (list : List Bytes)
        → s.header_list ≡ some list
        → free_header_list curl s ≡ (
          ok tt,
          record s { header_list = none; owned = record s.owned { lists = s.owned.lists - 1 } },
        )
    unfolding free_header_list
    free_some s list e = ground arith

    free_header_list-At : Leads Stopped Sent (At 0 false true false) (free_header_list curl)
    free_header_list-At = record { at = λ s h. freed s h.0 h.1 }
      where
        freed :
            (s : Round W) (l : Bool)
            → At 0 false true l s
            → Outcome Stopped (At 0 false true false) (free_header_list curl s)
        freed s false h =
            subst (Outcome Stopped (At 0 false true false))
              (sym (free_none s (is_some-false s.header_list h.2))) h
        freed s true h =
            let (list, e) = is_some-true s.header_list h.2 in
            let (a1, a2, a3, a4, a5, a6, a7) = h in
            subst (Outcome Stopped (At 0 false true false)) (sym (free_some s list e))
              (a1, a2, refl, a4, a5, omega (arith, a6), a7)

    handle_request-At :
        (req : Request)
        → Leads Stopped (At 0 false false false) (At 0 false true false) (handle_request curl req)
    unfolding handle_request
    handle_request-At req = Leads-bind _ _ (make_response-At req) (λ _.
        Leads-bind _ _ init_curl-At (λ _. Leads-bind _ _ (set_method-At req) (λ _.
          Leads-bind _ _ (set_headers-At req.headers) (λ _.
            Leads-bind _ _ (set_options-At (request_options curl req))
              (λ _. Leads-bind _ _ transfer-At (λ _. free_header_list-At))))))

    -- The handles and the responses are as before, and a header list is lost at most for each
    -- option that was refused.
    abbrev pub Kept : Handles → Type 0
    Kept o =
        (o.responses ≡ base.responses)
        × (o.curls ≡ base.curls)
        × (base.lists ≤ o.lists)
        × (base.refused ≤ o.refused)
        × (o.lists + base.refused ≤ base.lists + o.refused)

    -- `r` and `c` are what the label frees; the lists are left alone.
    cleanup-owned :
        (n : ℕ) (r c l : Bool) (s : Round W)
        → At n r c l s
        → (let o = (cleanup_round curl s).owned in
            (o.responses ≡ base.responses)
            × (o.curls ≡ base.curls)
            × (o.lists ≡ base.lists + bit l)
            × (o.refused ≡ base.refused + n))
    unfolding cleanup_round
    cleanup-owned n r c l s (a1, a2, a3, a4, a5, a6, a7) = ground arith

    Stopped-Kept : (s : Round W) → Stopped s → Kept (cleanup_round curl s).owned
    Stopped-Kept s (n, r, c, l, h, w) =
        let (x, y, z, v) = cleanup-owned n r c l s h in
        (x, y, omega (arith, z), omega (arith, v), omega (arith, z, v, w))

    handle_request-Stopped :
        (req : Request) → Leads Stopped (At 0 false false false) Stopped (handle_request curl req)
    handle_request-Stopped req = record {
      at = λ s h. later (handle_request curl req s) ((handle_request-At req).at s h);
    }
      where
        later :
            (r : Result (Unit {0}) × Round W)
            → Outcome Stopped (At 0 false true false) r
            → Outcome Stopped Stopped r
        later (ok a, t) x = (0, false, true, false, x, omega arith)
        later (failure, t) x = x

  Kept-trans : (a b c : Handles) → Kept a b → Kept b c → Kept a c
  Kept-trans a b c (x, y, z, v, u) (x', y', z', v', u') =
      (x' ∙ x, y' ∙ y, omega (arith, z, z'), omega (arith, v, v'), omega (arith, u, u'))

  handle_data-Kept :
      (data_req : Option Request) (s : Round W) → Kept s.owned (handle_data curl data_req s).owned
  unfolding handle_data
  handle_data-Kept none s = (refl, refl, omega arith, omega arith, omega arith)
  handle_data-Kept (some req) s = Stopped-Kept s.owned _ (
      on_failure-Leads {E = Stopped s.owned} {P = At s.owned 0 false false false}
        {Q = Stopped s.owned} (handle_request curl req) (λ u. (tt, u))
        (handle_request-Stopped s.owned req) (λ u h. h) (begun curl s.world s.sent s.owned)
        (refl, refl, refl, omega arith, omega arith, omega arith, omega arith))

  -- Whatever libcurl, the queue and the allocator do, the worker ends its rounds with as many
  -- responses and handles of libcurl as it began with, each freed or handed over. No header list
  -- is freed that it did not make, and at most one is left for each option that libcurl refused
  -- in these rounds.
  pub http_worker_routine-Kept :
      (tasks : List WorkerTask) (s : Round W)
      → Kept s.owned (http_worker_routine curl tasks s).owned
  unfolding http_worker_routine handle_task
  http_worker_routine-Kept [] s = (refl, refl, omega arith, omega arith, omega arith)
  http_worker_routine-Kept (task ∷ tasks) s =
      Kept-trans s.owned (handle_task curl task s).owned _ (handle_data-Kept task.request s)
        (http_worker_routine-Kept tasks (handle_task curl task s))
