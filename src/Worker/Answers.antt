-- ===== src/Worker/Answers.antt =====
-- The worker of src/core/worker.c answers each request once.
use http_runtime.Base.{
  ◌+◌, ℕ, Bool, true, false, Option, none, some, List, [], ◌∷◌, ◌++◌, ◌≡◌, refl, ap, sym, ◌∙◌,
  subst, map, append_assoc, append-nil, map-append, ◌==◌, length, Bytes, ℤ, arith,
}
use http_runtime.Models.{Request, Response, response_curl_error}
use http_runtime.Models.Create.{WorkerTask}
use http_runtime.Exec.{
  ok, on_failure, on_failure-Leads, Leads, Leads-pure, Leads-bind, Outcome, Outcome-if,
  Outcome-Option,
}
use http_runtime.Worker.{write_callback, header_callback}
use http_runtime.Worker.Curl.{
  CurlOption, Piece, body_piece, header_piece, Curl, set_curl_method, set_curl_headers,
}
use http_runtime.Worker.Http.{
  Round, collected, deliver, push_response_or_free, with_error, curl_error, make_response,
  init_curl, set_method, set_headers, set_option, set_options, request_options, fill, transfer,
  free_header_list, handle_request, cleanup_round, begun, handle_data, handle_task,
  http_worker_routine, response_size,
}

write_callback-request_id :
    (realloc : Option Bytes → ℕ → Option Bytes) (bytes : Bytes) (r : Response)
    → (collected r (write_callback realloc bytes r)).request_id ≡ r.request_id
unfolding write_callback
write_callback-request_id realloc bytes r = ground arith

header_callback-request_id :
    (realloc : Option Bytes → ℕ → Option Bytes) (bytes : Bytes) (r : Response)
    → (collected r (header_callback realloc bytes r)).request_id ≡ r.request_id
unfolding header_callback
header_callback-request_id realloc bytes r = ground arith

deliver-request_id :
    (realloc : Option Bytes → ℕ → Option Bytes) (pieces : List Piece) (r : Response)
    → (deliver realloc pieces r).request_id ≡ r.request_id
unfolding deliver
deliver-request_id realloc [] r = refl
deliver-request_id realloc (body_piece bytes ∷ pieces) r =
    deliver-request_id realloc pieces _ ∙ write_callback-request_id realloc bytes r
deliver-request_id realloc (header_piece bytes ∷ pieces) r =
    deliver-request_id realloc pieces _ ∙ header_callback-request_id realloc bytes r

module _ {W : Type 0} (curl : Curl W) where
  fill-request_id :
      (b : Bool) (pieces : List Piece) (w : W) (r : Response)
      → (fill curl b pieces w r).request_id ≡ r.request_id
  unfolding fill
  fill-request_id true pieces w r = deliver-request_id curl.realloc pieces r
  fill-request_id false pieces w r = deliver-request_id curl.realloc pieces r

  -- The response to the request `id` is still to be sent, or is the last one sent.
  abbrev Pending : ℤ → List Response → Round W → Type 0
  Pending id sent s = (r : Response) × (s.response ≡ some r) × (r.request_id ≡ id) × (s.sent ≡ sent)

  abbrev Answered : ℤ → List Response → Round W → Type 0
  Answered id sent s =
      (s.response ≡ none) × ((r : Response) × (r.request_id ≡ id) × (s.sent ≡ sent ++ r ∷ []))

  push_some :
      (s : Round W) (r : Response)
      → s.response ≡ some r
      → ((push_response_or_free curl s).response ≡ none)
        × ((push_response_or_free curl s).sent ≡ s.sent ++ r ∷ [])
  unfolding push_response_or_free
  push_some s r e = ground arith

  push-Answered :
      (id : ℤ) (sent : List Response) (s : Round W)
      → Pending id sent s
      → Answered id sent (push_response_or_free curl s)
  push-Answered id sent s (r, e, i, t) =
      let (n, k) = push_some s r e in (n, (r, i, k ∙ ap (λ xs. xs ++ r ∷ []) t))

  error_some :
      (s : Round W) (r : Response)
      → s.response ≡ some r
      → (t : Response) × ((with_error curl s).response ≡ some t)
        × (t.request_id ≡ r.request_id)
        × ((with_error curl s).sent ≡ s.sent)
  error_some s r e = (record r { result = response_curl_error }, ground arith, refl, ground arith)

  error-Answered :
      (id : ℤ) (sent : List Response) (s : Round W)
      → Pending id sent s
      → Outcome (Answered id sent) (Pending id sent) (curl_error curl s)
  unfolding curl_error
  error-Answered id sent s (r, e, i, t) =
      let (r', e', i', t') = error_some s r e in
      push-Answered id sent (with_error curl s) (r', e', i' ∙ i, t' ∙ t)

  abbrev pub filled : Round W → Response → Round W
  filled s r =
      let p = curl.perform s.world in
      record s { world = p.2; response = some (fill curl p.0 p.1 p.2 r) }

  pub transfer-some :
      (s : Round W) (r : Response)
      → s.response ≡ some r
      → transfer curl s ≡ (ok tt, push_response_or_free curl (filled s r))
  unfolding transfer
  transfer-some s r e = ground arith

  module _ (id : ℤ) (sent : List Response) where
    init_curl-Leads : Leads (Answered id sent) (Pending id sent) (Pending id sent) (init_curl curl)
    unfolding init_curl
    init_curl-Leads = record {
      at = λ s h.
          Outcome-if (Answered id sent) (Pending id sent) (curl.easy_init s.world).0 _ _ (λ e. h)
            (λ e. error-Answered id sent (record s { world = (curl.easy_init s.world).1 }) h);
    }

    set_method-Leads :
        (req : Request)
        → Leads (Answered id sent) (Pending id sent) (Pending id sent) (set_method curl req)
    unfolding set_method
    set_method-Leads req = record {
      at = λ s h.
          let r = set_curl_method curl req s.world in
          Outcome-if (Answered id sent) (Pending id sent) r.0 _ _ (λ e. h)
            (λ e. error-Answered id sent (record s { world = r.1 }) h);
    }

    set_headers-Leads :
        (headers : Option Bytes)
        → Leads (Answered id sent) (Pending id sent) (Pending id sent) (set_headers curl headers)
    unfolding set_headers
    set_headers-Leads none = record { at = λ s h. h }
    set_headers-Leads (some headers) = record {
      at = λ s h.
          let r = set_curl_headers curl headers s.world in
          Outcome-if (Answered id sent) (Pending id sent) (length headers == 0) _ _ (λ e. h)
            (λ e.
              Outcome-Option (Answered id sent) (Pending id sent) r.0 _ _
                (error-Answered id sent
                  (record s { world = r.1; owned = record s.owned { lists = s.owned.lists + r.2 } })
                  h)
                (λ list. h));
    }

    set_option-Leads :
        (o : CurlOption)
        → Leads (Answered id sent) (Pending id sent) (Pending id sent) (set_option curl o)
    unfolding set_option
    set_option-Leads o = record {
      at = λ s h.
          let r = curl.setopt o s.world in
          Outcome-if (Answered id sent) (Pending id sent) r.0 _ _ (λ e. h)
            (λ e.
              error-Answered id sent
                (record s { world = r.1; owned = record s.owned { refused = s.owned.refused + 1 } })
                h);
    }

    set_options-Leads :
        (options : List CurlOption)
        → Leads (Answered id sent) (Pending id sent) (Pending id sent) (set_options curl options)
    unfolding set_options
    set_options-Leads [] = Leads-pure tt
    set_options-Leads (o ∷ options) =
        Leads-bind _ _ (set_option-Leads o) (λ _. set_options-Leads options)

    transfer-Leads : Leads (Answered id sent) (Pending id sent) (Answered id sent) (transfer curl)
    transfer-Leads = record {
      at = λ s h.
          let (r, e, i, t) = h in
          let p = curl.perform s.world in
          subst (Outcome (Answered id sent) (Answered id sent)) (sym (transfer-some s r e)) (
            push-Answered id sent (filled s r)
              (fill curl p.0 p.1 p.2 r, refl, fill-request_id p.0 p.1 p.2 r ∙ i, t));
    }

    free_header_list-Leads :
        Leads (Answered id sent) (Answered id sent) (Answered id sent) (free_header_list curl)
    unfolding free_header_list
    free_header_list-Leads = record {
      at = λ s h.
          Outcome-Option (Answered id sent) (Answered id sent) s.header_list _ _ h (λ list. h);
    }

  -- The allocator always has a block for a response.
  abbrev pub HasResponse : Type 0
  HasResponse = (w : W) → curl.malloc w response_size ≡ true

  make_response-Leads :
      HasResponse
      → (req : Request) (sent : List Response)
      → Leads
          (Answered req.id sent)
          (λ s. s.sent ≡ sent)
          (Pending req.id sent)
          (make_response curl req)
  unfolding make_response
  make_response-Leads has req sent = record {
    at = λ s h.
        Outcome-if (Answered req.id sent) (Pending req.id sent) (curl.malloc s.world response_size)
          _ _ (λ e. (_, refl, refl, h)) (λ e. absurd (let f = sym (has s.world) ∙ e in cc));
  }

  handle_request-Leads :
      HasResponse
      → (req : Request) (sent : List Response)
      → Leads
          (Answered req.id sent)
          (λ s. s.sent ≡ sent)
          (Answered req.id sent)
          (handle_request curl req)
  unfolding handle_request
  handle_request-Leads has req sent = Leads-bind _ _ (make_response-Leads has req sent) (λ _.
      Leads-bind _ _ (init_curl-Leads req.id sent) (λ _.
        Leads-bind _ _ (set_method-Leads req.id sent req) (λ _.
          Leads-bind _ _ (set_headers-Leads req.id sent req.headers) (λ _.
            Leads-bind _ _ (set_options-Leads req.id sent (request_options curl req)) (λ _.
              Leads-bind _ _ (transfer-Leads req.id sent)
                (λ _. free_header_list-Leads req.id sent))))))

  cleanup-sent : (s : Round W) → (cleanup_round curl s).sent ≡ s.sent
  unfolding cleanup_round
  cleanup-sent s = ground arith

  abbrev pub data_ids : Option Request → List ℤ
  data_ids none = []
  data_ids (some req) = req.id ∷ []

  -- The ids of the requests of the tasks, in turn.
  abbrev pub request_ids : List WorkerTask → List ℤ
  request_ids [] = []
  request_ids (task ∷ tasks) = data_ids task.request ++ request_ids tasks

  abbrev pub sent_ids : List Response → List ℤ
  sent_ids responses = map (λ r. r.request_id) responses

  handle_data-sent :
      HasResponse
      → (data_req : Option Request) (s : Round W)
      → sent_ids (handle_data curl data_req s).sent ≡ sent_ids s.sent ++ data_ids data_req
  unfolding handle_data
  handle_data-sent has none s = sym (append-nil (sent_ids s.sent))
  handle_data-sent has (some req) s =
      let t =
        (on_failure (handle_request curl req) (λ u. (tt, u))
          (begun curl s.world s.sent s.owned)).1 in
      let answered =
        on_failure-Leads {E = Answered req.id s.sent} {P = λ u. u.sent ≡ s.sent}
          {Q = Answered req.id s.sent} (handle_request curl req) (λ u. (tt, u))
          (handle_request-Leads has req s.sent) (λ u h. h) (begun curl s.world s.sent s.owned)
          refl in
      let (r, i, e) = answered.1 in
      ap sent_ids (cleanup-sent t ∙ e)
      ∙ map-append (λ r. r.request_id) s.sent (r ∷ [])
      ∙ ap (λ x. sent_ids s.sent ++ x ∷ []) i

  -- When the allocator has a block for each response, and whatever libcurl and the queue do, the
  -- worker sends one response for each request that it takes, with the id of the request, in the
  -- order of the tasks, and no other.
  pub http_worker_routine-sent :
      HasResponse
      → (tasks : List WorkerTask) (s : Round W)
      → sent_ids (http_worker_routine curl tasks s).sent ≡ sent_ids s.sent ++ request_ids tasks
  unfolding http_worker_routine
  http_worker_routine-sent has [] s = sym (append-nil (sent_ids s.sent))
  http_worker_routine-sent has (task ∷ tasks) s =
      http_worker_routine-sent has tasks (handle_task curl task s)
      ∙ ap (λ x. x ++ request_ids tasks) (handle_data-sent has task.request s)
      ∙ append_assoc (sent_ids s.sent) (data_ids task.request) (request_ids tasks)
