-- ===== src/Worker/Http.antt =====
-- src/core/worker.c: `http_worker_routine`.
use http_runtime.Base.{
  ℕ, ◌+◌, ◌-◌, Bool, true, false, Option, none, some, List, [], ◌∷◌, ◌++◌, ◌==◌, if◌then◌else◌,
  length, Bytes, codes,
}
use http_runtime.Models.{Request, Response, empty_response, response_ok, response_curl_error}
use http_runtime.Models.Create.{WorkerTask}
use http_runtime.Exec.{Exec, Result, ok, failure, pure, ◌>>◌, on_failure}
use http_runtime.Worker.{Collected, returned, overrun, write_callback, header_callback}
use http_runtime.Worker.Curl.{
  CurlOption, write_function, header_function, write_data, header_data, url, user_agent,
  connect_timeout, timeout, follow_location, max_redirs, Piece, body_piece, header_piece, Curl,
  set_curl_method, set_curl_headers,
}

abbrev pub response_size : ℕ
response_size = 88

-- Handles and objects that the worker has made and neither given back nor handed over.
pub record Handles : Type 0 where
  pub responses : ℕ
  pub curls : ℕ
  pub lists : ℕ
  pub refused : ℕ  -- calls of `set_option` in which libcurl refused the option

-- The variables of a round of the worker's loop; `sent` is every response that the worker has
-- offered to the queue, which frees what it refuses.
pub record Round (W : Type 0) : Type 0 where
  pub world : W
  pub response : Option Response
  pub curl : Bool
  pub header_list : Option (List Bytes)
  pub sent : List Response
  pub owned : Handles

-- A callback that writes outside its block would have no meaning; Worker/Buffer and
-- Worker/Headers show that there is none.
abbrev pub collected : Response → Collected → Response
collected r (returned n r') = r'
collected r overrun = r

unfoldable pub deliver : (Option Bytes → ℕ → Option Bytes) → List Piece → Response → Response
deliver realloc [] r = r
deliver realloc (body_piece bytes ∷ pieces) r =
    deliver realloc pieces (collected r (write_callback realloc bytes r))
deliver realloc (header_piece bytes ∷ pieces) r =
    deliver realloc pieces (collected r (header_callback realloc bytes r))

module _ {W : Type 0} (curl : Curl W) where
  -- What is offered to the queue belongs to it, or is freed.
  unfoldable pub push_response_or_free : Round W → Round W
  push_response_or_free s = elim s.response [
    | none ↦ s
    | some response ↦ record s {
      world = (curl.push_response response s.world).1;
      response = none;
      sent = s.sent ++ response ∷ [];
      owned = record s.owned { responses = s.owned.responses - 1 };
    }
  ]

  abbrev pub with_error : Round W → Round W
  with_error s = elim s.response [
    | none ↦ s
    | some r ↦ record s { response = some (record r { result = response_curl_error }) }
  ]

  -- `response->result = RESPONSE_CURL_ERROR; push_response_or_free(o, &response); goto …;`
  unfoldable pub curl_error : Round W → Result (Unit {0}) × Round W
  unfolding push_response_or_free
  curl_error s = (failure, push_response_or_free (with_error s))

  unfoldable pub make_response : Request → Exec (Round W) (Unit {0})
  make_response req s =
      if curl.malloc s.world response_size
      then (
        ok tt,
        record s {
          response = some (record empty_response { request_id = req.id });
          owned = record s.owned { responses = s.owned.responses + 1 };
        },
      )
      else (failure, s)

  unfoldable pub init_curl : Exec (Round W) (Unit {0})
  unfolding curl_error
  init_curl s =
      let r = curl.easy_init s.world in
      let t = record s { world = r.1 } in
      if r.0
      then (ok tt, record t { curl = true; owned = record t.owned { curls = t.owned.curls + 1 } })
      else curl_error t

  unfoldable pub set_method : Request → Exec (Round W) (Unit {0})
  unfolding curl_error
  set_method req s =
      let r = set_curl_method curl req s.world in
      let t = record s { world = r.1 } in if r.0 then (ok tt, t) else curl_error t

  -- `req->headers && *req->headers != '\0'`
  unfoldable pub set_headers : Option Bytes → Exec (Round W) (Unit {0})
  unfolding curl_error
  set_headers none s = (ok tt, s)
  set_headers (some headers) s =
      let r = set_curl_headers curl headers s.world in
      let t = record s { world = r.1; owned = record s.owned { lists = s.owned.lists + r.2 } } in
      if length headers == 0 then (ok tt, s) else elim r.0 [
        | none ↦ curl_error t
        | some list ↦ (ok tt, record t { header_list = some list })
      ]

  unfoldable pub set_option : CurlOption → Exec (Round W) (Unit {0})
  unfolding curl_error
  set_option o s =
      let r = curl.setopt o s.world in
      let t = record s { world = r.1 } in
      if r.0
      then (ok tt, t)
      else curl_error (record t { owned = record t.owned { refused = t.owned.refused + 1 } })

  unfoldable pub set_options : List CurlOption → Exec (Round W) (Unit {0})
  set_options [] = pure tt
  set_options (o ∷ options) = do set_option o; set_options options

  abbrev pub or_empty : Option Bytes → Bytes
  or_empty none = []
  or_empty (some s) = s

  abbrev pub request_options : Request → List CurlOption
  request_options req =
      url (or_empty req.url)
      ∷ write_function
      ∷ write_data
      ∷ header_function
      ∷ header_data
      ∷ connect_timeout 10
      ∷ timeout 30
      ∷ follow_location 1
      ∷ max_redirs 5
      ∷ user_agent (codes "MyCWorker/1.0")
      ∷ []

  -- `strdup`
  abbrev pub duplicate : W → Option Bytes → Option Bytes
  duplicate w none = none
  duplicate w (some s) = if curl.malloc w (length s + 1) then some s else none

  abbrev pub or_value : Option ℕ → ℕ → ℕ
  or_value none n = n
  or_value (some t) n = t

  -- The response after `curl_easy_perform`
  unfoldable pub fill : Bool → List Piece → W → Response → Response
  unfolding deliver
  fill succeeded pieces w r =
      let t = deliver curl.realloc pieces r in
      if succeeded
      then record t {
        result = response_ok;
        status_code = curl.response_code w;
        content_type = duplicate w (curl.content_type w);
        duration = or_value (curl.total_time w) t.duration;
      }
      else record t { result = response_curl_error }

  unfoldable pub transfer : Exec (Round W) (Unit {0})
  unfolding push_response_or_free fill
  transfer s =
      let r = curl.perform s.world in
      let t = record s { world = r.2 } in
      elim s.response [
        | none ↦ (ok tt, t)
        | some response ↦ (
          ok tt,
          push_response_or_free (record t { response = some (fill r.0 r.1 r.2 response) }),
        )
      ]

  -- `cleanup_header_list`, which only the way through the transfer passes.
  unfoldable pub free_header_list : Exec (Round W) (Unit {0})
  free_header_list s = elim s.header_list [
    | none ↦ (ok tt, s)
    | some list ↦ (
      ok tt,
      record s { header_list = none; owned = record s.owned { lists = s.owned.lists - 1 } },
    )
  ]

  unfoldable pub handle_request : Request → Exec (Round W) (Unit {0})
  handle_request req = do
    make_response req
    init_curl
    set_method req
    set_headers req.headers
    set_options (request_options req)
    transfer
    free_header_list

  -- `cleanup_curl` and `cleanup_response`. A way that has no handle or no response jumps past
  -- the code for it, which does nothing then.
  unfoldable pub cleanup_round : Round W → Round W
  cleanup_round s =
      let t =
        if s.curl
        then record s {
          world = curl.easy_cleanup s.world;
          curl = false;
          owned = record s.owned { curls = s.owned.curls - 1 };
        }
        else s in
      elim t.response [
        | none ↦ t
        | some r ↦ record t {
          response = none;
          owned = record t.owned { responses = t.owned.responses - 1 };
        }
      ]

  abbrev pub begun : W → List Response → Handles → Round W
  begun w sent owned = record {
    world = w;
    response = none;
    curl = false;
    header_list = none;
    sent = sent;
    owned = owned;
  }

  unfoldable pub handle_data : Option Request → Round W → Round W
  unfolding cleanup_round
  handle_data none s = begun s.world s.sent s.owned
  handle_data (some req) s =
      cleanup_round
        (on_failure (handle_request req) (λ t. (tt, t)) (begun s.world s.sent s.owned)).1

  -- One round for a task; its request and the task itself are freed in the end.
  unfoldable pub handle_task : WorkerTask → Round W → Round W
  unfolding handle_data
  handle_task task s = handle_data task.request s

  -- The tasks that `queue_pop` returns in turn, before NULL.
  unfoldable pub http_worker_routine : List WorkerTask → Round W → Round W
  unfolding handle_task
  http_worker_routine [] s = s
  http_worker_routine (task ∷ tasks) s = http_worker_routine tasks (handle_task task s)
