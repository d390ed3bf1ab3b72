-- ===== src/Tests/Rounds.antt =====
-- The worker on calls that all succeed, and a task with a request.
use http_runtime.Base.{ℕ, ◌+◌, true, some, none, [], ◌∷◌, ◌++◌, ◌≡◌, refl, codes, pos}
use http_runtime.Models.{Request}
use http_runtime.Models
use http_runtime.Models.Create.{WorkerTask}
use http_runtime.Worker.Curl.{Curl, body_piece, header_piece}
use http_runtime.Worker.Http.{Round, begun, http_worker_routine}
use http_runtime.Worker.Answers.{http_worker_routine-sent, sent_ids, request_ids}
use http_runtime.Worker.Handles.{http_worker_routine-Kept, Kept}

-- The state counts the calls; each transfer gives a header and a body.
abbrev calm : Curl ℕ
calm = record {
  easy_init = λ w. (true, w + 1);
  setopt = λ o w. (true, w + 1);
  slist_append = λ line w. (true, w + 1);
  perform = λ w. (true, header_piece (codes "Date: now") ∷ body_piece (codes "hello") ∷ [], w + 1);
  response_code = λ w. pos 200;
  content_type = λ w. some (codes "text/plain");
  total_time = λ w. some 1;
  easy_cleanup = λ w. w + 1;
  push_response = λ r w. (true, w + 1);
  malloc = λ w n. true;
  realloc = λ block n. none;
}

abbrev pub one_task : WorkerTask
one_task = record {
  request = some (record {
    id = pos 7;
    collection_id = pos 0;
    method = Models.post;
    url = some (codes "localhost");
    url_len = 9;
    headers = some (codes "Accept: text/plain");
    headers_len = 18;
    body = some (codes "hi");
    body_len = 2;
    status = pos 0;
  });
}

abbrev idle : Round ℕ
idle = begun calm 0 [] (record { responses = 0; curls = 0; lists = 0; refused = 0 })

http_worker_routine-sent_example :
    sent_ids calm (http_worker_routine calm (one_task ∷ []) idle).sent
    ≡ sent_ids calm idle.sent ++ request_ids calm (one_task ∷ [])
http_worker_routine-sent_example = http_worker_routine-sent calm (λ w. refl) (one_task ∷ []) idle

http_worker_routine-Kept_example :
    Kept calm idle.owned (http_worker_routine calm (one_task ∷ []) idle).owned
http_worker_routine-Kept_example = http_worker_routine-Kept calm (one_task ∷ []) idle
