-- ===== src/Tests/Orchestrator.antt =====
-- One request on its way through a runtime with one worker.
use http_runtime.Base.{
  ℕ, arith, ◌+◌, ◌≤◌, true, Option, none, some, [], ◌∷◌, ◌≡◌, ◌≢◌, ◌⊎◌, refl, ℤ, pos, int_eq,
  if◌then◌else◌, ◌==◌,
}
use http_runtime.Models.{Response, empty_response}
use http_runtime.Tests.Rounds.{one_task}
use http_runtime.Orchestrator.{offer, close, handle_db_task, wait_for_response, poll}
use http_runtime.Orchestrator.Wait.{Finds, wait_for_response-Finds}
use http_runtime.Orchestrator.Pipeline.{
  waiting, holds, ended, running, joins_workers, joins_dispatcher, joins_db, destroyed, Runtime,
  create_runtime, make_workers, started, dispatch_task, send_response, dispatch_response, save,
  Turn, dispatch, take_task, respond, worker_ends, take_response, pass_on, dispatcher_ends,
  take_db_task, run_db_task, db_worker_ends, shut_requests, shut_responses, shut_db_tasks, destroy,
  Reachable, start, then_step,
}
use http_runtime.Orchestrator.Delivers.{tally}
use http_runtime.Orchestrator.Complete.{destroy_runtime-tally, remaining}
use http_runtime.Orchestrator.Ends.{Run, stop, go, destroy_runtime-ends}

abbrev answer : Response
answer = record empty_response { request_id = pos 7 }

-- The runtime after each of the steps
abbrev dispatched_one : Runtime
dispatched_one = (dispatch_task true one_task (started 1)).1

abbrev shutting : Runtime
shutting = record dispatched_one { requests = close dispatched_one.requests; owner = joins_workers }

abbrev busy_one : Runtime
busy_one = record shutting {
  requests = record shutting.requests { items = [] };
  workers = 0;
  busy = one_task ∷ [];
}

abbrev answered : Runtime
answered = send_response true answer (record busy_one { workers = 1; busy = [] })

abbrev worker_gone : Runtime
worker_gone = record answered { workers = 0 }

abbrev joined : Runtime
joined = record worker_gone { responses = close worker_gone.responses; owner = joins_dispatcher }

abbrev in_hand : Runtime
in_hand = record joined {
  responses = record joined.responses { items = [] };
  dispatcher = holds answer;
}

abbrev handed_on : Runtime
handed_on = dispatch_response true true answer (record in_hand { dispatcher = waiting })

abbrev dispatcher_gone : Runtime
dispatcher_gone = record handed_on { dispatcher = ended }

abbrev db_shut : Runtime
db_shut = record dispatcher_gone { db_tasks = close dispatcher_gone.db_tasks; owner = joins_db }

abbrev db_busy : Runtime
db_busy = record db_shut {
  db_tasks = record db_shut.db_tasks { items = [] };
  db_worker = holds answer;
}

abbrev saved_one : Runtime
saved_one = save true answer (record db_busy { db_worker = waiting })

abbrev db_gone : Runtime
db_gone = record saved_one { db_worker = ended }

abbrev gone : Runtime
gone = record db_gone { owner = destroyed }

shutting-Reachable : Reachable shutting
unfolding dispatch_task offer create_runtime make_workers
shutting-Reachable =
    then_step dispatched_one shutting
      (then_step (started 1) dispatched_one (start (λ r. true) (pos 1) (started 1) refl)
        (dispatch (started 1) true one_task refl))
      (shut_requests dispatched_one refl)

joined-Reachable : Reachable joined
unfolding dispatch_task offer send_response
joined-Reachable =
    then_step worker_gone joined
      (then_step answered worker_gone
        (then_step busy_one answered
          (then_step shutting busy_one shutting-Reachable
            (take_task shutting 0 one_task [] refl refl))
          (respond busy_one true [] [] one_task answer refl refl))
        (worker_ends answered 0 refl refl refl))
      (shut_responses worker_gone refl refl refl)

db_shut-Reachable : Reachable db_shut
unfolding dispatch_task offer send_response dispatch_response
db_shut-Reachable =
    then_step dispatcher_gone db_shut
      (then_step handed_on dispatcher_gone
        (then_step in_hand handed_on
          (then_step joined in_hand joined-Reachable (take_response joined answer [] refl refl))
          (pass_on in_hand true true answer refl))
        (dispatcher_ends handed_on refl refl refl))
      (shut_db_tasks dispatcher_gone refl refl)

gone-Reachable : Reachable gone
unfolding dispatch_task offer send_response dispatch_response
gone-Reachable =
    then_step db_gone gone
      (then_step saved_one db_gone
        (then_step db_busy saved_one
          (then_step db_shut db_busy db_shut-Reachable (take_db_task db_shut answer [] refl refl))
          (run_db_task db_busy true answer refl))
        (db_worker_ends saved_one refl refl refl))
      (destroy db_gone refl refl)

gone-saved : gone.saved ≡ pos 7 ∷ []
unfolding dispatch_task offer send_response dispatch_response handle_db_task
gone-saved = refl

gone-owner : gone.owner ≡ destroyed
gone-owner = refl

destroy_runtime-tally_example :
    (tally (int_eq (pos 7)) gone.dispatched
      ≡ tally (int_eq (pos 7)) gone.saved
        + tally (int_eq (pos 7)) gone.unsaved
        + tally (int_eq (pos 7)) gone.dropped)
    × (gone.refused ≡ [])
destroy_runtime-tally_example =
    destroy_runtime-tally gone gone-Reachable gone-owner (int_eq (pos 7))

shutting-stops : shutting.owner ≢ running
shutting-stops e = absurd (cc)

one_step : Run 1 shutting busy_one
unfolding dispatch_task offer
one_step =
    go 0 shutting busy_one busy_one (take_task shutting 0 one_task [] refl refl) (stop busy_one)

destroy_runtime-ends_example :
    (1 ≤ remaining shutting) × ((busy_one.owner ≡ destroyed) ⊎ ((u : Runtime) × Turn busy_one u))
destroy_runtime-ends_example =
    destroy_runtime-ends 1 shutting busy_one shutting-Reachable shutting-stops one_step

-- The state counts the sleeps; the response is there at the third poll.
abbrev get : ℤ → ℕ → Option Response × ℕ
get request_id w = (if w == 2 then some answer else none, w)

abbrev sleep : ℕ → ℕ → ℕ
sleep n w = w + 1

third_poll : wait_for_response get sleep (pos 7) (pos 250) 0 ≡ some (some answer, 2)
unfolding wait_for_response poll
third_poll = refl

wait_for_response-Finds_example :
    (o : Option Response) × (w' : ℕ) × (wait_for_response get sleep (pos 7) (pos 250) 0
      ≡ some (o, w'))
    × Finds get sleep 0 (pos 7) (pos 250) 0 o
wait_for_response-Finds_example =
    wait_for_response-Finds get sleep (pos 7) (pos 250) 0 (omega arith)
