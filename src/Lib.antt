-- ===== src/Lib.antt =====
-- Verification of fman, a runner of HTTP checks written in C.
--
-- The program. A command line (src/cli) names a URL and the assertions on its response, or a
-- .fman file. The file is tokenized and parsed (src/dsl) into a run plan (src/core/run_plan.c).
-- The engine (src/core/engine.c) saves the requests in a database and hands them to the
-- orchestrator, whose threads pass them through three queues (src/core/queue.c) from the
-- workers to the database. The engine then polls for each response and checks the assertions
-- on it (src/core/assertion.c); the command prints the outcome.
--
-- The modules, and what they model.
--   Base            shared names, Boolean tests, lists, bytes, 32-bit integers
--   Ctype, Stdlib   the functions of the C library that the program calls
--   Models          include/core/models.h: requests, responses
--   Models/Create   the constructors of src/core/models.c
--   Exec            functions that call the outside world and may jump to a label
--   RunPlan         include/core/run_plan.h and src/core/run_plan.c
--   Assertion       include/core/assertion.h and src/core/assertion.c. Header is the search for
--                   a header field, Eval is eval_assertion; Search, Header/Lines and Eval/Holds
--                   prove what these mean
--   Dsl/Token, Dsl/Lexer    include/dsl/dsl_token.h and src/dsl/dsl_lexer.c. Lexer/Tokens has
--                   the scanners and the loop over the tokens; Lexer/Lexeme states the lexical
--                   grammar, Lexer/Chain the token sequence
--   Dsl/Parser      src/dsl/dsl_parser.c: Statements and Program have the functions, Valid says
--                   when a plan is in order, Moves has the rules by which the proofs go
--   Queue           include/core/queue.h and src/core/queue.c: Refine and Drain relate the
--                   linked nodes to a list; Monitor has the threads round a queue as a step
--                   relation, with the signals of its condition variable
--   Cli             src/cli/cli_parser.c. Commands has src/cli/commands.c, src/cli/main.c and
--                   src/dsl/dsl.c, and Main is about the exit code
--   Cli/Output      src/cli/cli_output.c: the byte patterns, with Decimal the numbers, Lines the
--                   lines of a text, Summary the summary of a response, and Checks the outcome of
--                   the assertions, which Verdict is about
--   Memory          the blocks that the freeing functions of src/core/run_plan.c,
--                   src/core/models.c and src/cli/cli_parser.c give back, over a heap of
--                   addresses. Frees says what is freed; Grew and Plan are about making the plan
--                   of the command "get", and Clean about the whole command
--   Worker          src/core/worker.c: the two callbacks that collect a response, with Buffer and
--                   Headers; Worker/Curl has the options of a request, Worker/Http the rounds of
--                   http_worker_routine, which Answers and Handles are about; Lists counts
--                   the header lists
--   Orchestrator    include/core/orchestrator.h and src/core/orchestrator.c, with the switch of
--                   db_worker_routine of src/core/worker.c. Wait is about the polling, Pipeline
--                   has the threads as a relation; Delivers counts the ids, Shutdown has the order
--                   of the ends, which Turns shows to be kept; Complete and Ends conclude.
--                   Lifetime has create_runtime with the way to its label, and destroy_runtime,
--                   by their calls: Live says what a runtime has behind these, Destroyed and Clean
--                   that nothing stays behind, Granted that create_runtime can succeed
--   Db              src/core/db_manager.c: Save, Rows, Fetch and Admin have the functions, Held is
--                   the discipline of statements and transactions. Stored is about what comes
--                   back of a saved response: Bound, Loaded, Columns and Kept
--   Engine          src/core/engine.c: run_plan, with Verdict and Ownership
--   Bench           tools/bench_run_plan_parallel.c, less the clock and what it prints; Filled is
--                   about the plan it makes
--   Tests           runs on concrete inputs
-- A function of the model has the name of the C function. A loop body or a branch that has a
-- definition of its own is named for what it does.
--
-- How C is modelled. A pointer is an Option with none for NULL, and a C string is the list of
-- its bytes before the NUL. An array with a count is the list of the elements in use. A pointer
-- that every caller in the program passes valid (the lexer's own state, the parser's plan) is
-- the record it points to. Functions that change a structure return the changed one.
--   The allocator is a parameter: a function that says of each size whether malloc has a block
-- of it, or the address it returns for a block. The theorems hold for each
-- allocator; where they ask for a success, they say so. The realloc of the worker is a parameter
-- as well, which keeps the bytes of the block that it moves.
--   A double is its bit pattern; the text that `%.3f` makes of it is a parameter. The
-- classifications of characters are those of the "C" locale, and atoi is that of a target with
-- 64-bit long and 32-bit int. The sizes of the structures that the DSL allocates are those of
-- such a target.
--   In the queue, the nodes stand at addresses, so that a read, a write or a second free of a
-- missing node is a fault of the model. A call is one step under the lock, and queue_pop is one
-- passage through its loop test.
--
-- Fuel. The loops of the lexer run in at most as many rounds as bytes are left, its token loop
-- in 2 * length + 2, parse_program in 2 * length + 3, and the loop over the header lines in
-- length + 1. The loop over the options has one round for each word and one more, and the one of
-- destroy_queue one for each node and one more. In the token loop, the parser, the options and
-- destroy_queue the end of the fuel is an outcome of its own, which the theorems on them exclude.
-- The other loops read at least one byte in each round, and the theorems on them say what they
-- return on the whole input.
--
-- wait_for_response polls in at most as many rounds as the timeout has milliseconds, and one.
--
-- What is behind an interface. SQLite is a function of the events so far and of the call, and the
-- SQL texts are named by what they do. libcurl, and for the engine the database manager and the
-- runtime, are records of operations over an unknown state, so that the theorems hold for
-- whatever these do. The threads of a runtime are one relation: a turn of a thread has one call
-- on a queue at most, and the queues are there the lists that Queue/Refine relates to their nodes.
-- The database's part of a turn is the lists of what it saved and of what it refused.
--   What is read of a row is a hypothesis on SQLite where a theorem needs it: a column, read by
-- the function for the type it has, is what was bound to its parameter.
--   Where the code leaves what C defines, the model has an outcome for it: poll has none when
-- elapsed is no int any more, and run_plan stops behind the write of create_http_worker_task
-- through NULL. The int that counts the nodes of a queue is a natural number, which differs from
-- 2 ^ 31 nodes on.
--
-- Not modelled. The messages on the terminal for the usage and for errors, and what
-- include/core/logger.h writes; the freeing of the tokens of the lexer, and of what the parser
-- holds when it fails; the type DB of dispatch_task, which the program never passes; the tests
-- and the scripts. The calls of stdio in src/dsl/dsl.c are a parameter. The functions of the
-- database manager run one after the other: that the threads of a runtime share one connection
-- without a lock is not modelled.
pub mod Base
pub mod Ctype
pub mod Models
pub mod Assertion
pub mod RunPlan
pub mod Queue
pub mod Cli
pub mod Worker
pub mod Exec
pub mod Db
pub mod Engine
pub mod Bench
pub mod Memory
pub mod Orchestrator
pub mod Stdlib
pub mod Dsl
mod Tests
