-- ===== src/Queue.antt =====
-- include/core/queue.h and src/core/queue.c: the linked list under the lock. Nodes stand at
-- addresses, 0 is NULL, and an address that holds no node may not be read, written or freed.
pub mod Drain
pub mod Linked
pub mod Monitor
pub mod Refine
use http_runtime.Base.{
  ℕ, zero, suc, ◌+◌, ◌-◌, Bool, true, false, not, ◌&&◌, Option, none, some, ◌==◌, if◌then◌else◌,
}

pub record QueueNode (A : Type 0) : Type 0 where
  pub data_ptr : A
  pub next : ℕ

abbrev pub node : {A : Type 0} → A → ℕ → QueueNode A
node a n = record { data_ptr = a; next = n }

abbrev pub Nodes : Type 0 → Type 0
Nodes A = ℕ → Option (QueueNode A)

pub record Queue (A : Type 0) : Type 0 where
  pub head : ℕ
  pub tail : ℕ
  pub size : ℕ
  pub is_shutdown : Bool
  pub nodes : Nodes A

-- The result of a call under the lock: `done` with what it returns.
pub data Pushed (A : Type 0) : Type 0 where
  done : Bool → Queue A → Pushed A
  fault : Pushed A

-- One passage of `queue_pop` through its loop test: it waits on the condition, returns NULL, or
-- takes the first node.
pub data Attempt (A : Type 0) : Type 0 where
  wait : Attempt A
  closed : Attempt A
  taken : A → Queue A → Attempt A
  bad_read : Attempt A

module _ {A : Type 0} where
  -- What stands at an address from now on; `none` gives it back.
  unfoldable pub write : Nodes A → ℕ → Option (QueueNode A) → Nodes A
  write nodes p n a = if a == p then n else nodes a

  abbrev pub empty_queue : Queue A
  empty_queue = record { head = 0; tail = 0; size = 0; is_shutdown = false; nodes = λ _. none }

  -- `malloc`, `pthread_mutex_init` and `pthread_cond_init` may each fail.
  abbrev pub create_queue : Bool → Bool → Bool → Option (Queue A)
  create_queue malloc mutex cond = if malloc && mutex && cond then some empty_queue else none

  -- `tail->next = qn; tail = qn;`, or the first node of an empty queue.
  unfoldable pub link : ℕ → Queue A → Pushed A
  link p q =
      if q.head == 0
      then done true (record q { head = p; tail = p; size = q.size + 1 })
      else elim (q.nodes q.tail) [
        | none ↦ fault
        | some last ↦ done true (record q {
          nodes = write q.nodes q.tail (some (node last.data_ptr p));
          tail = p;
          size = q.size + 1;
        })
      ]

  -- The first argument is the address that `malloc` returned for the node.
  unfoldable pub queue_push : Option ℕ → Option A → Queue A → Pushed A
  queue_push p none q = done false q
  queue_push none (some data_ptr) q = done false q
  queue_push (some p) (some data_ptr) q =
      if q.is_shutdown
      then done false q
      else link p (record q { nodes = write q.nodes p (some (node data_ptr 0)) })

  unfoldable pub take_first : Queue A → Attempt A
  take_first q = elim (q.nodes q.head) [
    | none ↦ bad_read
    | some first ↦ taken first.data_ptr (record q {
      head = first.next;
      tail = if first.next == 0 then 0 else q.tail;
      size = q.size - 1;
      nodes = write q.nodes q.head none;
    })
  ]

  unfoldable pub queue_pop : Queue A → Attempt A
  queue_pop q =
      if q.size == 0 && not q.is_shutdown
      then wait
      else if q.is_shutdown && q.size == 0
      then closed
      else take_first q

  abbrev pub queue_shutdown : Queue A → Queue A
  queue_shutdown q = record q { is_shutdown = true }

  -- The loop of `destroy_queue` from `current` on; `none` is a read or a second `free` of a node
  -- that is not there, or the end of the fuel.
  unfoldable pub free_nodes : ℕ → ℕ → Nodes A → Option (Nodes A)
  free_nodes zero current nodes = none
  free_nodes (suc fuel) current nodes =
      let rest : Option (Nodes A) = elim (nodes current) [
        | none ↦ none
        | some n ↦ free_nodes fuel n.next (write nodes current none)
      ] in
      if current == 0 then some nodes else rest

  -- One round for each node, and the last test.
  unfoldable pub destroy_queue : Queue A → Option (Nodes A)
  destroy_queue q = free_nodes (q.size + 1) q.head q.nodes
