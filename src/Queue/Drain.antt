-- ===== src/Queue/Drain.antt =====
-- queue_pop and destroy_queue of src/core/queue.c on a queue that holds a list.
use http_runtime.Base.{
  ℕ, suc, ◌+◌, ◌-◌, Bool, true, false, none, some, List, [], ◌∷◌, ◌≡◌, ◌≢◌, refl, ap, sym, ◌∙◌,
  subst, inl, inr, ◌==◌, ==_iff, if◌then◌else◌, Bool-cases, length, arith,
}
use http_runtime.Queue.Linked.{first, last, Apart, Linked, write_self, write_apart, Linked-write}
use http_runtime.Queue.Refine.{Represents}
use http_runtime.Queue.{
  node, Nodes, Queue, write, Attempt, wait, closed, taken, take_first, queue_pop, free_nodes,
  destroy_queue,
}

module _ {A : Type 0} where
  -- What a pop may return on a list: the oldest element, also after the shutdown, and NULL on an
  -- empty queue once it is shut; on an open empty queue it waits.
  abbrev pub Answers : Bool → List A → Attempt A → Type 0
  Answers b (x ∷ xs) r = (q' : Queue A) × ((r ≡ taken x q') × Represents q' xs)
  Answers true [] r = r ≡ closed
  Answers false [] r = r ≡ wait

  -- The queue once its first node is out.
  abbrev behead : Queue A → ℕ → Queue A
  behead q n = record q {
    head = n;
    tail = if n == 0 then 0 else q.tail;
    size = q.size - 1;
    nodes = write q.nodes q.head none;
  }

  pop_wait : (q : Queue A) → q.size ≡ 0 → q.is_shutdown ≡ false → queue_pop q ≡ wait
  unfolding queue_pop
  pop_wait q e s = ground arith

  pop_closed : (q : Queue A) → q.size ≡ 0 → q.is_shutdown ≡ true → queue_pop q ≡ closed
  unfolding queue_pop
  pop_closed q e s = ground arith

  pop_taken :
      (q : Queue A) (x : A) (n : ℕ)
      → q.size ≢ 0
      → q.nodes q.head ≡ some (node x n)
      → queue_pop q ≡ taken x (behead q n)
  unfolding queue_pop take_first
  pop_taken q x n e s = ground arith

  Linked-next :
      (h : Nodes A) (ps : List ℕ) (xs : List A) → Linked h ps xs → (first ps ≡ 0) → ps ≡ []
  Linked-next h [] xs l e = refl
  Linked-next h (p ∷ ps) [] l e = absurd l
  Linked-next h (p ∷ ps) (x ∷ xs) l e = absurd (l.0 e)

  tail_cut :
      (h : Nodes A) (p t : ℕ) (ps : List ℕ) (xs : List A)
      → Linked h ps xs
      → t ≡ last (p ∷ ps)
      → (if first ps == 0 then 0 else t) ≡ last ps
  tail_cut h p t [] xs l e = refl
  tail_cut h p t (r ∷ ps) [] l e = absurd l
  tail_cut h p t (r ∷ ps) (x ∷ xs) l e = let nz = l.0 in ground arith

  -- Once the node at `p` is given back, only those of the rest of the chain are left.
  given_back :
      (h : Nodes A) (p : ℕ) (ps : List ℕ)
      → ((a : ℕ) → Apart a (p ∷ ps) → h a ≡ none)
      → (a : ℕ) → Apart a ps
      → write h p none a ≡ none
  given_back h p ps only a away = elim (Bool-cases (a == p)) [
    | inl e ↦ subst (λ b. write h p none b ≡ none) (sym ((==_iff a p).0 e)) (write_self h p none)
    | inr e ↦
        let ne : a ≢ p = λ k. let f = sym ((==_iff a p).1 k) ∙ e in cc in
        write_apart h p none a ne ∙ only a ((λ k. ne (sym k)), away)
  ]

  behead-Represents :
      (q : Queue A) (p : ℕ) (ps : List ℕ) (x : A) (xs : List A)
      → Linked q.nodes (p ∷ ps) (x ∷ xs)
      → q.head ≡ p
      → q.tail ≡ last (p ∷ ps)
      → q.size ≡ suc (length xs)
      → ((a : ℕ) → Apart a (p ∷ ps) → q.nodes a ≡ none)
      → Represents (behead q (first ps)) xs
  behead-Represents q p ps x xs l head tail size only = record {
    ps = ps;
    linked =
        subst (λ a. Linked (write q.nodes a none) ps xs) (sym head)
          (Linked-write q.nodes p none ps xs l.2 l.3);
    head_is = refl;
    tail_is = tail_cut q.nodes p q.tail ps xs l.3 tail;
    size_is = omega (arith, size);
    only = λ a away.
        subst (λ b. write q.nodes b none a ≡ none) (sym head) (given_back q.nodes p ps only a away);
  }

  pop_parts :
      (q : Queue A) (ps : List ℕ) (xs : List A)
      → Linked q.nodes ps xs
      → q.head ≡ first ps
      → q.tail ≡ last ps
      → q.size ≡ length xs
      → ((a : ℕ) → Apart a ps → q.nodes a ≡ none)
      → Answers q.is_shutdown xs (queue_pop q)
  pop_parts q [] [] l head tail size only = elim (Bool-cases q.is_shutdown) [
    | inl e ↦ subst (λ b. Answers b [] (queue_pop q)) (sym e) (pop_closed q size e)
    | inr e ↦ subst (λ b. Answers b [] (queue_pop q)) (sym e) (pop_wait q size e)
  ]
  pop_parts q (p ∷ ps) [] l head tail size only = absurd l
  pop_parts q [] (x ∷ xs) l head tail size only = absurd l
  pop_parts q (p ∷ ps) (x ∷ xs) l head tail size only = (
    behead q (first ps),
    (
      pop_taken q x (first ps) (omega (arith, size)) (ap q.nodes head ∙ l.1),
      behead-Represents q p ps x xs l head tail size only,
    ),
  )

  -- On a queue that holds `xs`, one passage of `queue_pop` returns the oldest element and leaves
  -- a queue that holds the others, shut down or not; on an empty queue it returns NULL after the
  -- shutdown and waits before it. It never reads a node that is not there.
  pub queue_pop_lem :
      (q : Queue A) (xs : List A) → Represents q xs → Answers q.is_shutdown xs (queue_pop q)
  queue_pop_lem q xs r = pop_parts q r.ps xs r.linked r.head_is r.tail_is r.size_is r.only

  free_step :
      (fuel p n : ℕ) (h : Nodes A) (x : A)
      → p ≢ 0
      → h p ≡ some (node x n)
      → free_nodes (suc fuel) p h ≡ free_nodes fuel n (write h p none)
  unfolding free_nodes
  free_step fuel p n h x nz e = ground arith

  free_all :
      (ps : List ℕ) (xs : List A) (h : Nodes A)
      → Linked h ps xs
      → ((a : ℕ) → Apart a ps → h a ≡ none)
      → (h' : Nodes A) × ((free_nodes (suc (length xs)) (first ps) h ≡ some h')
          × ((a : ℕ) → h' a ≡ none))
  unfolding free_nodes
  free_all [] [] h l only = (h, (refl, λ a. only a tt))
  free_all [] (x ∷ xs) h l only = absurd l
  free_all (p ∷ ps) [] h l only = absurd l
  free_all (p ∷ ps) (x ∷ xs) h l only =
      let (h', (e, all)) =
        free_all ps xs (write h p none) (Linked-write h p none ps xs l.2 l.3)
          (given_back h p ps only) in
      (h', (free_step (suc (length xs)) p (first ps) h x l.0 l.1 ∙ e, all))

  -- `destroy_queue` on a queue that holds `xs` frees each node once, reads none that is freed,
  -- ends, and leaves no node behind.
  pub destroy_queue_lem :
      (q : Queue A) (xs : List A)
      → Represents q xs
      → (h : Nodes A) × ((destroy_queue q ≡ some h) × ((a : ℕ) → h a ≡ none))
  unfolding destroy_queue
  destroy_queue_lem q xs r =
      let (h, (e, all)) = free_all r.ps xs q.nodes r.linked r.only in
      let fuel : q.size + 1 ≡ suc (length xs) = let s = r.size_is in omega (arith, s) in
      (
        h,
        (
          subst (λ n. free_nodes n q.head q.nodes ≡ some h) (sym fuel)
              (subst (λ p. free_nodes (suc (length xs)) p q.nodes ≡ some h) (sym r.head_is) e),
          all,
        ),
      )
