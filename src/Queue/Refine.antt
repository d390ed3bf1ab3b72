-- ===== src/Queue/Refine.antt =====
-- The linked list of src/core/queue.c is a first-in first-out queue, and owns its nodes.
use http_runtime.Base.{
  ℕ, ◌+◌, Bool, true, false, Option, none, some, List, [], ◌∷◌, ◌++◌, ◌≡◌, ◌≢◌, refl, ap, sym, ◌∙◌,
  subst, inl, inr, Bool-cases, length, length-append, arith,
}
use http_runtime.Queue.Linked.{
  first, last, Apart, Linked, write_self, write_apart, Linked-write, Linked-Apart, Linked-last,
  last-append, Linked-snoc,
}
use http_runtime.Queue.{node, Queue, write, done, link, queue_push}

module _ {A : Type 0} where
  -- The queue holds `xs`, oldest first: its nodes are a chain from `head` to `tail`, as many as
  -- `size`, and there is no other node.
  pub record Represents (q : Queue A) (xs : List A) : Type 0 where
    pub ps : List ℕ
    pub linked : Linked q.nodes ps xs
    pub head_is : q.head ≡ first ps
    pub tail_is : q.tail ≡ last ps
    pub size_is : q.size ≡ length xs
    pub only : (a : ℕ) → Apart a ps → q.nodes a ≡ none

  link_first :
      (p : ℕ) (q : Queue A)
      → q.head ≡ 0
      → link p q ≡ done true (record q { head = p; tail = p; size = q.size + 1 })
  unfolding link
  link_first p q e = ground arith

  link_behind :
      (p : ℕ) (q : Queue A) (y : A)
      → q.head ≢ 0
      → q.nodes q.tail ≡ some (node y 0)
      → link p q
        ≡ done true (record q {
          nodes = write q.nodes q.tail (some (node y p));
          tail = p;
          size = q.size + 1;
        })
  unfolding link
  link_behind p q y n e = ground arith

  pub push_open :
      (p : ℕ) (x : A) (q : Queue A)
      → q.is_shutdown ≡ false
      → queue_push (some p) (some x) q
        ≡ link p (record q { nodes = write q.nodes p (some (node x 0)) })
  unfolding queue_push
  push_open p x q e = ground arith

  abbrev filled : Queue A → ℕ → A → Queue A
  filled q p x = record q { nodes = write q.nodes p (some (node x 0)) }

  push-empty :
      (p : ℕ) (x : A) (q : Queue A)
      → p ≢ 0
      → ((a : ℕ) → q.nodes a ≡ none)
      → q.size ≡ 0
      → Represents (record (filled q p x) { head = p; tail = p; size = q.size + 1 }) (x ∷ [])
  push-empty p x q nz empty size = record {
    ps = p ∷ [];
    linked = (nz, write_self q.nodes p (some (node x 0)), tt, tt);
    head_is = refl;
    tail_is = refl;
    size_is = omega (arith, size);
    only = λ a ap'. write_apart q.nodes p (some (node x 0)) a (λ e. ap'.0 (sym e)) ∙ empty a;
  }

  push-behind :
      (p : ℕ) (x y : A) (q : Queue A) (xs : List A) (r : ℕ) (ps : List ℕ)
      → p ≢ 0
      → Linked q.nodes (r ∷ ps) xs
      → Apart p (r ∷ ps)
      → ((a : ℕ) → Apart a (r ∷ ps) → q.nodes a ≡ none)
      → q.head ≡ r
      → q.tail ≡ last (r ∷ ps)
      → q.size ≡ length xs
      → q.nodes q.tail ≡ some (node y 0)
      → q.tail ≢ p
      → Represents
          (record (filled q p x) {
            nodes = write (write q.nodes p (some (node x 0))) q.tail (some (node y p));
            tail = p;
            size = q.size + 1;
          })
          (xs ++ x ∷ [])
  push-behind p x y q xs r ps nz l apart only head tail size at_tail other =
      let h = write q.nodes p (some (node x 0)) in
      let t = last (r ∷ ps) in
      let l' = Linked-write q.nodes p (some (node x 0)) (r ∷ ps) xs apart l in
      let at_t : h t ≡ some (node y 0) =
        subst (λ a. h a ≡ some (node y 0)) tail
          (write_apart q.nodes p (some (node x 0)) q.tail other ∙ at_tail) in
      let linked =
        Linked-snoc h r ps xs p x y l' apart nz (write_self q.nodes p (some (node x 0))) at_t in
      record {
        ps = (r ∷ ps) ++ p ∷ [];
        linked =
            subst (λ a. Linked (write h a (some (node y p))) ((r ∷ ps) ++ p ∷ []) (xs ++ x ∷ []))
              (sym tail) linked;
        head_is = head;
        tail_is = sym (last-append p (r ∷ ps));
        size_is = omega (arith, size, length-append xs (x ∷ []));
        only = λ a away. outside a away;
      }
    where
      Apart-both : (a : ℕ) (qs : List ℕ) → Apart a (qs ++ p ∷ []) → Apart a qs × (p ≢ a)
      Apart-both a [] h = (tt, h.0)
      Apart-both a (s ∷ qs) h = let (k, m) = Apart-both a qs h.1 in ((h.0, k), m)

      ne-last : (a : ℕ) (s : ℕ) (qs : List ℕ) → Apart a (s ∷ qs) → a ≢ last (s ∷ qs)
      ne-last a s [] h e = h.0 (sym e)
      ne-last a s (u ∷ qs) h e = ne-last a u qs h.1 e

      outside :
          (a : ℕ)
          → Apart a ((r ∷ ps) ++ p ∷ [])
          → write (write q.nodes p (some (node x 0))) q.tail (some (node y p)) a ≡ none
      outside a away =
          let (in_ps, ne_p) = Apart-both a (r ∷ ps) away in
          write_apart _ q.tail (some (node y p)) a (λ e. ne-last a r ps in_ps (e ∙ tail))
          ∙ write_apart q.nodes p (some (node x 0)) a (λ e. ne_p (sym e))
          ∙ only a in_ps

  push_first :
      (p : ℕ) (x : A) (q : Queue A) (xs : List A)
      → p ≢ 0
      → q.is_shutdown ≡ false
      → Linked q.nodes [] xs
      → q.head ≡ 0
      → q.size ≡ length xs
      → ((a : ℕ) → q.nodes a ≡ none)
      → (q' : Queue A) × ((queue_push (some p) (some x) q ≡ done true q')
          × Represents q' (xs ++ x ∷ []))
  push_first p x q [] nz opened l head size empty = (
    record (filled q p x) { head = p; tail = p; size = q.size + 1 },
    (push_open p x q opened ∙ link_first p (filled q p x) head, push-empty p x q nz empty size),
  )
  push_first p x q (y ∷ xs) nz opened l head size empty = absurd l

  push_last :
      (p : ℕ) (x : A) (q : Queue A) (xs : List A) (r : ℕ) (ps : List ℕ)
      → p ≢ 0
      → q.nodes p ≡ none
      → q.is_shutdown ≡ false
      → Linked q.nodes (r ∷ ps) xs
      → q.head ≡ r
      → q.tail ≡ last (r ∷ ps)
      → q.size ≡ length xs
      → ((a : ℕ) → Apart a (r ∷ ps) → q.nodes a ≡ none)
      → (q' : Queue A) × ((queue_push (some p) (some x) q ≡ done true q')
          × Represents q' (xs ++ x ∷ []))
  push_last p x q [] r ps nz fresh opened l head tail size only = absurd l
  push_last p x q (z ∷ xs) r ps nz fresh opened l head tail size only =
      let (y, at_last) = Linked-last q.nodes r ps (z ∷ xs) l in
      let at_tail : q.nodes q.tail ≡ some (node y 0) = ap q.nodes tail ∙ at_last in
      let other : q.tail ≢ p = λ e. let f = sym at_tail ∙ ap q.nodes e ∙ fresh in cc in
      let behind =
        link_behind p (filled q p x) y (λ e. l.0 (sym head ∙ e))
          (write_apart q.nodes p (some (node x 0)) q.tail other ∙ at_tail) in
      (
        _,
        (
          push_open p x q opened ∙ behind,
          push-behind p x y q (z ∷ xs) r ps nz l (Linked-Apart q.nodes p (r ∷ ps) (z ∷ xs) fresh l)
              only head tail size at_tail other,
        ),
      )

  push_closed :
      (p : ℕ) (x : A) (q : Queue A)
      → q.is_shutdown ≡ true
      → queue_push (some p) (some x) q ≡ done false q
  unfolding queue_push
  push_closed p x q e = ground arith

  push_parts :
      (p : ℕ) (x : A) (q : Queue A) (xs : List A) (ps : List ℕ)
      → p ≢ 0
      → q.nodes p ≡ none
      → q.is_shutdown ≡ false
      → Linked q.nodes ps xs
      → q.head ≡ first ps
      → q.tail ≡ last ps
      → q.size ≡ length xs
      → ((a : ℕ) → Apart a ps → q.nodes a ≡ none)
      → (q' : Queue A) × ((queue_push (some p) (some x) q ≡ done true q')
          × Represents q' (xs ++ x ∷ []))
  push_parts p x q xs [] nz fresh opened l head tail size only =
      push_first p x q xs nz opened l head size (λ a. only a tt)
  push_parts p x q xs (r ∷ ps) nz fresh opened l head tail size only =
      push_last p x q xs r ps nz fresh opened l head tail size only

  -- What a push does to the list: it is refused without memory, without data, or after the
  -- shutdown.
  abbrev pub enqueue : Option ℕ → Option A → Bool → List A → Bool × List A
  enqueue (some p) (some x) false xs = (true, xs ++ x ∷ [])
  enqueue _ _ _ xs = (false, xs)

  abbrev pub Fresh : Option ℕ → Queue A → Type 0
  Fresh none q = Unit {0}
  Fresh (some p) q = (p ≢ 0) × (q.nodes p ≡ none)

  -- When `malloc` returned NULL or an address that is not in use, `queue_push` on a queue that
  -- holds `xs` never touches a missing node, returns what `enqueue` says, and leaves a queue
  -- that holds what `enqueue` says.
  pub queue_push_lem :
      (p : Option ℕ) (x : Option A) (q : Queue A) (xs : List A)
      → Fresh p q
      → Represents q xs
      → (q' : Queue A) × ((queue_push p x q ≡ done (enqueue p x q.is_shutdown xs).0 q')
          × Represents q' (enqueue p x q.is_shutdown xs).1)
  unfolding queue_push
  queue_push_lem none none q xs fresh r = (q, (refl, r))
  queue_push_lem (some p) none q xs fresh r = (q, (refl, r))
  queue_push_lem none (some x) q xs fresh r = (q, (refl, r))
  queue_push_lem (some p) (some x) q xs fresh r = elim (Bool-cases q.is_shutdown) [
    | inl e ↦ subst Answer (sym e) (q, (push_closed p x q e, r))
    | inr e ↦
        subst Answer (sym e)
          (push_parts p x q xs r.ps fresh.0 fresh.1 e r.linked r.head_is r.tail_is r.size_is r.only)
  ]
    where
      Answer : Bool → Type 0
      Answer b =
          (q' : Queue A) × ((queue_push (some p) (some x) q
              ≡ done (enqueue (some p) (some x) b xs).0 q')
            × Represents q' (enqueue (some p) (some x) b xs).1)
