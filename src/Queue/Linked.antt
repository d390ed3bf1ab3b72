-- ===== src/Queue/Linked.antt =====
-- The nodes of src/core/queue.c as a list: what a chain of pointers holds.
use http_runtime.Base.{
  ℕ, Option, none, some, List, [], ◌∷◌, ◌++◌, ◌≡◌, ◌≢◌, refl, ap, sym, ◌∙◌, ==_iff, arith,
}
use http_runtime.Queue.{QueueNode, node, Nodes, write}

abbrev pub first : List ℕ → ℕ
first [] = 0
first (p ∷ ps) = p

abbrev pub last : List ℕ → ℕ
last [] = 0
last (p ∷ []) = p
last (p ∷ q ∷ ps) = last (q ∷ ps)

abbrev pub Apart : ℕ → List ℕ → Type 0
Apart p [] = Unit {0}
Apart p (q ∷ qs) = (q ≢ p) × Apart p qs

pub Apart-append : (p a : ℕ) (ps : List ℕ) → Apart p ps → a ≢ p → Apart p (ps ++ a ∷ [])
Apart-append p a [] h k = (k, tt)
Apart-append p a (q ∷ ps) h k = (h.0, Apart-append p a ps h.1 k)

pub last-append : (a : ℕ) (ps : List ℕ) → last (ps ++ a ∷ []) ≡ a
last-append a [] = refl
last-append a (p ∷ []) = refl
last-append a (p ∷ q ∷ ps) = last-append a (q ∷ ps)

Apart-last : (p q : ℕ) (ps : List ℕ) → Apart p (q ∷ ps) → p ≢ last (q ∷ ps)
Apart-last p q [] h e = h.0 (sym e)
Apart-last p q (r ∷ ps) h e = Apart-last p r ps h.1 e

module _ {A : Type 0} where
  -- The nodes at `ps` hold `xs` in order, each pointing to the next and the last to NULL.
  abbrev pub Linked : Nodes A → List ℕ → List A → Type 0
  Linked h [] [] = Unit {0}
  Linked h (p ∷ ps) (x ∷ xs) =
      (p ≢ 0) × (h p ≡ some (node x (first ps))) × Apart p ps × Linked h ps xs
  Linked h _ _ = ⊥

  pub write_self : (h : Nodes A) (p : ℕ) (n : Option (QueueNode A)) → write h p n p ≡ n
  unfolding write
  write_self h p n = rw ((==_iff p p).1 refl)

  pub write_apart :
      (h : Nodes A) (p : ℕ) (n : Option (QueueNode A)) (a : ℕ) → a ≢ p → write h p n a ≡ h a
  unfolding write
  write_apart h p n a e = ground arith

  -- A write elsewhere changes nothing.
  pub Linked-write :
      (h : Nodes A) (p : ℕ) (n : Option (QueueNode A)) (ps : List ℕ) (xs : List A)
      → Apart p ps
      → Linked h ps xs
      → Linked (write h p n) ps xs
  Linked-write h p n [] [] a l = tt
  Linked-write h p n [] (x ∷ xs) a l = l
  Linked-write h p n (q ∷ ps) [] a l = l
  Linked-write h p n (q ∷ ps) (x ∷ xs) a l =
      (l.0, write_apart h p n q a.0 ∙ l.1, l.2, Linked-write h p n ps xs a.1 l.3)

  -- An address with no node is apart from the chain.
  pub Linked-Apart :
      (h : Nodes A) (p : ℕ) (ps : List ℕ) (xs : List A) → h p ≡ none → Linked h ps xs → Apart p ps
  Linked-Apart h p [] xs e l = tt
  Linked-Apart h p (q ∷ ps) [] e l = absurd l
  Linked-Apart h p (q ∷ ps) (x ∷ xs) e l =
      ((λ s. let f = sym (ap h s) ∙ l.1 in cc), Linked-Apart h p ps xs e l.3)

  -- The last node of a chain is there, and points to NULL.
  pub Linked-last :
      (h : Nodes A) (p : ℕ) (ps : List ℕ) (xs : List A)
      → Linked h (p ∷ ps) xs
      → (x : A) × (h (last (p ∷ ps)) ≡ some (node x 0))
  Linked-last h p [] [] l = absurd l
  Linked-last h p [] (x ∷ xs) l = (x, l.1)
  Linked-last h p (q ∷ ps) [] l = absurd l
  Linked-last h p (q ∷ ps) (x ∷ xs) l = Linked-last h q ps xs l.3

  -- A new node `a` behind the last: the write that links it makes one chain.
  pub Linked-snoc :
      (h : Nodes A) (p : ℕ) (ps : List ℕ) (xs : List A) (a : ℕ) (x y : A)
      → Linked h (p ∷ ps) xs
      → Apart a (p ∷ ps)
      → a ≢ 0
      → h a ≡ some (node x 0)
      → h (last (p ∷ ps)) ≡ some (node y 0)
      → Linked (write h (last (p ∷ ps)) (some (node y a))) ((p ∷ ps) ++ a ∷ []) (xs ++ x ∷ [])
  Linked-snoc h p [] [] a x y l ap' nz ha hl = absurd l
  Linked-snoc h p [] (z ∷ []) a x y l ap' nz ha hl =
      let same : some (node z 0) ≡ some (node y 0) = sym l.1 ∙ hl in
      (
        l.0,
        write_self h p (some (node y a)) ∙ (let e : y ≡ z = cc in ap (λ v. some (node v a)) e),
        ((λ e. ap'.0 (sym e)), tt),
        (nz, write_apart h p (some (node y a)) a (λ e. ap'.0 (sym e)) ∙ ha, tt, tt),
      )
  Linked-snoc h p [] (z ∷ w ∷ xs) a x y l ap' nz ha hl = absurd l.3
  Linked-snoc h p (q ∷ ps) [] a x y l ap' nz ha hl = absurd l
  Linked-snoc h p (q ∷ ps) (z ∷ xs) a x y l ap' nz ha hl = (
    l.0,
    write_apart h (last (q ∷ ps)) (some (node y a)) p (Apart-last p q ps l.2) ∙ l.1,
    Apart-append p a (q ∷ ps) l.2 (λ e. ap'.0 (sym e)),
    Linked-snoc h q ps xs a x y l.3 ap'.1 nz ha hl,
  )
