-- ===== src/Memory/Frees.antt =====
-- The freeing functions of src/core/models.c and src/core/run_plan.c free every block once.
use http_runtime.Base.{
  ℕ, Bool, true, false, not, ◌&&◌, ◌||◌, Option, none, some, List, [], ◌∷◌, ◌++◌, ◌≡◌, refl, ap,
  sym, ◌∙◌, subst, ◌==◌, ==_iff, Bool-cases, inl, inr, arith,
}
use http_runtime.Memory.{
  Heap, write, free, and_then, ◌then_free◌, RequestBlocks, ResponseBlocks, CollectionBlocks,
  free_request, free_response, free_collection, AssertionBlocks, status_blocks, body_blocks,
  header_blocks, CaseBlocks, PlanBlocks, free_assertion, free_assertions, free_case, free_cases,
  no_plan, free_run_plan, free_responses, free_run_result, zeroed,
}

-- Frees of a list of blocks in turn
unfoldable pub free_all : List ℕ → Heap → Option Heap
unfolding free
free_all [] h = some h
free_all (p ∷ ps) h = and_then (free (some p) h) (free_all ps)

abbrev pub block : Option ℕ → List ℕ
block none = []
block (some p) = p ∷ []

and_then-ext :
    (o : Option Heap) (f g : Heap → Option Heap)
    → ((h : Heap) → f h ≡ g h)
    → and_then o f ≡ and_then o g
and_then-ext none f g e = refl
and_then-ext (some h) f g e = e h

and_then_assoc :
    (o : Option Heap) (f g : Heap → Option Heap)
    → and_then (and_then o f) g ≡ and_then o (λ h. and_then (f h) g)
and_then_assoc none f g = refl
and_then_assoc (some h) f g = refl

free_all-append :
    (ps qs : List ℕ) (h : Heap) → free_all (ps ++ qs) h ≡ and_then (free_all ps h) (free_all qs)
unfolding free_all
free_all-append [] qs h = refl
free_all-append (p ∷ ps) qs h =
    and_then-ext (free (some p) h) _ _ (free_all-append ps qs)
    ∙ sym (and_then_assoc (free (some p) h) (free_all ps) (free_all qs))

-- `f` frees the blocks `ps` in turn.
pub record Frees (f : Heap → Option Heap) (ps : List ℕ) : Type 0 where
  pub at : (h : Heap) → f h ≡ free_all ps h

Frees-then :
    (f g : Heap → Option Heap) (ps qs : List ℕ)
    → Frees f ps
    → Frees g qs
    → Frees (λ h. and_then (f h) g) (ps ++ qs)
Frees-then f g ps qs kf kg = record {
  at = λ h.
      ap (λ o. and_then o g) (kf.at h)
      ∙ and_then-ext (free_all ps h) g (free_all qs) kg.at
      ∙ sym (free_all-append ps qs h);
}

and_then-some : (o : Option Heap) → and_then o (λ h. some h) ≡ o
and_then-some none = refl
and_then-some (some h) = refl

Frees-free : (p : Option ℕ) → Frees (free p) (block p)
unfolding free_all
Frees-free none = record { at = λ h. refl }
Frees-free (some p) = record { at = λ h. sym (and_then-some (free (some p) h)) }

abbrev pub request_blocks : Option RequestBlocks → List ℕ
request_blocks none = []
request_blocks (some req) =
    ((block req.url ++ block req.headers) ++ block req.body) ++ req.self ∷ []

free_request-Frees : (req : Option RequestBlocks) → Frees (free_request req) (request_blocks req)
unfolding free_request free_all
free_request-Frees none = record { at = λ h. refl }
free_request-Frees (some req) =
    Frees-then _ _ _ _
      (Frees-then _ _ _ _ (Frees-then _ _ _ _ (Frees-free req.url) (Frees-free req.headers))
        (Frees-free req.body))
      (Frees-free (some req.self))

abbrev pub response_blocks : Option ResponseBlocks → List ℕ
response_blocks none = []
response_blocks (some resp) =
    ((block resp.body ++ block resp.headers) ++ block resp.content_type) ++ resp.self ∷ []

free_response-Frees :
    (resp : Option ResponseBlocks) → Frees (free_response resp) (response_blocks resp)
unfolding free_response free_all
free_response-Frees none = record { at = λ h. refl }
free_response-Frees (some resp) =
    Frees-then _ _ _ _
      (Frees-then _ _ _ _ (Frees-then _ _ _ _ (Frees-free resp.body) (Frees-free resp.headers))
        (Frees-free resp.content_type))
      (Frees-free (some resp.self))

abbrev pub collection_blocks : Option CollectionBlocks → List ℕ
collection_blocks none = []
collection_blocks (some coll) = block coll.name ++ coll.self ∷ []

free_collection-Frees :
    (coll : Option CollectionBlocks) → Frees (free_collection coll) (collection_blocks coll)
unfolding free_collection free_all
free_collection-Frees none = record { at = λ h. refl }
free_collection-Frees (some coll) =
    Frees-then _ _ _ _ (Frees-free coll.name) (Frees-free (some coll.self))

abbrev pub assertion_blocks : AssertionBlocks → List ℕ
assertion_blocks status_blocks = []
assertion_blocks (body_blocks pattern) = block pattern
assertion_blocks (header_blocks name value) = block name ++ block value

free_assertion-Frees : (a : AssertionBlocks) → Frees (free_assertion a) (assertion_blocks a)
unfolding free_assertion free_all
free_assertion-Frees status_blocks = record { at = λ h. refl }
free_assertion-Frees (body_blocks pattern) = record { at = (Frees-free pattern).at }
free_assertion-Frees (header_blocks name value) =
    Frees-then _ _ _ _ (Frees-free name) (Frees-free value)

abbrev pub all_assertion_blocks : List AssertionBlocks → List ℕ
all_assertion_blocks [] = []
all_assertion_blocks (a ∷ assertions) = assertion_blocks a ++ all_assertion_blocks assertions

free_assertions-Frees :
    (assertions : List AssertionBlocks)
    → Frees (free_assertions assertions) (all_assertion_blocks assertions)
unfolding free_assertions free_all
free_assertions-Frees [] = record { at = λ h. refl }
free_assertions-Frees (a ∷ assertions) =
    Frees-then _ _ _ _ (free_assertion-Frees a) (free_assertions-Frees assertions)

abbrev pub case_blocks : CaseBlocks → List ℕ
case_blocks c =
    ((block c.url ++ block c.headers) ++ block c.body) ++ all_assertion_blocks c.assertions

free_case-Frees : (c : CaseBlocks) → Frees (free_case c) (case_blocks c)
unfolding free_case
free_case-Frees c =
    Frees-then _ _ _ _
      (Frees-then _ _ _ _ (Frees-then _ _ _ _ (Frees-free c.url) (Frees-free c.headers))
        (Frees-free c.body))
      (free_assertions-Frees c.assertions)

abbrev pub all_case_blocks : List CaseBlocks → List ℕ
all_case_blocks [] = []
all_case_blocks (c ∷ cases) = case_blocks c ++ all_case_blocks cases

free_cases-Frees : (cases : List CaseBlocks) → Frees (free_cases cases) (all_case_blocks cases)
unfolding free_cases free_all
free_cases-Frees [] = record { at = λ h. refl }
free_cases-Frees (c ∷ cases) = Frees-then _ _ _ _ (free_case-Frees c) (free_cases-Frees cases)

abbrev pub plan_blocks : PlanBlocks → List ℕ
plan_blocks plan = (all_case_blocks plan.cases ++ block plan.db_path) ++ block plan.collection_name

abbrev pub all_response_blocks : List (Option ResponseBlocks) → List ℕ
all_response_blocks [] = []
all_response_blocks (r ∷ responses) = response_blocks r ++ all_response_blocks responses

free_responses-Frees :
    (responses : List (Option ResponseBlocks))
    → Frees (free_responses responses) (all_response_blocks responses)
unfolding free_responses free_all
free_responses-Frees [] = record { at = λ h. refl }
free_responses-Frees (r ∷ responses) =
    Frees-then _ _ _ _ (free_response-Frees r) (free_responses-Frees responses)

abbrev pub member : ℕ → List ℕ → Bool
member q [] = false
member q (p ∷ ps) = q == p || member q ps

abbrev pub Distinct : List ℕ → Type 0
Distinct [] = Unit {0}
Distinct (p ∷ ps) = (member p ps ≡ false) × Distinct ps

-- Each is in use, and none is named twice.
abbrev pub Owned : List ℕ → Heap → Type 0
Owned ps h = Distinct ps × ((q : ℕ) → member q ps ≡ true → h q ≡ true)

abbrev pub Freed : List ℕ → Heap → Heap → Type 0
Freed ps h h' = (q : ℕ) → h' q ≡ (h q && not (member q ps))

rest-Owned : (p : ℕ) (ps : List ℕ) (h : Heap) → Owned (p ∷ ps) h → Owned ps (write h p false)
rest-Owned p ps h ((n, d), live) = (d, still)
  where
    still : (q : ℕ) → member q ps ≡ true → write h p false q ≡ true
    still q m = elim (Bool-cases (q == p)) [
      | inl e ↦
          absurd (
            let f = subst (λ r. member r ps ≡ true) ((==_iff q p).0 e) m in let g = sym n ∙ f in cc)
      | inr e ↦ rw e (live q (rw e m))
    ]

first-live : (p : ℕ) (ps : List ℕ) (h : Heap) → Owned (p ∷ ps) h → h p ≡ true
first-live p ps h (d, live) = live p (let e : (p == p) ≡ true = (==_iff p p).1 refl in rw e refl)

pub free_all-Freed :
    (ps : List ℕ) (h : Heap) → Owned ps h → (h' : Heap) × (free_all ps h ≡ some h') × Freed ps h h'
unfolding free_all free
free_all-Freed [] h o = (h, refl, λ q. ground arith)
free_all-Freed (p ∷ ps) h o =
    let live = first-live p ps h o in
    let (h', e, f) = free_all-Freed ps (write h p false) (rest-Owned p ps h o) in
    (h', rw live e, λ q. f q ∙ ground arith)

-- When each block that the plan points to is in use and stands there once, `free_run_plan` frees
-- these blocks and no other, and none of them twice; and the plan that it leaves may be given to
-- it again.
pub free_run_plan-Freed :
    (plan : PlanBlocks) (h : Heap)
    → Owned (plan_blocks plan) h
    → (h' : Heap) × (free_run_plan plan h ≡ some (no_plan, h'))
      × Freed (plan_blocks plan) h h'
      × (free_run_plan no_plan h' ≡ some (no_plan, h'))
unfolding free_run_plan free_cases free
free_run_plan-Freed plan h o =
    let (h', e, f) = free_all-Freed (plan_blocks plan) h o in
    (h', ap (zeroed no_plan) (freed ∙ e), f, refl)
  where
    freed :
        (free_cases plan.cases h then_free plan.db_path then_free plan.collection_name)
        ≡ free_all (plan_blocks plan) h
    freed =
        (Frees-then _ _ _ _
            (Frees-then _ _ _ _ (free_cases-Frees plan.cases) (Frees-free plan.db_path))
            (Frees-free plan.collection_name)).at
          h

-- When each block of the responses of a result is in use and stands there once,
-- `free_run_result` frees these blocks and no other, and none of them twice; and the result that
-- it leaves may be given to it again.
pub free_run_result-Freed :
    (responses : List (Option ResponseBlocks)) (h : Heap)
    → Owned (all_response_blocks responses) h
    → (h' : Heap) × (free_run_result responses h ≡ some ([], h'))
      × Freed (all_response_blocks responses) h h'
      × (free_run_result [] h' ≡ some ([], h'))
unfolding free_run_result free_responses
free_run_result-Freed responses h o =
    let (h', e, f) = free_all-Freed (all_response_blocks responses) h o in
    (h', ap (zeroed []) ((free_responses-Frees responses).at h ∙ e), f, refl)
