-- ===== src/Dsl/Parser/Valid.antt =====
-- What a plan that src/dsl/dsl_parser.c builds looks like.
use http_runtime.Base.{
  ℕ, suc, ◌≤◌, true, not, Option, none, some, List, [], ◌∷◌, ◌++◌, ◌≡◌, refl, ap, leb, length,
  length-append, arith, Bytes,
}
use http_runtime.Models.{Method}
use http_runtime.Assertion
use http_runtime.Assertion.{
  Assertion, AssertionType, Value, int_value, byte_value, header_value, status_eq, body_contains,
}
use http_runtime.RunPlan.{
  RunPlan, RequestCase, max_request_cases, max_case_assertions, is_positive, init_run_plan,
}
use http_runtime.Dsl.Parser.Statements.{update_last, add_assertion, last_assertion_count, new_case}

-- The value has the type that the assertion wants, and no NULL inside.
abbrev pub TypedAs : AssertionType → Value → Type 0
TypedAs status_eq (int_value n) = Unit {0}
TypedAs body_contains (byte_value (some p)) = Unit {0}
TypedAs Assertion.header_contains (header_value (some n) (some v)) = Unit {0}
TypedAs _ _ = ⊥

abbrev pub AllTyped : List Assertion → Type 0
AllTyped [] = Unit {0}
AllTyped (a ∷ as') = TypedAs a.type a.expected × AllTyped as'

-- A body comes with its length, and none has length 0.
abbrev pub BodyIs : Option Bytes → ℕ → Type 0
BodyIs none n = n ≡ 0
BodyIs (some b) n = n ≡ length b

abbrev pub IsText : Option Bytes → Type 0
IsText none = ⊥
IsText (some _) = Unit {0}

pub record CaseOk (c : RequestCase) : Type 0 where
  pub url_is : IsText c.url
  pub body_is : BodyIs c.body c.body_len
  pub few : length c.assertions ≤ max_case_assertions
  pub typed : AllTyped c.assertions
  pub timeout : is_positive c.timeout_ms ≡ true

abbrev pub AllOk : List RequestCase → Type 0
AllOk [] = Unit {0}
AllOk (c ∷ cs) = CaseOk c × AllOk cs

pub record PlanOk (plan : RunPlan) : Type 0 where
  pub few_cases : length plan.cases ≤ max_request_cases
  pub cases_ok : AllOk plan.cases

pub init-PlanOk : PlanOk init_run_plan
init-PlanOk = record { few_cases = omega arith; cases_ok = tt }

length-update_last :
    (f : RequestCase → RequestCase) (cs : List RequestCase) → length (update_last f cs) ≡ length cs
length-update_last f [] = refl
length-update_last f (c ∷ []) = refl
length-update_last f (c ∷ d ∷ cs) = ap suc (length-update_last f (d ∷ cs))

AllTyped-append : (xs ys : List Assertion) → AllTyped xs → AllTyped ys → AllTyped (xs ++ ys)
AllTyped-append [] ys h k = k
AllTyped-append (x ∷ xs) ys h k = (h.0, AllTyped-append xs ys h.1 k)

AllOk-append : (xs ys : List RequestCase) → AllOk xs → AllOk ys → AllOk (xs ++ ys)
AllOk-append [] ys h k = k
AllOk-append (x ∷ xs) ys h k = (h.0, AllOk-append xs ys h.1 k)

AllOk-update :
    (f : RequestCase → RequestCase) (cs : List RequestCase)
    → ((c : RequestCase) → length c.assertions ≡ last_assertion_count cs → CaseOk c → CaseOk (f c))
    → AllOk cs
    → AllOk (update_last f cs)
AllOk-update f [] keep h = tt
AllOk-update f (c ∷ []) keep h = (keep c refl h.0, tt)
AllOk-update f (c ∷ d ∷ cs) keep h = (h.0, AllOk-update f (d ∷ cs) keep h.1)

-- A change of the last case that keeps it in order keeps the plan in order.
pub update-PlanOk :
    (f : RequestCase → RequestCase) (plan : RunPlan)
    → ((c : RequestCase)
        → length c.assertions ≡ last_assertion_count plan.cases
        → CaseOk c
        → CaseOk (f c))
    → PlanOk plan
    → PlanOk (record plan { cases = update_last f plan.cases })
update-PlanOk f plan keep h = record {
  few_cases = omega (arith, h.few_cases, length-update_last f plan.cases);
  cases_ok = AllOk-update f plan.cases keep h.cases_ok;
}

-- So does one more assertion while there is room.
pub add_assertion-PlanOk :
    (a : Assertion) (plan : RunPlan)
    → TypedAs a.type a.expected
    → not (leb max_case_assertions (last_assertion_count plan.cases)) ≡ true
    → PlanOk plan
    → PlanOk (record plan { cases = update_last (add_assertion a) plan.cases })
add_assertion-PlanOk a plan t room = update-PlanOk (add_assertion a) plan (λ c e h. record {
  url_is = h.url_is;
  body_is = h.body_is;
  few = few c e;
  typed = AllTyped-append c.assertions (a ∷ []) h.typed (t, tt);
  timeout = h.timeout;
})
  where
    few :
        (c : RequestCase)
        → length c.assertions ≡ last_assertion_count plan.cases
        → length (c.assertions ++ a ∷ []) ≤ max_case_assertions
    few c e = ground (arith, length-append c.assertions (a ∷ []))

-- And one more case.
pub add_case-PlanOk :
    (method : Method) (url : Bytes) (plan : RunPlan)
    → not (leb max_request_cases (length plan.cases)) ≡ true
    → PlanOk plan
    → PlanOk (record plan { cases = plan.cases ++ new_case method url plan ∷ [] })
add_case-PlanOk method url plan room h = record {
  few_cases = ground (arith, length-append plan.cases (new_case method url plan ∷ []));
  cases_ok = AllOk-append plan.cases (new_case method url plan ∷ []) h.cases_ok (fresh, tt);
}
  where
    fresh : CaseOk (new_case method url plan)
    fresh = record {
      url_is = tt;
      body_is = refl;
      few = omega arith;
      typed = tt;
      timeout = ground arith;
    }
