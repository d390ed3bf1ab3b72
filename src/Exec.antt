-- ===== src/Exec.antt =====
-- Functions that call the outside world and may jump to their `failure:` label. What was done
-- before the jump stays done, so the state comes back beside the failure too.
use http_runtime.Base.{Option, none, some, Bool, true, false, ◌≡◌, refl, if◌then◌else◌}

pub data Result (A : Type 0) : Type 0 where
  ok : A → Result A
  failure : Result A

abbrev pub Exec : Type 0 → Type 0 → Type 0
Exec S A = S → Result A × S

module _ {S A : Type 0} where
  unfoldable pub pure : A → Exec S A
  pure a s = (ok a, s)

  -- `goto failure;`
  unfoldable pub goto_failure : Exec S A
  goto_failure s = (failure, s)

module _ {S A B : Type 0} where
  abbrev pub continue : Result A → (A → Exec S B) → Exec S B
  continue (ok a) f s = f a s
  continue failure f s = (failure, s)

  infixl 5 ◌>>=◌ ◌>>◌
  unfoldable pub ◌>>=◌ : Exec S A → (A → Exec S B) → Exec S B
  ◌>>=◌ m f s = let r = m s in continue r.0 f r.1

  abbrev pub ◌>>◌ : Exec S A → Exec S B → Exec S B
  m >> n = m >>= λ _. n

-- The code behind the label, with what the function returns from there.
unfoldable pub on_failure : {S A : Type 0} → Exec S A → (S → A × S) → S → A × S
on_failure m handler s = let r = m s in elim r.0 [ ok a ↦ (a, r.1) | failure ↦ handler r.1 ]

-- A call that returned left a state with `Q`, one that jumped a state with `E`.
abbrev pub Outcome : {S A : Type 0} → (S → Type 0) → (S → Type 0) → Result A × S → Type 0
Outcome E Q (ok a, s) = Q s
Outcome E Q (failure, s) = E s

pub Outcome-if :
    {S A : Type 0} (E Q : S → Type 0) (b : Bool) (x y : Result A × S)
    → (b ≡ true → Outcome E Q x)
    → (b ≡ false → Outcome E Q y)
    → Outcome E Q (if b then x else y)
Outcome-if E Q true x y f g = f refl
Outcome-if E Q false x y f g = g refl

pub Outcome-Option :
    {S A B : Type 0} (E Q : S → Type 0) (o : Option B) (x : Result A × S) (f : B → Result A × S)
    → Outcome E Q x
    → ((b : B) → Outcome E Q (f b))
    → Outcome E Q (elim o as (λ _. Result A × S) [ none ↦ x | some b ↦ f b ])
Outcome-Option E Q none x f h k = h
Outcome-Option E Q (some b) x f h k = k b

-- From a state with `P`, `m` reaches one with `Q`, or jumps in one with `E`.
pub record Leads {S A : Type 0} (E P Q : S → Type 0) (m : Exec S A) : Type 0 where
  pub at : (s : S) → P s → Outcome E Q (m s)

module _ {S A : Type 0} {E P : S → Type 0} where
  pub Leads-pure : (a : A) → Leads E P P (pure a)
  unfolding pure
  Leads-pure a = record { at = λ s h. h }

  pub Leads-if :
      {Q : S → Type 0} (b : Bool) (m n : Exec S A)
      → Leads E P Q m
      → Leads E P Q n
      → Leads E P Q (if b then m else n)
  Leads-if true m n km kn = km
  Leads-if false m n km kn = kn

module _ {S A B : Type 0} {E P Q R : S → Type 0} where
  pub Leads-bind :
      (m : Exec S A) (f : A → Exec S B)
      → Leads E P Q m
      → ((a : A) → Leads E Q R (f a))
      → Leads E P R (m >>= f)
  unfolding ◌>>=◌
  Leads-bind m f km kf = record { at = λ s h. rest (m s) (km.at s h) }
    where
      rest : (r : Result A × S) → Outcome E Q r → Outcome E R (continue r.0 f r.1)
      rest (ok a, t) k = (kf a).at t k
      rest (failure, t) k = k

-- The same, where what holds behind `m` depends on what it returns.
abbrev pub Return : {S A : Type 0} → (S → Type 0) → (A → S → Type 0) → Result A × S → Type 0
Return E Q (ok a, s) = Q a s
Return E Q (failure, s) = E s

pub record Gives {S A : Type 0} (E P : S → Type 0) (Q : A → S → Type 0) (m : Exec S A)
    : Type 0 where
  pub at : (s : S) → P s → Return E Q (m s)

module _ {S A B : Type 0} {E P R : S → Type 0} {Q : B → S → Type 0} where
  pub Gives-bind :
      (m : Exec S A) (f : A → Exec S B)
      → Leads E P R m
      → ((a : A) → Gives E R Q (f a))
      → Gives E P Q (m >>= f)
  unfolding ◌>>=◌
  Gives-bind m f km kf = record { at = λ s h. rest (m s) (km.at s h) }
    where
      rest : (r : Result A × S) → Outcome E R r → Return E Q (continue r.0 f r.1)
      rest (ok a, t) k = (kf a).at t k
      rest (failure, t) k = k

module _ {S A B : Type 0} {P : S → Type 0} where
  -- An invariant, also at the label
  pub Keeps-bind :
      (m : Exec S A) (f : A → Exec S B)
      → Leads P P P m
      → ((a : A) → Leads P P P (f a))
      → Leads P P P (m >>= f)
  Keeps-bind m f = Leads-bind m f

  pub Keeps_then :
      {Q : B → S → Type 0} (m : Exec S A) (f : A → Exec S B)
      → Leads P P P m
      → ((a : A) → Gives P P Q (f a))
      → Gives P P Q (m >>= f)
  Keeps_then m f = Gives-bind m f

-- What holds in the end, when the handler makes it hold.
pub on_failure-Leads :
    {S A : Type 0} {E P Q : S → Type 0} (m : Exec S A) (handler : S → A × S)
    → Leads E P Q m
    → ((s : S) → E s → Q (handler s).1)
    → (s : S) → P s
    → Q (on_failure m handler s).1
unfolding on_failure
on_failure-Leads {S} {A} {E} {P} {Q} m handler km kh s h = rest (m s) (km.at s h)
  where
    rest :
        (r : Result A × S)
        → Outcome E Q r
        → Q (elim r.0 as (λ _. A × S) [ ok a ↦ (a, r.1) | failure ↦ handler r.1 ]).1
    rest (ok a, t) k = k
    rest (failure, t) k = kh t k

pub ruleset leads_rules = (Leads-pure, Leads-if, Leads-bind)
