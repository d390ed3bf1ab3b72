-- ===== src/Memory/Grew.antt =====
-- A heap that has grown by some blocks.
use http_runtime.Base.{
  ℕ, true, false, ◌||◌, List, [], ◌∷◌, ◌++◌, ◌≡◌, refl, sym, ◌∙◌, ◌==◌, ==_iff, Bool-cases, inl,
  inr, arith,
}
use http_runtime.Memory.{Heap}
use http_runtime.Memory.Frees.{member, Distinct}

member-append : (q : ℕ) (ps rs : List ℕ) → member q (ps ++ rs) ≡ (member q ps || member q rs)
member-append q [] rs = refl
member-append q (p ∷ ps) rs = let e = member-append q ps rs in ground arith

Distinct-append :
    (ps rs : List ℕ)
    → Distinct ps
    → Distinct rs
    → ((q : ℕ) → member q ps ≡ true → member q rs ≡ false)
    → Distinct (ps ++ rs)
Distinct-append [] rs d e apart = e
Distinct-append (p ∷ ps) rs (n, d) e apart = (
  member-append p ps rs
      ∙ rw n (apart p (let f : (p == p) ≡ true = (==_iff p p).1 refl in rw f refl)),
  Distinct-append ps rs d e (λ q m. apart q (ground arith)),
)

-- The heap has grown by the blocks `ps`.
pub record Grew (h : Heap) (ps : List ℕ) (h' : Heap) : Type 0 where
  pub distinct : Distinct ps
  pub were_free : (q : ℕ) → member q ps ≡ true → h q ≡ false
  pub grown : (q : ℕ) → h' q ≡ (h q || member q ps)

pub Grew-none : (h : Heap) → Grew h [] h
Grew-none h = record {
  distinct = tt;
  were_free = λ q m. absurd (let f : false ≡ true = m in cc);
  grown = λ q. ground arith;
}

module _ (h h' h'' : Heap) (ps rs : List ℕ) (g : Grew h ps h') (k : Grew h' rs h'') where
  -- What is taken next is apart from what was taken before.
  apart : (q : ℕ) → member q ps ≡ true → member q rs ≡ false
  apart q m = elim (Bool-cases (member q rs)) [
    | inr n ↦ n
    | inl n ↦ let e = k.were_free q n in let f = g.grown q in absurd (ground arith)
  ]

  apart_back : (q : ℕ) → member q rs ≡ true → member q ps ≡ false
  apart_back q n = elim (Bool-cases (member q ps)) [
    | inr m ↦ m
    | inl m ↦ absurd (let f = sym (apart q m) ∙ n in cc)
  ]

  pub Grew-after : Grew h (ps ++ rs) h''
  Grew-after = record {
    distinct = Distinct-append ps rs g.distinct k.distinct apart;
    were_free = λ q m.
        let e = member-append q ps rs in
        let a = g.were_free q in let b = k.were_free q in let c = g.grown q in ground arith;
    grown = λ q.
        let e = member-append q ps rs in let c = g.grown q in let d = k.grown q in ground arith;
  }

  pub Grew-before : Grew h (rs ++ ps) h''
  Grew-before = record {
    distinct = Distinct-append rs ps k.distinct g.distinct apart_back;
    were_free = λ q m.
        let e = member-append q rs ps in
        let a = g.were_free q in let b = k.were_free q in let c = g.grown q in ground arith;
    grown = λ q.
        let e = member-append q rs ps in let c = g.grown q in let d = k.grown q in ground arith;
  }
