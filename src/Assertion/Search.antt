-- ===== src/Assertion/Search.antt =====
-- `bytes_contains` of src/core/assertion.c finds a pattern exactly where there is one.
use http_runtime.Base.{
  ℕ, zero, suc, ◌+◌, ◌-◌, ◌≤◌, true, [], ◌++◌, ◌≡◌, ap, sym, ◌∙◌, ◌↔◌, inl, inr, ◌==◌, ==_iff,
  drop-append, Bool-cases, List-cases, length, length-append, take, drop, take-append, take-length,
  take-append-drop, arith, Bytes, bytes_eq_iff,
}
use http_runtime.Assertion.{mem_eq, search_from, find_bytes}

-- `needle` stands in `haystack`, behind `before` and in front of `behind`.
pub record Occurs (needle haystack : Bytes) : Type 0 where
  pub before : Bytes
  pub behind : Bytes
  pub split : haystack ≡ before ++ (needle ++ behind)

mem_eq-prefix : (h n : Bytes) → (mem_eq h n (length n) ≡ true) ↔ ((r : Bytes) × (h ≡ n ++ r))
unfolding mem_eq
mem_eq-prefix h n = (
  (λ e.
      let same : take (length n) h ≡ n = (bytes_eq_iff _ _).0 e ∙ take-length n in
      (
        drop (length n) h,
        sym (take-append-drop (length n) h) ∙ ap (λ x. x ++ drop (length n) h) same,
      )),
  (λ p. (bytes_eq_iff _ _).1 (ap (take (length n)) p.1 ∙ take-append n p.0 ∙ sym (take-length n))),
)

search_from_sound : (rounds i : ℕ) (h n : Bytes) → search_from rounds i h n ≡ true → Occurs n h
unfolding search_from
search_from_sound zero i h n e = cc
search_from_sound (suc rounds) i h n e = elim (Bool-cases (mem_eq (drop i h) n (length n))) [
  | inl hit ↦
      let (r, s) = (mem_eq-prefix (drop i h) n).0 hit in
      record {
        before = take i h;
        behind = r;
        split = sym (take-append-drop i h) ∙ ap (λ x. take i h ++ x) s;
      }
  | inr miss ↦ search_from_sound rounds (i + 1) h n (ground arith)
]

search_from_complete :
    (rounds i : ℕ) (h n : Bytes) (o : Occurs n h)
    → i ≤ length o.before
    → suc (length o.before) ≤ i + rounds
    → search_from rounds i h n ≡ true
unfolding search_from
search_from_complete zero i h n o le lt = absurd (omega arith)
search_from_complete (suc rounds) i h n o le lt = elim (Bool-cases (i == length o.before)) [
  | inl here ↦
      let i_is : i ≡ length o.before = (==_iff i (length o.before)).0 here in
      let at_i : drop i h ≡ n ++ o.behind =
        ap (λ k. drop k h) i_is
        ∙ ap (drop (length o.before)) o.split
        ∙ drop-append o.before (n ++ o.behind) in
      let hit = (mem_eq-prefix (drop i h) n).1 (o.behind, at_i) in rw hit
  | inr later ↦
      let rest = search_from_complete rounds (i + 1) h n o (ground arith) (omega arith) in
      ground (arith, rest)
]

-- A pattern is found exactly when it stands somewhere in the body, the empty pattern always.
pub find_bytes_iff :
    (haystack needle : Bytes) → (find_bytes haystack needle ≡ true) ↔ Occurs needle haystack
unfolding find_bytes
find_bytes_iff h n = (to, from)
  where
    to : find_bytes h n ≡ true → Occurs n h
    to e = elim (List-cases n) [
      | inl z ↦ record { before = []; behind = h; split = rw z }
      | inr (c, cs, z) ↦
          let e' : search_from (length h - length n + 1) 0 h n ≡ true =
            ground (arith, ap length z) in
          search_from_sound _ 0 h n e'
    ]

    from : Occurs n h → find_bytes h n ≡ true
    from o =
        let total : length h ≡ length o.before + (length n + length o.behind) =
          ap length o.split
          ∙ length-append o.before (n ++ o.behind)
          ∙ ap (λ k. length o.before + k) (length-append n o.behind) in
        let hit =
          search_from_complete (length h - length n + 1) 0 h n o (omega arith) (omega arith) in
        ground (arith, hit, total)
