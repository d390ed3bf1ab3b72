-- ===== src/Base/Trim.antt =====
-- Cutting a run of bytes off the end of a text.
use Prim.Native.Nat.{ℕ, suc, ◌≤◌}
use mathlib.Core.Path.{◌≡◌, refl}
use mathlib.Core.Logic.{inl, inr}
use mathlib.Core.Bool.{Bool, true, ◌&&◌}
use mathlib.Core.List.{[], ◌∷◌}
use native.Mathlib.Omega.{arith}
use http_runtime.Base.Tests.{◌==◌, if◌then◌else◌, Bool-cases}
use http_runtime.Base.Lists.{length, take, drop, Every}
use http_runtime.Base.Text.{Bytes}

-- The length that `while (len > 0 && test(s[len - 1])) len--;` leaves.
unfoldable pub trimmed_length : (ℕ → Bool) → Bytes → ℕ
trimmed_length test [] = 0
trimmed_length test (c ∷ cs) =
    let n = trimmed_length test cs in if n == 0 && test c then 0 else suc n

module _ (test : ℕ → Bool) where
  pub trimmed_length-le : (w : Bytes) → trimmed_length test w ≤ length w
  unfolding trimmed_length
  trimmed_length-le [] = omega arith
  trimmed_length-le (c ∷ w) = ground (arith, trimmed_length-le w)

  -- What is cut off passes the test.
  pub trimmed_length-passes : (w : Bytes) → Every test (drop (trimmed_length test w) w)
  unfolding trimmed_length
  trimmed_length-passes [] = tt
  trimmed_length-passes (c ∷ w) = elim (Bool-cases (trimmed_length test w == 0 && test c)) [
    | inl cut ↦
        let n : trimmed_length test w ≡ 0 = ground arith in
        let b : test c ≡ true = ground arith in
        let rest : Every test w = rw n at (trimmed_length-passes w) in
        rw (cut, trimmed_length) (b, rest)
    | inr keep ↦ rw (keep, trimmed_length) (trimmed_length-passes w)
  ]

  -- What is left does not end in a byte that passes.
  pub trimmed_length-take :
      (w : Bytes) → trimmed_length test (take (trimmed_length test w) w) ≡ trimmed_length test w
  unfolding trimmed_length
  trimmed_length-take [] = refl
  trimmed_length-take (c ∷ w) = elim (Bool-cases (trimmed_length test w == 0 && test c)) [
    | inl cut ↦ rw (cut, trimmed_length)
    | inr keep ↦
        rw (keep, trimmed_length)
          (rw (trimmed_length-take w, trimmed_length) (rw (keep, trimmed_length)))
  ]
