-- ===== src/Assertion/Header/Compare.antt =====
-- The string comparisons of src/core/assertion.c on texts without NUL.
use http_runtime.Base.{
  ℕ, zero, suc, ◌≤◌, Bool, true, not, [], ◌∷◌, map, ◌≡◌, ◌↔◌, refl, ◌==◌, length, take, Every,
  arith, Bytes,
}
use http_runtime.Ctype.{tolower}
use http_runtime.Assertion.Header.{strn_eq}

abbrev pub not_nul : ℕ → Bool
not_nul c = not (c == 0)

-- A C string, without its terminator.
abbrev pub IsCString : Bytes → Type 0
IsCString = Every not_nul

pub tolower_nul : (c : ℕ) → not_nul c ≡ true → not_nul (tolower c) ≡ true
unfolding tolower
tolower_nul c h = ground arith

module _ (f : ℕ → ℕ) (keeps : (c : ℕ) → not_nul c ≡ true → not_nul (f c) ≡ true) where
  -- Two texts of `n` bytes or more agree in the first `n`, up to `f`.
  pub strn_eq_iff :
      (n : ℕ) (a b : Bytes)
      → n ≤ length a
      → n ≤ length b
      → IsCString a
      → (strn_eq f n a b ≡ true) ↔ (map f (take n a) ≡ map f (take n b))
  unfolding strn_eq
  strn_eq_iff zero a b h k z = ((λ _. refl), (λ _. refl))
  strn_eq_iff (suc n) [] b h k z = absurd (omega arith)
  strn_eq_iff (suc n) (x ∷ a) [] h k z = absurd (omega arith)
  strn_eq_iff (suc n) (x ∷ a) (y ∷ b) h k z =
      let ih = strn_eq_iff n a b (omega arith) (omega arith) z.1 in
      let real = keeps x z.0 in ((λ e. ground (arith, ih, real)), (λ e. ground (arith, ih, real)))
