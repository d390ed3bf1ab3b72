-- ===== src/Cli/Output/Decimal.antt =====
-- `%d` and `%zu` of printf.
use http_runtime.Base.{
  ℕ, zero, suc, length, ◌+◌, ◌*◌, ◌/◌, ◌%◌, ◌≤◌, ◌<◌, ◌^◌, ◌-◌, true, [], ◌∷◌, ◌++◌, ◌≡◌, refl, ap,
  ◌∙◌, subst, ltb, Bool-cases, inl, inr, if◌then◌else◌, Bytes, ℤ, pos, negsuc, int_of_bits, arith,
}
use http_runtime.Ctype.{isdigit, isspace}
use http_runtime.Stdlib.{digits_value, at_most, signed_value, atoi}

-- The first argument bounds the number of digits.
unfoldable pub decimal : ℕ → ℕ → Bytes
decimal zero n = []
decimal (suc fuel) n =
    let rest = decimal fuel (n / 10) in
    if ltb n 10 then (b'0' + n) ∷ [] else rest ++ (b'0' + n % 10) ∷ []

unfoldable pub print_nat : ℕ → Bytes
print_nat n = decimal (n + 1) n

unfoldable pub print_int : ℤ → Bytes
unfolding print_nat
print_int (pos n) = print_nat n
print_int (negsuc n) = b'-' ∷ print_nat (n + 1)

-- Nothing but digits
abbrev Digits : Bytes → Type 0
Digits [] = Unit {0}
Digits (c ∷ cs) = (isdigit c ≡ true) × Digits cs

Digits-append : (xs ys : Bytes) → Digits xs → Digits ys → Digits (xs ++ ys)
Digits-append [] ys h k = k
Digits-append (x ∷ xs) ys h k = (h.0, Digits-append xs ys h.1 k)

isdigit-digit : (d : ℕ) → d < 10 → isdigit (b'0' + d) ≡ true
unfolding isdigit
isdigit-digit d l = ground arith

decimal-Digits : (fuel n : ℕ) → Digits (decimal fuel n)
unfolding decimal
decimal-Digits zero n = tt
decimal-Digits (suc fuel) n = elim (Bool-cases (ltb n 10)) [
  | inl e ↦ rw e (isdigit-digit n (ground arith), tt)
  | inr e ↦ rw e (
      Digits-append (decimal fuel (n / 10)) _ (decimal-Digits fuel (n / 10))
        (isdigit-digit (n % 10) (omega arith), tt))
]

digits_value-append :
    (acc : ℕ) (xs ys : Bytes)
    → Digits xs
    → digits_value acc (xs ++ ys) ≡ digits_value (digits_value acc xs) ys
unfolding digits_value
digits_value-append acc [] ys h = refl
digits_value-append acc (x ∷ xs) ys h =
    rw h.0 (digits_value-append (acc * 10 + (x - b'0')) xs ys h.1)

digits_value-digit : (acc d : ℕ) → d < 10 → digits_value acc ((b'0' + d) ∷ []) ≡ acc * 10 + d
unfolding digits_value
digits_value-digit acc d l = rw (isdigit-digit d l) (omega arith)

digits_value-decimal : (fuel n : ℕ) → n < fuel → digits_value 0 (decimal fuel n) ≡ n
unfolding decimal
digits_value-decimal zero n l = absurd (omega (arith, l))
digits_value-decimal (suc fuel) n l = elim (Bool-cases (ltb n 10)) [
  | inl e ↦ rw e (digits_value-digit 0 n (ground arith) ∙ omega arith)
  | inr e ↦ rw e (
      digits_value-append 0 (decimal fuel (n / 10)) _ (decimal-Digits fuel (n / 10))
      ∙ ap (λ acc. digits_value acc ((b'0' + n % 10) ∷ []))
          (digits_value-decimal fuel (n / 10)
            (let k : 10 ≤ n = ground arith in omega (arith, l, k)))
      ∙ digits_value-digit (n / 10) (n % 10) (omega arith)
      ∙ omega arith)
]

digits_value-print_nat : (n : ℕ) → digits_value 0 (print_nat n) ≡ n
unfolding print_nat
digits_value-print_nat n = digits_value-decimal (n + 1) n (omega arith)

print_nat-Digits : (n : ℕ) → Digits (print_nat n)
unfolding print_nat
print_nat-Digits n = decimal-Digits (n + 1) n

-- A digit is neither a blank nor a sign.
atoi-digit :
    (c : ℕ) (cs : Bytes)
    → isdigit c ≡ true
    → atoi (c ∷ cs) ≡ int_of_bits (at_most (2 ^ 63 - 1) (digits_value 0 (c ∷ cs)))
unfolding atoi signed_value isdigit isspace
atoi-digit c cs e = ground arith

snoc-cons : (xs : Bytes) (y : ℕ) → (c : ℕ) × (cs : Bytes) × (xs ++ y ∷ [] ≡ c ∷ cs)
snoc-cons [] y = (y, [], refl)
snoc-cons (x ∷ xs) y = (x, xs ++ y ∷ [], refl)

decimal-cons : (fuel n : ℕ) → (c : ℕ) × (cs : Bytes) × (decimal (suc fuel) n ≡ c ∷ cs)
unfolding decimal
decimal-cons fuel n = elim (Bool-cases (ltb n 10)) [
  | inl e ↦ (b'0' + n, [], rw e refl)
  | inr e ↦ let (c, cs, f) = snoc-cons (decimal fuel (n / 10)) (b'0' + n % 10) in (c, cs, rw e f)
]

atoi-Digits :
    (s : Bytes) (c : ℕ) (cs : Bytes)
    → Digits s
    → s ≡ c ∷ cs
    → atoi s ≡ int_of_bits (at_most (2 ^ 63 - 1) (digits_value 0 s))
atoi-Digits [] c cs h e = absurd (let f = ap length e in omega (arith, f))
atoi-Digits (d ∷ ds) c cs h e = atoi-digit d ds h.0

atoi_minus :
    (s : Bytes) → atoi (b'-' ∷ s) ≡ int_of_bits (2 ^ 64 - at_most (2 ^ 63) (digits_value 0 s))
unfolding atoi signed_value isspace
atoi_minus s = refl

bits_pos : (n : ℕ) → n < 2 ^ 31 → int_of_bits (at_most (2 ^ 63 - 1) n) ≡ pos n
bits_pos n l = ground arith

bits_negsuc : (n : ℕ) → n < 2 ^ 31 → int_of_bits (2 ^ 64 - at_most (2 ^ 63) (n + 1)) ≡ negsuc n
bits_negsuc n l = ground arith

print_nat-cons : (n : ℕ) → (c : ℕ) × (cs : Bytes) × (print_nat n ≡ c ∷ cs)
unfolding print_nat
print_nat-cons n =
    subst (λ f. (c : ℕ) × (cs : Bytes) × (decimal f n ≡ c ∷ cs)) {x = suc n} {y = n + 1}
      (omega arith) (decimal-cons n n)

-- The value of an int
abbrev pub IsInt : ℤ → Type 0
IsInt (pos n) = n < 2 ^ 31
IsInt (negsuc n) = n < 2 ^ 31

-- What `%d` prints of an int, `atoi` reads back.
pub print_int-atoi : (z : ℤ) → IsInt z → atoi (print_int z) ≡ z
unfolding print_int
print_int-atoi (pos n) l =
    let (c, cs, e) = print_nat-cons n in
    atoi-Digits (print_nat n) c cs (print_nat-Digits n) e
    ∙ ap (λ v. int_of_bits (at_most (2 ^ 63 - 1) v)) (digits_value-print_nat n)
    ∙ bits_pos n l
print_int-atoi (negsuc n) l =
    atoi_minus (print_nat (n + 1))
    ∙ ap (λ v. int_of_bits (2 ^ 64 - at_most (2 ^ 63) v)) (digits_value-print_nat (n + 1))
    ∙ bits_negsuc n l
