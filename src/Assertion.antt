-- ===== src/Assertion.antt =====
-- include/core/assertion.h and src/core/assertion.c: the checks on a response.
pub mod Header
pub mod Eval
pub mod Search
use http_runtime.Base.{
  ℕ, zero, suc, ◌+◌, ◌-◌, ◌*◌, ◌%◌, ◌^◌, Bool, true, false, not, ◌&&◌, ◌||◌, Option, none, some,
  List, [], ◌∷◌, ltb, leb, ◌==◌, if◌then◌else◌, length, take, drop, Bytes, codes, bytes_eq, ℤ,
  int_eq,
}

-- The tagged union `Value`. A `Bytes` with its length is the bytes it shows.
pub data Value : Type 0 where
  none_value : Value
  int_value : ℤ → Value
  string_value : Option Bytes → Value
  bool_value : ℤ → Value
  double_value : ℕ → Value
  byte_value : Option Bytes → Value
  header_value : Option Bytes → Option Bytes → Value

pub data AssertionType : Type 0 where
  status_eq body_contains header_contains : AssertionType

pub record Assertion : Type 0 where
  pub type : AssertionType
  pub expected : Value

pub record AssertionResult : Type 0 where
  pub type : AssertionType
  pub passed : Bool
  pub expected : Value
  pub actual : Value
  pub message : Option Bytes

-- `==` on doubles, by their bit patterns: NaN differs from all, and the two zeros are equal.
unfoldable pub double_eq : ℕ → ℕ → Bool
double_eq a b =
    let nan = λ (x : ℕ). ltb (2047 * 2 ^ 52) (x % 2 ^ 63) in
    not (nan a) && not (nan b) && (a == b || (a % 2 ^ 63 == 0 && b % 2 ^ 63 == 0))

unfoldable pub string_eq : Option Bytes → Option Bytes → Bool
unfolding bytes_eq
string_eq (some a) (some b) = bytes_eq a b
string_eq _ _ = false

unfoldable pub check_equal : Value → Value → Bool
unfolding double_eq string_eq
check_equal (int_value a) (int_value b) = int_eq a b
check_equal (bool_value a) (bool_value b) = int_eq a b
check_equal (double_value a) (double_value b) = double_eq a b
check_equal (string_value a) (string_value b) = string_eq a b
check_equal _ _ = false

-- `memcmp (a, b, n) == 0`
unfoldable pub mem_eq : Bytes → Bytes → ℕ → Bool
unfolding bytes_eq
mem_eq a b n = bytes_eq (take n a) (take n b)

-- `for (i …) if (memcmp(haystack + i, needle, n) == 0) return true;` for some rounds from `i`
unfoldable pub search_from : ℕ → ℕ → Bytes → Bytes → Bool
unfolding mem_eq
search_from zero i haystack needle = false
search_from (suc rounds) i haystack needle =
    mem_eq (drop i haystack) needle (length needle) || search_from rounds (i + 1) haystack needle

unfoldable pub find_bytes : Bytes → Bytes → Bool
unfolding search_from
find_bytes haystack needle =
    if length needle == 0
    then true
    else if ltb (length haystack) (length needle)
    then false
    else search_from (length haystack - length needle + 1) 0 haystack needle

unfoldable pub bytes_contains : Value → Value → Bool
unfolding find_bytes
bytes_contains (byte_value (some haystack)) (byte_value (some needle)) = find_bytes haystack needle
bytes_contains _ _ = false
