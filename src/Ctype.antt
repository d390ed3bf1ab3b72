-- ===== src/Ctype.antt =====
-- The classifications of `<ctype.h>` that the program uses, in the "C" locale.
use http_runtime.Base.{ℕ, ◌+◌, Bool, ◌&&◌, ◌||◌, leb, ◌==◌, if◌then◌else◌}

abbrev within : ℕ → ℕ → ℕ → Bool
within lo hi c = leb lo c && leb c hi

unfoldable pub isdigit : ℕ → Bool
isdigit c = within b'0' b'9' c

unfoldable pub isupper : ℕ → Bool
isupper c = within b'A' b'Z' c

unfoldable pub isalpha : ℕ → Bool
unfolding isupper
isalpha c = isupper c || within b'a' b'z' c

unfoldable pub isalnum : ℕ → Bool
unfolding isalpha isdigit
isalnum c = isalpha c || isdigit c

unfoldable pub isprint : ℕ → Bool
isprint c = within 0x20 0x7e c

-- space, \t \n \v \f \r
unfoldable pub isspace : ℕ → Bool
isspace c = c == 0x20 || within 9 13 c

unfoldable pub tolower : ℕ → ℕ
unfolding isupper
tolower c = if isupper c then c + 32 else c
