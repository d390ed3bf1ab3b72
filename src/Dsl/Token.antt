-- ===== src/Dsl/Token.antt =====
-- include/dsl/dsl_token.h, and the token names of src/dsl/dsl_lexer.c.
use http_runtime.Base.{
  List, [], ◌∷◌, refl, ap, sym, ◌∙◌, get_elem?, some, ◌==◌, ==_iff, ℕ, true, Option, Bytes, codes,
  ◌≡◌, ◌↔◌,
}

pub data DslTokenType : Type 0 where
  eof error newline : DslTokenType
  get post put delete patch : DslTokenType
  body_stmt expect status header body contains : DslTokenType
  int string ident body_raw : DslTokenType

pub record DslToken : Type 0 where
  pub type : DslTokenType
  pub str : Option Bytes
  pub line : ℕ
  pub column : ℕ

-- `dsl_token_type_name`; `BODY_STMT` and `BODY_RAW` fall to its default.
unfoldable pub dsl_token_type_name : DslTokenType → Bytes
dsl_token_type_name eof = codes "EOF"
dsl_token_type_name error = codes "ERROR"
dsl_token_type_name newline = codes "NEWLINE"
dsl_token_type_name get = codes "GET"
dsl_token_type_name post = codes "POST"
dsl_token_type_name put = codes "PUT"
dsl_token_type_name delete = codes "DELETE"
dsl_token_type_name patch = codes "PATCH"
dsl_token_type_name expect = codes "EXPECT"
dsl_token_type_name status = codes "STATUS"
dsl_token_type_name header = codes "HEADER"
dsl_token_type_name body = codes "BODY"
dsl_token_type_name contains = codes "CONTAINS"
dsl_token_type_name int = codes "INT"
dsl_token_type_name string = codes "STRING"
dsl_token_type_name ident = codes "IDENT"
dsl_token_type_name body_stmt = codes "UNKNOWN"
dsl_token_type_name body_raw = codes "UNKNOWN"

-- `a == b` on token types, by their numbers in the enum
unfoldable pub token_index : DslTokenType → ℕ
token_index eof = 0
token_index error = 1
token_index newline = 2
token_index get = 3
token_index post = 4
token_index put = 5
token_index delete = 6
token_index patch = 7
token_index body_stmt = 8
token_index expect = 9
token_index status = 10
token_index header = 11
token_index body = 12
token_index contains = 13
token_index int = 14
token_index string = 15
token_index ident = 16
token_index body_raw = 17

all_types : List DslTokenType
all_types =
    eof ∷ error ∷ newline ∷ get ∷ post ∷ put ∷ delete ∷ patch ∷ body_stmt ∷ expect ∷ status ∷ header
    ∷ body ∷ contains ∷ int ∷ string ∷ ident ∷ body_raw ∷ []

type_at-index : (t : DslTokenType) → get_elem? all_types (token_index t) ≡ some t
unfolding all_types token_index
type_at-index eof = refl
type_at-index _ = refl

pub token_index_iff : (a b : DslTokenType) → ((token_index a == token_index b) ≡ true) ↔ (a ≡ b)
token_index_iff a b = (
  (λ h.
      let e = (==_iff (token_index a) (token_index b)).0 h in
      let f = sym (type_at-index a) ∙ ap (get_elem? all_types) e ∙ type_at-index b in cc),
  (λ e. (==_iff (token_index a) (token_index b)).1 (ap token_index e)),
)
