-- ===== src/Worker/Curl.antt =====
-- src/core/worker.c: the options of a request. libcurl is a parameter over an unknown state.
use http_runtime.Base.{
  ℕ, Bool, true, false, ◌||◌, Option, none, some, List, [], ◌∷◌, ◌++◌, ◌==◌, if◌then◌else◌, length,
  Bytes, codes, ℤ, ◌+◌, ◌-◌,
}
use http_runtime.Models.{Method, Request, Response}
use http_runtime.Models

pub data CurlOption : Type 0 where
  http_get post write_function header_function write_data header_data : CurlOption
  custom_request post_fields url user_agent : Bytes → CurlOption
  post_field_size connect_timeout timeout follow_location max_redirs : ℕ → CurlOption
  http_header : List Bytes → CurlOption

-- What a transfer hands to the callbacks.
pub data Piece : Type 0 where
  body_piece header_piece : Bytes → Piece

-- The calls of libcurl, of the queue of responses, and of the allocator. A Boolean result says
-- whether the call succeeded. `perform` gives the pieces that it hands to the callbacks.
pub record Curl (W : Type 0) : Type 0 where
  pub easy_init : W → Bool × W
  pub setopt : CurlOption → W → Bool × W
  pub slist_append : Bytes → W → Bool × W
  pub perform : W → Bool × List Piece × W
  pub response_code : W → ℤ
  pub content_type : W → Option Bytes
  pub total_time : W → Option ℕ
  pub easy_cleanup : W → W
  pub push_response : Response → W → Bool × W
  pub malloc : W → ℕ → Bool
  pub realloc : Option Bytes → ℕ → Option Bytes

-- The options for a body.
abbrev pub body_options : Request → List CurlOption
body_options req = elim req.body [
  | none ↦ []
  | some body ↦ post_fields body ∷ post_field_size req.body_len ∷ []
]

-- The options that `set_curl_method` sets in turn; `none` is its default case.
unfoldable pub method_options : Method → Request → Option (List CurlOption)
method_options Models.get req = some (http_get ∷ [])
method_options Models.post req = some (post ∷ body_options req)
method_options Models.delete req = some (custom_request (codes "DELETE") ∷ body_options req)
method_options Models.put req = some (custom_request (codes "PUT") ∷ body_options req)
method_options Models.patch req = some (custom_request (codes "PATCH") ∷ body_options req)
method_options _ req = none

-- `strtok_r (headers, "\r\n", &saveptr)` until NULL: the lines that are not empty. The first
-- argument is the line so far.
unfoldable pub header_lines : Bytes → Bytes → List Bytes
header_lines line [] = if length line == 0 then [] else line ∷ []
header_lines line (c ∷ cs) =
    let next = header_lines [] cs in
    let same = header_lines (line ++ c ∷ []) cs in
    if c == b'\r' || c == b'\n' then (if length line == 0 then next else line ∷ next) else same

module _ {W : Type 0} (curl : Curl W) where
  -- The options in turn, up to the first that fails.
  unfoldable pub set_all : List CurlOption → W → Bool × W
  set_all [] w = (true, w)
  set_all (o ∷ options) w =
      let r = curl.setopt o w in
      let rest = set_all options r.1 in if r.0 then rest else (false, r.1)

  unfoldable pub set_curl_method : Request → W → Bool × W
  unfolding method_options set_all
  set_curl_method req w = elim (method_options req.method req) [
    | none ↦ (false, w)
    | some options ↦ set_all options w
  ]

  -- How many lists there are behind `curl_slist_free_all`, which does nothing with NULL.
  abbrev pub freed : List Bytes → ℕ → ℕ
  freed [] count = count
  freed (line ∷ lines) count = count - 1

  abbrev pub alive : List Bytes → ℕ
  alive [] = 0
  alive (line ∷ lines) = 1

  -- The loop of `parse_headers`; `none` if a line cannot be appended, and the list so far is
  -- freed. The last result is the number of lists that were made and not freed.
  unfoldable pub append_lines : List Bytes → List Bytes → W → Option (List Bytes) × W × ℕ
  append_lines [] list w = (some list, w, alive list)
  append_lines (line ∷ lines) list w =
      let r = curl.slist_append line w in
      let rest = append_lines lines (list ++ line ∷ []) r.1 in
      if r.0 then rest else (none, r.1, freed list (alive list))

  abbrev pub or_null : Option (List Bytes) → Option (List Bytes)
  or_null none = none
  or_null (some []) = none
  or_null (some (line ∷ lines)) = some (line ∷ lines)

  -- An empty list is NULL.
  unfoldable pub parse_headers : Bytes → W → Option (List Bytes) × W × ℕ
  unfolding append_lines header_lines
  parse_headers headers w =
      let r = append_lines (header_lines [] headers) [] w in
      if curl.malloc w (length headers + 1) then (or_null r.0, r.1, r.2) else (none, w, 0)

  -- The list is freed when it cannot be set.
  abbrev pub set_list : Option (List Bytes) × W × ℕ → Option (List Bytes) × W × ℕ
  set_list (none, w, count) = (none, w, count)
  set_list (some list, w, count) =
      let t = curl.setopt (http_header list) w in
      if t.0 then (some list, t.1, count) else (none, t.1, freed list count)

  unfoldable pub set_curl_headers : Bytes → W → Option (List Bytes) × W × ℕ
  unfolding parse_headers
  set_curl_headers headers w = set_list (parse_headers headers w)
