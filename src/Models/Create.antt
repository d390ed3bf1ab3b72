-- ===== src/Models/Create.antt =====
-- src/core/models.c: the constructors. `malloc` and `calloc` are a parameter, as in the DSL.
use http_runtime.Base.{
  ℕ, ◌+◌, Bool, false, not, ◌||◌, Option, none, some, ltb, ◌==◌, if◌then◌else◌, length, take, Bytes,
  ℤ, pos,
}
use http_runtime.Models.{Method, Request, Collection}

-- The sizes of the structures on a 64-bit target.
abbrev pub request_size : ℕ
request_size = 72

abbrev pub collection_size : ℕ
collection_size = 24

abbrev pub worker_task_size : ℕ
worker_task_size = 16

-- The terminator that is written behind the copy is not one of its bytes.
unfoldable pub safe_copy_string : (ℕ → Bool) → Option Bytes → ℕ → Option Bytes
safe_copy_string malloc none len = none
safe_copy_string malloc (some src) len =
    if len == 0 then none else if malloc (len + 1) then some (take len src) else none

unfoldable pub safe_copy_blob : (ℕ → Bool) → Option Bytes → ℕ → Option Bytes
safe_copy_blob malloc none len = none
safe_copy_blob malloc (some src) len =
    if len == 0 then none else if malloc len then some (take len src) else none

abbrev pub strlen_or_zero : Option Bytes → ℕ
strlen_or_zero none = 0
strlen_or_zero (some s) = length s

-- `len > 0 && !pointer`
abbrev pub is_lost : ℕ → Option Bytes → Bool
is_lost len none = ltb 0 len
is_lost len (some s) = false

abbrev pub any_lost : Request → Bool
any_lost req =
    is_lost req.url_len req.url
    || is_lost req.headers_len req.headers
    || is_lost req.body_len req.body

-- `none` is NULL.
unfoldable pub create_request :
    (ℕ → Bool) → Method → ℤ → Option Bytes → Option Bytes → Option Bytes → ℕ → Option Request
create_request malloc method collection_id url headers body body_len =
    let req : Request = record {
      id = pos 0;
      collection_id = collection_id;
      method = method;
      url = safe_copy_string malloc url (strlen_or_zero url);
      url_len = strlen_or_zero url;
      headers = safe_copy_string malloc headers (strlen_or_zero headers);
      headers_len = strlen_or_zero headers;
      body = safe_copy_blob malloc body body_len;
      body_len = body_len;
      status = pos 0;
    } in
    if malloc request_size then (if any_lost req then none else some req) else none

unfoldable pub create_collection : (ℕ → Bool) → Option Bytes → Option Collection
create_collection malloc none = none
create_collection malloc (some name) =
    if length name == 0 || not (malloc collection_size)
    then none
    else elim (safe_copy_string malloc (some name) (length name)) [
      | none ↦ none
      | some copy ↦ some (record { id = pos 0; name = copy; name_len = length name })
    ]

-- `HTTP_REQUEST` is the only type.
pub record WorkerTask : Type 0 where
  pub request : Option Request

-- `none` is the write through NULL when `calloc` fails, which is not tested.
unfoldable pub create_http_worker_task : (ℕ → Bool) → Option Request → Option WorkerTask
create_http_worker_task malloc req =
    if malloc worker_task_size then some (record { request = req }) else none
