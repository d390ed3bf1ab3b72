-- ===== src/Db/Rows.antt =====
-- src/core/db_manager.c: a row of a result as a record. The `malloc` of the copies is a parameter.
use http_runtime.Base.{
  ℕ, Bool, true, false, ◌||◌, Option, none, some, ◌==◌, if◌then◌else◌, Bytes, ℤ, pos, negsuc,
}
use http_runtime.Models.{
  Request, Response, Method, ResponseResults, response_ok, response_curl_error,
  response_internal_error, response_cancelled, empty_response,
}
use http_runtime.Models
use http_runtime.Models.Create.{safe_copy_string, safe_copy_blob, is_lost, any_lost, request_size}
use http_runtime.Exec.{Exec, pure, ◌>>=◌}
use http_runtime.Db.{
  Sqlite, Db, column_int, column_int64, column_double, column_text, column_blob, column_bytes,
  column,
}

abbrev pub response_size : ℕ
response_size = 88

abbrev is_code : ℤ → ℕ → Bool
is_code (pos n) k = n == k
is_code (negsuc n) k = false

-- An `int` read as an enumeration. The program stores the values of the enumeration only; any
-- other is read as the last one.
unfoldable pub method_of_code : ℤ → Method
method_of_code c =
    if is_code c 0
    then Models.get
    else if is_code c 1
    then Models.post
    else if is_code c 2
    then Models.put
    else if is_code c 3
    then Models.delete
    else if is_code c 4
    then Models.patch
    else if is_code c 5
    then Models.head
    else Models.options

unfoldable pub result_of_code : ℤ → ResponseResults
result_of_code c =
    if is_code c 0
    then response_ok
    else if is_code c 1
    then response_curl_error
    else if is_code c 2
    then response_internal_error
    else response_cancelled

-- The URL must be there; what is longer than 0 must have been copied.
abbrev pub checked_request : Request → Option Request
checked_request req =
    if is_missing req.url || req.url_len == 0 then none else if any_lost req then none else some req
  where
    is_missing : Option Bytes → Bool
    is_missing none = true
    is_missing (some s) = false

module _ (sqlite : Sqlite) (malloc : ℕ → Bool) where
  unfoldable pub read_request : Exec Db (Option Request)
  read_request = do
    id ← column sqlite (column_int 0)
    collection_id ← column sqlite (column_int 1)
    method ← column sqlite (column_int 2)
    status ← column sqlite (column_int 9)
    url_len ← column sqlite (column_int64 4)
    headers_len ← column sqlite (column_int64 6)
    body_len ← column sqlite (column_int64 8)
    url ← column sqlite (column_text 3)
    headers ← column sqlite (column_text 5)
    body ← column sqlite (column_blob 7)
    pure (
        checked_request (record {
          id = id.int_value;
          collection_id = collection_id.int_value;
          method = method_of_code method.int_value;
          url = safe_copy_string malloc url.bytes url_len.size;
          url_len = url_len.size;
          headers = safe_copy_string malloc headers.bytes headers_len.size;
          headers_len = headers_len.size;
          body = safe_copy_blob malloc body.bytes body_len.size;
          body_len = body_len.size;
          status = status.int_value;
        }))

  unfoldable pub map_row_to_request : Exec Db (Option Request)
  map_row_to_request = if malloc request_size then read_request else pure none

  -- The lengths of the headers and of the content type are not kept in the record.
  abbrev pub checked_response : ℕ → ℕ → Response → Option Response
  checked_response headers_len content_type_len resp =
      if is_lost content_type_len resp.content_type
      then none
      else if is_lost headers_len resp.headers
      then none
      else if is_lost resp.body_len resp.body
      then none
      else some resp

  unfoldable pub read_response : Exec Db (Option Response)
  read_response = do
    id ← column sqlite (column_int 0)
    request_id ← column sqlite (column_int 1)
    status_code ← column sqlite (column_int 2)
    result ← column sqlite (column_int 8)
    duration ← column sqlite (column_double 7)
    body_len ← column sqlite (column_bytes 5)
    headers ← column sqlite (column_text 3)
    content_type ← column sqlite (column_text 4)
    body ← column sqlite (column_blob 5)
    headers_len ← column sqlite (column_bytes 3)
    content_type_len ← column sqlite (column_bytes 4)
    pure (
        checked_response headers_len.size content_type_len.size (record empty_response {
          id = id.int_value;
          request_id = request_id.int_value;
          status_code = status_code.int_value;
          result = result_of_code result.int_value;
          duration = duration.real;
          body_len = body_len.size;
          content_type = safe_copy_string malloc content_type.bytes content_type_len.size;
          headers = safe_copy_string malloc headers.bytes headers_len.size;
          body = safe_copy_blob malloc body.bytes body_len.size;
        }))

  unfoldable pub map_row_to_response : Exec Db (Option Response)
  map_row_to_response = if malloc response_size then read_response else pure none
