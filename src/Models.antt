-- ===== src/Models.antt =====
-- include/core/models.h and src/core/models.c: the records that pass between the components.
-- A pointer is an `Option`, with `none` for NULL; a block of memory is the list of its bytes.
pub mod Create
use http_runtime.Base.{ℕ, Option, none, Bytes, codes, ℤ, pos}

pub data Method : Type 0 where
  get post put delete patch head options : Method

pub data ResponseResults : Type 0 where
  response_ok response_curl_error response_internal_error response_cancelled : ResponseResults

pub record Request : Type 0 where
  pub id : ℤ
  pub collection_id : ℤ
  pub method : Method
  pub url : Option Bytes
  pub url_len : ℕ
  pub headers : Option Bytes
  pub headers_len : ℕ
  pub body : Option Bytes
  pub body_len : ℕ
  pub status : ℤ

pub record Collection : Type 0 where
  pub id : ℤ
  pub name : Bytes
  pub name_len : ℕ

-- `duration` is the bit pattern of a double; `headers` and `body` are blocks of memory.
pub record Response : Type 0 where
  pub id : ℤ
  pub request_id : ℤ
  pub status_code : ℤ
  pub headers : Option Bytes
  pub headers_len : ℕ
  pub headers_capacity : ℕ
  pub content_type : Option Bytes
  pub body : Option Bytes
  pub body_len : ℕ
  pub body_capacity : ℕ
  pub duration : ℕ
  pub result : ResponseResults

-- `calloc`: every field is zero.
abbrev pub empty_response : Response
empty_response = record {
  id = pos 0;
  request_id = pos 0;
  status_code = pos 0;
  headers = none;
  headers_len = 0;
  headers_capacity = 0;
  content_type = none;
  body = none;
  body_len = 0;
  body_capacity = 0;
  duration = 0;
  result = response_ok;
}

unfoldable pub response_result_to_char : ResponseResults → Bytes
response_result_to_char response_ok = codes "OK"
response_result_to_char response_curl_error = codes "CURL_ERROR"
response_result_to_char response_internal_error = codes "UNKNOWN"
response_result_to_char response_cancelled = codes "UNKNOWN"
