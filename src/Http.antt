-- ===== src/Http.antt =====
-- src/http.h and src/http.c: the parsed request and the parser. The children model the parts: Url the
-- percent-decoding, Line the request line, Header one header line, Read the reading from the socket
-- and Parse the whole. A `char` array field is what it reads as, up to its first NUL.
pub mod Url
pub mod Line
pub mod Header
pub mod Read
pub mod Parse
pub mod Blank
pub mod Progress
pub mod Stream
pub mod Safety
pub mod Accepted
pub mod Fits
pub mod Arrays
pub mod Socket
mod Tests
use local_marks.Prelude.{
  ℕ, zero, suc, ◌+◌, ◌-◌, ◌*◌, ◌/◌, ◌%◌, ◌^◌, ◌≤◌, ◌<◌, ◌≡◌, ◌≢◌, ◌↔◌, ◌⊎◌, inl, inr, refl, sym, ap,
  ◌∙◌, Bool, true, false, not, ◌&&◌, ◌||◌, Option, none, some, List, [], ◌∷◌, ◌++◌, map, append-nil,
  append_assoc, min, ltb, leb, ◌==◌, if◌then◌else◌, length, get_or, get_elem?, set, replicate, take,
  drop, arith, tests, All, All-get, All-set, All-append, All-replicate, length-set, length-map,
  length-append, length-replicate, length-take, length-take-le, length-drop, take_of_le,
  get_or-set_self, get_or-set_ne, get_or-replicate, Option-cases, Bool-cases, ==_iff, ltb→lt,
  lt→ltb, leb→le,
}
use local_marks.Prelude.Int.{ℤ, pos, negsuc, pos_part, neg_part, ◌+ℤ◌, ltb_ℤ, leb_ℤ}
use local_marks.Prelude.Bytes.{Bytes, codes}

pub data HttpMethod : Type 0 where
  http_get http_head http_other : HttpMethod

pub record HttpRequest : Type 0 where
  pub method : HttpMethod
  pub method_str : Bytes
  pub path : Bytes
  pub query : Bytes
  pub version : Bytes
  pub host : Bytes
  pub auth : Bytes
  pub connection : Bytes
  pub if_none_match : Bytes
  pub if_modified_since : Bytes
  pub range_start : ℤ
  pub range_end : ℤ
  pub raw : Option Bytes
  pub raw_len : ℕ

-- what `http_parse_request` starts from
abbrev pub blank_request : HttpRequest
blank_request = record {
  method = http_get;
  method_str = [];
  path = [];
  query = [];
  version = [];
  host = [];
  auth = [];
  connection = [];
  if_none_match = [];
  if_modified_since = [];
  range_start = negsuc 0;
  range_end = negsuc 0;
  raw = none;
  raw_len = 0;
}

unfoldable pub http_method_str : HttpMethod → Bytes
http_method_str http_get = codes "GET"
http_method_str http_head = codes "HEAD"
http_method_str http_other = codes "?"

-- `free(req->raw)`: the request with its buffer released
unfoldable pub http_request_cleanup : HttpRequest → HttpRequest
http_request_cleanup req = elim req.raw [
  | none ↦ req
  | some buf ↦ record req { raw = none; raw_len = 0 }
]
