-- ===== src/Response/Tests.antt =====
-- Runs of src/response.c.
use local_marks.Prelude.{◌≡◌, true, none, some, [], ◌++◌, leb, if◌then◌else◌, length, arith}
use local_marks.Prelude.Bytes.{codes}
use local_marks.Response.{Response, response_send, crlf}
use local_marks.Response.Framing.{header_of, message, announced, sent_bytes, response_send-bytes}

abbrev hello : Response
hello = record {
  status = 200;
  status_text = codes "OK";
  mime = some (codes "text/plain");
  extra_hdrs = none;
  body = some (codes "hello");
  body_len = 5;
  keep_alive = true;
  send_body = true;
}

response_send-bytes_example : sent_bytes (response_send (codes "Date: today" ++ crlf) hello) ≡ (
    if leb 4096 (length (header_of (codes "Date: today" ++ crlf) hello))
    then []
    else message (codes "Date: today" ++ crlf) hello (announced hello))
response_send-bytes_example = response_send-bytes (codes "Date: today" ++ crlf) hello (omega arith)
