-- ===== src/HttpClient.antt =====
-- src/port/src/libcurl/portHttpClient.c: the HTTP client over libcurl. The functions of libcurl are
-- the fields of `Curl`; `none` is a write past the end of the buffer for the answer. The buffers of
-- a request are not freed, and `httpclient_free` and `httpclient_get_file` are empty. The `int` that
-- `httpclient_post_file` gives for the response code is taken as wide as a `long`.
pub mod Answers
pub mod Provisioning
pub mod Uploads
mod Tests
use modbus_things.Base.{
  ℕ, zero, suc, ◌+◌, Bool, true, false, Option, none, some, List, [], ◌∷◌, ◌++◌, leb, ◌==◌,
  if◌then◌else◌, length, take,
}
use modbus_things.Base.Int.{ℤ, pos, neg}
use modbus_things.Base.Text.{Text, before_nul}
use modbus_things.Server.{Http, Reply}

-- CURL_MAX_WRITE_SIZE
abbrev pub max_write_size : ℕ
max_write_size = 16384

-- `struct curl_slist *`: NULL, or the lines of a list
abbrev pub Header : Type 0
Header = Option (List Text)

-- What a handle is set up with. `form` is the name of a form's field and of the file in it.
pub record Transfer : Type 0 where
  pub url : Text
  pub header : Header
  pub post : Option Text
  pub form : Option (Text × Text)

-- What libcurl gives: whether it has a handle; the lines of a list to which a line was appended, in
-- place; and of a transfer, the code of `curl_easy_perform`, the code of the response, and the bytes
-- for which it calls the write function.
pub record Curl : Type 0 where
  pub easy_init : Bool
  pub slist_append : List Text → Text → List Text
  pub perform : Transfer → ℕ × ℕ × List Text

-- CURLE_FAILED_INIT
abbrev pub failed_init : ℤ
failed_init = pos 2

-- `httpclient_request_header_add` of a formatted line: it is cut to 255 bytes. The list that is made
-- for a NULL is not stored.
abbrev pub request_header_add : Curl → Header → Text → Header
request_header_add curl none line = none
request_header_add curl (some lines) line = some (curl.slist_append lines (take 255 line))

-- `curl_stringBodyWrite`: the text in the buffer, with a NUL behind it; `strncat` takes the bytes of a
-- chunk before its first NUL.
unfoldable pub string_body_write : Text → Text → Option Text
string_body_write recv chunk =
    if leb (length recv + length (before_nul chunk) + 1) max_write_size
    then some (recv ++ before_nul chunk)
    else none

-- the buffer after the calls of a transfer
unfoldable pub received : Text → List Text → Option Text
received recv [] = some recv
received recv (chunk ∷ chunks) = elim (string_body_write recv chunk) [
  | none ↦ none
  | some recv' ↦ received recv' chunks
]

-- the code and the text where the response has the code `code`
abbrev pub answer : ℕ → ℕ → Option Text → Reply
answer rc code none = none
answer rc code (some recv) = if code == 200 then some (pos rc, some recv) else some (neg 1, none)

-- a transfer that is performed, and its answer
abbrev pub perform_request : Curl → Transfer → Reply
perform_request curl t =
    let (rc, code, chunks) = curl.perform t in answer rc code (received [] chunks)

-- `httpclient_request`; `buffer` is whether `m_malloc` gives memory.
unfoldable pub request : Curl → Bool → Text → Header → Option Text → Reply
request curl buffer uri header post =
    if curl.easy_init
    then (if buffer
        then perform_request curl (record { url = uri; header = header; post = post; form = none })
        else some (neg 2, none))
    else some (failed_init, none)

-- the end of `httpclient_post_file`, which does not look at the response's code
abbrev pub uploaded : ℕ → Option Text → Option ℤ
uploaded rc none = none
uploaded rc (some recv) = some (pos rc)

abbrev pub perform_post : Curl → Transfer → Option ℤ
perform_post curl t = let (rc, code, chunks) = curl.perform t in uploaded rc (received [] chunks)

-- `httpclient_post_file`
unfoldable pub post_file : Curl → Bool → Text → Text → Text → Option ℤ
post_file curl buffer uri filename form_data =
    if curl.easy_init
    then (if buffer
        then perform_post curl
            (record { url = uri; header = none; post = none; form = some (form_data, filename) })
        else some (neg 2))
    else some failed_init

-- the client as the server's port uses it
abbrev pub client : Curl → Bool → Http Header
client curl buffer = record {
  no_header = none;
  add_header = request_header_add curl;
  request = request curl buffer;
}
