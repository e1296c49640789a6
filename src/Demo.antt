-- ===== src/Demo.antt =====
-- main.cpp: a program that parses a sample request in pieces and prints it. It repeats the callbacks of
-- include/connection_types.h with a request of its own.
pub mod Agreement
use async_event_loop.Base.{ℕ, List, [], ◌∷◌, ◌++◌, foldl, Bytes, bytes_eq, ◌==◌, if◌then◌else◌}
use async_event_loop.UnorderedMap.{UnorderedMap, assign}
use async_event_loop.Http.Callbacks.{
  ParserCall, message_begin, headers_complete, header_value_complete, message_complete, method, url,
  version, header_field, header_value, body,
}
use async_event_loop.Connection.{Parser}
use async_event_loop.Http.{Headers}
use async_event_loop.Application.{bytes, newline}

pub record DemoRequest : Type 0 where
  pub method : Bytes
  pub url : Bytes
  pub version : Bytes
  pub key : Bytes
  pub value : Bytes
  pub headers : UnorderedMap Bytes Bytes
  pub body : Bytes
  pub buffer : Bytes

abbrev pub empty_request : DemoRequest
empty_request = record {
  method = [];
  url = [];
  version = [];
  key = [];
  value = [];
  headers = [];
  body = [];
  buffer = [];
}

-- The callbacks, one clause each.
unfoldable pub demo_call : ParserCall → DemoRequest → DemoRequest
demo_call message_begin r = r
demo_call (method at) r = record r { method = r.method ++ at }
demo_call (url at) r = record r { url = r.url ++ at }
demo_call (version at) r = record r { version = r.version ++ at }
demo_call (header_field at) r = record r { key = r.key ++ at }
demo_call (header_value at) r = record r { value = r.value ++ at }
demo_call header_value_complete r = record r {
  headers = assign r.key r.value r.headers;
  key = [];
  value = [];
}
demo_call headers_complete r = r
demo_call (body at) r = record r { body = r.body ++ at }
demo_call message_complete r = r

unfoldable pub demo_calls : List ParserCall → DemoRequest → DemoRequest
demo_calls [] r = r
demo_calls (c ∷ cs) r = demo_calls cs (demo_call c r)

-- What a callback writes to the standard output.
unfoldable pub demo_writes : ParserCall → DemoRequest → Bytes
demo_writes message_begin r = bytes "[Callback] Message begin" ++ newline
demo_writes (method at) r = bytes "5" ++ newline
demo_writes (url at) r = bytes "6" ++ newline
demo_writes (version at) r = bytes "7" ++ newline
demo_writes (header_field at) r = bytes "8" ++ newline
demo_writes (header_value at) r = bytes "9" ++ newline ++ (r.value ++ at) ++ newline
demo_writes header_value_complete r = bytes "header complete" ++ newline
demo_writes headers_complete r = bytes "[Callback] Headers complete" ++ newline
demo_writes (body at) r = bytes "10" ++ newline
demo_writes message_complete r = bytes "[Callback] Message complete" ++ newline

unfoldable pub demo_written : List ParserCall → DemoRequest → Bytes
demo_written [] r = []
demo_written (c ∷ cs) r = demo_writes c r ++ demo_written cs (demo_call c r)

-- The body of the loop of `printHttpRequest` over the headers.
unfoldable pub demo_print_header : Bytes → Bytes × Bytes → Bytes
demo_print_header out (name, value) = out ++ bytes "    " ++ name ++ bytes ": " ++ value ++ newline

-- `printHttpRequest`, for the requests of this program.
unfoldable pub demo_print : (Headers → Headers) → DemoRequest → Bytes
unfolding demo_print_header
demo_print order request =
    let head : Bytes =
      bytes "HTTP Request:"
      ++ newline
      ++ bytes "  Method:  "
      ++ request.method
      ++ newline
      ++ bytes "  URL:     "
      ++ request.url
      ++ newline
      ++ bytes "  Version: "
      ++ request.version
      ++ newline
      ++ bytes "  Headers:"
      ++ newline in
    foldl demo_print_header head (order request.headers)
    ++ bytes "  Body:"
    ++ newline
    ++ elim request.body [ [] ↦ bytes "    [empty]" ++ newline | b ∷ bs ↦ (b ∷ bs) ++ newline ]

-- CR and LF are written out, since a literal has no escapes for them.
abbrev line_end : Bytes
line_end = 13 ∷ 10 ∷ []

abbrev pub sample : List Bytes
sample =
    bytes "POST /upl"
    ∷ bytes "oad HTTP/1."
    ∷ (bytes "1" ++ line_end ++ bytes "Host: ex")
    ∷ (bytes "ample.com" ++ line_end ++ bytes "Transfer-Encoding: chu")
    ∷ (bytes "nked" ++ line_end ++ line_end ++ bytes "5" ++ line_end ++ bytes "Hello" ++ line_end)
    ∷ (bytes "16" ++ line_end ++ bytes ", world! This is a tes" ++ line_end)
    ∷ (bytes "11"
        ++ line_end
        ++ bytes " t message to sim"
        ++ line_end
        ++ bytes "0"
        ++ line_end
        ++ line_end)
    ∷ []

-- What `main` writes before the loop.
abbrev pub demo_start : Bytes
demo_start = bytes "1" ++ newline ++ bytes "2" ++ newline ++ bytes "3" ++ newline

module _ (ps : Parser) (order : Headers → Headers) where
  -- The loop over the pieces and what follows it: the status that `main` returns, and what it has
  -- written to the standard output, `out` before the loop.
  unfoldable pub demo_run : List Bytes → ps.State → DemoRequest → Bytes → ℕ × Bytes
  demo_run [] st r out = (0, out ++ demo_print order r)
  demo_run (chunk ∷ chunks) st r out =
      let ((calls, err), st') = ps.execute st chunk in
      let out' : Bytes = out ++ demo_written calls r in
      let rest = demo_run chunks st' (demo_calls calls r) out' in
      if err == 0 then rest else (1, out')

  unfoldable pub demo_main : ℕ × Bytes
  demo_main = demo_run sample ps.init empty_request demo_start
