-- ===== src/Demo/Agreement.antt =====
-- main.cpp: the demonstration collects what a connection would collect.
use async_event_loop.Base.{
  ◌≡◌, ◌≢◌, refl, sym, ap, ◌∙◌, false, List, [], ◌∷◌, ◌++◌, append-nil, append_assoc, Bytes,
  bytes_eq, arith, ◌==◌,
}
use async_event_loop.UnorderedMap.{find}
use async_event_loop.Http.{Headers, HttpRequest, new_request}
use async_event_loop.Http.Callbacks.{
  ParserCall, message_begin, headers_complete, header_value_complete, message_complete, method, url,
  version, header_field, header_value, body, on_call, on_calls,
}
use async_event_loop.Http.Callbacks.Fragments.{Cuts}
use async_event_loop.Http.Callbacks.Messages.{Message, calls_of, last_value, message_received}
use async_event_loop.Connection.{Parser}
use async_event_loop.Demo.{
  DemoRequest, empty_request, demo_call, demo_calls, demo_writes, demo_written, demo_print,
  demo_print_header, demo_run,
}
use async_event_loop.Application.{print_http_request, print_header}

-- The request as a connection has it, which keeps no buffer.
abbrev pub strip : DemoRequest → HttpRequest
strip r = record {
  method = r.method;
  url = r.url;
  version = r.version;
  key = r.key;
  value = r.value;
  headers = r.headers;
  body = r.body;
}

demo_call-agrees : (c : ParserCall) (r : DemoRequest) → strip (demo_call c r) ≡ on_call c (strip r)
unfolding demo_call on_call
demo_call-agrees message_begin r = refl
demo_call-agrees headers_complete r = refl
demo_call-agrees header_value_complete r = refl
demo_call-agrees message_complete r = refl
demo_call-agrees (method s) r = refl
demo_call-agrees (url s) r = refl
demo_call-agrees (version s) r = refl
demo_call-agrees (header_field s) r = refl
demo_call-agrees (header_value s) r = refl
demo_call-agrees (body s) r = refl

demo_calls-agree :
    (cs : List ParserCall) (r : DemoRequest) → strip (demo_calls cs r) ≡ on_calls cs (strip r)
unfolding demo_calls on_calls
demo_calls-agree [] r = refl
demo_calls-agree (c ∷ cs) r =
    demo_calls-agree cs (demo_call c r) ∙ ap (on_calls cs) (demo_call-agrees c r)

demo_calls-append :
    (cs ds : List ParserCall) (r : DemoRequest)
    → demo_calls (cs ++ ds) r ≡ demo_calls ds (demo_calls cs r)
unfolding demo_calls
demo_calls-append [] ds r = refl
demo_calls-append (c ∷ cs) ds r = demo_calls-append cs ds (demo_call c r)

demo_written-append :
    (cs ds : List ParserCall) (r : DemoRequest)
    → demo_written (cs ++ ds) r ≡ demo_written cs r ++ demo_written ds (demo_calls cs r)
unfolding demo_written demo_calls
demo_written-append [] ds r = refl
demo_written-append (c ∷ cs) ds r =
    ap (λ xs. demo_writes c r ++ xs) (demo_written-append cs ds (demo_call c r))
    ∙ sym (append_assoc (demo_writes c r) (demo_written cs (demo_call c r)) _)

-- Both programs print a request in the same way.
demo_print-agrees :
    (order : Headers → Headers) (r : DemoRequest)
    → demo_print order r ≡ print_http_request order (strip r)
unfolding demo_print demo_print_header print_http_request print_header
demo_print-agrees order r = refl

module _ (ps : Parser) where
  -- The parser goes through the pieces without an error, with these calls in all.
  pub data Parses : ps.State → List Bytes → List ParserCall → ps.State → Type 0 where
    end : {st : ps.State} → Parses st [] [] st
    chunk :
        {st st' st'' : ps.State} {chunks : List Bytes} {more : List ParserCall} (bs : Bytes)
        (calls : List ParserCall)
        → ps.execute st bs ≡ ((calls, 0), st')
        → Parses st' chunks more st''
        → Parses st (bs ∷ chunks) (calls ++ more) st''

module _ (ps : Parser) (order : Headers → Headers) where
  demo_run-Parses :
      {st st' : ps.State} {chunks : List Bytes} {cs : List ParserCall} (after : List Bytes)
      (r : DemoRequest) (out : Bytes)
      → Parses ps st chunks cs st'
      → demo_run ps order (chunks ++ after) st r out
        ≡ demo_run ps order after st' (demo_calls cs r) (out ++ demo_written cs r)
  unfolding demo_run demo_calls demo_written
  demo_run-Parses {st} after r out end = ap (demo_run ps order after st r) (sym (append-nil out))
  demo_run-Parses after r out (chunk {st'} {more} bs calls e rest) =
      rw (e, demo_calls-append calls more r, demo_written-append calls more r)
        (demo_run-Parses after (demo_calls calls r) (out ++ demo_written calls r) rest
          ∙ ap (demo_run ps order after _ _)
              (append_assoc out (demo_written calls r) (demo_written more (demo_calls calls r))))

  -- If the parser finds one message in the pieces and reports no error, the program returns 0, and
  -- behind what its callbacks write it prints what the server would print of the request that a
  -- connection has collected from that message: its method, URL, version, body and headers are those
  -- of the message.
  pub demo_run_prints :
      (m : Message) {cs : List ParserCall} (chunks : List Bytes) {st : ps.State} (out : Bytes)
      → Cuts (calls_of m) cs
      → Parses ps ps.init chunks cs st
      → let request = on_calls cs new_request in
        (demo_run ps order chunks ps.init empty_request out
          ≡ (0, (out ++ demo_written cs empty_request) ++ print_http_request order request))
        × (request.method ≡ m.verb)
        × (request.url ≡ m.target)
        × (request.version ≡ m.http_version)
        × (request.body ≡ m.payload)
        × ((k : Bytes) → find k request.headers ≡ last_value k m.fields)
  unfolding demo_run
  demo_run_prints m {cs} chunks {st} out cuts parses =
      let agree : strip (demo_calls cs empty_request) ≡ on_calls cs new_request =
        demo_calls-agree cs empty_request in
      let (verb, target, vers, payload, _, _, fields) = message_received m cs cuts in
      (
        ap (λ xs. demo_run ps order xs ps.init empty_request out) (sym (append-nil chunks))
            ∙ demo_run-Parses [] empty_request out parses
            ∙ ap (λ xs. (0, (out ++ demo_written cs empty_request) ++ xs))
                (demo_print-agrees order (demo_calls cs empty_request)
                  ∙ ap (print_http_request order) agree),
        verb,
        target,
        vers,
        payload,
        fields,
      )

  -- At the first piece at which the parser reports an error the program returns 1 and prints no
  -- request: it has written what its callbacks write up to that error.
  pub demo_run_rejects :
      (before after : List Bytes) (bs out : Bytes) {cs : List ParserCall} {st : ps.State}
      → Parses ps ps.init before cs st
      → (ps.execute st bs).0.1 ≢ 0
      → demo_run ps order (before ++ (bs ∷ after)) ps.init empty_request out
        ≡ (1, out ++ demo_written (cs ++ (ps.execute st bs).0.0) empty_request)
  unfolding demo_run
  demo_run_rejects before after bs out {cs} {st} parses bad =
      let is_error : ((ps.execute st bs).0.1 == 0) ≡ false = ground arith in
      demo_run-Parses (bs ∷ after) empty_request out parses
      ∙ rw (is_error, demo_written-append cs (ps.execute st bs).0.0 empty_request)
          (ap (λ xs. (1, xs)) (append_assoc out (demo_written cs empty_request) _))
