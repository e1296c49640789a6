-- ===== src/Http/Callbacks/Fragments.antt =====
-- The request does not depend on how the bytes of a message arrive.
use async_event_loop.Base.{◌≡◌, refl, ap, ◌∙◌, List, [], ◌∷◌, ◌++◌, Bytes, append_assoc}
use async_event_loop.Http.{HttpRequest}
use async_event_loop.Http.Callbacks.{
  ParserCall, method, url, version, header_field, header_value, body, on_call, on_calls,
}

pub on_calls-append :
    (xs ys : List ParserCall) (r : HttpRequest)
    → on_calls (xs ++ ys) r ≡ on_calls ys (on_calls xs r)
unfolding on_calls
on_calls-append [] ys r = refl
on_calls-append (x ∷ xs) ys r = on_calls-append xs ys (on_call x r)

-- The callback that takes a span: each of these is a `ParserCall` once it has one.
pub data SpanKind : Type 0 where
  in_method in_url in_version in_header_field in_header_value in_body : SpanKind

abbrev pub span_call : SpanKind → Bytes → ParserCall
span_call in_method = method
span_call in_url = url
span_call in_version = version
span_call in_header_field = header_field
span_call in_header_value = header_value
span_call in_body = body

-- One list of calls comes from another by cutting spans in two.
pub data Cuts : List ParserCall → List ParserCall → Type 0 where
  done : Cuts [] []
  keep : (c : ParserCall) {cs ds : List ParserCall} → Cuts cs ds → Cuts (c ∷ cs) (c ∷ ds)
  cut :
      (kind : SpanKind) (front back : Bytes) {cs ds : List ParserCall}
      → Cuts (span_call kind back ∷ cs) ds
      → Cuts (span_call kind (front ++ back) ∷ cs) (span_call kind front ∷ ds)

on_call-cut :
    (kind : SpanKind) (front back : Bytes) (r : HttpRequest)
    → on_call (span_call kind (front ++ back)) r
      ≡ on_call (span_call kind back) (on_call (span_call kind front) r)
unfolding on_call
on_call-cut in_method front back r = rw (append_assoc r.method front back)
on_call-cut in_url front back r = rw (append_assoc r.url front back)
on_call-cut in_version front back r = rw (append_assoc r.version front back)
on_call-cut in_header_field front back r = rw (append_assoc r.key front back)
on_call-cut in_header_value front back r = rw (append_assoc r.value front back)
on_call-cut in_body front back r = rw (append_assoc r.body front back)

-- However the spans of a message are cut into pieces, the calls leave the same request.
pub on_calls-Cuts :
    {cs ds : List ParserCall} → Cuts cs ds → (r : HttpRequest) → on_calls cs r ≡ on_calls ds r
unfolding on_calls
on_calls-Cuts done r = refl
on_calls-Cuts (keep c p) r = on_calls-Cuts p (on_call c r)
on_calls-Cuts (cut kind front back {cs} {ds} p) r =
    ap (on_calls cs) (on_call-cut kind front back r)
    ∙ on_calls-Cuts p (on_call (span_call kind front) r)
