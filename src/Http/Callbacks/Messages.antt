-- ===== src/Http/Callbacks/Messages.antt =====
-- The request that the callbacks of a whole message leave.
use async_event_loop.Base.{
  ◌≡◌, refl, ap, ◌∙◌, bytes_eq, bytes_eqb, Option, none, some, List, [], ◌∷◌, ◌++◌, Bytes, arith,
  if◌then◌else◌,
}
use async_event_loop.UnorderedMap.{lookups, find, assign}
use async_event_loop.Http.{HttpRequest, Headers, new_request}
use async_event_loop.Http.Callbacks.{
  ParserCall, message_begin, headers_complete, header_value_complete, message_complete, method, url,
  version, header_field, header_value, body, on_call, on_calls,
}
use async_event_loop.Http.Callbacks.Fragments.{Cuts, on_calls-append, on_calls-Cuts}

-- A message, as the parser reads it.
pub record Message : Type 0 where
  pub verb : Bytes
  pub target : Bytes
  pub http_version : Bytes
  pub fields : List (Bytes × Bytes)
  pub payload : Bytes

unfoldable pub field_calls : List (Bytes × Bytes) → List ParserCall
field_calls [] = []
field_calls ((k, v) ∷ fs) = header_field k ∷ header_value v ∷ header_value_complete ∷ field_calls fs

-- The calls that the parser makes for a message whose spans all arrive whole.
unfoldable pub calls_of : Message → List ParserCall
calls_of m =
    message_begin
    ∷ method m.verb
    ∷ url m.target
    ∷ version m.http_version
    ∷ (field_calls m.fields ++ (headers_complete ∷ body m.payload ∷ message_complete ∷ []))

-- The value of the last field of that name.
pub last_value : Bytes → List (Bytes × Bytes) → Option Bytes
last_value k [] = none
last_value k ((j, v) ∷ fs) = elim (last_value k fs) [
  | some w ↦ some w
  | none ↦ if bytes_eqb j k then some v else none
]

store_all : List (Bytes × Bytes) → Headers → Headers
store_all [] hs = hs
store_all ((k, v) ∷ fs) hs = store_all fs (assign k v hs)

find-store_all :
    (k : Bytes) (fs : List (Bytes × Bytes)) (hs : Headers)
    → find k (store_all fs hs) ≡ elim (last_value k fs) [ some w ↦ some w | none ↦ find k hs ]
unfolding store_all last_value
find-store_all k [] hs = refl
find-store_all k ((j, v) ∷ fs) hs = find-store_all k fs (assign j v hs) ∙ grind lookups

field_calls_lem :
    (fs : List (Bytes × Bytes)) (r : HttpRequest)
    → r.key ≡ []
    → r.value ≡ []
    → on_calls (field_calls fs) r
      ≡ record r { key = []; value = []; headers = store_all fs r.headers }
unfolding on_calls on_call field_calls store_all
field_calls_lem [] r ek ev = ground arith
field_calls_lem ((k, v) ∷ fs) r ek ev = field_calls_lem fs _ refl refl ∙ simp (ek, ev)

-- Nothing but the headers of an earlier message is overwritten: the spans of the new message are
-- appended to those that the request holds already.
calls_of_lem :
    (m : Message) (r : HttpRequest)
    → r.key ≡ []
    → r.value ≡ []
    → on_calls (calls_of m) r ≡ record {
      method = r.method ++ m.verb;
      url = r.url ++ m.target;
      version = r.version ++ m.http_version;
      key = [];
      value = [];
      headers = store_all m.fields r.headers;
      body = r.body ++ m.payload;
    }
unfolding on_calls on_call calls_of
calls_of_lem m r ek ev =
    on_calls-append (field_calls m.fields) _ _
    ∙ ap (on_calls (headers_complete ∷ body m.payload ∷ message_complete ∷ []))
        (field_calls_lem m.fields _ ek ev)

-- However a message is cut into pieces, its callbacks turn an empty request into one that holds its
-- method, URL, version and body, under every name the value of the last header of that name, and
-- nothing for the other names; no half-read header is left.
pub message_received :
    (m : Message) (cs : List ParserCall)
    → Cuts (calls_of m) cs
    → let r = on_calls cs new_request in
      (r.method ≡ m.verb)
      × (r.url ≡ m.target)
      × (r.version ≡ m.http_version)
      × (r.body ≡ m.payload)
      × (r.key ≡ [])
      × (r.value ≡ [])
      × ((k : Bytes) → find k r.headers ≡ last_value k m.fields)
unfolding find
message_received m cs p =
    rw (← on_calls-Cuts p new_request, calls_of_lem m new_request refl refl)
      (refl, refl, refl, refl, refl, refl, λ k. find-store_all k m.fields [] ∙ ground arith)

-- No callback resets the request: after two messages on one connection it holds the concatenation of
-- their methods, URLs, versions and bodies, and a header of the first message that the second does
-- not have is still there.
pub second_message_appends :
    (m n : Message)
    → let r = on_calls (calls_of m ++ calls_of n) new_request in
      (r.method ≡ m.verb ++ n.verb)
      × (r.url ≡ m.target ++ n.target)
      × (r.version ≡ m.http_version ++ n.http_version)
      × (r.body ≡ m.payload ++ n.payload)
      × ((k : Bytes)
          → find k r.headers
            ≡ elim (last_value k n.fields) [ some w ↦ some w | none ↦ last_value k m.fields ])
unfolding find
second_message_appends m n =
    rw
      (
        on_calls-append (calls_of m) (calls_of n) new_request,
        calls_of_lem m new_request refl refl,
        calls_of_lem n
            (record {
              method = m.verb;
              url = m.target;
              version = m.http_version;
              key = [];
              value = [];
              headers = store_all m.fields [];
              body = m.payload;
            })
            refl refl,
      )
      (
        refl,
        refl,
        refl,
        refl,
        λ k.
            find-store_all k n.fields (store_all m.fields [])
            ∙ ground (arith, find-store_all k m.fields []),
      )
