-- ===== src/Http/Response/Roundtrip.antt =====
-- A client that reads what `serialize` wrote gets the response back.
use async_event_loop.Base.{
  ℕ, zero, suc, ◌<◌, ◌≤◌, ◌≡◌, ◌≢◌, refl, ◌∙◌, some, List, [], ◌∷◌, ◌++◌, foldl, append_assoc,
  arith, Bytes, length, length-append, All, All-prop, All-append,
}
use async_event_loop.Http.{Headers, HttpResponse}
use async_event_loop.Http.Response.{crlf, append_header, response_bytes}
use async_event_loop.Http.Response.Reader.{
  split_on, expect, expect_all, read_line, read_field, read_fields, read_response,
}

-- The byte `c` does not occur.
abbrev pub Without : ℕ → Bytes → Type 0
Without c = All (λ b. b ≢ c)

split_on-append :
    (c : ℕ) (front back : Bytes)
    → Without c front
    → split_on c (front ++ (c ∷ back)) ≡ some (front, back)
unfolding split_on
split_on-append c [] back w = ground arith
split_on-append c (b ∷ front) back w = ground (arith, split_on-append c front back w.1)

read_line-append :
    (line rest : Bytes) → Without 13 line → read_line (line ++ (crlf ++ rest)) ≡ some (line, rest)
unfolding read_line expect
read_line-append line rest w = rw (split_on-append 13 line (10 ∷ rest) w)

abbrev field_line : Bytes × Bytes → Bytes
field_line (name, value) = name ++ (b':' ∷ b' ' ∷ value)

read_field_lem :
    (name value : Bytes)
    → Without b':' name
    → read_field (field_line (name, value)) ≡ some (name, value)
unfolding read_field expect
read_field_lem name value w = rw (split_on-append b':' name (b' ' ∷ value) w)

-- The header lines from left to right.
field_lines : List (Bytes × Bytes) → Bytes → Bytes
field_lines [] rest = rest
field_lines (f ∷ fs) rest = field_line f ++ (crlf ++ field_lines fs rest)

foldl-append_header :
    (fs : List (Bytes × Bytes)) (buffer rest : Bytes)
    → foldl append_header buffer fs ++ rest ≡ buffer ++ field_lines fs rest
unfolding append_header field_lines
foldl-append_header [] buffer rest = refl
foldl-append_header ((name, value) ∷ fs) buffer rest =
    foldl-append_header fs _ rest ∙ simp append_assoc

-- A name has no colon, and neither a name nor a value has a carriage return.
abbrev pub IsField : Bytes × Bytes → Type 0
IsField (name, value) = Without b':' name × Without 13 name × Without 13 value

Without-append : (c : ℕ) (xs ys : Bytes) → Without c xs → Without c ys → Without c (xs ++ ys)
Without-append c = All-append (λ b. b ≢ c)

field_line-Without : (f : Bytes × Bytes) → IsField f → Without 13 (field_line f)
field_line-Without (name, value) (_, w, v) =
    Without-append 13 name (b':' ∷ b' ' ∷ value) w (omega arith, (omega arith, v))

-- One header line, in front of lines that are read already.
read_fields-cons :
    (f : Bytes × Bytes) (fs : List (Bytes × Bytes)) (lines body : Bytes) (fuel : ℕ)
    → IsField f
    → read_fields fuel lines ≡ some (fs, body)
    → read_fields (suc fuel) (field_line f ++ (crlf ++ lines)) ≡ some (f ∷ fs, body)
unfolding read_fields
read_fields-cons ([], value) fs lines body fuel w e = rw (
  read_line-append (field_line ([], value)) lines (field_line-Without ([], value) w),
  read_field_lem [] value w.0,
  e,
)
read_fields-cons (n ∷ name, value) fs lines body fuel w e = rw (
  read_line-append (field_line (n ∷ name, value)) lines (field_line-Without (n ∷ name, value) w),
  read_field_lem (n ∷ name) value w.0,
  e,
)

read_fields-field_lines :
    (fs : List (Bytes × Bytes)) (rest : Bytes) (fuel : ℕ)
    → All IsField fs
    → length fs < fuel
    → read_fields fuel (field_lines fs (crlf ++ rest)) ≡ some (fs, rest)
unfolding field_lines
read_fields-field_lines fs rest zero w h = elim h [ ]
read_fields-field_lines [] rest (suc fuel) w h =
    unfold read_fields in rw (read_line-append [] rest tt)
read_fields-field_lines (f ∷ fs) rest (suc fuel) (w, ws) h =
    read_fields-cons f fs _ rest fuel w (read_fields-field_lines fs rest fuel ws (omega arith))

length-field_lines :
    (fs : List (Bytes × Bytes)) (rest : Bytes) → length fs ≤ length (field_lines fs rest)
unfolding field_lines
length-field_lines [] rest = omega arith
length-field_lines ((name, value) ∷ fs) rest = omega (
  arith,
  length-field_lines fs rest,
  length-append (field_line (name, value)) (crlf ++ field_lines fs rest),
  length-append name (b':' ∷ b' ' ∷ value),
)

-- What the parts of a response must avoid for the format to be unambiguous.
pub record IsPrintable (response : HttpResponse) (headers : Headers) : Type 0 where
  pub version_word : Without b' ' response.version
  pub code_word : Without b' ' response.status_code
  pub message_line : Without 13 response.status_message
  pub fields : All IsField headers

-- `serialize` in the order of the reader.
response_lem :
    (order : Headers → Headers) (response : HttpResponse)
    → response_bytes order response
      ≡ b'H'
        ∷ b'T'
        ∷ b'T'
        ∷ b'P'
        ∷ b'/'
        ∷ (response.version
            ++ (b' '
                ∷ (response.status_code
                    ++ (b' '
                        ∷ (response.status_message
                            ++ (crlf
                                ++ field_lines
                                    (order response.headers)
                                    (crlf ++ response.body)))))))
unfolding response_bytes
response_lem order response =
    append_assoc _ crlf response.body
    ∙ foldl-append_header (order response.headers) _ (crlf ++ response.body)
    ∙ simp append_assoc

-- A response whose version and status code have no space, whose message has no carriage return and
-- whose headers are fit for header lines is read back whole from the bytes that `serialize` writes:
-- the headers in the order of the hash map, whatever that is, and any body.
pub read_response-response_bytes :
    (order : Headers → Headers) (response : HttpResponse)
    → IsPrintable response (order response.headers)
    → read_response (response_bytes order response)
      ≡ some (record {
        version = response.version;
        status_code = response.status_code;
        status_message = response.status_message;
        headers = order response.headers;
        body = response.body;
      })
unfolding read_response expect_all expect
read_response-response_bytes order response p = rw (
  response_lem order response,
  split_on-append b' ' response.version _ p.version_word,
  split_on-append b' ' response.status_code _ p.code_word,
  read_line-append response.status_message _ p.message_line,
  read_fields-field_lines (order response.headers) response.body _ p.fields enough,
)
  where
    enough :
        length (order response.headers)
        < length (
            b'H'
            ∷ b'T'
            ∷ b'T'
            ∷ b'P'
            ∷ b'/'
            ∷ (response.version
                ++ (b' '
                    ∷ (response.status_code
                        ++ (b' '
                            ∷ (response.status_message
                                ++ (crlf
                                    ++ field_lines
                                        (order response.headers)
                                        (crlf ++ response.body))))))))
    enough = omega (
      arith,
      length-append {0},
      length-field_lines (order response.headers) (crlf ++ response.body),
    )

Without-prop : (c : ℕ) (xs : Bytes) → IsProp (Without c xs)
Without-prop c xs = All-prop (λ b. b ≢ c) (λ b. hlevel) xs

pub IsField-prop : (f : Bytes × Bytes) → IsProp (IsField f)
IsField-prop (name, value) = hlevel Without-prop
