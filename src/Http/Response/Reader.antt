-- ===== src/Http/Response/Reader.antt =====
-- A reader of HTTP responses, written from the grammar of RFC 9112 and not from the code: the
-- specification of `serialize`.
use async_event_loop.Base.{
  ℕ, zero, suc, Option, none, some, List, [], ◌∷◌, Bytes, ◌==◌, if◌then◌else◌, length,
}

pub record Reply : Type 0 where
  pub version : Bytes
  pub status_code : Bytes
  pub status_message : Bytes
  pub headers : List (Bytes × Bytes)
  pub body : Bytes

infixl 5 ◌>>=◌
abbrev pub ◌>>=◌ {ℓ κ} : {A : Type ℓ} {B : Type κ} → Option A → (A → Option B) → Option B
none >>= f = none
some a >>= f = f a

-- What stands before the first byte `c`, and what stands after it.
unfoldable pub split_on : ℕ → Bytes → Option (Bytes × Bytes)
split_on c [] = none
split_on c (b ∷ bs) =
    if b == c
    then some ([], bs)
    else elim (split_on c bs) [ none ↦ none | some (front, back) ↦ some (b ∷ front, back) ]

-- The rest after the byte `c`.
unfoldable pub expect : ℕ → Bytes → Option Bytes
expect c [] = none
expect c (b ∷ bs) = if b == c then some bs else none

unfoldable pub expect_all : Bytes → Bytes → Option Bytes
expect_all [] bs = some bs
expect_all (c ∷ cs) bs = expect c bs >>= expect_all cs

-- A line up to its CRLF.
unfoldable pub read_line : Bytes → Option (Bytes × Bytes)
read_line bs = do (line, rest) ← split_on 13 bs; rest' ← expect 10 rest; some (line, rest')

-- `name: value`
unfoldable pub read_field : Bytes → Option (Bytes × Bytes)
read_field line = do (name, rest) ← split_on b':' line; value ← expect b' ' rest; some (name, value)

-- Header lines up to the empty line, with a bound on their number as fuel.
unfoldable pub read_fields : ℕ → Bytes → Option (List (Bytes × Bytes) × Bytes)
read_fields zero bs = none
read_fields (suc fuel) bs = do
  (line, rest) ← read_line bs
  elim line [
    | [] ↦ some ([], rest)
    | c ∷ cs ↦ do
      field ← read_field (c ∷ cs)
      (fields, body) ← read_fields fuel rest
      some (field ∷ fields, body)
  ]

unfoldable pub read_response : Bytes → Option Reply
read_response bs = do
  rest ← expect_all (b'H' ∷ b'T' ∷ b'T' ∷ b'P' ∷ b'/' ∷ []) bs
  (version, rest') ← split_on b' ' rest
  (code, rest'') ← split_on b' ' rest'
  (message, rest''') ← read_line rest''
  (headers, body) ← read_fields (length bs) rest'''
  some (record {
    version = version;
    status_code = code;
    status_message = message;
    headers = headers;
    body = body;
  })
