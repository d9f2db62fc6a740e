-- ===== src/Http/Request.antt =====
-- http/HttpRequest.h. A string is its bytes; a range of pointers is the bytes in it.
use mutty.Common.{
  ℕ, Bool, true, false, not, ◌&&◌, ◌||◌, Option, none, some, List, [], ◌∷◌, leb, ◌==◌,
  if◌then◌else◌,
}

pub data Method : Type 0 where
  invalid get post head put delete : Method

pub data Version : Type 0 where
  unknown http10 http11 : Version

pub record HttpRequest : Type 0 where
  pub method : Method
  pub version : Version
  pub path : List ℕ
  pub query : List ℕ
  pub headers : List (List ℕ × List ℕ)

abbrev pub no_request : HttpRequest
no_request = record {
  method = Method.invalid;
  version = Version.unknown;
  path = [];
  query = [];
  headers = [];
}

abbrev pub bytes_eq : List ℕ → List ℕ → Bool
bytes_eq [] [] = true
bytes_eq [] (y ∷ ys) = false
bytes_eq (x ∷ xs) [] = false
bytes_eq (x ∷ xs) (y ∷ ys) = x == y && bytes_eq xs ys

abbrev pub is_invalid : Method → Bool
is_invalid Method.invalid = true
is_invalid _ = false

-- `methodString`
abbrev pub method_string : Method → List ℕ
method_string Method.invalid = b'U' ∷ b'N' ∷ b'K' ∷ b'N' ∷ b'O' ∷ b'W' ∷ b'N' ∷ []
method_string Method.get = b'G' ∷ b'E' ∷ b'T' ∷ []
method_string Method.post = b'P' ∷ b'O' ∷ b'S' ∷ b'T' ∷ []
method_string Method.head = b'H' ∷ b'E' ∷ b'A' ∷ b'D' ∷ []
method_string Method.put = b'P' ∷ b'U' ∷ b'T' ∷ []
method_string Method.delete = b'D' ∷ b'E' ∷ b'L' ∷ b'E' ∷ b'T' ∷ b'E' ∷ []

-- The ladder of comparisons in `setMethod`.
unfoldable pub parse_method : List ℕ → Method
parse_method m =
    if bytes_eq m (method_string Method.get)
    then Method.get
    else (if bytes_eq m (method_string Method.post)
        then Method.post
        else (if bytes_eq m (method_string Method.head)
            then Method.head
            else (if bytes_eq m (method_string Method.put)
                then Method.put
                else (if bytes_eq m (method_string Method.delete)
                    then Method.delete
                    else Method.invalid))))

-- `none` is the failed assertion that no method is set yet; the flag is the result.
unfoldable pub set_method : HttpRequest → List ℕ → Option (HttpRequest × Bool)
unfolding parse_method
set_method r m =
    if is_invalid r.method
    then some (record r { method = parse_method m }, not (is_invalid (parse_method m)))
    else none

-- `isspace` in the C locale
abbrev pub is_space : ℕ → Bool
is_space c = c == 32 || (leb 9 c && leb c 13)

unfoldable pub trim_left : List ℕ → List ℕ
trim_left [] = []
trim_left (c ∷ cs) = let rest = trim_left cs in if is_space c then rest else c ∷ cs

-- A list that is not empty keeps its head if the head is not a space.
keep_unless_blank : ℕ → List ℕ → List ℕ
keep_unless_blank c [] = if is_space c then [] else c ∷ []
keep_unless_blank c (d ∷ ds) = c ∷ d ∷ ds

-- The loop that drops the last byte while it is a space.
unfoldable pub trim_right : List ℕ → List ℕ
unfolding keep_unless_blank
trim_right [] = []
trim_right (c ∷ cs) = keep_unless_blank c (trim_right cs)

-- `headers_[field] = value`
unfoldable pub assign : List ℕ → List ℕ → List (List ℕ × List ℕ) → List (List ℕ × List ℕ)
assign field value [] = (field, value) ∷ []
assign field value ((f, v) ∷ hs) =
    if bytes_eq f field then (field, value) ∷ hs else (f, v) ∷ assign field value hs

-- `getHeader`: the empty string if there is no such header.
pub get_header : List ℕ → List (List ℕ × List ℕ) → List ℕ
get_header field [] = []
get_header field ((f, v) ∷ hs) = if bytes_eq f field then v else get_header field hs

-- `addHeader`, given what stands before and behind the colon.
unfoldable pub add_header : HttpRequest → List ℕ → List ℕ → HttpRequest
unfolding assign trim_left trim_right
add_header r field value = record r {
  headers = assign field (trim_right (trim_left value)) r.headers;
}
