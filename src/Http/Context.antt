-- ===== src/Http/Context.antt =====
-- http/HttpContext.h and HttpContext.cc over the readable bytes of the input buffer
-- (`findCRLF`, `peek`, `retrieveUntil` of buffer/Buffer.h).
pub mod Termination
pub mod Scanning
pub mod Headers
pub mod RequestLine
pub mod RoundTrip
mod Tests
use mutty.Common.{
  ℕ, zero, suc, ◌+◌, ◌-◌, ◌*◌, ◌/◌, ◌%◌, ◌^◌, ◌≤◌, ◌<◌, min, max, ◌≡◌, refl, sym, ap, ◌∙◌, subst,
  ◌≢◌, ◌⊎◌, inl, inr, Bool, true, false, not, ◌&&◌, ◌||◌, Option, none, some, List, [], ◌∷◌, ◌++◌,
  arith, ltb, leb, ◌==◌, if◌then◌else◌, Bool-cases, Option-cases, eq_of_some, ltb→lt, lt→ltb,
  ltb_false→le, le→ltb_false, leb→le, ==→eq, eq→==, ne→==_false, length, get_elem?, get_or, set,
  take, drop, replicate, length-append, length-set, length-take, length-drop, length-replicate,
  take-append_drop, take-append, drop-append, get_or-set,
}
use mutty.Http.Request.{Version, HttpRequest, no_request, bytes_eq, set_method, add_header}

-- `HttpRequestParseState`
pub data ParseState : Type 0 where
  expect_request_line expect_headers expect_body got_all : ParseState

pub record HttpContext : Type 0 where
  pub state : ParseState
  pub request : HttpRequest

-- `std::find`: what stands before the byte and behind it, or none.
pub find_byte : ℕ → List ℕ → Option (List ℕ × List ℕ)
find_byte c [] = none
find_byte c (x ∷ xs) =
    if x == c
    then some ([], xs)
    else elim (find_byte c xs) [ none ↦ none | some (before, behind) ↦ some (x ∷ before, behind) ]

-- `findCRLF`: what stands before the two bytes and behind them.
pub find_crlf : List ℕ → Option (List ℕ × List ℕ)
find_crlf [] = none
find_crlf (x ∷ []) = none
find_crlf (x ∷ y ∷ xs) = if x == 13 && y == 10 then some ([], xs) else elim (find_crlf (y ∷ xs)) [
  | none ↦ none
  | some (before, behind) ↦ some (x ∷ before, behind)
]

abbrev pub http_1 : List ℕ
http_1 = b'H' ∷ b'T' ∷ b'T' ∷ b'P' ∷ b'/' ∷ b'1' ∷ b'.' ∷ []

-- The version field: eight bytes, "HTTP/1." and a digit.
pub set_version : HttpRequest → List ℕ → HttpRequest × Bool
set_version r v =
    if length v == 8 && bytes_eq (take 7 v) http_1
    then (if get_or v 7 0 == b'1'
        then (record r { version = Version.http11 }, true)
        else (if get_or v 7 0 == b'0'
            then (record r { version = Version.http10 }, true)
            else (r, false)))
    else (r, false)

-- `setPath` and `setQuery`; the query keeps its question mark.
pub set_target : HttpRequest → List ℕ → HttpRequest
set_target r target = elim (find_byte b'?' target) [
  | none ↦ record r { path = target }
  | some (path, query) ↦ record r { path = path; query = b'?' ∷ query }
]

-- What follows the method.
pub process_target : HttpRequest → List ℕ → HttpRequest × Bool
process_target r line = elim (find_byte b' ' line) [
  | none ↦ (r, false)
  | some (target, version) ↦ set_version (set_target r target) version
]

-- `processRequestLine`; `none` is the failed assertion of `setMethod`.
pub process_request_line : HttpRequest → List ℕ → Option (HttpRequest × Bool)
process_request_line r line = elim (find_byte b' ' line) [
  | none ↦ some (r, false)
  | some (method, rest) ↦ elim (set_method r method) [
    | none ↦ none
    | some (r', valid) ↦ some (if valid then process_target r' rest else (r', false))
  ]
]

-- How `parseRequest` ends: with its result, the context and the bytes left; in a failed assertion;
-- or not at all, which `spinning` says of the fuel given.
pub data Outcome : Type 0 where
  parsed : Bool → HttpContext → List ℕ → Outcome
  aborted spinning : Outcome

-- An iteration that ends the loop, or the context and buffer for the next one.
pub data Turn : Type 0 where
  stops : Outcome → Turn
  goes_on : HttpContext → List ℕ → Turn

-- `kExpectRequestLine`: a bad line stays in the buffer, and so does what it has set of the request.
pub request_line_turn : HttpRequest → List ℕ → Turn
request_line_turn r buf = elim (find_crlf buf) [
  | none ↦ stops (parsed true (record { state = expect_request_line; request = r }) buf)
  | some (line, rest) ↦ elim (process_request_line r line) [
    | none ↦ stops aborted
    | some (r', ok) ↦
        if ok
        then goes_on (record { state = expect_headers; request = r' }) rest
        else stops (parsed false (record { state = expect_request_line; request = r' }) buf)
  ]
]

-- `kExpectHeaders`: any line with no colon ends the headers.
pub header_turn : HttpRequest → List ℕ → Turn
header_turn r buf = elim (find_crlf buf) [
  | none ↦ stops (parsed true (record { state = expect_headers; request = r }) buf)
  | some (line, rest) ↦ elim (find_byte b':' line) [
    | none ↦ stops (parsed true (record { state = got_all; request = r }) rest)
    | some (field, value) ↦
        goes_on (record { state = expect_headers; request = add_header r field value }) rest
  ]
]

-- One pass of the loop. Nothing handles `kExpectBody` and `kGotAll`: the loop then never ends.
turn_by_state : ParseState → HttpContext → List ℕ → Turn
turn_by_state expect_request_line c buf = request_line_turn c.request buf
turn_by_state expect_headers c buf = header_turn c.request buf
turn_by_state expect_body c buf = goes_on c buf
turn_by_state got_all c buf = goes_on c buf

-- What a pass leads to, given the loop's next pass.
abbrev pub resume : (HttpContext → List ℕ → Outcome) → Turn → Outcome
resume next (stops o) = o
resume next (goes_on c buf) = next c buf

pub parse_loop : ℕ → HttpContext → List ℕ → Outcome
parse_loop zero c buf = spinning
parse_loop (suc fuel) c buf = resume (parse_loop fuel) (turn_by_state c.state c buf)

-- `parseRequest`; every pass that goes on takes two bytes, so this fuel is enough.
pub parse_request : HttpContext → List ℕ → Outcome
unfolding parse_loop turn_by_state request_line_turn header_turn process_request_line process_target
    set_target set_version find_crlf find_byte set_method add_header
parse_request c buf = parse_loop (length buf + 1) c buf

-- `reset`
pub reset : HttpContext
reset = record { state = expect_request_line; request = no_request }
