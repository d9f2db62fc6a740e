-- ===== src/Http/Context/RoundTrip.antt =====
-- The parser reads back what a client prints (http/HttpContext.cc).
use mutty.Common.{ℕ, ◌<◌, ◌≡◌, refl, true, Option, List, ◌∷◌, ◌++◌, arith, length, length-append}
use native.Mathlib.Numerals.{add-one}
use mutty.Http.Request.{Method, Version, HttpRequest, no_request}
use mutty.Http.Context.{
  ParseState, Outcome, Turn, request_line_turn, turn_by_state, parse_loop, parse_request, reset,
}
use mutty.Http.Context.Scanning.{find_crlf-append}
use mutty.Http.Context.Headers.{print_headers, add_all, AreHeaders, headers_parse, headers-shorter}
use mutty.Http.Context.RequestLine.{
  print_line, with_target, IsLine, process_request_line-print, line-Lacks,
}

-- A request that a client prints line by line, and what follows it in the stream.
pub print_request :
    Method → List ℕ → Option (List ℕ) → Version → List (List ℕ × List ℕ) → List ℕ → List ℕ
print_request m path q v hs rest = print_line m path q v ++ (13 ∷ 10 ∷ print_headers hs rest)

print_request-longer :
    (m : Method) (path : List ℕ) (q : Option (List ℕ)) (v : Version) (hs : List (List ℕ × List ℕ))
    (rest : List ℕ)
    → length hs < length (print_request m path q v hs rest)
unfolding print_request
print_request-longer m path q v hs rest = omega (
  arith,
  length-append (print_line m path q v) (13 ∷ 10 ∷ print_headers hs rest),
  headers-shorter hs rest,
)

request_line_parses :
    (m : Method) (path : List ℕ) (q : Option (List ℕ)) (v : Version) (more : List ℕ)
    → IsLine m path q v
    → request_line_turn no_request (print_line m path q v ++ (13 ∷ 10 ∷ more))
      ≡ Turn.goes_on
          (record {
            state = ParseState.expect_headers;
            request = record (with_target (record no_request { method = m }) path q) {
              version = v;
            };
          })
          more
unfolding request_line_turn
request_line_parses m path q v more w =
    rw (find_crlf-append (print_line m path q v) more (line-Lacks m path q v w), request_line_turn)
      (rw (process_request_line-print m path q v w, request_line_turn) refl)

-- From a first line on, the loop reads the headers.
parse_from :
    (buf : List ℕ) (r : HttpRequest) (hs : List (List ℕ × List ℕ)) (rest : List ℕ)
    → AreHeaders hs
    → request_line_turn no_request buf
      ≡ Turn.goes_on
          (record { state = ParseState.expect_headers; request = r })
          (print_headers hs rest)
    → length hs < length buf
    → parse_request reset buf
      ≡ Outcome.parsed true (record { state = ParseState.got_all; request = add_all r hs }) rest
unfolding parse_request reset
parse_from buf r hs rest a e l =
    rw add-one (unfold parse_loop turn_by_state in rw e (headers_parse (length buf) r hs rest a l))

-- A fresh context reads back a printed request: for a method of the five, a path with no space,
-- question mark or carriage return, a query with no space or carriage return, a known version, and
-- headers that can be printed on a line, the parser succeeds, has the whole request with exactly
-- these parts, and leaves exactly the bytes that follow it in the buffer.
pub parse_request-print_request :
    (m : Method) (path : List ℕ) (q : Option (List ℕ)) (v : Version) (hs : List (List ℕ × List ℕ))
    (rest : List ℕ)
    → IsLine m path q v
    → AreHeaders hs
    → parse_request reset (print_request m path q v hs rest)
      ≡ Outcome.parsed true
          (record {
            state = ParseState.got_all;
            request =
                add_all
                  (record (with_target (record no_request { method = m }) path q) { version = v })
                  hs;
          })
          rest
unfolding print_request
parse_request-print_request m path q v hs rest w a =
    parse_from (print_request m path q v hs rest) _ hs rest a
      (request_line_parses m path q v (print_headers hs rest) w)
      (print_request-longer m path q v hs rest)
