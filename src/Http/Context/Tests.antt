-- ===== src/Http/Context/Tests.antt =====
-- The parser on concrete requests.
use mutty.Common.{ℕ, ◌≡◌, refl, ◌≢◌, true, some, List, [], ◌∷◌, arith}
use mutty.Http.Request.{Method, Version, no_request, trim_left, trim_right}
use mutty.Http.Context.{ParseState, HttpContext, Outcome, parse_request, reset}
use mutty.Http.Context.Headers.{AreHeaders, add_all}
use mutty.Http.Context.RequestLine.{IsLine}
use mutty.Http.Context.RoundTrip.{print_request, parse_request-print_request}
use mutty.Http.Context.Termination.{parse_request-ends}

-- "GET /a?b HTTP/1.1", with "Host: x" and "Host: y" (the second value replaces the first).
abbrev two_hosts : List (List ℕ × List ℕ)
two_hosts =
    (b'H' ∷ b'o' ∷ b's' ∷ b't' ∷ [], b'x' ∷ []) ∷ (b'H' ∷ b'o' ∷ b's' ∷ b't' ∷ [], b'y' ∷ []) ∷ []

two_hosts-AreHeaders : AreHeaders two_hosts
unfolding trim_right trim_left
two_hosts-AreHeaders =
    (omega arith, omega arith, omega arith, refl, (omega arith, omega arith, omega arith, refl, tt))

sample-IsLine : IsLine Method.get (b'/' ∷ b'a' ∷ []) (some (b'b' ∷ [])) Version.http11
sample-IsLine = record {
  known = refl;
  versioned = refl;
  one_line = omega arith;
  no_space = omega arith;
  no_mark = omega arith;
  query_clean = omega arith;
}

parse_request-print_request_example :
    parse_request reset (
      print_request Method.get
        (b'/' ∷ b'a' ∷ [])
        (some (b'b' ∷ []))
        Version.http11
        two_hosts
        (b'z' ∷ []))
    ≡ Outcome.parsed true
        (record {
          state = ParseState.got_all;
          request =
              add_all
                (record no_request {
                  method = Method.get;
                  version = Version.http11;
                  path = b'/' ∷ b'a' ∷ [];
                  query = b'?' ∷ b'b' ∷ [];
                })
                two_hosts;
        })
        (b'z' ∷ [])
parse_request-print_request_example =
    parse_request-print_request Method.get (b'/' ∷ b'a' ∷ []) (some (b'b' ∷ [])) Version.http11
      two_hosts (b'z' ∷ []) sample-IsLine two_hosts-AreHeaders

-- A buffer that holds no line end.
abbrev at_headers : HttpContext
at_headers = record { state = ParseState.expect_headers; request = no_request }

parse_request-ends_example :
    parse_request at_headers (b'a' ∷ b':' ∷ 13 ∷ 10 ∷ b'c' ∷ []) ≢ Outcome.spinning
parse_request-ends_example = parse_request-ends at_headers (b'a' ∷ b':' ∷ 13 ∷ 10 ∷ b'c' ∷ []) refl
