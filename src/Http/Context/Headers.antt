-- ===== src/Http/Context/Headers.antt =====
-- Headers as a client prints them, and how the loop reads them (http/HttpContext.cc).
use mutty.Common.{
  ℕ, zero, suc, ◌+◌, ◌≤◌, ◌<◌, ◌≡◌, refl, true, List, [], ◌∷◌, ◌++◌, arith, length, length-append,
}
use mutty.Http.Request.{HttpRequest, trim_left, trim_right, assign, add_header}
use mutty.Http.Context.{
  ParseState, find_byte, find_crlf, Outcome, Turn, header_turn, turn_by_state, parse_loop,
}
use mutty.Http.Context.Scanning.{Lacks, find_byte-append, find_crlf-append, Lacks-append}

-- A client's print of the headers, the empty line, and what follows.
unfoldable pub print_headers : List (List ℕ × List ℕ) → List ℕ → List ℕ
print_headers [] rest = 13 ∷ 10 ∷ rest
print_headers ((f, v) ∷ hs) rest = (f ++ (b':' ∷ b' ' ∷ v)) ++ (13 ∷ 10 ∷ print_headers hs rest)

abbrev pub add_all : HttpRequest → List (List ℕ × List ℕ) → HttpRequest
add_all r [] = r
add_all r ((f, v) ∷ hs) = add_all (record r { headers = assign f v r.headers }) hs

-- A name with no colon and no line end, and a value with no line end and no space around it.
abbrev pub AreHeaders : List (List ℕ × List ℕ) → Type 0
AreHeaders [] = Unit {0}
AreHeaders ((f, v) ∷ hs) =
    Lacks 13 f × Lacks b':' f × Lacks 13 v × (trim_right (trim_left v) ≡ v) × AreHeaders hs

header_line :
    (r : HttpRequest) (f v more : List ℕ)
    → Lacks 13 f
    → Lacks b':' f
    → Lacks 13 v
    → trim_right (trim_left v) ≡ v
    → header_turn r ((f ++ (b':' ∷ b' ' ∷ v)) ++ (13 ∷ 10 ∷ more))
      ≡ Turn.goes_on
          (record {
            state = ParseState.expect_headers;
            request = record r { headers = assign f v r.headers };
          })
          more
unfolding header_turn add_header
header_line r f v more h k l t =
    let line = f ++ (b':' ∷ b' ' ∷ v) in
    let clean = Lacks-append 13 f (b':' ∷ b' ' ∷ v) h (omega arith, (omega arith, l)) in
    let found = find_crlf-append line more clean in
    let split = find_byte-append b':' f (b' ' ∷ v) k in
    let trimmed : trim_right (trim_left (b' ' ∷ v)) ≡ v = t in
    rw (found, header_turn) (rw (split, header_turn) (rw trimmed refl))

pub headers_parse :
    (fuel : ℕ) (r : HttpRequest) (hs : List (List ℕ × List ℕ)) (rest : List ℕ)
    → AreHeaders hs
    → length hs < fuel
    → parse_loop fuel
        (record { state = ParseState.expect_headers; request = r })
        (print_headers hs rest)
      ≡ Outcome.parsed true (record { state = ParseState.got_all; request = add_all r hs }) rest
unfolding parse_loop print_headers turn_by_state
headers_parse zero r hs rest a l = absurd (omega arith)
headers_parse (suc fuel) r [] rest a l = unfold header_turn find_crlf find_byte in refl
headers_parse (suc fuel) r ((f, v) ∷ hs) rest a l =
    rw (header_line r f v (print_headers hs rest) a.0 a.1 a.2 a.3)
      (headers_parse fuel (record r { headers = assign f v r.headers }) hs rest a.4 (omega arith))

pub headers-shorter :
    (hs : List (List ℕ × List ℕ)) (rest : List ℕ) → length hs + 2 ≤ length (print_headers hs rest)
unfolding print_headers
headers-shorter [] rest = omega arith
headers-shorter ((f, v) ∷ hs) rest = omega (
  arith,
  length-append (f ++ (b':' ∷ b' ' ∷ v)) (13 ∷ 10 ∷ print_headers hs rest),
  headers-shorter hs rest,
)
