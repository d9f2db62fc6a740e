-- ===== src/Http/Context/Termination.antt =====
-- The parser's loop ends (http/HttpContext.cc).
use mutty.Common.{
  ℕ, zero, suc, ◌+◌, ◌<◌, ◌≡◌, refl, ◌≢◌, inl, inr, Bool, true, false, some, List, [], ◌∷◌, arith,
  Option-cases, length,
}
use mutty.Http.Request.{HttpRequest}
use mutty.Http.Context.{
  ParseState, HttpContext, find_byte, find_crlf, process_request_line, Outcome, Turn,
  request_line_turn, header_turn, turn_by_state, resume, parse_loop, parse_request,
}

find_crlf-shorter :
    (buf line rest : List ℕ) → find_crlf buf ≡ some (line, rest) → length rest < length buf
unfolding find_crlf
find_crlf-shorter [] line rest h = absurd (ground arith)
find_crlf-shorter (x ∷ []) line rest h = absurd (ground arith)
find_crlf-shorter (x ∷ y ∷ buf) line rest h = elim (Option-cases (find_crlf (y ∷ buf))) [
  | inl e ↦ ground (arith, e)
  | inr ((b, r), e) ↦ ground (arith, e, find_crlf-shorter (y ∷ buf) b r e)
]

-- A state that the loop handles.
abbrev pub takes_lines : ParseState → Bool
takes_lines ParseState.expect_request_line = true
takes_lines ParseState.expect_headers = true
takes_lines _ = false

-- A pass that goes on has taken bytes, and the next one takes a line too.
abbrev Advances : ℕ → Turn → Type 0
Advances n (Turn.stops (Outcome.parsed b c buf)) = Unit {0}
Advances n (Turn.stops Outcome.aborted) = Unit {0}
Advances n (Turn.stops Outcome.spinning) = ⊥
Advances n (Turn.goes_on c buf) = (length buf < n) × (takes_lines c.state ≡ true)

request_line_turn-Advances :
    (r : HttpRequest) (buf : List ℕ) → Advances (length buf) (request_line_turn r buf)
unfolding request_line_turn
request_line_turn-Advances r buf = elim (Option-cases (find_crlf buf)) [
  | inl e ↦ rw (e, request_line_turn) tt
  | inr ((line, rest), e) ↦ elim (Option-cases (process_request_line r line)) [
    | inl k ↦ rw (e, request_line_turn) (rw (k, request_line_turn) tt)
    | inr ((r', true), k) ↦
        rw (e, request_line_turn)
          (rw (k, request_line_turn) (find_crlf-shorter buf line rest e, refl))
    | inr ((r', false), k) ↦ rw (e, request_line_turn) (rw (k, request_line_turn) tt)
  ]
]

header_turn-Advances : (r : HttpRequest) (buf : List ℕ) → Advances (length buf) (header_turn r buf)
unfolding header_turn
header_turn-Advances r buf = elim (Option-cases (find_crlf buf)) [
  | inl e ↦ rw (e, header_turn) tt
  | inr ((line, rest), e) ↦ elim (Option-cases (find_byte b':' line)) [
    | inl k ↦ rw (e, header_turn) (rw (k, header_turn) tt)
    | inr ((field, value), k) ↦
        rw (e, header_turn) (rw (k, header_turn) (find_crlf-shorter buf line rest e, refl))
  ]
]

turn-Advances :
    (s : ParseState) (c : HttpContext) (buf : List ℕ)
    → takes_lines s ≡ true
    → Advances (length buf) (turn_by_state s c buf)
unfolding turn_by_state
turn-Advances ParseState.expect_request_line c buf h = request_line_turn-Advances c.request buf
turn-Advances ParseState.expect_headers c buf h = header_turn-Advances c.request buf
turn-Advances ParseState.expect_body c buf h = cc
turn-Advances ParseState.got_all c buf h = cc

resume-ends :
    (n : ℕ) (next : HttpContext → List ℕ → Outcome) (t : Turn)
    → Advances n t
    → ((c : HttpContext) (buf : List ℕ)
        → takes_lines c.state ≡ true
        → length buf < n
        → next c buf ≢ Outcome.spinning)
    → resume next t ≢ Outcome.spinning
resume-ends n next (Turn.stops (Outcome.parsed b c buf)) a k = λ e. cc
resume-ends n next (Turn.stops Outcome.aborted) a k = λ e. cc
resume-ends n next (Turn.stops Outcome.spinning) a k = absurd a
resume-ends n next (Turn.goes_on c buf) a k = k c buf a.1 a.0

parse_loop-ends :
    (fuel : ℕ) (c : HttpContext) (buf : List ℕ)
    → takes_lines c.state ≡ true
    → length buf < fuel
    → parse_loop fuel c buf ≢ Outcome.spinning
unfolding parse_loop
parse_loop-ends zero c buf h l = absurd (omega arith)
parse_loop-ends (suc fuel) c buf h l =
    resume-ends (length buf) (parse_loop fuel) _ (turn-Advances c.state c buf h)
      (λ c' buf' h' l'. parse_loop-ends fuel c' buf' h' (omega arith))

-- `parseRequest` ends for every input from the states that the program reaches at its call, the
-- request line's and the headers'.
pub parse_request-ends :
    (c : HttpContext) (buf : List ℕ)
    → takes_lines c.state ≡ true
    → parse_request c buf ≢ Outcome.spinning
unfolding parse_request
parse_request-ends c buf h = parse_loop-ends (length buf + 1) c buf h (omega arith)
