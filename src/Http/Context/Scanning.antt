-- ===== src/Http/Context/Scanning.antt =====
-- The searches for a byte and for the end of a line, over printed text (http/HttpContext.cc).
use mutty.Common.{ℕ, ◌≡◌, refl, ◌≢◌, none, some, List, [], ◌∷◌, ◌++◌, eq→==, ne→==_false}
use mutty.Http.Context.{find_byte, find_crlf}

-- Which byte does not occur.
abbrev pub Lacks : ℕ → List ℕ → Type 0
Lacks c [] = Unit {0}
Lacks c (x ∷ xs) = (x ≢ c) × Lacks c xs

pub find_byte-append :
    (c : ℕ) (xs ys : List ℕ) → Lacks c xs → find_byte c (xs ++ c ∷ ys) ≡ some (xs, ys)
unfolding find_byte
find_byte-append c [] ys h = rw (eq→== c c refl)
find_byte-append c (x ∷ xs) ys h = rw (ne→==_false x c h.0, find_byte-append c xs ys h.1, find_byte)

pub find_byte-Lacks : (c : ℕ) (xs : List ℕ) → Lacks c xs → find_byte c xs ≡ none
unfolding find_byte
find_byte-Lacks c [] h = refl
find_byte-Lacks c (x ∷ xs) h = rw (ne→==_false x c h.0, find_byte-Lacks c xs h.1, find_byte)

pub find_crlf-append :
    (xs ys : List ℕ) → Lacks 13 xs → find_crlf (xs ++ (13 ∷ 10 ∷ ys)) ≡ some (xs, ys)
unfolding find_crlf
find_crlf-append [] ys h = refl
find_crlf-append (x ∷ []) ys h = rw (ne→==_false x 13 h.0) refl
find_crlf-append (x ∷ x' ∷ xs) ys h =
    rw (ne→==_false x 13 h.0, find_crlf-append (x' ∷ xs) ys h.1, find_crlf)

pub Lacks-append : (c : ℕ) (xs ys : List ℕ) → Lacks c xs → Lacks c ys → Lacks c (xs ++ ys)
Lacks-append c [] ys h k = k
Lacks-append c (x ∷ xs) ys h k = (h.0, Lacks-append c xs ys h.1 k)
