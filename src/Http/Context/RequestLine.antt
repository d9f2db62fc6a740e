-- ===== src/Http/Context/RequestLine.antt =====
-- The request line as a client prints it, and how it is read (http/HttpContext.cc).
use mutty.Common.{ℕ, ◌≡◌, refl, Bool, true, false, Option, none, some, List, [], ◌∷◌, ◌++◌, arith}
use mathlib.Core.List.{append-nil}
use mutty.Http.Request.{
  Method, Version, HttpRequest, no_request, method_string, is_invalid, parse_method, set_method,
}
use mutty.Http.Context.{http_1, set_version, set_target, process_target, process_request_line}
use mutty.Http.Context.Scanning.{Lacks, find_byte-append, find_byte-Lacks, Lacks-append}

-- The request target: the path, then the query behind a question mark, if there is one.
abbrev pub query_part : Option (List ℕ) → List ℕ
query_part none = []
query_part (some q) = b'?' ∷ q

abbrev pub IsQuery : Option (List ℕ) → Type 0
IsQuery none = Unit {0}
IsQuery (some q) = Lacks 13 q × Lacks b' ' q

abbrev pub version_digit : Version → ℕ
version_digit Version.http11 = b'1'
version_digit v = b'0'

abbrev pub is_unknown : Version → Bool
is_unknown Version.unknown = true
is_unknown v = false

-- What a client prints of its request, before the headers.
pub print_line : Method → List ℕ → Option (List ℕ) → Version → List ℕ
print_line m path q v =
    method_string m
    ++ (b' ' ∷ ((path ++ query_part q) ++ (b' ' ∷ (http_1 ++ version_digit v ∷ []))))

method-Lacks : (m : Method) → Lacks 13 (method_string m) × Lacks b' ' (method_string m)
method-Lacks Method.invalid = omega arith
method-Lacks Method.get = omega arith
method-Lacks Method.post = omega arith
method-Lacks Method.head = omega arith
method-Lacks Method.put = omega arith
method-Lacks Method.delete = omega arith

set_method-method_string :
    (m : Method)
    → is_invalid m ≡ false
    → set_method no_request (method_string m) ≡ some (record no_request { method = m }, true)
unfolding set_method parse_method
set_method-method_string Method.invalid h = cc
set_method-method_string Method.get h = refl
set_method-method_string Method.post h = refl
set_method-method_string Method.head h = refl
set_method-method_string Method.put h = refl
set_method-method_string Method.delete h = refl

abbrev pub with_target : HttpRequest → List ℕ → Option (List ℕ) → HttpRequest
with_target r path none = record r { path = path }
with_target r path (some q) = record r { path = path; query = b'?' ∷ q }

set_target-print :
    (r : HttpRequest) (path : List ℕ) (q : Option (List ℕ))
    → Lacks b'?' path
    → set_target r (path ++ query_part q) ≡ with_target r path q
unfolding set_target
set_target-print r path none h = rw append-nil (rw (find_byte-Lacks b'?' path h, set_target) refl)
set_target-print r path (some q) h = rw (find_byte-append b'?' path q h, set_target)

set_version-print :
    (r : HttpRequest) (v : Version)
    → is_unknown v ≡ false
    → set_version r (http_1 ++ version_digit v ∷ []) ≡ (record r { version = v }, true)
unfolding set_version
set_version-print r Version.unknown h = cc
set_version-print r Version.http10 h = refl
set_version-print r Version.http11 h = refl

target-Lacks :
    (c : ℕ) (path : List ℕ) (q : Option (List ℕ))
    → Lacks c path
    → Lacks c (query_part q)
    → Lacks c (path ++ query_part q)
target-Lacks c path q h k = Lacks-append c path (query_part q) h k

query_part-Lacks :
    (q : Option (List ℕ)) → IsQuery q → Lacks 13 (query_part q) × Lacks b' ' (query_part q)
query_part-Lacks none h = (tt, tt)
query_part-Lacks (some q) h = ((omega arith, h.0), (omega arith, h.1))

-- The parts that a request line is printed from.
pub record IsLine (m : Method) (path : List ℕ) (q : Option (List ℕ)) (v : Version) : Type 0 where
  pub known : is_invalid m ≡ false
  pub versioned : is_unknown v ≡ false
  pub one_line : Lacks 13 path
  pub no_space : Lacks b' ' path
  pub no_mark : Lacks b'?' path
  pub query_clean : IsQuery q

pub process_request_line-print :
    (m : Method) (path : List ℕ) (q : Option (List ℕ)) (v : Version)
    → IsLine m path q v
    → process_request_line no_request (print_line m path q v)
      ≡ some (record (with_target (record no_request { method = m }) path q) { version = v }, true)
unfolding process_request_line process_target print_line
process_request_line-print m path q v w =
    let version = http_1 ++ version_digit v ∷ [] in
    let target = path ++ query_part q in
    let first =
      find_byte-append b' ' (method_string m) (target ++ (b' ' ∷ version)) (method-Lacks m).1 in
    let clean = target-Lacks b' ' path q w.no_space (query_part-Lacks q w.query_clean).1 in
    let second = find_byte-append b' ' target version clean in
    let r = record no_request { method = m } in
    rw (first, process_request_line)
      (rw (set_method-method_string m w.known, process_request_line)
        (rw (second, process_target)
          (rw
            (
              set_target-print r path q w.no_mark,
              set_version-print (with_target r path q) v w.versioned,
            )
            refl)))

pub line-Lacks :
    (m : Method) (path : List ℕ) (q : Option (List ℕ)) (v : Version)
    → IsLine m path q v
    → Lacks 13 (print_line m path q v)
unfolding print_line
line-Lacks m path q v w =
    let clean = target-Lacks 13 path q w.one_line (query_part-Lacks q w.query_clean).0 in
    Lacks-append 13 (method_string m) _ (method-Lacks m).0
      (omega arith, Lacks-append 13 (path ++ query_part q) _ clean (version-Lacks v))
  where
    version-Lacks : (v : Version) → Lacks 13 (b' ' ∷ (http_1 ++ version_digit v ∷ []))
    version-Lacks Version.http10 = omega arith
    version-Lacks Version.http11 = omega arith
    version-Lacks Version.unknown = omega arith
