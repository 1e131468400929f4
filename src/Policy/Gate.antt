-- ===== src/Policy/Gate.antt =====
-- The gate of internal/serviceapi/policyauthority.go on secrets in request paths: a token
-- `__DEVM_SECRET_<name>__` whose stored value has a slash. The secret store is an interface of the
-- program (internal/secret), so it is a record here.
pub mod First
pub mod Safe
use devm.Base.{
  ℕ, Bool, false, ◌||◌, not, Option, none, some, List, [], ◌∷◌, ◌++◌, ltb, if◌then◌else◌, nat_eq,
  bool_eq, pair_eq, is_nil, Bytes, codes, bytes_eq, index, contains, has_byte,
}

-- `secret.Backend`: what List and Get return, with `failed` for an error other than ErrNotFound.
pub data GetResult : Type 0 where
  found : Bytes → GetResult
  not_found failed : GetResult

pub record Backend : Type 0 where
  pub names : Bytes → Option (List Bytes)
  pub get : Bytes → GetResult

abbrev pub token_prefix : Bytes
token_prefix = codes "__DEVM_SECRET_"

abbrev pub token_suffix : Bytes
token_suffix = codes "__"

unfoldable pub token_of : Bytes → Bytes
token_of name = token_prefix ++ (name ++ token_suffix)

has_slash : GetResult → Bool
has_slash (found v) = has_byte v b'/'
has_slash not_found = false
has_slash failed = false

-- Where the token of a name whose value is unsafe stands in the path, as one round of the loop
-- finds it.
unfoldable pub offence : Backend → Bytes → Bytes → Bytes → Option ℕ
unfolding has_slash
offence be project path n = elim (index path (token_of n)) [
  | none ↦ none
  | some pos ↦ if has_slash (be.get (project ++ b'/' ∷ n)) then some pos else none
]

-- The best so far, `(bestPos, bestName)`.
abbrev pub Best : Type 0
Best = Option (ℕ × Bytes)

better : Option ℕ → Bytes → Best → Best
better none n best = best
better (some pos) n none = some (pos, n)
better (some pos) n (some (p, m)) = if ltb pos p then some (pos, n) else some (p, m)

unfoldable pub scan_names : Backend → Bytes → Bytes → List Bytes → Best → Best
unfolding better
scan_names be project path [] best = best
scan_names be project path (n ∷ ns) best =
    scan_names be project path ns (better (offence be project path n) n best)

-- `secretGateReject`; `none` lets the request through.
unfoldable pub gate_reject : Option Backend → Bytes → Bytes → Option Bytes
gate_reject backend project path =
    if is_nil path || not (contains path token_prefix) then none else elim backend [
      | none ↦ none
      | some be ↦ elim (be.names project) [
        | none ↦ none
        | some ns ↦ elim (scan_names be project path ns none) [ none ↦ none | some (p, n) ↦ some n ]
      ]
    ]
