-- ===== src/Schema/Allow.antt =====
-- network.allow entries (internal/schema/schema.go): a host with an optional path pattern.
use devm.Base.{
  ℕ, suc, ◌≡◌, refl, ◌≢◌, ◌↔◌, ◌⊎◌, inl, inr, true, false, Option, none, some, List, [], ◌∷◌, ◌++◌,
  map, append-nil, arith, nat_beq, if◌then◌else◌, ◌==◌, nat_beq_iff, nat_eq, bool_eq, pair_eq,
  Bool-cases, Option-cases, take, drop, is_nil, is_nil_iff, take-append, drop-append,
  take-append-drop, All, Bytes, codes, bytes_beq_iff, bytes_eq, index_byte, index_byte-append,
  index_byte-none, contains, has_byte,
}

pub record AllowEntry : Type 0 where
  pub host : Bytes
  pub secrets : List Bytes

unfoldable pub host_part : AllowEntry → Bytes
host_part a = elim (index_byte a.host b'/') [ none ↦ a.host | some i ↦ take i a.host ]

unfoldable pub path_pattern : AllowEntry → Bytes
path_pattern a = elim (index_byte a.host b'/') [ none ↦ [] | some i ↦ drop i a.host ]

-- The error of `Network.validate` names the index of the entry at fault.
pub data AllowError : Type 0 where
  host_required scheme_prefix host_part_empty trailing_slash query_string fragment : ℕ → AllowError

unfoldable pub validate_entry : ℕ → AllowEntry → Option AllowError
validate_entry i e =
    if is_nil e.host
    then some (host_required i)
    else if contains e.host (codes "://")
    then some (scheme_prefix i)
    else if is_nil (host_part e)
    then some (host_part_empty i)
    else if is_nil (path_pattern e)
    then none
    else if path_pattern e == codes "/"
    then some (trailing_slash i)
    else if has_byte (path_pattern e) b'?'
    then some (query_string i)
    else if has_byte (path_pattern e) b'#'
    then some (fragment i)
    else none

-- The loop of `Network.validate` from entry `i` on.
unfoldable pub validate_from : ℕ → List AllowEntry → Option AllowError
validate_from i [] = none
validate_from i (e ∷ es) = elim (validate_entry i e) [
  | none ↦ validate_from (suc i) es
  | some x ↦ some x
]

unfoldable pub validate : List AllowEntry → Option AllowError
validate allow = validate_from 0 allow

unfoldable pub domains : List AllowEntry → List Bytes
domains allow = map (λ e. e.host) allow

take-index_byte : (s : Bytes) (d i : ℕ) → index_byte s d ≡ some i → has_byte (take i s) d ≡ false
take-index_byte [] d i h = cc
take-index_byte (c ∷ s) d i h = elim (Bool-cases (nat_beq c d)) [
  | inl e ↦ ground arith
  | inr e ↦ elim (Option-cases (index_byte s d)) [
    | inl n ↦ ground arith
    | inr (j, f) ↦ ground (arith, take-index_byte s d j f)
  ]
]

drop-index_byte : (s : Bytes) (d i : ℕ) → index_byte s d ≡ some i → (r : Bytes) × (drop i s ≡ d ∷ r)
drop-index_byte [] d i h = cc
drop-index_byte (c ∷ s) d i h = elim (Bool-cases (nat_beq c d)) [
  | inl e ↦ (s, ground (arith, nat_beq_iff c d))
  | inr e ↦ elim (Option-cases (index_byte s d)) [
    | inl n ↦ ground arith
    | inr (j, f) ↦ let (r, g) = drop-index_byte s d j f in (r, ground arith)
  ]
]

no_index_byte : (s : Bytes) (d : ℕ) → index_byte s d ≡ none → has_byte s d ≡ false
no_index_byte [] d h = refl
no_index_byte (c ∷ s) d h = elim (Option-cases (index_byte s d)) [
  | inl n ↦ ground (arith, no_index_byte s d n)
  | inr (j, f) ↦ ground arith
]

-- A host and its path pattern are the written entry, cut before its first slash: the host has no
-- slash, and the pattern is empty or begins with one.
pub host_part-path_pattern :
    (a : AllowEntry)
    → (host_part a ++ path_pattern a ≡ a.host)
      × (has_byte (host_part a) b'/' ≡ false)
      × ((path_pattern a ≡ []) ⊎ ((r : Bytes) × (path_pattern a ≡ b'/' ∷ r)))
unfolding host_part path_pattern
host_part-path_pattern a = elim (Option-cases (index_byte a.host b'/')) [
  | inl n ↦
      rw (n, host_part, path_pattern) (append-nil a.host, no_index_byte a.host b'/' n, inl refl)
  | inr (i, f) ↦
      rw (f, host_part, path_pattern)
        (
          take-append-drop i a.host,
          take-index_byte a.host b'/' i f,
          inr (drop-index_byte a.host b'/' i f),
        )
]

-- What `Network.validate` promises of an entry: the host is there, and a path pattern is more
-- than a slash and holds no query and no fragment.
pub record IsUsable (e : AllowEntry) : Type 0 where
  pub has_host : host_part e ≢ []
  pub no_scheme : contains e.host (codes "://") ≡ false
  pub not_bare : path_pattern e ≢ codes "/"
  pub no_query : has_byte (path_pattern e) b'?' ≡ false
  pub no_fragment : has_byte (path_pattern e) b'#' ≡ false

host_part-nil : (e : AllowEntry) → is_nil e.host ≡ true → is_nil (host_part e) ≡ true
unfolding host_part
host_part-nil e h = host_part_nil e.host h
  where
    host_part_nil :
        (s : Bytes)
        → is_nil s ≡ true
        → is_nil (elim (index_byte s b'/') [ none ↦ s | some i ↦ take i s ]) ≡ true
    host_part_nil [] h = refl
    host_part_nil (c ∷ s) h = cc

validate_entry_iff : (i : ℕ) (e : AllowEntry) → (validate_entry i e ≡ none) ↔ IsUsable e
unfolding validate_entry
validate_entry_iff i e = ground (
  arith,
  host_part-nil e,
  is_nil_iff (host_part e),
  is_nil_iff (path_pattern e),
  bytes_beq_iff (path_pattern e) (codes "/"),
)

validate_from_iff :
    (i : ℕ) (allow : List AllowEntry) → (validate_from i allow ≡ none) ↔ All IsUsable allow
unfolding validate_from
validate_from_iff i [] = ground arith
validate_from_iff i (e ∷ es) = ground (arith, validate_entry_iff i e, validate_from_iff (suc i) es)

-- `Network.validate` accepts exactly the lists whose entries are all usable.
pub validate_iff : (allow : List AllowEntry) → (validate allow ≡ none) ↔ All IsUsable allow
unfolding validate
validate_iff allow = validate_from_iff 0 allow

-- An entry written as a host with no slash and a path pattern is read back as these two.
pub host_part_written :
    (h p : Bytes) (secrets : List Bytes)
    → has_byte h b'/' ≡ false
    → (host_part (record { host = h ++ b'/' ∷ p; secrets = secrets }) ≡ h)
      × (path_pattern (record { host = h ++ b'/' ∷ p; secrets = secrets }) ≡ b'/' ∷ p)
unfolding host_part path_pattern
host_part_written h p secrets e =
    rw (index_byte-append h p b'/' e, host_part, path_pattern)
      (take-append h (b'/' ∷ p), drop-append h (b'/' ∷ p))

pub host_part_bare :
    (h : Bytes) (secrets : List Bytes)
    → has_byte h b'/' ≡ false
    → (host_part (record { host = h; secrets = secrets }) ≡ h)
      × (path_pattern (record { host = h; secrets = secrets }) ≡ [])
unfolding host_part path_pattern
host_part_bare h secrets e = rw (index_byte-none h b'/' e, host_part, path_pattern) (refl, refl)
