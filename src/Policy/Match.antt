-- ===== src/Policy/Match.antt =====
-- internal/policymatch/policymatch.go: is a request covered by a network.allow list?
-- `StripPort` goes through Go's `net.SplitHostPort`, which is written out here.
use devm.Base.{
  ℕ, ◌+◌, ◌-◌, ◌≡◌, refl, Bool, true, false, ◌&&◌, ◌||◌, not, Option, none, some, List, [], ◌∷◌,
  ◌++◌, append_assoc, arith, nat_beq, if◌then◌else◌, ◌==◌, nat_eq, bool_eq, pair_eq, length, take,
  drop, is_nil, length-append, take-append, Bytes, codes, bytes_eq, has_prefix, has_suffix,
  index_byte, last_index_byte, last_index_byte-none, last_index_byte-append, index_byte-append, suc,
  has_byte, has_byte-append, has_suffix-append,
}
use devm.Schema.Allow.{AllowEntry, host_part, path_pattern, host_part_written, host_part_bare}
use devm.Policy.Glob.{path_match, IsPlain, path_match-plain}

-- `matchGlob`: a host against the host part of an entry.
unfoldable pub match_glob : Bytes → Bytes → Bool
match_glob pattern name =
    if pattern == codes "*"
    then true
    else if has_prefix pattern (codes "*.")
    then has_suffix name (drop 1 pattern) || name == drop 2 pattern
    else path_match pattern name

-- `matchPath`: a request path against the path pattern of an entry.
unfoldable pub match_path : Bytes → Bytes → Bool
match_path pattern req_path =
    if has_suffix pattern (codes "/*")
    then has_prefix req_path (take (length pattern - 1) pattern)
      || req_path == take (length pattern - 2) pattern
    else path_match pattern req_path

-- The body of the loop of `Allowed` at one entry.
unfoldable pub covers : Bytes → Bytes → Bytes → Bool
unfolding match_glob match_path
covers host req_path raw =
    let e : AllowEntry = record { host = raw; secrets = [] } in
    if not (match_glob (host_part e) host)
    then false
    else is_nil (path_pattern e) || match_path (path_pattern e) req_path

unfoldable pub allowed : List Bytes → Bytes → Bytes → Bool
allowed [] host req_path = false
allowed (raw ∷ allow) host req_path = covers host req_path raw || allowed allow host req_path

-- Entries only add: a list allows what one of its parts allows.
pub allowed-append :
    (xs ys : List Bytes) (host req_path : Bytes)
    → allowed (xs ++ ys) host req_path ≡ (allowed xs host req_path || allowed ys host req_path)
unfolding allowed
allowed-append [] ys host req_path = refl
allowed-append (x ∷ xs) ys host req_path = ground (arith, allowed-append xs ys host req_path)

-- net.SplitHostPort; `none` is its error.
unfoldable pub split_host_port : Bytes → Option (Bytes × Bytes)
split_host_port s = elim (last_index_byte s b':') [
  | none ↦ none
  | some i ↦ elim (has_prefix s (codes "[")) [
    | true ↦ elim (index_byte s b']') [
      | none ↦ none
      | some end ↦
          if not (nat_beq (end + 1) i)
          then none
          else if has_byte (drop 1 s) b'[' || has_byte (drop (end + 1) s) b']'
          then none
          else some (drop 1 (take end s), drop (i + 1) s)
    ]
    | false ↦
        if has_byte (take i s) b':'
        then none
        else if has_byte s b'[' || has_byte s b']'
        then none
        else some (take i s, drop (i + 1) s)
  ]
]

unfoldable pub strip_port : Bytes → Bytes
unfolding split_host_port
strip_port host = elim (split_host_port host) [ none ↦ host | some (h, p) ↦ h ]

-- No byte that `SplitHostPort` looks for.
abbrev pub IsHostName : Bytes → Type 0
IsHostName s = (has_byte s b':' ≡ false) × (has_byte s b'[' ≡ false) × (has_byte s b']' ≡ false)

strip_port_bare : (h : Bytes) → IsHostName h → strip_port h ≡ h
unfolding strip_port
strip_port_bare h a = rw (last_index_byte-none h b':' a.0, strip_port, split_host_port)

not_bracketed : (h p : Bytes) → IsHostName h → has_prefix (h ++ b':' ∷ p) (codes "[") ≡ false
not_bracketed [] p a = refl
not_bracketed (c ∷ h) p a = ground arith

strip_port_written : (h p : Bytes) → IsHostName h → IsHostName p → strip_port (h ++ b':' ∷ p) ≡ h
unfolding strip_port
strip_port_written h p a b =
    rw (last_index_byte-append h p b':' b.0, not_bracketed h p a, strip_port, split_host_port)
      (ground (
        arith,
        take-append h (b':' ∷ p),
        has_byte-append h (b':' ∷ p) b'[',
        has_byte-append h (b':' ∷ p) b']',
      ))

last_index_byte_behind :
    (s t : Bytes) (d : ℕ) {i : ℕ}
    → last_index_byte t d ≡ some i
    → last_index_byte (s ++ t) d ≡ some (length s + i)
last_index_byte_behind [] t d h = ground arith
last_index_byte_behind (c ∷ s) t d h = ground (arith, last_index_byte_behind s t d h)

drop_behind : (s t : Bytes) (n : ℕ) → drop (length s + n) (s ++ t) ≡ drop n t
drop_behind [] t n = let e : length (let s : Bytes = [] in s) + n ≡ n = omega arith in rw e refl
drop_behind (c ∷ s) t n =
    let e : length (c ∷ s) + n ≡ suc (length s + n) = omega arith in rw e (drop_behind s t n)

strip_port_bracketed :
    (h p : Bytes)
    → has_byte h b'[' ≡ false
    → has_byte h b']' ≡ false
    → IsHostName p
    → strip_port (b'[' ∷ (h ++ b']' ∷ b':' ∷ p)) ≡ h
unfolding strip_port
strip_port_bracketed h p opened closed b =
    let rest = b']' ∷ b':' ∷ p in
    let colon =
      last_index_byte_behind h rest b':' (last_index_byte-append (codes "]") p b':' b.0) in
    let closing = index_byte-append h (b':' ∷ p) b']' closed in
    let behind : drop (suc (length h + 1)) (b'[' ∷ (h ++ rest)) ≡ b':' ∷ p = drop_behind h rest 1 in
    ground (arith, colon, closing, behind, take-append h rest, has_byte-append h rest b'[')

-- The port behind a host is dropped: a host without a colon or a bracket keeps its name, whether
-- or not a port stands behind it, and a host in brackets with a port behind them, as an IPv6
-- address is written, loses the brackets with the port. The port has no colon and no bracket
-- either; the host in the brackets may have colons, but no bracket.
pub strip_port_lem :
    (h six p : Bytes)
    → IsHostName h
    → has_byte six b'[' ≡ false
    → has_byte six b']' ≡ false
    → IsHostName p
    → (strip_port h ≡ h)
      × (strip_port (h ++ b':' ∷ p) ≡ h)
      × (strip_port (b'[' ∷ (six ++ b']' ∷ b':' ∷ p)) ≡ six)
unfolding strip_port
strip_port_lem h six p a opened closed b =
    (strip_port_bare h a, strip_port_written h p a b, strip_port_bracketed six p opened closed b)

match_glob-plain : (p s : Bytes) → IsPlain p → match_glob p s ≡ (p == s)
unfolding match_glob
match_glob-plain [] s h = path_match-plain [] s h
match_glob-plain (c ∷ p) s h = ground (arith, path_match-plain (c ∷ p) s h)

-- An entry that is a plain host covers every path of that host, and no other host.
pub covers_plain_host :
    (h host req_path : Bytes)
    → IsPlain h
    → has_byte h b'/' ≡ false
    → covers host req_path h ≡ (h == host)
unfolding covers
covers_plain_host h host req_path plain slash =
    ground (arith, host_part_bare h [] slash, match_glob-plain h host plain)

take-eq : (n : ℕ) (s t : Bytes) → n ≡ length s → take n (s ++ t) ≡ s
take-eq n s t h = rw h (take-append s t)

match_path_subtree :
    (q req_path : Bytes)
    → match_path (q ++ codes "/*") req_path
      ≡ (has_prefix req_path (q ++ codes "/") || req_path == q)
unfolding match_path
match_path_subtree q req_path =
    let len : length (q ++ codes "/*") ≡ length q + 2 = length-append q (codes "/*") in
    let len' : length (q ++ codes "/") ≡ length q + 1 = length-append q (codes "/") in
    let base = take-eq (length (q ++ codes "/*") - 2) q (codes "/*") (omega arith) in
    let prefix =
      take-eq (length (q ++ codes "/*") - 1) (q ++ codes "/") (codes "*") (omega arith) in
    ground (
      arith,
      has_suffix-append q (codes "/*"),
      base,
      prefix,
      append_assoc q (codes "/") (codes "*"),
    )

-- An entry `host/base/*` covers that host's paths at the base and below it, not those that only
-- begin with the same bytes.
pub covers_subtree :
    (h base host req_path : Bytes)
    → IsPlain h
    → has_byte h b'/' ≡ false
    → covers host req_path (h ++ b'/' ∷ (base ++ codes "/*"))
      ≡ (h == host && (has_prefix req_path (b'/' ∷ (base ++ codes "/")) || req_path == b'/' ∷ base))
unfolding covers
covers_subtree h base host req_path plain slash = ground (
  arith,
  host_part_written h (base ++ codes "/*") [] slash,
  match_glob-plain h host plain,
  match_path_subtree (b'/' ∷ base) req_path,
)
