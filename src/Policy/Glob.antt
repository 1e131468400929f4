-- ===== src/Policy/Glob.antt =====
-- Go's `path.Match`, as `matchGlob` and `matchPath` use it: a pattern is cut at its stars into
-- chunks, and each chunk is matched at the first place where it fits. Texts are ASCII.
use devm.Base.{
  ℕ, zero, suc, ◌≡◌, refl, ◌≢◌, Bool, true, false, ◌&&◌, ◌||◌, not, Option, none, some, List, [],
  ◌∷◌, arith, leb, nat_beq, if◌then◌else◌, nat_eq, bool_eq, pair_eq, length, is_nil, any, All,
  Bytes, codes, bytes_beq, bytes_eq, has_byte,
}
use mathlib.Core.Option

pub data Token : Type 0 where
  lit : ℕ → Token
  any_char : Token
  class : Bool → List (ℕ × ℕ) → Token

-- One character of a class (`getEsc`) and the rest of the pattern, which may not end there.
get_esc : Bytes → Option (ℕ × Bytes)
get_esc [] = none
get_esc (c ∷ []) = none
get_esc (c ∷ d ∷ s) =
    if nat_beq c b'-' || nat_beq c b']'
    then none
    else if nat_beq c b'\\'
    then if is_nil s then none else some (d, s)
    else some (c, d ∷ s)

-- The upper end of a range that begins at `lo`.
upper_end : ℕ → Bytes → Option (ℕ × Bytes)
upper_end lo [] = some (lo, [])
upper_end lo (d ∷ t) = if nat_beq d b'-' then get_esc t else some (lo, d ∷ t)

-- The ranges of a class up to its `]`, which may not stand first.
ranges : ℕ → Bool → Bytes → Option (List (ℕ × ℕ) × Bytes)
ranges zero first s = none
ranges (suc f) first [] = none
ranges (suc f) first (c ∷ s) = elim (nat_beq c b']' && not first) [
  | true ↦ some ([], s)
  | false ↦ elim (get_esc (c ∷ s)) [
    | none ↦ none
    | some (lo, t) ↦ elim (upper_end lo t) [
      | none ↦ none
      | some (hi, u) ↦ elim (ranges f false u) [
        | none ↦ none
        | some (rs, v) ↦ some ((lo, hi) ∷ rs, v)
      ]
    ]
  ]
]

-- A class behind its `[`.
class_body : Bytes → Option (Token × Bytes)
class_body [] = none
class_body (c ∷ s) =
    let neg = nat_beq c b'^' in
    elim (ranges (length (c ∷ s)) true (if neg then s else c ∷ s)) [
      | none ↦ none
      | some (rs, t) ↦ some (class neg rs, t)
    ]

-- A piece of the pattern: whether a star stands before it, and its tokens.
pub record Chunk : Type 0 where
  pub star : Bool
  pub tokens : List Token

add_star : List Chunk → List Chunk
add_star [] = record { star = true; tokens = [] } ∷ []
add_star (c ∷ cs) = elim (c.star) [ true ↦ c ∷ cs | false ↦ record c { star = true } ∷ cs ]

add_token : Token → List Chunk → List Chunk
add_token t [] = record { star = false; tokens = t ∷ [] } ∷ []
add_token t (c ∷ cs) = elim (c.star) [
  | true ↦ record { star = false; tokens = t ∷ [] } ∷ c ∷ cs
  | false ↦ record { star = false; tokens = t ∷ c.tokens } ∷ cs
]

-- The chunks of a pattern (`scanChunk`), or `none` for a malformed one. Each round takes a byte
-- at least, so the length of the pattern is fuel enough.
chunks : ℕ → Bytes → Option (List Chunk)
chunks f [] = some []
chunks zero (c ∷ s) = none
chunks (suc f) (c ∷ s) = elim (nat_beq c b'*') [
  | true ↦ Option.map add_star (chunks f s)
  | false ↦ elim (nat_beq c b'?') [
    | true ↦ Option.map (add_token any_char) (chunks f s)
    | false ↦ elim (nat_beq c b'[') [
      | true ↦ elim (class_body s) [
        | none ↦ none
        | some (t, u) ↦ Option.map (add_token t) (chunks f u)
      ]
      | false ↦ elim (nat_beq c b'\\') [
        | true ↦ elim s [ [] ↦ none | d ∷ t ↦ Option.map (add_token (lit d)) (chunks f t) ]
        | false ↦ Option.map (add_token (lit c)) (chunks f s)
      ]
    ]
  ]
]

in_ranges : ℕ → List (ℕ × ℕ) → Bool
in_ranges c rs = any (λ r. leb r.0 c && leb c r.1) rs

fits : Token → ℕ → Bool
fits (lit d) c = nat_beq d c
fits any_char c = not (nat_beq c b'/')
fits (class true rs) c = not (in_ranges c rs)
fits (class false rs) c = in_ranges c rs

-- `matchChunk`: what is left of the name behind the chunk.
match_chunk : List Token → Bytes → Option Bytes
match_chunk [] s = some s
match_chunk (t ∷ ts) [] = none
match_chunk (t ∷ ts) (c ∷ s) = if fits t c then match_chunk ts s else none

-- The chunk at this place; the last chunk must leave nothing.
match_here : List Token → Bool → Bytes → Option Bytes
match_here ts last s = elim (match_chunk ts s) [
  | none ↦ none
  | some t ↦ if last && not (is_nil t) then none else some t
]

-- Behind a star: at the first place where it fits, with no slash skipped.
seek : List Token → Bool → Bytes → Option Bytes
seek ts last [] = match_here ts last []
seek ts last (c ∷ s) = elim (match_here ts last (c ∷ s)) [
  | some t ↦ some t
  | none ↦ elim (nat_beq c b'/') [ true ↦ none | false ↦ seek ts last s ]
]

match_chunks : List Chunk → Bytes → Bool
match_chunks [] s = is_nil s
match_chunks (c ∷ cs) s = elim (c.star && is_nil c.tokens) [
  | true ↦ not (has_byte s b'/')
  | false ↦ elim ((if c.star then seek else match_here) c.tokens (is_nil cs) s) [
    | none ↦ false
    | some t ↦ match_chunks cs t
  ]
]

-- The `matched` result of `path.Match`, which is false for a malformed pattern.
unfoldable pub path_match : Bytes → Bytes → Bool
unfolding get_esc upper_end ranges class_body add_star add_token chunks in_ranges fits match_chunk
    match_here seek match_chunks
path_match pattern name = elim (chunks (length pattern) pattern) [
  | none ↦ false
  | some cs ↦ match_chunks cs name
]

path_match_tests :
    (path_match (codes "a*c") (codes "abbc") ≡ true)
    × (path_match (codes "a*c") (codes "a/c") ≡ false)
    × (path_match (codes "[^a-c]?") (codes "dz") ≡ true)
    × (path_match (codes "[^a-c]?") (codes "bz") ≡ false)
    × (path_match (codes "a[") (codes "a[") ≡ false)
    × (path_match (codes "a\\*") (codes "a*") ≡ true)
    × (path_match (codes "*.git*.com") (codes "x.y.github.com") ≡ true)
unfolding path_match
path_match_tests = (refl, refl, refl, refl, refl, refl, refl)

-- The tokens of a pattern with no special byte.
literals : Bytes → List Token
literals [] = []
literals (c ∷ s) = lit c ∷ literals s

-- No byte that means something to `path.Match`.
abbrev pub IsPlain : Bytes → Type 0
IsPlain s = All (λ c. (c ≢ b'*') × (c ≢ b'?') × (c ≢ b'[') × (c ≢ b'\\')) s

plain_chunks : Bytes → List Chunk
plain_chunks [] = []
plain_chunks (c ∷ s) = record { star = false; tokens = literals (c ∷ s) } ∷ []

chunks-plain : (s : Bytes) → IsPlain s → chunks (length s) s ≡ some (plain_chunks s)
unfolding chunks add_token plain_chunks literals
chunks-plain [] h = refl
chunks-plain (c ∷ []) h = ground arith
chunks-plain (c ∷ d ∷ s) h = ground (arith, chunks-plain (d ∷ s) h.1)

match_chunk-literals :
    (s t : Bytes) → match_here (literals s) true t ≡ (if bytes_beq s t then some [] else none)
unfolding match_here match_chunk literals fits
match_chunk-literals [] [] = refl
match_chunk-literals [] (d ∷ t) = refl
match_chunk-literals (c ∷ s) [] = refl
match_chunk-literals (c ∷ s) (d ∷ t) = ground (arith, match_chunk-literals s t)

-- A pattern with no special byte matches itself and nothing else.
pub path_match-plain : (p s : Bytes) → IsPlain p → path_match p s ≡ bytes_beq p s
unfolding path_match plain_chunks
path_match-plain [] [] h = refl
path_match-plain [] (d ∷ s) h = refl
path_match-plain (c ∷ p) s h =
    rw (path_match, chunks-plain (c ∷ p) h) (ground (arith, match_chunk-literals (c ∷ p) s))
