-- ===== src/Schema/Expand.antt =====
-- `expandWorkspace` of internal/schema/env.go: the variables in an env value.
use devm.Base.{
  ℕ, zero, suc, Bool, ◌&&◌, ◌||◌, true, false, ◌⊎◌, inl, inr, Option, none, some, [], ◌∷◌, ◌++◌,
  leb, nat_beq, if◌then◌else◌, ◌==◌, length, Bytes, codes, bytes_eq,
}
pub mod Parts
pub mod Exact
pub mod Resolve
mod Tests

pub data ExpandError : Type 0 where
  trailing_dollar unterminated unexpected : ExpandError
  unknown_variable : Bytes → ExpandError

unfoldable pub is_ident_start : ℕ → Bool
is_ident_start b = nat_beq b b'_' || ((leb b'a' b && leb b b'z') || (leb b'A' b && leb b b'Z'))

unfoldable pub is_ident_cont : ℕ → Bool
is_ident_cont b = is_ident_start b || (leb b'0' b && leb b b'9')

-- What stands before the first closing brace, and behind it.
unfoldable pub cut_brace : Bytes → Option (Bytes × Bytes)
cut_brace [] = none
cut_brace (b ∷ v) =
    let rest = cut_brace v in
    if nat_beq b b'}'
    then some ([], v)
    else elim rest [ none ↦ none | some (n, r) ↦ some (b ∷ n, r) ]

-- The bytes of an identifier, and what follows it.
unfoldable pub span_ident : Bytes → Bytes × Bytes
unfolding is_ident_cont
span_ident [] = ([], [])
span_ident (b ∷ v) =
    let rest = span_ident v in if is_ident_cont b then (b ∷ rest.0, rest.1) else ([], b ∷ v)

unfoldable pub named : Bytes → Bytes × Bytes → ExpandError ⊎ (Bytes × Bytes)
named root (name, rest) =
    if name == codes "WORKSPACE" then inr (root, rest) else inl (unknown_variable name)

-- The switch on what stands behind a dollar: what is written, and what is left to read.
unfoldable pub read_dollar : Bytes → Bytes → ExpandError ⊎ (Bytes × Bytes)
read_dollar root [] = inl trailing_dollar
read_dollar root (next ∷ v) =
    if nat_beq next b'$'
    then inr (codes "$", v)
    else if nat_beq next b'{'
    then elim (cut_brace v) [ none ↦ inl unterminated | some cut ↦ named root cut ]
    else if is_ident_start next
    then named root (span_ident (next ∷ v))
    else inl unexpected

unfoldable pub prepend : Bytes → ExpandError ⊎ Bytes → ExpandError ⊎ Bytes
prepend w (inl e) = inl e
prepend w (inr out) = inr (w ++ out)

-- The loop, with as much fuel as there are bytes: each round reads one or more.
unfoldable pub expand_from : Bytes → ℕ → Bytes → ExpandError ⊎ Bytes
expand_from root fuel [] = inr []
expand_from root zero (c ∷ v) = inl trailing_dollar
expand_from root (suc fuel) (c ∷ v) = elim (nat_beq c b'$') [
  | false ↦ prepend (c ∷ []) (expand_from root fuel v)
  | true ↦ elim (read_dollar root v) [
    | inl e ↦ inl e
    | inr (w, rest) ↦ prepend w (expand_from root fuel rest)
  ]
]

unfoldable pub expand_workspace : Bytes → Bytes → ExpandError ⊎ Bytes
expand_workspace v root = expand_from root (length v) v
