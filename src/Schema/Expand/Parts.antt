-- ===== src/Schema/Expand/Parts.antt =====
-- The text of an env value in parts, and what `expandWorkspace` (internal/schema/env.go) makes of it.
use devm.Base.{
  ℕ, zero, suc, ◌≤◌, ◌≡◌, refl, Bool, false, inr, List, [], ◌∷◌, ◌++◌, arith, nat_beq, length,
  Bytes, codes, bytes_eq,
}
use devm.Schema.Expand.{
  is_ident_start, is_ident_cont, cut_brace, span_ident, named, read_dollar, prepend, expand_from,
}

-- The parts of a value: a byte, an escaped dollar, or the variable in one of its two spellings.
pub data Part : Type 0 where
  byte : ℕ → Part
  escaped braced bare : Part

abbrev pub written : Part → Bytes
written (byte c) = c ∷ []
written escaped = codes "$$"
written braced = codes "${WORKSPACE}"
written bare = codes "$WORKSPACE"

abbrev pub meant : Bytes → Part → Bytes
meant root (byte c) = c ∷ []
meant root escaped = codes "$"
meant root braced = root
meant root bare = root

abbrev pub all_written : List Part → Bytes
all_written [] = []
all_written (t ∷ ts) = written t ++ all_written ts

abbrev pub all_meant : Bytes → List Part → Bytes
all_meant root [] = []
all_meant root (t ∷ ts) = meant root t ++ all_meant root ts

abbrev pub goes_on : Bytes → Bool
goes_on [] = false
goes_on (b ∷ v) = is_ident_cont b

-- A plain byte is not a dollar, and the bare spelling is not followed by a byte of a name.
abbrev pub IsPart : Part → Bytes → Type 0
IsPart (byte c) rest = nat_beq c b'$' ≡ false
IsPart escaped rest = Unit
IsPart braced rest = Unit
IsPart bare rest = goes_on rest ≡ false

abbrev pub AreParts : List Part → Type 0
AreParts [] = Unit
AreParts (t ∷ ts) = IsPart t (all_written ts) × AreParts ts

span_ident-end : (v : Bytes) → goes_on v ≡ false → span_ident v ≡ ([], v)
unfolding span_ident
span_ident-end [] h = refl
span_ident-end (b ∷ v) h = rw (h, span_ident) refl

-- The loop on the text of parts.
pub expand_from-parts :
    (root : Bytes) (ts : List Part) (fuel : ℕ)
    → length (all_written ts) ≤ fuel
    → AreParts ts
    → expand_from root fuel (all_written ts) ≡ inr (all_meant root ts)
unfolding expand_from prepend read_dollar cut_brace span_ident named is_ident_start is_ident_cont
expand_from-parts root [] fuel enough parts = refl
expand_from-parts root (byte c ∷ ts) zero enough parts = absurd (omega arith)
expand_from-parts root (escaped ∷ ts) zero enough parts = absurd (omega arith)
expand_from-parts root (braced ∷ ts) zero enough parts = absurd (omega arith)
expand_from-parts root (bare ∷ ts) zero enough parts = absurd (omega arith)
expand_from-parts root (byte c ∷ ts) (suc fuel) enough (plain, parts) =
    rw (plain, expand_from, expand_from-parts root ts fuel (omega arith) parts) refl
expand_from-parts root (escaped ∷ ts) (suc fuel) enough (u, parts) =
    rw (expand_from-parts root ts fuel (omega arith) parts) refl
expand_from-parts root (braced ∷ ts) (suc fuel) enough (u, parts) =
    rw (expand_from-parts root ts fuel (omega arith) parts) refl
expand_from-parts root (bare ∷ ts) (suc fuel) enough (ends, parts) =
    rw (span_ident-end (all_written ts) ends, expand_from-parts root ts fuel (omega arith) parts)
      refl
