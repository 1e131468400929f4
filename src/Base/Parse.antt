-- ===== src/Base/Parse.antt =====
-- Go's strings.Fields, strings.Cut, strings.TrimSpace and strconv.ParseInt, on ASCII text.
use Prim.Native.Nat.{ℕ, zero, suc, ◌+◌, ◌-◌, ◌*◌, ◌^◌}
use mathlib.Core.Bool.{Bool, true, false, ◌&&◌, ◌||◌}
use mathlib.Core.Option.{Option, none, some}
use mathlib.Core.List.{List, [], ◌∷◌, reverse}
use devm.Base.Tests.{ltb, leb, nat_beq, if◌then◌else◌}
use devm.Base.Lists.{is_nil, take, drop}
use devm.Base.Text.{Bytes, index_byte}
use devm.Base.Int.{ℤ, pos, negsuc}

abbrev pub is_space : ℕ → Bool
is_space c = nat_beq c 32 || (leb 9 c && leb c 13)

unfoldable pub trim_left : Bytes → Bytes
trim_left [] = []
trim_left (c ∷ s) = if is_space c then trim_left s else c ∷ s

unfoldable pub trim_right : Bytes → Bytes
trim_right [] = []
trim_right (c ∷ s) = let rest = trim_right s in if is_space c && is_nil rest then [] else c ∷ rest

unfoldable pub trim_space : Bytes → Bytes
unfolding trim_left trim_right
trim_space s = trim_right (trim_left s)

-- A word, unless it is empty, in front of others.
abbrev pub add_word : Bytes → List Bytes → List Bytes
add_word [] words = words
add_word (c ∷ s) words = reverse (c ∷ s) ∷ words

-- The word so far is in `part`, backwards.
unfoldable pub fields_from : Bytes → Bytes → List Bytes
fields_from part [] = add_word part []
fields_from part (c ∷ s) = elim (is_space c) [
  | true ↦ add_word part (fields_from [] s)
  | false ↦ fields_from (c ∷ part) s
]

unfoldable pub fields : Bytes → List Bytes
unfolding fields_from
fields s = fields_from [] s

-- The texts in front of and behind the first such byte.
unfoldable pub cut : Bytes → ℕ → Option (Bytes × Bytes)
cut s d = elim (index_byte s d) [ none ↦ none | some i ↦ some (take i s, drop (suc i) s) ]

unfoldable pub digits_from : ℕ → Bytes → Option ℕ
digits_from n [] = some n
digits_from n (c ∷ s) =
    if leb b'0' c && leb c b'9' then digits_from (n * 10 + (c - b'0')) s else none

unfoldable pub unsigned : Bytes → Option ℕ
unfolding digits_from
unsigned [] = none
unsigned (c ∷ s) = digits_from 0 (c ∷ s)

-- A magnitude with its sign, if 64 bits hold it.
abbrev pub signed : Bool → Option ℕ → Option ℤ
signed minus none = none
signed false (some n) = if ltb n (2 ^ 63) then some (pos n) else none
signed true (some zero) = some (pos 0)
signed true (some (suc n)) = if ltb n (2 ^ 63) then some (negsuc n) else none

-- strconv.ParseInt in base 10.
unfoldable pub parse_int : Bytes → Option ℤ
unfolding unsigned
parse_int [] = none
parse_int (c ∷ s) =
    if nat_beq c b'-'
    then signed true (unsigned s)
    else signed false (unsigned (if nat_beq c b'+' then s else c ∷ s))
