-- ===== src/Base/FilePath.antt =====
-- Go's path/filepath on Unix: Base, Clean and IsAbs.
use Prim.Native.Nat.{suc}
use mathlib.Core.Bool.{Bool, true, false, ◌&&◌, ◌||◌, not}
use mathlib.Core.Option.{none, some}
use mathlib.Core.List.{List, [], ◌∷◌, ◌++◌, reverse}
use devm.Base.Tests.{nat_beq, if◌then◌else◌}
use devm.Base.Lists.{is_nil, take, drop}
use devm.Base.Text.{Bytes, codes, bytes_eq, bytes_beq, has_prefix, last_index_byte}

strip_slashes : Bytes → Bytes
strip_slashes [] = []
strip_slashes (c ∷ s) =
    let rest = strip_slashes s in if nat_beq c b'/' && is_nil rest then [] else c ∷ rest

-- filepath.Base.
unfoldable pub base_name : Bytes → Bytes
unfolding strip_slashes
base_name [] = codes "."
base_name (c ∷ p) =
    let s = strip_slashes (c ∷ p) in
    if is_nil s
    then codes "/"
    else elim (last_index_byte s b'/') [ none ↦ s | some i ↦ drop (suc i) s ]

-- The parts between slashes, the last of them in `part`, backwards.
parts_from : Bytes → Bytes → List Bytes
parts_from part [] = reverse part ∷ []
parts_from part (c ∷ s) = elim (nat_beq c b'/') [
  | true ↦ reverse part ∷ parts_from [] s
  | false ↦ parts_from (c ∷ part) s
]

-- One part, put on the parts so far, the last of them first.
push_part : Bool → Bytes → List Bytes → List Bytes
push_part rooted part [] =
    if is_nil part || bytes_beq part (codes ".")
    then []
    else if bytes_beq part (codes "..") && rooted
    then []
    else part ∷ []
push_part rooted part (top ∷ out) =
    if is_nil part || bytes_beq part (codes ".")
    then top ∷ out
    else if bytes_beq part (codes "..") && not (bytes_beq top (codes ".."))
    then out
    else part ∷ top ∷ out

push_parts : Bool → List Bytes → List Bytes → List Bytes
push_parts rooted [] out = out
push_parts rooted (part ∷ parts) out = push_parts rooted parts (push_part rooted part out)

-- The parts with a slash between two, from the last to the first.
joined : List Bytes → Bytes
joined [] = []
joined (part ∷ []) = part
joined (part ∷ before ∷ out) = joined (before ∷ out) ++ (b'/' ∷ part)

unfoldable pub is_abs : Bytes → Bool
is_abs p = has_prefix p (codes "/")

-- filepath.Clean.
unfoldable pub clean : Bytes → Bytes
unfolding parts_from push_part push_parts joined is_abs
clean p =
    let out = joined (push_parts (is_abs p) (parts_from [] p) []) in
    if is_abs p then b'/' ∷ out else if is_nil out then codes "." else out

-- filepath.Dir.
unfoldable pub dir_name : Bytes → Bytes
unfolding clean
dir_name p = elim (last_index_byte p b'/') [ none ↦ codes "." | some i ↦ clean (take (suc i) p) ]

with_slashes : Bytes → List Bytes → Bytes
with_slashes part [] = part
with_slashes part (next ∷ parts) = part ++ (b'/' ∷ with_slashes next parts)

-- filepath.Join.
unfoldable pub join_path : List Bytes → Bytes
unfolding clean with_slashes
join_path [] = []
join_path ([] ∷ parts) = join_path parts
join_path ((c ∷ part) ∷ parts) = clean (with_slashes (c ∷ part) parts)
