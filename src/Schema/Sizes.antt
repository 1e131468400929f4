-- ===== src/Schema/Sizes.antt =====
-- `ParseDiskSize` and `ParseMemorySize` (internal/schema/schema.go), with the parts of Go's
-- strings.TrimSpace and strconv.Atoi that they rely on. Texts are ASCII.
use devm.Base.{
  ℕ, ◌-◌, ◌*◌, ◌%◌, ◌^◌, ◌&&◌, Option, none, some, [], ◌∷◌, map, ltb, leb, nat_beq, if◌then◌else◌,
  nat_eq, bool_eq, pair_eq, length, take, Bytes, codes, bytes_eq, has_suffix,
}
use devm.Base.Parse.{trim_left, trim_right, trim_space, digits_from, unsigned}

upper : ℕ → ℕ
upper c = if leb b'a' c && leb c b'z' then c - 32 else c

-- strconv.Atoi of a text that stands for a number above 0 that an int holds; `none` for an error,
-- for zero and for a negative number, which the callers treat alike.
atoi_positive : Bytes → Option ℕ
atoi_positive [] = none
atoi_positive (c ∷ s) = elim (unsigned (if nat_beq c b'+' then s else c ∷ s)) [
  | none ↦ none
  | some n ↦ if ltb 0 n && ltb n (2 ^ 63) then some n else none
]

-- The number in front of the suffix G or GB, in either case.
size_of : Bytes → Option ℕ
size_of s =
    let raw = trim_space s in
    let up = map upper raw in
    if has_suffix up (codes "GB")
    then atoi_positive (trim_space (take (length raw - 2) raw))
    else if has_suffix up (codes "G")
    then atoi_positive (trim_space (take (length raw - 1) raw))
    else none

unfoldable pub parse_disk_size : Bytes → Option ℕ
unfolding size_of trim_space trim_left trim_right upper atoi_positive unsigned digits_from
parse_disk_size s = size_of s

-- In megabytes. The product of an int wraps around at 2 ^ 64; what it reaches then is given as
-- the unsigned number with the same bits.
unfoldable pub parse_memory_size : Bytes → Option ℕ
unfolding size_of trim_space trim_left trim_right upper atoi_positive unsigned digits_from
parse_memory_size s = elim (size_of s) [ none ↦ none | some n ↦ some (n * 1024 % 2 ^ 64) ]
