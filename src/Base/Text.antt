-- ===== src/Base/Text.antt =====
-- Go strings as lists of bytes, with the `strings` functions that the program calls.
use Prim.Native.Char.{code}
use Prim.Native.String.{String}
use Prim.Native.Nat.{ℕ, suc, ◌-◌}
use mathlib.Core.Path.{◌≡◌, refl}
use mathlib.Core.Bool.{Bool, true, false, ◌&&◌, ◌||◌}
use mathlib.Core.Logic.{◌↔◌}
use mathlib.Core.List.{List, [], ◌∷◌, ◌++◌}
use mathlib.Core.Option.{Option, none, some}
use native.Mathlib.Omega.{arith}
use devm.Base.Tests.{ltb, nat_beq, Eq, if◌then◌else◌}
use devm.Base.Lists.{length, take, drop, length-append, drop-append}

abbrev pub Bytes : Type 0
Bytes = List ℕ

-- The bytes of an ASCII literal.
abbrev pub codes : String → Bytes
codes String.[] = []
codes (String.◌∷◌ c s) = code c ∷ codes s

abbrev pub bytes_beq : Bytes → Bytes → Bool
bytes_beq [] [] = true
bytes_beq [] (d ∷ t) = false
bytes_beq (c ∷ s) [] = false
bytes_beq (c ∷ s) (d ∷ t) = nat_beq c d && bytes_beq s t

pub bytes_beq_iff : (s t : Bytes) → (bytes_beq s t ≡ true) ↔ (s ≡ t)
bytes_beq_iff [] [] = ground arith
bytes_beq_iff [] (d ∷ t) = ground arith
bytes_beq_iff (c ∷ s) [] = ground arith
bytes_beq_iff (c ∷ s) (d ∷ t) = ground (arith, bytes_beq_iff s t)

instance abbrev pub bytes_eq : Eq Bytes
bytes_eq = record { beq = bytes_beq; beq_iff = bytes_beq_iff }

-- strings.HasPrefix and strings.TrimPrefix.
abbrev pub has_prefix : Bytes → Bytes → Bool
has_prefix s [] = true
has_prefix [] (d ∷ t) = false
has_prefix (c ∷ s) (d ∷ t) = nat_beq c d && has_prefix s t

abbrev pub trim_prefix : Bytes → Bytes → Bytes
trim_prefix s t = if has_prefix s t then drop (length t) s else s

-- strings.HasSuffix and strings.TrimSuffix.
abbrev pub has_suffix : Bytes → Bytes → Bool
has_suffix s t =
    if ltb (length s) (length t) then false else bytes_beq (drop (length s - length t) s) t

abbrev pub trim_suffix : Bytes → Bytes → Bytes
trim_suffix s t = if has_suffix s t then take (length s - length t) s else s

-- strings.IndexByte, and the two parts of the text around the first such byte (strings.Cut).
abbrev pub index_byte : Bytes → ℕ → Option ℕ
index_byte [] d = none
index_byte (c ∷ s) d = elim (nat_beq c d) [
  | true ↦ some 0
  | false ↦ elim (index_byte s d) [ none ↦ none | some i ↦ some (suc i) ]
]

-- strings.Index.
abbrev pub index : Bytes → Bytes → Option ℕ
index [] t = if has_prefix [] t then some 0 else none
index (c ∷ s) t = elim (has_prefix (c ∷ s) t) [
  | true ↦ some 0
  | false ↦ elim (index s t) [ none ↦ none | some i ↦ some (suc i) ]
]

abbrev pub contains : Bytes → Bytes → Bool
contains s t = elim (index s t) [ none ↦ false | some i ↦ true ]

abbrev pub has_byte : Bytes → ℕ → Bool
has_byte [] d = false
has_byte (c ∷ s) d = nat_beq c d || has_byte s d

-- The order of Go strings, `a < b`.
abbrev pub bytes_ltb : Bytes → Bytes → Bool
bytes_ltb s [] = false
bytes_ltb [] (d ∷ t) = true
bytes_ltb (c ∷ s) (d ∷ t) = ltb c d || (nat_beq c d && bytes_ltb s t)

pub has_byte-append : (s t : Bytes) (d : ℕ) → has_byte (s ++ t) d ≡ (has_byte s d || has_byte t d)
has_byte-append [] t d = refl
has_byte-append (c ∷ s) t d = ground (arith, has_byte-append s t d)

pub has_prefix-append : (s t : Bytes) → has_prefix (s ++ t) s ≡ true
has_prefix-append [] t = refl
has_prefix-append (c ∷ s) t = ground (arith, has_prefix-append s t)

-- strings.LastIndexByte.
abbrev pub last_index_byte : Bytes → ℕ → Option ℕ
last_index_byte [] d = none
last_index_byte (c ∷ s) d = elim (last_index_byte s d) [
  | some i ↦ some (suc i)
  | none ↦ if nat_beq c d then some 0 else none
]

pub index_byte-append :
    (s t : Bytes) (d : ℕ) → has_byte s d ≡ false → index_byte (s ++ d ∷ t) d ≡ some (length s)
index_byte-append [] t d h = ground arith
index_byte-append (c ∷ s) t d h = ground (arith, index_byte-append s t d)

pub index_byte-none : (s : Bytes) (d : ℕ) → has_byte s d ≡ false → index_byte s d ≡ none
index_byte-none [] d h = refl
index_byte-none (c ∷ s) d h = ground (arith, index_byte-none s d)

pub last_index_byte-none : (s : Bytes) (d : ℕ) → has_byte s d ≡ false → last_index_byte s d ≡ none
last_index_byte-none [] d h = refl
last_index_byte-none (c ∷ s) d h = ground (arith, last_index_byte-none s d)

pub last_index_byte-append :
    (s t : Bytes) (d : ℕ) → has_byte t d ≡ false → last_index_byte (s ++ d ∷ t) d ≡ some (length s)
last_index_byte-append [] t d h = ground (arith, last_index_byte-none t d)
last_index_byte-append (c ∷ s) t d h = ground (arith, last_index_byte-append s t d)

pub has_suffix-append : (s t : Bytes) → has_suffix (s ++ t) t ≡ true
has_suffix-append s t =
    let e : length (s ++ t) - length t ≡ length s = omega (arith, length-append s t) in
    ground (arith, e, length-append s t, drop-append s t, bytes_beq_iff t t)
