-- ===== src/Hairpin/Sni/At.antt =====
-- Reads of internal/serviceapi/sni_parse.go at a known place of a message.
use devm.Base.{
  ℕ, ◌+◌, ◌-◌, ◌/◌, ◌%◌, ◌≤◌, ◌≡◌, refl, sym, ap, ◌∙◌, true, ◌&&◌, [], ◌∷◌, ◌++◌, append_assoc,
  append-nil, arith, leb, length, length-append, take-append, drop-append, Bytes,
}
use devm.Hairpin.Slice.{SniError, done, ◌>>=◌, byte_at, slice, uint16_at, uint24_at, need}

-- `s` is what is left of `b` from position `i` on.
pub record At (b : Bytes) (i : ℕ) (s : Bytes) : Type 0 where
  pub before : Bytes
  pub whole : b ≡ before ++ s
  pub here : length before ≡ i

pub start : (b : Bytes) → At b 0 b
start b = record { before = []; whole = refl; here = refl }

-- A number in two bytes and in three, the highest first.
abbrev pub two_bytes : ℕ → Bytes
two_bytes n = n / 256 ∷ n % 256 ∷ []

abbrev pub three_bytes : ℕ → Bytes
three_bytes n = n / 65536 ∷ two_bytes (n % 65536)

pub skip : {b s : Bytes} {i : ℕ} (a : Bytes) (j : ℕ) → At b i (a ++ s) → i + length a ≡ j → At b j s
skip {s = s} a j at e = record {
  before = at.before ++ a;
  whole = at.whole ∙ sym (append_assoc at.before a s);
  here = omega (arith, length-append at.before a, at.here, e);
}

-- The last part of a message.
pub last_part : {b : Bytes} {i : ℕ} (a : Bytes) → At b i a → At b i (a ++ [])
last_part a at = rw (append-nil a) at

byte_at-append : (a : Bytes) (c : ℕ) (b : Bytes) → byte_at (a ++ c ∷ b) (length a) ≡ done c
unfolding byte_at
byte_at-append [] c b = refl
byte_at-append (x ∷ a) c b = byte_at-append a c b

pub byte_at-At : {b s : Bytes} {i c : ℕ} → At b i (c ∷ s) → byte_at b i ≡ done c
byte_at-At {s = s} {c = c} at = rw (at.whole, sym at.here, byte_at-append at.before c s)

pub uint16_at-At :
    {b s : Bytes} {i : ℕ} (n : ℕ) → At b i (two_bytes n ++ s) → uint16_at b i ≡ done n
unfolding uint16_at ◌>>=◌
uint16_at-At {i = i} n at =
    rw (byte_at-At at, byte_at-At (skip (n / 256 ∷ []) (i + 1) at (omega arith)))
      (ap done (omega arith))

pub uint24_at-At :
    {b s : Bytes} {i : ℕ} (n : ℕ) → At b i (three_bytes n ++ s) → uint24_at b i ≡ done n
unfolding uint24_at ◌>>=◌
uint24_at-At {i = i} n at =
    rw (byte_at-At at, uint16_at-At (n % 65536) (skip (n / 65536 ∷ []) (i + 1) at (omega arith)))
      (ap done (omega arith))

pub length-At : {b s : Bytes} {i : ℕ} → At b i s → length b ≡ i + length s
length-At {s = s} at = rw (at.whole) (omega (arith, length-append at.before s, at.here))

pub need-At :
    {b : Bytes} {i : ℕ} (a s : Bytes) (n : ℕ) (e : SniError)
    → At b i (a ++ s)
    → n ≤ i + length a
    → need n b e ≡ done tt
unfolding need
need-At a s n e at h = let long = length-At at in let parts = length-append a s in ground arith

slice-append :
    (p a s : Bytes) (n : ℕ) → n ≡ length p + length a → slice (p ++ (a ++ s)) (length p) n ≡ done a
unfolding slice
slice-append p a s n e =
    let inside : (leb (length p) n && leb n (length (p ++ (a ++ s)))) ≡ true =
      let whole = length-append p (a ++ s) in let parts = length-append a s in ground arith in
    let size : n - length p ≡ length a = omega (arith, e) in
    rw (inside, size, drop-append p (a ++ s), take-append a s) refl

pub slice-At :
    {b : Bytes} {i : ℕ} (a s : Bytes) (j : ℕ)
    → At b i (a ++ s)
    → i + length a ≡ j
    → slice b i j ≡ done a
slice-At a s j at e =
    rw (at.whole, sym at.here) (slice-append at.before a s j (omega (arith, at.here, e)))
