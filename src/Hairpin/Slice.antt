-- ===== src/Hairpin/Slice.antt =====
-- Reads of a slice of bytes as in internal/serviceapi/sni_parse.go: an index or a slice outside of
-- the length panics.
use devm.Base.{
  ℕ, zero, suc, ◌+◌, ◌-◌, ◌*◌, Bool, true, false, ◌&&◌, [], ◌∷◌, leb, length, take, drop,
  if◌then◌else◌, Bytes,
}

-- The errors of `parseSNI`.
pub data SniError : Type 0 where
  truncated_record_header not_a_handshake truncated_record_body not_a_client_hello : SniError
  truncated_handshake truncated_hello truncated_ciphers truncated_compression : SniError
  truncated_extensions_header truncated_extensions truncated_extension_header : SniError
  truncated_extension bad_server_name bad_server_name_list bad_server_name_entry : SniError

-- `out_of_fuel` is the end of a loop that was given too few rounds.
pub data Outcome (A : Type 0) : Type 0 where
  panicked out_of_fuel : Outcome A
  refused : SniError → Outcome A
  done : A → Outcome A

infixl 5 ◌>>=◌ ◌>>◌
unfoldable pub ◌>>=◌ : {A B : Type 0} → Outcome A → (A → Outcome B) → Outcome B
panicked >>= f = panicked
out_of_fuel >>= f = out_of_fuel
refused e >>= f = refused e
done a >>= f = f a

abbrev pub ◌>>◌ : {B : Type 0} → Outcome (Unit {0}) → Outcome B → Outcome B
m >> k = m >>= λ _. k

-- `b[i]`.
unfoldable pub byte_at : Bytes → ℕ → Outcome ℕ
byte_at [] i = panicked
byte_at (c ∷ b) zero = done c
byte_at (c ∷ b) (suc i) = byte_at b i

-- `b[from:to]`.
unfoldable pub slice : Bytes → ℕ → ℕ → Outcome Bytes
slice b from to =
    if leb from to && leb to (length b) then done (take (to - from) (drop from b)) else panicked

-- `binary.BigEndian.Uint16(b[i:i+2])`, and three bytes in the same order.
unfoldable pub uint16_at : Bytes → ℕ → Outcome ℕ
unfolding byte_at
uint16_at b i = do high ← byte_at b i; low ← byte_at b (i + 1); done (high * 256 + low)

unfoldable pub uint24_at : Bytes → ℕ → Outcome ℕ
uint24_at b i = do high ← byte_at b i; low ← uint16_at b (i + 1); done (high * 65536 + low)

-- `if len(b) < n { return "", e }`.
unfoldable pub need : ℕ → Bytes → SniError → Outcome (Unit {0})
need n b e = if leb n (length b) then done tt else refused e

unfoldable pub or_refuse : Bool → SniError → Outcome (Unit {0})
or_refuse true e = done tt
or_refuse false e = refused e
