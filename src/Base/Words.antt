-- ===== src/Base/Words.antt =====
-- The name patterns of the program: a first byte of one class, further bytes of another.
use Prim.Native.Nat.{ℕ}
use mathlib.Core.Bool.{Bool, false, ◌&&◌, ◌||◌}
use mathlib.Core.List.{[], ◌∷◌}
use devm.Base.Tests.{leb, ltb, nat_beq}
use devm.Base.Lists.{all, length}
use devm.Base.Text.{Bytes}

abbrev pub is_lower : ℕ → Bool
is_lower c = leb b'a' c && leb c b'z'

abbrev pub is_upper : ℕ → Bool
is_upper c = leb b'A' c && leb c b'Z'

abbrev pub is_digit : ℕ → Bool
is_digit c = leb b'0' c && leb c b'9'

-- `^[first][rest]*$`.
unfoldable pub is_word : (ℕ → Bool) → (ℕ → Bool) → Bytes → Bool
is_word first rest [] = false
is_word first rest (c ∷ s) = first c && all rest s

abbrev pub lower_or_digit : ℕ → Bool
lower_or_digit c = is_lower c || is_digit c

-- `^[a-z0-9][a-z0-9._-]*$`.
unfoldable pub is_volume_name : Bytes → Bool
unfolding is_word
is_volume_name s =
    is_word lower_or_digit
      (λ c. lower_or_digit c || (nat_beq c b'.' || (nat_beq c b'_' || nat_beq c b'-'))) s

-- `^[a-z0-9][a-z0-9-]{0,62}$`.
unfoldable pub is_dns_label : Bytes → Bool
unfolding is_word
is_dns_label s =
    is_word lower_or_digit (λ c. lower_or_digit c || nat_beq c b'-') s && ltb (length s) 64

-- `^[A-Za-z0-9][A-Za-z0-9_-]*$`.
unfoldable pub is_label : Bytes → Bool
unfolding is_word
is_label s =
    is_word (λ c. is_upper c || lower_or_digit c)
      (λ c. is_upper c || (lower_or_digit c || (nat_beq c b'_' || nat_beq c b'-'))) s

-- `^[a-z][a-z0-9-]*$`.
unfoldable pub is_function_name : Bytes → Bool
unfolding is_word
is_function_name s = is_word is_lower (λ c. lower_or_digit c || nat_beq c b'-') s
