-- ===== src/Hairpin/Sni/Wire.antt =====
-- A ClientHello as RFC 5246 and RFC 6066 write it, and what the loops of `parseSNI`
-- (internal/serviceapi/sni_parse.go) find among its extensions.
use devm.Base.{
  ℕ, zero, suc, ◌+◌, ◌≤◌, ◌≡◌, ◌≢◌, refl, ◌∙◌, false, List, [], ◌∷◌, ◌++◌, append_assoc, arith,
  nat_beq, ltb, length, length-append, All, if◌then◌else◌, Bytes,
}
use devm.Hairpin.Slice.{
  bad_server_name, bad_server_name_list, bad_server_name_entry, truncated_extension_header,
  truncated_extension, done, ◌>>=◌,
}
use devm.Hairpin.Sni.{first_host_name, server_name, find_server_name}
use devm.Hairpin.Sni.At.{
  At, start, two_bytes, three_bytes, skip, last_part, byte_at-At, uint16_at-At, need-At, slice-At,
}

abbrev pub counted : Bytes → Bytes
counted b = two_bytes (length b) ++ b

abbrev pub extension : ℕ → Bytes → Bytes
extension ext_type body = two_bytes ext_type ++ counted body

-- A list of one host name.
abbrev pub name_body : Bytes → Bytes
name_body name = counted (0 ∷ counted name)

abbrev pub extensions : List (ℕ × Bytes) → Bytes
extensions [] = []
extensions ((ext_type, body) ∷ es) = extension ext_type body ++ extensions es

-- What a client sends: 34 bytes of version and random, three parts with their lengths, and
-- extensions, among them the name.
pub record ClientHello : Type 0 where
  pub fixed : Bytes
  pub session_id : Bytes
  pub ciphers : Bytes
  pub compression : Bytes
  pub others : List (ℕ × Bytes)
  pub name : Bytes
  pub rest : Bytes

abbrev pub all_extensions : ClientHello → Bytes
all_extensions c = extensions c.others ++ (extension 0 (name_body c.name) ++ c.rest)

abbrev pub hello_bytes : ClientHello → Bytes
hello_bytes c =
    c.fixed
    ++ (length c.session_id ∷ c.session_id
        ++ (counted c.ciphers
            ++ (length c.compression ∷ c.compression ++ counted (all_extensions c))))

abbrev pub record_bytes : ClientHello → Bytes
record_bytes c = let h = hello_bytes c in 22 ∷ 3 ∷ 1 ∷ counted (1 ∷ three_bytes (length h) ++ h)

first_host_name-one :
    (fuel : ℕ) (name : Bytes) → first_host_name (suc fuel) (0 ∷ counted name) ≡ done name
unfolding first_host_name ◌>>=◌
first_host_name-one fuel name =
    let at = start (0 ∷ counted name) in
    let lens = skip (0 ∷ []) 1 at refl in
    let body = last_part name (skip (two_bytes (length name)) 3 lens refl) in
    let enough = need-At name [] (3 + length name) bad_server_name_entry body (omega arith) in
    let long : ltb (length (0 ∷ counted name)) 3 ≡ false = ground arith in
    rw
      (
        long,
        byte_at-At at,
        uint16_at-At (length name) lens,
        enough,
        slice-At name [] (3 + length name) body (omega arith),
      )
      refl

server_name-one : (name : Bytes) → server_name (name_body name) ≡ done name
unfolding server_name ◌>>=◌
server_name-one name =
    let list = 0 ∷ counted name in
    let at = start (counted list) in
    let body = last_part list (skip (two_bytes (length list)) 2 at refl) in
    rw
      (
        need-At (two_bytes (length list)) list 2 bad_server_name at (omega arith),
        uint16_at-At (length list) at,
        need-At list [] (2 + length list) bad_server_name_list body (omega arith),
        slice-At list [] (2 + length list) body (omega arith),
      )
      (first_host_name-one (length list) name)

-- One extension of the loop.
find_server_name-extension :
    (fuel ext_type : ℕ) (body rest : Bytes)
    → find_server_name (suc fuel) (extension ext_type body ++ rest)
      ≡ (if nat_beq ext_type 0 then server_name body else find_server_name fuel rest)
unfolding find_server_name ◌>>=◌
find_server_name-extension fuel ext_type body rest =
    let exts = extension ext_type body ++ rest in
    let at : At exts 0 (two_bytes ext_type ++ (counted body ++ rest)) = start exts in
    let lens : At exts 2 (two_bytes (length body) ++ (body ++ rest)) =
      skip (two_bytes ext_type) 2 at refl in
    let content : At exts 4 (body ++ rest) = skip (two_bytes (length body)) 4 lens refl in
    let behind = last_part rest (skip body (4 + length body) content refl) in
    let size : length exts ≡ 4 + length body + length rest =
      omega (arith, length-append body rest) in
    rw
      (
        need-At (two_bytes ext_type ++ two_bytes (length body)) (body ++ rest) 4
            truncated_extension_header at (omega arith),
        uint16_at-At ext_type at,
        uint16_at-At (length body) lens,
        need-At body rest (4 + length body) truncated_extension content (omega arith),
        slice-At body rest (4 + length body) content refl,
        slice-At rest [] (length exts) behind (omega (arith, size)),
      )
      refl

-- The name is found behind any other extensions.
pub find_server_name-others :
    (others : List (ℕ × Bytes)) (name rest : Bytes) (fuel : ℕ)
    → All (λ e. e.0 ≢ 0) others
    → length others ≤ fuel
    → find_server_name (suc fuel) (extensions others ++ (extension 0 (name_body name) ++ rest))
      ≡ done name
find_server_name-others [] name rest fuel o h =
    find_server_name-extension fuel 0 (name_body name) rest ∙ server_name-one name
find_server_name-others ((ext_type, body) ∷ others) name rest zero o h =
    let no : ⊥ = omega (arith, h) in elim no [ ]
find_server_name-others ((ext_type, body) ∷ others) name rest (suc fuel) o h =
    let behind = extensions others ++ (extension 0 (name_body name) ++ rest) in
    let other : nat_beq ext_type 0 ≡ false = let n = o.0 in ground arith in
    rw
      (
        append_assoc (extension ext_type body) (extensions others)
            (extension 0 (name_body name) ++ rest),
        find_server_name-extension (suc fuel) ext_type body behind,
        other,
      )
      (find_server_name-others others name rest fuel o.1 (omega arith))

pub length-extensions : (others : List (ℕ × Bytes)) → length others ≤ length (extensions others)
length-extensions [] = omega arith
length-extensions ((ext_type, body) ∷ others) =
    omega (arith, length-extensions others, length-append body (extensions others))
