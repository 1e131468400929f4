-- ===== src/Hairpin/Sni.antt =====
-- `parseSNI` (internal/serviceapi/sni_parse.go): the host name of a ClientHello.
use devm.Base.{ℕ, zero, suc, ◌+◌, [], ltb, nat_beq, length, is_nil, if◌then◌else◌, Bytes}
use devm.Hairpin.Slice.{
  truncated_record_header, not_a_handshake, truncated_record_body, not_a_client_hello,
  truncated_handshake, truncated_hello, truncated_ciphers, truncated_compression,
  truncated_extensions_header, truncated_extensions, truncated_extension_header,
  truncated_extension, bad_server_name, bad_server_name_list, bad_server_name_entry, Outcome,
  out_of_fuel, done, ◌>>=◌, ◌>>◌, byte_at, slice, uint16_at, uint24_at, need, or_refuse,
}
pub mod Total
pub mod At
pub mod Wire
pub mod Round

-- The loop over the names of a server_name extension; an entry that is no host name is skipped.
unfoldable pub first_host_name : ℕ → Bytes → Outcome Bytes
first_host_name zero list = out_of_fuel
first_host_name (suc fuel) list = if ltb (length list) 3 then done [] else do
  name_type ← byte_at list 0
  name_len ← uint16_at list 1
  need (3 + name_len) list bad_server_name_entry
  let rest = slice list (3 + name_len) (length list) >>= first_host_name fuel
  if nat_beq name_type 0 then slice list 3 (3 + name_len) else rest

-- The body of a server_name extension.
unfoldable pub server_name : Bytes → Outcome Bytes
unfolding first_host_name
server_name body = do
  need 2 body bad_server_name
  list_len ← uint16_at body 0
  need (2 + list_len) body bad_server_name_list
  list ← slice body 2 (2 + list_len)
  first_host_name (suc (length list)) list

-- The loop over the extensions.
unfoldable pub find_server_name : ℕ → Bytes → Outcome Bytes
unfolding server_name
find_server_name zero exts = out_of_fuel
find_server_name (suc fuel) exts = if is_nil exts then done [] else do
  need 4 exts truncated_extension_header
  ext_type ← uint16_at exts 0
  ext_len ← uint16_at exts 2
  need (4 + ext_len) exts truncated_extension
  body ← slice exts 4 (4 + ext_len)
  rest ← slice exts (4 + ext_len) (length exts)
  if nat_beq ext_type 0 then server_name body else find_server_name fuel rest

-- The ClientHello behind its handshake header: `off` is where the extensions start.
unfoldable pub hello_name : Bytes → ℕ → Outcome Bytes
unfolding find_server_name
hello_name h off = if nat_beq (length h) off then done [] else do
  need (off + 2) h truncated_extensions_header
  ext_total ← uint16_at h off
  need (off + 2 + ext_total) h truncated_extensions
  exts ← slice h (off + 2) (off + 2 + ext_total)
  find_server_name (suc (length exts)) exts

-- Version, random, session id, ciphers and compression are skipped.
unfoldable pub parse_hello : Bytes → Outcome Bytes
unfolding hello_name
parse_hello h = do
  need 35 h truncated_hello
  sid_len ← byte_at h 34
  let ciphers = 35 + sid_len
  need (ciphers + 2) h truncated_ciphers
  cipher_len ← uint16_at h ciphers
  let compression = ciphers + 2 + cipher_len
  need (compression + 1) h truncated_compression
  comp_len ← byte_at h compression
  need (compression + 1 + comp_len) h truncated_compression
  hello_name h (compression + 1 + comp_len)

-- The handshake message of a record.
unfoldable pub parse_handshake : Bytes → Outcome Bytes
unfolding parse_hello
parse_handshake body = do
  need 4 body not_a_client_hello
  message ← byte_at body 0
  or_refuse (nat_beq message 1) not_a_client_hello
  hello_len ← uint24_at body 1
  need (4 + hello_len) body truncated_handshake
  h ← slice body 4 (4 + hello_len)
  parse_hello h

unfoldable pub parse_sni : Bytes → Outcome Bytes
unfolding parse_handshake
parse_sni rec = do
  need 5 rec truncated_record_header
  content_type ← byte_at rec 0
  or_refuse (nat_beq content_type 22) not_a_handshake
  record_len ← uint16_at rec 3
  need (5 + record_len) rec truncated_record_body
  body ← slice rec 5 (5 + record_len)
  parse_handshake body
