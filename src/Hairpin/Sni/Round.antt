-- ===== src/Hairpin/Sni/Round.antt =====
-- What `parseSNI` (internal/serviceapi/sni_parse.go) reads from a ClientHello.
use devm.Base.{
  ℕ, ◌+◌, ◌≤◌, ◌≡◌, ◌≢◌, refl, false, [], ◌∷◌, ◌++◌, arith, nat_beq, length, length-append, All,
  Bytes,
}
use devm.Hairpin.Slice.{
  truncated_record_header, truncated_record_body, not_a_client_hello, truncated_handshake,
  truncated_hello, truncated_ciphers, truncated_compression, truncated_extensions_header,
  truncated_extensions, done, ◌>>=◌, or_refuse,
}
use devm.Hairpin.Sni.{hello_name, parse_hello, parse_handshake, parse_sni}
use devm.Hairpin.Sni.At.{
  At, length-At, start, two_bytes, three_bytes, skip, last_part, byte_at-At, uint16_at-At,
  uint24_at-At, need-At, slice-At,
}
use devm.Hairpin.Sni.Wire.{
  ClientHello, counted, extension, extensions, name_body, all_extensions, hello_bytes, record_bytes,
  find_server_name-others, length-extensions,
}

hello_name-all_extensions :
    (c : ClientHello) (h : Bytes) (off : ℕ)
    → All (λ e. e.0 ≢ 0) c.others
    → At h off (counted (all_extensions c))
    → hello_name h off ≡ done c.name
unfolding hello_name ◌>>=◌
hello_name-all_extensions c h off o at =
    let exts = all_extensions c in
    let content = last_part exts (skip (two_bytes (length exts)) (off + 2) at refl) in
    let size = length-At at in
    let more : nat_beq (length h) off ≡ false = ground arith in
    let parts = length-append (extensions c.others) (extension 0 (name_body c.name) ++ c.rest) in
    let rounds : length c.others ≤ length exts = omega (arith, length-extensions c.others, parts) in
    rw
      (
        more,
        need-At (two_bytes (length exts)) exts (off + 2) truncated_extensions_header at
            (omega arith),
        uint16_at-At (length exts) at,
        need-At exts [] (off + 2 + length exts) truncated_extensions content (omega arith),
        slice-At exts [] (off + 2 + length exts) content refl,
      )
      (find_server_name-others c.others c.name c.rest (length exts) o rounds)

parse_hello-hello_bytes :
    (c : ClientHello)
    → length c.fixed ≡ 34
    → All (λ e. e.0 ≢ 0) c.others
    → parse_hello (hello_bytes c) ≡ done c.name
unfolding parse_hello ◌>>=◌
parse_hello-hello_bytes c size o =
    let h = hello_bytes c in
    let exts = counted (all_extensions c) in
    let tail = length c.compression ∷ c.compression ++ exts in
    let middle = c.ciphers ++ tail in
    let ciphers_at = 35 + length c.session_id in
    let comp_at = ciphers_at + 2 + length c.ciphers in
    let at34 : At h 34 (length c.session_id ∷ c.session_id ++ (counted c.ciphers ++ tail)) =
      skip c.fixed 34 (start h) (omega (arith, size)) in
    let at35 = skip (length c.session_id ∷ []) 35 at34 refl in
    let ciphers : At h ciphers_at (two_bytes (length c.ciphers) ++ middle) =
      skip c.session_id ciphers_at at35 refl in
    let listed : At h (ciphers_at + 2) middle =
      skip (two_bytes (length c.ciphers)) (ciphers_at + 2) ciphers refl in
    let comp : At h comp_at tail = skip c.ciphers comp_at listed refl in
    let comps : At h (comp_at + 1) (c.compression ++ exts) =
      skip (length c.compression ∷ []) (comp_at + 1) comp refl in
    let behind : At h (comp_at + 1 + length c.compression) exts =
      skip c.compression (comp_at + 1 + length c.compression) comps refl in
    rw
      (
        need-At (length c.session_id ∷ []) (c.session_id ++ (counted c.ciphers ++ tail)) 35
            truncated_hello at34 (omega arith),
        byte_at-At at34,
        need-At (two_bytes (length c.ciphers)) middle (ciphers_at + 2) truncated_ciphers ciphers
            (omega arith),
        uint16_at-At (length c.ciphers) ciphers,
        need-At (length c.compression ∷ []) (c.compression ++ exts) (comp_at + 1)
            truncated_compression comp (omega arith),
        byte_at-At comp,
        need-At c.compression exts (comp_at + 1 + length c.compression) truncated_compression comps
            (omega arith),
      )
      (hello_name-all_extensions c h (comp_at + 1 + length c.compression) o behind)

parse_handshake-hello_bytes :
    (c : ClientHello)
    → length c.fixed ≡ 34
    → All (λ e. e.0 ≢ 0) c.others
    → parse_handshake (1 ∷ three_bytes (length (hello_bytes c)) ++ hello_bytes c) ≡ done c.name
unfolding parse_handshake ◌>>=◌ or_refuse
parse_handshake-hello_bytes c size o =
    let h = hello_bytes c in
    let at = start (1 ∷ three_bytes (length h) ++ h) in
    let lens = skip (1 ∷ []) 1 at refl in
    let hello = last_part h (skip (three_bytes (length h)) 4 lens refl) in
    rw
      (
        need-At (1 ∷ three_bytes (length h)) h 4 not_a_client_hello at (omega arith),
        byte_at-At at,
        uint24_at-At (length h) lens,
        need-At h [] (4 + length h) truncated_handshake hello (omega arith),
        slice-At h [] (4 + length h) hello refl,
      )
      (parse_hello-hello_bytes c size o)

-- From the record of a ClientHello, whatever follows it, `parseSNI` reads the name of its server_name
-- extension: 34 bytes of version and random, and no extension of the server_name's type before it.
pub parse_sni-record_bytes :
    (c : ClientHello) (trailing : Bytes)
    → length c.fixed ≡ 34
    → All (λ e. e.0 ≢ 0) c.others
    → parse_sni (record_bytes c ++ trailing) ≡ done c.name
unfolding parse_sni ◌>>=◌ or_refuse
parse_sni-record_bytes c trailing size o =
    let h = hello_bytes c in
    let body = 1 ∷ three_bytes (length h) ++ h in
    let at = start (record_bytes c ++ trailing) in
    let lens : At (record_bytes c ++ trailing) 3 (two_bytes (length body) ++ (body ++ trailing)) =
      skip (22 ∷ 3 ∷ 1 ∷ []) 3 at refl in
    let content : At (record_bytes c ++ trailing) 5 (body ++ trailing) =
      skip (two_bytes (length body)) 5 lens refl in
    rw
      (
        need-At (22 ∷ 3 ∷ 1 ∷ two_bytes (length body)) (body ++ trailing) 5 truncated_record_header
            at (omega arith),
        byte_at-At at,
        uint16_at-At (length body) lens,
        need-At body trailing (5 + length body) truncated_record_body content (omega arith),
        slice-At body trailing (5 + length body) content refl,
      )
      (parse_handshake-hello_bytes c size o)
