-- ===== src/Hairpin/Dispatch.antt =====
-- `hairpinDispatchHTTPS` (internal/serviceapi/hairpin_sni.go): what becomes of a connection that a
-- guest opens to the HTTPS port of its project.
use devm.Base.{
  ℕ, suc, ◌+◌, Bool, ◌&&◌, ◌||◌, not, Option, none, some, [], ◌∷◌, ◌++◌, leb, nat_beq, is_nil,
  length, take, drop, if◌then◌else◌, ◌==◌, Bytes, codes, bytes_eq, has_suffix, trim_suffix,
  last_index_byte,
}
use devm.Base.Assoc.{Map, lookup}
use devm.Hairpin.Slice.{Outcome, panicked, out_of_fuel, refused, done, uint16_at}
use devm.Hairpin.Sni.{parse_sni}
use devm.Hairpin.Peers.{PeersIndex, PeerPorts, zone, peer_hairpins_for}
pub mod Suffix
pub mod Declared

-- The text behind the last dot.
unfoldable pub last_label : Bytes → Bytes
last_label head = elim (last_index_byte head b'.') [ none ↦ head | some i ↦ drop (suc i) head ]

-- `peerSuffix`.
unfoldable pub peer_suffix : (sni tld : Bytes) → Bytes
unfolding last_label
peer_suffix sni tld =
    let head = last_label (trim_suffix sni (codes "." ++ tld)) in
    if is_nil sni || is_nil tld
    then []
    else if sni == tld
    then []
    else if not (has_suffix sni (codes "." ++ tld))
    then []
    else if is_nil head
    then []
    else zone head tld

-- How a connection ends: closed without a word, with an unrecognized_name alert, served with the
-- daemon's own certificate, or spliced to an address; `crashed` is a panic of the parser.
pub data Verdict : Type 0 where
  closed alerted served crashed : Verdict
  spliced : (peer : Bytes) → Verdict

-- Go's bufio.Reader holds 4096 bytes and peeks no more.
abbrev pub buffer_size : ℕ
buffer_size = 4096

-- `br.Peek(n)` over what the client sends before the deadline.
unfoldable pub peek : ℕ → Bytes → Option Bytes
peek n sent = if leb n (length sent) && leb n buffer_size then some (take n sent) else none

-- The first record: its header, and then the whole of it.
unfoldable pub peek_record : Bytes → Option Bytes
unfolding peek
peek_record sent = elim (peek 5 sent) [
  | none ↦ none
  | some [] ↦ none
  | some (c ∷ rest) ↦
      if nat_beq c 22
      then elim (uint16_at (c ∷ rest) 3) [ done n ↦ peek (5 + n) sent | _ ↦ none ]
      else none
]

abbrev pub is_own : (sni own_zone : Bytes) → Bool
is_own sni own_zone =
    not (is_nil sni) && (sni == own_zone || has_suffix sni (codes "." ++ own_zone))

-- The arm of a declared peer: what `dial` and the first write say, by the address.
unfoldable pub splice_to : (dial write : Bytes → Bool) → Option Bytes → Verdict
splice_to dial write none = alerted
splice_to dial write (some peer) =
    if is_nil peer
    then alerted
    else if not (dial peer)
    then alerted
    else if not (write peer)
    then closed
    else spliced peer

unfoldable pub dispatch_name :
    (dial write : Bytes → Bool) → (tld project : Bytes) → Map Bytes Bytes → Bytes → Verdict
unfolding splice_to peer_suffix
dispatch_name dial write tld project hairpins sni =
    if is_own sni (zone project tld)
    then served
    else if is_nil (peer_suffix sni tld)
    then alerted
    else splice_to dial write (lookup (peer_suffix sni tld) hairpins)

-- The three ways for what the parser says of the record.
unfoldable pub dispatch_sni :
    (dial write : Bytes → Bool) → (tld project : Bytes) → Map Bytes Bytes → Outcome Bytes → Verdict
unfolding dispatch_name
dispatch_sni dial write tld project hairpins panicked = crashed
dispatch_sni dial write tld project hairpins out_of_fuel = crashed
dispatch_sni dial write tld project hairpins (refused e) = alerted
dispatch_sni dial write tld project hairpins (done sni) =
    dispatch_name dial write tld project hairpins sni

unfoldable pub dispatch_record :
    (dial write : Bytes → Bool) → (tld project : Bytes) → Map Bytes Bytes → Option Bytes → Verdict
unfolding dispatch_sni
dispatch_record dial write tld project hairpins none = closed
dispatch_record dial write tld project hairpins (some rec) =
    dispatch_sni dial write tld project hairpins (parse_sni rec)

unfoldable pub hairpin_dispatch_https :
    (dial write : Bytes → Bool)
    → (tld project : Bytes) → Map Bytes PeerPorts
    → PeersIndex
    → Bytes
    → Verdict
unfolding dispatch_record peek_record
hairpin_dispatch_https dial write tld project infos peers sent =
    dispatch_record dial write tld project (peer_hairpins_for project infos tld peers)
      (peek_record sent)
