-- ===== src/Hairpin/Dispatch/Suffix.antt =====
-- What `peerSuffix` (internal/serviceapi/hairpin_sni.go) makes of a name.
use devm.Base.{
  ℕ, suc, ◌-◌, ◌≡◌, refl, sym, ap, ◌∙◌, ◌⊎◌, inl, inr, true, false, some, Option-cases, [], ◌∷◌,
  ◌++◌, append_assoc, arith, is_nil, length, take, drop, take-append-drop, Bytes, codes, bytes_eq,
  bytes_beq_iff, has_suffix, trim_suffix, last_index_byte,
}
use devm.Hairpin.Peers.{zone}
use devm.Hairpin.Dispatch.{last_label, peer_suffix}

-- A name is a zone or lies below it.
abbrev pub IsBelow : (sni zone_name : Bytes) → Type 0
IsBelow sni zone_name =
    (sni ≡ zone_name) ⊎ ((sub : Bytes) × (sni ≡ sub ++ (codes "." ++ zone_name)))

-- A text around a byte at some position.
record IsSplit (s : Bytes) (d i : ℕ) : Type 0 where
  pub front : Bytes
  pub back : Bytes
  pub whole : s ≡ front ++ d ∷ back
  pub here : length front ≡ i

last_index_byte-IsSplit : (s : Bytes) (d i : ℕ) → last_index_byte s d ≡ some i → IsSplit s d i
last_index_byte-IsSplit [] d i h = ground arith
last_index_byte-IsSplit (c ∷ s) d i h = elim (Option-cases (last_index_byte s d)) [
  | inl absent ↦ record {
    front = [];
    back = s;
    whole = ap (λ x. x ∷ s) (ground (arith, absent));
    here = ground (arith, absent);
  }
  | inr (j, there) ↦
      let rest = last_index_byte-IsSplit s d j there in
      record {
        front = c ∷ rest.front;
        back = rest.back;
        whole = ap (λ x. c ∷ x) rest.whole;
        here = let e = rest.here in ground (arith, there, e);
      }
]

drop-behind : (a b : Bytes) (d : ℕ) → drop (suc (length a)) (a ++ d ∷ b) ≡ b
drop-behind [] b d = refl
drop-behind (c ∷ a) b d = drop-behind a b d

split-drop : (s : Bytes) (d i : ℕ) (sp : IsSplit s d i) → drop (suc i) s ≡ sp.back
split-drop s d i sp = rw (sp.whole, sym sp.here) (drop-behind sp.front sp.back d)

has_suffix-split : (s t : Bytes) → has_suffix s t ≡ true → s ≡ trim_suffix s t ++ t
has_suffix-split s t h =
    let n = length s - length t in
    let e : drop n s ≡ t = ground (arith, bytes_beq_iff (drop n s) t) in
    let whole = take-append-drop n s in
    let trimmed : trim_suffix s t ≡ take n s = ground arith in
    rw (trimmed) (sym (ap (λ x. take n s ++ x) (sym e) ∙ whole))

last_label-split :
    (head : Bytes)
    → (head ≡ last_label head) ⊎ ((sub : Bytes) × (head ≡ sub ++ (codes "." ++ last_label head)))
unfolding last_label
last_label-split head = elim (Option-cases (last_index_byte head b'.')) [
  | inl absent ↦ inl (rw (absent, last_label) refl)
  | inr (i, there) ↦
      let sp = last_index_byte-IsSplit head b'.' i there in
      let label : last_label head ≡ sp.back = rw (there, last_label) (split-drop head b'.' i sp) in
      inr (sp.front, sp.whole ∙ ap (λ b. sp.front ++ b'.' ∷ b) (sym label))
]

-- The tests of `peerSuffix` that a name has passed.
peer_suffix-zone :
    (sni tld : Bytes)
    → is_nil (peer_suffix sni tld) ≡ false
    → (has_suffix sni (codes "." ++ tld) ≡ true)
      × (peer_suffix sni tld ≡ zone (last_label (trim_suffix sni (codes "." ++ tld))) tld)
unfolding peer_suffix
peer_suffix-zone sni tld h = ground arith

-- A name with a peer suffix is that zone or lies below it.
pub peer_suffix-IsBelow :
    (sni tld : Bytes) → is_nil (peer_suffix sni tld) ≡ false → IsBelow sni (peer_suffix sni tld)
peer_suffix-IsBelow sni tld h =
    let tests = peer_suffix-zone sni tld h in
    let head = trim_suffix sni (codes "." ++ tld) in
    let whole = has_suffix-split sni (codes "." ++ tld) tests.0 in
    elim (last_label-split head) [
      | inl same ↦ inl (whole ∙ ap (λ x. x ++ (codes "." ++ tld)) same ∙ sym tests.1)
      | inr (sub, below) ↦
          let label = last_label head in
          inr (
            sub,
            whole
                ∙ ap (λ x. x ++ (codes "." ++ tld)) below
                ∙ append_assoc sub (codes "." ++ label) (codes "." ++ tld)
                ∙ ap (λ x. sub ++ (codes "." ++ x)) (sym tests.1),
          )
    ]
