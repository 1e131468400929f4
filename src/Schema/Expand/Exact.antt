-- ===== src/Schema/Expand/Exact.antt =====
-- Which values `expandWorkspace` (internal/schema/env.go) accepts, and what it makes of them.
use devm.Base.{
  ℕ, zero, suc, ◌≡◌, refl, sym, ap, ◌∙◌, ◌↔◌, false, ◌⊎◌, inl, inr, some, Option-cases, Bool-cases,
  List, [], ◌∷◌, ◌++◌, arith, nat_beq, nat_beq_iff, ◌==◌, eq_of_==, length, Bytes, codes, bytes_eq,
}
use mathlib.Core.Path.{subst}
use devm.Schema.Expand.{
  ExpandError, is_ident_start, is_ident_cont, cut_brace, span_ident, named, read_dollar, prepend,
  expand_from, expand_workspace,
}
use devm.Schema.Expand.Parts.{
  Part, byte, escaped, braced, bare, written, meant, all_written, all_meant, goes_on, IsPart,
  AreParts, expand_from-parts,
}

cut_brace-join : (v n r : Bytes) → cut_brace v ≡ some (n, r) → v ≡ n ++ (b'}' ∷ r)
unfolding cut_brace
cut_brace-join [] n r e = absurd (cc e)
cut_brace-join (b ∷ v) n r e = elim (Bool-cases (nat_beq b b'}')) [
  | inl closed ↦ ground (arith, nat_beq_iff b b'}')
  | inr other ↦ elim (Option-cases (cut_brace v)) [
    | inl missing ↦ absurd (ground arith)
    | inr ((m, s), found) ↦ let rest = cut_brace-join v m s found in ground arith
  ]
]

span_ident-join : (v : Bytes) → (span_ident v).0 ++ (span_ident v).1 ≡ v
unfolding span_ident
span_ident-join [] = refl
span_ident-join (b ∷ v) = elim (Bool-cases (is_ident_cont b)) [
  | inl more ↦ rw (more, span_ident) (ap (λ t. b ∷ t) (span_ident-join v))
  | inr last ↦ rw (last, span_ident) refl
]

span_ident_stops : (v : Bytes) → goes_on (span_ident v).1 ≡ false
unfolding span_ident
span_ident_stops [] = refl
span_ident_stops (b ∷ v) = elim (Bool-cases (is_ident_cont b)) [
  | inl more ↦ rw (more, span_ident) (span_ident_stops v)
  | inr last ↦ rw (last, span_ident) last
]

named-inr :
    (root n r w s : Bytes)
    → named root (n, r) ≡ inr (w, s)
    → (n ≡ codes "WORKSPACE") × (w ≡ root) × (s ≡ r)
unfolding named
named-inr root n r w s e = elim (Bool-cases (n == codes "WORKSPACE")) [
  | inl same ↦ (eq_of_== n (codes "WORKSPACE") same, ground arith, ground arith)
  | inr other ↦ absurd (ground arith)
]

-- What is read behind a dollar is a part.
record IsRead (root v w r : Bytes) : Type 0 where
  part : Part
  ends : IsPart part r
  text : b'$' ∷ v ≡ written part ++ r
  value : w ≡ meant root part

IsRead-braced :
    (root v w r : Bytes) (cut : Bytes × Bytes)
    → cut_brace v ≡ some cut
    → named root cut ≡ inr (w, r)
    → IsRead root (b'{' ∷ v) w r
IsRead-braced root v w r (n, s) found e =
    let is = named-inr root n s w r e in
    let join = cut_brace-join v n s found in
    record {
      part = braced;
      ends = tt;
      text = ap (λ t. b'$' ∷ b'{' ∷ t) (join ∙ rw (is.0, is.2) refl);
      value = is.1;
    }

IsRead-bare : (root v w r : Bytes) → named root (span_ident v) ≡ inr (w, r) → IsRead root v w r
IsRead-bare root v w r e =
    let is = named-inr root (span_ident v).0 (span_ident v).1 w r e in
    record {
      part = bare;
      ends = rw (is.2) (span_ident_stops v);
      text = ap (λ t. b'$' ∷ t) (sym (span_ident-join v) ∙ rw (is.0, is.2) refl);
      value = is.1;
    }

read_dollar-IsRead : (root v w r : Bytes) → read_dollar root v ≡ inr (w, r) → IsRead root v w r
unfolding read_dollar
read_dollar-IsRead root [] w r e = absurd (cc e)
read_dollar-IsRead root (b ∷ v) w r e = elim (Bool-cases (nat_beq b b'$')) [
  | inl dollar ↦ record {
    part = escaped;
    ends = tt;
    text = ground (arith, nat_beq_iff b b'$');
    value = ground arith;
  }
  | inr plain ↦ elim (Bool-cases (nat_beq b b'{')) [
    | inl brace ↦ elim (Option-cases (cut_brace v)) [
      | inl missing ↦ absurd (ground arith)
      | inr (cut, found) ↦
          subst (λ c. IsRead root (c ∷ v) w r) (sym ((nat_beq_iff b b'{').0 brace))
            (IsRead-braced root v w r cut found (ground arith))
    ]
    | inr other ↦ elim (Bool-cases (is_ident_start b)) [
      | inl starts ↦ IsRead-bare root (b ∷ v) w r (ground arith)
      | inr stray ↦ absurd (ground arith)
    ]
  ]
]

-- The parts of a value, and what they mean.
pub record IsExpansion (root v out : Bytes) : Type 0 where
  pub parts : List Part
  pub are_parts : AreParts parts
  pub text : all_written parts ≡ v
  pub value : all_meant root parts ≡ out

IsExpansion-part :
    (root w v out : Bytes) (t : Part) (rest : IsExpansion root v out)
    → IsPart t v
    → w ≡ meant root t
    → IsExpansion root (written t ++ v) (w ++ out)
IsExpansion-part root w v out t rest ends same = record {
  parts = t ∷ rest.parts;
  are_parts = (subst (IsPart t) (sym rest.text) ends, rest.are_parts);
  text = ap (λ u. written t ++ u) rest.text;
  value = rw (same) (ap (λ u. meant root t ++ u) rest.value);
}

-- What is written in front of the rest.
prepend-inr :
    (w out : Bytes) (o : ExpandError ⊎ Bytes)
    → prepend w o ≡ inr out
    → (tail : Bytes) × ((o ≡ inr tail) × (w ++ tail ≡ out))
unfolding prepend
prepend-inr w out (inl e) h = absurd (cc h)
prepend-inr w out (inr tail) h = (tail, (refl, ground arith))

Read-cases :
    (o : ExpandError ⊎ (Bytes × Bytes))
    → ((e : ExpandError) × (o ≡ inl e)) ⊎ ((w : Bytes) × ((r : Bytes) × (o ≡ inr (w, r))))
Read-cases (inl e) = inl (e, refl)
Read-cases (inr (w, r)) = inr (w, (r, refl))

expand_from-IsExpansion :
    (root : Bytes) (fuel : ℕ) (v out : Bytes)
    → expand_from root fuel v ≡ inr out
    → IsExpansion root v out
unfolding expand_from
expand_from-IsExpansion root fuel [] out e = record {
  parts = [];
  are_parts = tt;
  text = refl;
  value = ground arith;
}
expand_from-IsExpansion root zero (c ∷ v) out e = absurd (cc e)
expand_from-IsExpansion root (suc fuel) (c ∷ v) out e = elim (Bool-cases (nat_beq c b'$')) [
  | inr plain ↦
      let cut = prepend-inr (c ∷ []) out (expand_from root fuel v) (rw (plain, expand_from) at e) in
      subst (IsExpansion root (c ∷ v)) cut.1.1 (
        IsExpansion-part root (c ∷ []) v cut.0 (byte c)
          (expand_from-IsExpansion root fuel v cut.0 cut.1.0) plain refl)
  | inl dollar ↦ elim (Read-cases (read_dollar root v)) [
    | inl (err, refused) ↦ absurd (ground arith)
    | inr (w, (r, read)) ↦
        let cut =
          prepend-inr w out (expand_from root fuel r) (rw (dollar, read, expand_from) at e) in
        let is = read_dollar-IsRead root v w r read in
        rw ((nat_beq_iff c b'$').0 dollar, is.text)
          (subst (IsExpansion root (written is.part ++ r)) cut.1.1 (
            IsExpansion-part root w r cut.0 is.part
              (expand_from-IsExpansion root fuel r cut.0 cut.1.0) is.ends is.value))
  ]
]

-- A value is accepted, with some result, exactly when it is made of plain bytes, escaped dollars
-- and the variable WORKSPACE in braces or bare, the bare one not followed by a byte of a name; the
-- result has one dollar for each escaped one and the directory for the variable.
pub expand_workspace_iff :
    (v root out : Bytes) → (expand_workspace v root ≡ inr out) ↔ IsExpansion root v out
unfolding expand_workspace
expand_workspace_iff v root out = (
  λ e. expand_from-IsExpansion root (length v) v out e,
  λ x.
      rw (← x.text, ← x.value)
        (expand_from-parts root x.parts (length (all_written x.parts)) (omega arith) x.are_parts),
)
