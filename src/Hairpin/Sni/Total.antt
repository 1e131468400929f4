-- ===== src/Hairpin/Sni/Total.antt =====
-- `parseSNI` (internal/serviceapi/sni_parse.go) on any bytes: no read outside of a slice, and loops
-- that end.
use devm.Base.{
  ℕ, zero, suc, ◌+◌, ◌-◌, ◌≤◌, ◌<◌, ◌≡◌, ◌≢◌, refl, Bool, true, false, ◌&&◌, inl, inr, [], ◌∷◌,
  arith, leb, ltb, nat_beq, length, drop, length-take, length-drop, is_nil, if◌then◌else◌,
  Bool-cases, Bytes,
}
use devm.Hairpin.Slice.{
  SniError, Outcome, panicked, out_of_fuel, refused, done, ◌>>=◌, byte_at, slice, uint16_at,
  uint24_at, need, or_refuse,
}
use devm.Hairpin.Sni.{
  first_host_name, server_name, find_server_name, hello_name, parse_hello, parse_handshake,
  parse_sni,
}

-- A value that satisfies `Q`, or an error; no panic, and enough rounds.
abbrev Ends : {A : Type 0} → (A → Type 0) → Outcome A → Type 0
Ends Q panicked = ⊥
Ends Q out_of_fuel = ⊥
Ends Q (refused e) = Unit
Ends Q (done a) = Q a

record Meets {A : Type 0} (Q : A → Type 0) (m : Outcome A) : Type 0 where
  pub ends : Ends Q m

-- Whatever the value.
abbrev IsSound : {A : Type 0} → Outcome A → Type 0
IsSound m = Meets (λ a. Unit) m

bind-Meets :
    {A B : Type 0} {m : Outcome A} {f : A → Outcome B} (Q : A → Type 0) {R : B → Type 0}
    → Meets Q m
    → ((a : A) → Q a → Meets R (f a))
    → Meets R (m >>= f)
unfolding ◌>>=◌
bind-Meets {m = panicked} Q q next = elim (q.ends) [ ]
bind-Meets {m = out_of_fuel} Q q next = elim (q.ends) [ ]
bind-Meets {m = refused e} Q q next = record { ends = tt }
bind-Meets {m = done a} Q q next = next a q.ends

-- A step whose value does not matter.
then-Meets :
    {A B : Type 0} {m : Outcome A} {f : A → Outcome B} {R : B → Type 0}
    → IsSound m
    → ((a : A) → Meets R (f a))
    → Meets R (m >>= f)
then-Meets q next = bind-Meets (λ a. Unit) q (λ a u. next a)

done-Meets : {A : Type 0} {Q : A → Type 0} {a : A} → Q a → Meets Q (done a)
done-Meets q = record { ends = q }

byte_at-IsSound : (b : Bytes) (i : ℕ) → i < length b → IsSound (byte_at b i)
unfolding byte_at
byte_at-IsSound [] i h = omega arith
byte_at-IsSound (c ∷ b) zero h = done-Meets tt
byte_at-IsSound (c ∷ b) (suc i) h = byte_at-IsSound b i (omega arith)

uint16_at-IsSound : (b : Bytes) (i : ℕ) → i + 1 < length b → IsSound (uint16_at b i)
unfolding uint16_at
uint16_at-IsSound b i h =
    then-Meets (byte_at-IsSound b i (omega arith))
      (λ high. then-Meets (byte_at-IsSound b (i + 1) h) (λ low. done-Meets tt))

uint24_at-IsSound : (b : Bytes) (i : ℕ) → i + 2 < length b → IsSound (uint24_at b i)
unfolding uint24_at
uint24_at-IsSound b i h =
    then-Meets (byte_at-IsSound b i (omega arith))
      (λ high. then-Meets (uint16_at-IsSound b (i + 1) (omega arith)) (λ low. done-Meets tt))

-- A slice inside of the length.
slice-Meets :
    (b : Bytes) (from to : ℕ)
    → from ≤ to
    → to ≤ length b
    → Meets (λ s. length s ≡ to - from) (slice b from to)
unfolding slice
slice-Meets b from to h k = elim (Bool-cases (leb from to && leb to (length b))) [
  | inl inside ↦
      rw inside
        (done-Meets (omega (arith, length-take (to - from) (drop from b), length-drop from b)))
  | inr outside ↦ ground arith
]

need-Meets : (n : ℕ) (b : Bytes) (e : SniError) → Meets (λ u. n ≤ length b) (need n b e)
unfolding need
need-Meets n b e = elim (Bool-cases (leb n (length b))) [
  | inl enough ↦ rw enough (done-Meets (ground arith))
  | inr short ↦ rw short (record { ends = tt })
]

or_refuse-IsSound : (t : Bool) (e : SniError) → IsSound (or_refuse t e)
unfolding or_refuse
or_refuse-IsSound true e = done-Meets tt
or_refuse-IsSound false e = record { ends = tt }

if-Meets :
    {A : Type 0} {Q : A → Type 0} {m n : Outcome A} (t : Bool)
    → (t ≡ true → Meets Q m)
    → (t ≡ false → Meets Q n)
    → Meets Q (if t then m else n)
if-Meets true a b = a refl
if-Meets false a b = b refl

weaken-Meets : {A : Type 0} {Q : A → Type 0} {m : Outcome A} → Meets Q m → IsSound m
weaken-Meets {m = panicked} q = elim (q.ends) [ ]
weaken-Meets {m = out_of_fuel} q = elim (q.ends) [ ]
weaken-Meets {m = refused e} q = record { ends = tt }
weaken-Meets {m = done a} q = record { ends = tt }

first_host_name-IsSound :
    (fuel : ℕ) (list : Bytes) → length list < fuel → IsSound (first_host_name fuel list)
unfolding first_host_name
first_host_name-IsSound zero list h = omega arith
first_host_name-IsSound (suc fuel) list h =
    if-Meets (ltb (length list) 3) (λ short. done-Meets tt)
      (λ long. then-Meets (byte_at-IsSound list 0 (ground arith)) (λ name_type.
        then-Meets (uint16_at-IsSound list 1 (ground arith)) (λ name_len.
          bind-Meets _ (need-Meets (3 + name_len) list _) (λ u enough.
            if-Meets (nat_beq name_type 0)
              (λ e. weaken-Meets (slice-Meets list 3 (3 + name_len) (omega arith) enough))
              (λ e.
                bind-Meets _ (slice-Meets list (3 + name_len) (length list) enough (omega arith))
                  (λ rest shorter. first_host_name-IsSound fuel rest (omega arith)))))))

server_name-IsSound : (body : Bytes) → IsSound (server_name body)
unfolding server_name
server_name-IsSound body = bind-Meets _ (need-Meets 2 body _) (λ u two.
    then-Meets (uint16_at-IsSound body 0 (omega arith)) (λ list_len.
      bind-Meets _ (need-Meets (2 + list_len) body _) (λ u enough.
        then-Meets (weaken-Meets (slice-Meets body 2 (2 + list_len) (omega arith) enough))
          (λ list. first_host_name-IsSound (suc (length list)) list (omega arith)))))

find_server_name-IsSound :
    (fuel : ℕ) (exts : Bytes) → length exts < fuel → IsSound (find_server_name fuel exts)
unfolding find_server_name
find_server_name-IsSound zero exts h = omega arith
find_server_name-IsSound (suc fuel) exts h =
    if-Meets (is_nil exts) (λ empty. done-Meets tt)
      (λ more. bind-Meets _ (need-Meets 4 exts _) (λ u four.
        then-Meets (uint16_at-IsSound exts 0 (omega arith)) (λ ext_type.
          then-Meets (uint16_at-IsSound exts 2 (omega arith)) (λ ext_len.
            bind-Meets _ (need-Meets (4 + ext_len) exts _) (λ u enough.
              then-Meets (weaken-Meets (slice-Meets exts 4 (4 + ext_len) (omega arith) enough))
                (λ body.
                  bind-Meets _ (slice-Meets exts (4 + ext_len) (length exts) enough (omega arith))
                    (λ rest shorter.
                      if-Meets (nat_beq ext_type 0) (λ e. server_name-IsSound body)
                        (λ e. find_server_name-IsSound fuel rest (omega arith)))))))))

hello_name-IsSound : (h : Bytes) (off : ℕ) → IsSound (hello_name h off)
unfolding hello_name
hello_name-IsSound h off =
    if-Meets (nat_beq (length h) off) (λ e. done-Meets tt)
      (λ e. bind-Meets _ (need-Meets (off + 2) h _) (λ u two.
        then-Meets (uint16_at-IsSound h off (omega arith)) (λ ext_total.
          bind-Meets _ (need-Meets (off + 2 + ext_total) h _) (λ u enough.
            then-Meets
              (weaken-Meets (slice-Meets h (off + 2) (off + 2 + ext_total) (omega arith) enough))
              (λ exts. find_server_name-IsSound (suc (length exts)) exts (omega arith))))))

parse_hello-IsSound : (h : Bytes) → IsSound (parse_hello h)
unfolding parse_hello
parse_hello-IsSound h = bind-Meets _ (need-Meets 35 h _) (λ u fixed.
    then-Meets (byte_at-IsSound h 34 (omega arith)) (λ sid_len.
      bind-Meets _ (need-Meets (35 + sid_len + 2) h _) (λ u two.
        then-Meets (uint16_at-IsSound h (35 + sid_len) (omega arith)) (λ cipher_len.
          bind-Meets _ (need-Meets (35 + sid_len + 2 + cipher_len + 1) h _) (λ u one.
            then-Meets (byte_at-IsSound h (35 + sid_len + 2 + cipher_len) (omega arith))
              (λ comp_len.
                then-Meets (weaken-Meets (need-Meets _ h _)) (λ u. hello_name-IsSound h _)))))))

parse_handshake-IsSound : (body : Bytes) → IsSound (parse_handshake body)
unfolding parse_handshake
parse_handshake-IsSound body = bind-Meets _ (need-Meets 4 body _) (λ u four.
    then-Meets (byte_at-IsSound body 0 (omega arith)) (λ message.
      then-Meets (or_refuse-IsSound _ _) (λ u.
        then-Meets (uint24_at-IsSound body 1 (omega arith)) (λ hello_len.
          bind-Meets _ (need-Meets (4 + hello_len) body _) (λ u enough.
            then-Meets (weaken-Meets (slice-Meets body 4 (4 + hello_len) (omega arith) enough))
              parse_hello-IsSound)))))

parse_sni-IsSound : (rec : Bytes) → IsSound (parse_sni rec)
unfolding parse_sni
parse_sni-IsSound rec = bind-Meets _ (need-Meets 5 rec _) (λ u five.
    then-Meets (byte_at-IsSound rec 0 (omega arith)) (λ content_type.
      then-Meets (or_refuse-IsSound _ _) (λ u.
        then-Meets (uint16_at-IsSound rec 3 (omega arith)) (λ rec_len.
          bind-Meets _ (need-Meets (5 + rec_len) rec _) (λ u enough.
            then-Meets (weaken-Meets (slice-Meets rec 5 (5 + rec_len) (omega arith) enough))
              parse_handshake-IsSound)))))

IsSound-ends : {A : Type 0} (m : Outcome A) → IsSound m → (m ≢ panicked) × (m ≢ out_of_fuel)
IsSound-ends panicked s = elim (s.ends) [ ]
IsSound-ends out_of_fuel s = elim (s.ends) [ ]
IsSound-ends (refused e) s = (ground arith, ground arith)
IsSound-ends (done a) s = (ground arith, ground arith)

-- On any bytes `parseSNI` returns: no index and no slice of it is outside of the length of what it
-- reads from, and its two loops end within one round more than there are bytes.
pub parse_sni_ends : (rec : Bytes) → (parse_sni rec ≢ panicked) × (parse_sni rec ≢ out_of_fuel)
parse_sni_ends rec = IsSound-ends (parse_sni rec) (parse_sni-IsSound rec)
