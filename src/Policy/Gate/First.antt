-- ===== src/Policy/Gate/First.antt =====
-- Which name `secretGateReject` answers: the one whose unsafe token stands first in the path.
use devm.Base.{
  ℕ, ◌≤◌, ◌≡◌, refl, sym, ◌⊎◌, inl, inr, Bool, true, false, ◌||◌, not, Option, none, some, List, [],
  ◌∷◌, ◌++◌, arith, ltb, nat_eq, bool_eq, pair_eq, Bool-cases, Option-cases, is_nil, All, Bytes,
  bytes_eq, has_prefix, index, contains,
}
use mathlib.Core.List.{Memᴰ}
use devm.Policy.Gate.{
  Backend, token_of, token_prefix, token_suffix, offence, Best, better, scan_names, gate_reject,
}

has_prefix_left : (s t u : Bytes) → has_prefix s (t ++ u) ≡ true → has_prefix s t ≡ true
has_prefix_left s [] u h = refl
has_prefix_left [] (d ∷ t) u h = cc
has_prefix_left (c ∷ s) (d ∷ t) u h = ground (arith, has_prefix_left s t u)

index-prefix : (s t u : Bytes) {i : ℕ} → index s (t ++ u) ≡ some i → contains s t ≡ true
index-prefix [] t u h = ground (arith, has_prefix_left [] t u)
index-prefix (c ∷ s) t u h = elim (Option-cases (index s (t ++ u))) [
  | inl missed ↦ ground (arith, has_prefix_left (c ∷ s) t u)
  | inr (j, e) ↦ ground (arith, has_prefix_left (c ∷ s) t u, index-prefix s t u e)
]

-- A path with no token prefix has no token.
offence-none :
    (be : Backend) (project path n : Bytes)
    → contains path token_prefix ≡ false
    → offence be project path n ≡ none
unfolding offence token_of
offence-none be project path n h = elim (Option-cases (index path (token_of n))) [
  | inl e ↦ rw (e, offence)
  | inr (i, e) ↦ cc (h, index-prefix path token_prefix (n ++ token_suffix) e)
]

-- A position that is at most every one at which a name offends.
abbrev Precedes : (Bytes → Option ℕ) → ℕ → List Bytes → Type 0
Precedes at p ns = All (λ m. (q : ℕ) → at m ≡ some q → p ≤ q) ns

-- What a scan of `ns` makes of the best before it.
abbrev IsScan : (Bytes → Option ℕ) → List Bytes → Best → Best → Type 0
IsScan at ns best none = (best ≡ none) × All (λ m. at m ≡ none) ns
IsScan at ns best (some (p, n)) =
    ((best ≡ some (p, n)) ⊎ (Memᴰ n ns × (at n ≡ some p)))
    × Precedes at p ns
    × ((q : ℕ) (m : Bytes) → best ≡ some (q, m) → p ≤ q)

-- One round: the best so far stays, or the name takes its place.
module _ (at : Bytes → Option ℕ) (n : Bytes) (ns : List Bytes) where
  IsScan-kept :
      (best : Best) (p : ℕ) (x : Bytes)
      → ((q : ℕ) → at n ≡ some q → p ≤ q)
      → IsScan at ns best (some (p, x))
      → IsScan at (n ∷ ns) best (some (p, x))
  IsScan-kept best p x first (inl same, rest, before) = (inl same, (first, rest), before)
  IsScan-kept best p x first (inr (mem, e), rest, before) =
      (inr (Memᴰ.tail mem, e), (first, rest), before)

  IsScan-replaced :
      (best : Best) (q p : ℕ) (x : Bytes)
      → at n ≡ some q
      → ((b : ℕ) (y : Bytes) → best ≡ some (b, y) → q ≤ b)
      → IsScan at ns (some (q, n)) (some (p, x))
      → IsScan at (n ∷ ns) best (some (p, x))
  IsScan-replaced best q p x e first (was, rest, before) =
      let p≤q : p ≤ q = before q n refl in
      (inr (found was), ((λ r f. ground arith), rest), (λ b y f. omega (arith, first b y f)))
    where
      found :
          (◌≡◌ {A = Best} (some (q, n)) (some (p, x))) ⊎ (Memᴰ x ns × (at x ≡ some p))
          → Memᴰ x (n ∷ ns) × (at x ≡ some p)
      found (inl same) =
          let n≡x : n ≡ x = ground arith in (Memᴰ.head (sym n≡x), rw (← n≡x) (ground arith))
      found (inr (mem, f)) = (Memᴰ.tail mem, f)

  IsScan-cons : (best r : Best) → IsScan at ns (better (at n) n best) r → IsScan at (n ∷ ns) best r
  unfolding better
  IsScan-cons best r h = elim (Option-cases (at n)) [
    | inl e ↦ skipped r (rw (e, better) at h) e
    | inr (q, e) ↦ taken best r q e (rw (e, better) at h)
  ]
    where
      skipped : (r : Best) → IsScan at ns best r → at n ≡ none → IsScan at (n ∷ ns) best r
      skipped none h e = (h.0, (e, h.1))
      skipped (some (p, x)) h e = IsScan-kept best p x (λ q f. absurd (ground arith)) h

      taken :
          (best r : Best) (q : ℕ)
          → at n ≡ some q
          → IsScan at ns (better (some q) n best) r
          → IsScan at (n ∷ ns) best r
      taken none none q e h = cc (h.0)
      taken none (some (p, x)) q e h = IsScan-replaced none q p x e (λ b y f. absurd (cc)) h
      taken (some (b, y)) none q e h = ground (arith, h.0)
      taken (some (b, y)) (some (p, x)) q e h = elim (Bool-cases (ltb q b)) [
        | inl less ↦
            IsScan-replaced (some (b, y)) q p x e (λ c z f. ground arith) (rw (less, better) at h)
        | inr more ↦
            let h' = rw (more, better) at h in
            IsScan-kept (some (b, y)) p x (λ c f. ground (arith, h'.2 b y refl)) h'
      ]

scan_names-IsScan :
    (be : Backend) (project path : Bytes) (ns : List Bytes) (best : Best)
    → IsScan (offence be project path) ns best (scan_names be project path ns best)
unfolding scan_names
scan_names-IsScan be project path [] none = (refl, tt)
scan_names-IsScan be project path [] (some (p, n)) = (inl refl, tt, λ q m e. ground arith)
scan_names-IsScan be project path (n ∷ ns) best =
    let at = offence be project path in
    IsScan-cons at n ns best (scan_names be project path ns (better (at n) n best))
      (scan_names-IsScan be project path ns (better (at n) n best))

-- What the gate answers of a path and the names that the store lists.
abbrev pub IsAnswer : (Bytes → Option ℕ) → List Bytes → Option Bytes → Type 0
IsAnswer at ns none = All (λ m. at m ≡ none) ns
IsAnswer at ns (some n) =
    Memᴰ n ns × ((p : ℕ) × (at n ≡ some p) × All (λ m. (q : ℕ) → at m ≡ some q → p ≤ q) ns)

All-none :
    (be : Backend) (project path : Bytes) (ns : List Bytes)
    → contains path token_prefix ≡ false
    → All (λ m. offence be project path m ≡ none) ns
All-none be project path [] h = tt
All-none be project path (n ∷ ns) h =
    (offence-none be project path n h, All-none be project path ns h)

IsAnswer-of_scan :
    (at : Bytes → Option ℕ) (ns : List Bytes) (r : Best)
    → IsScan at ns none r
    → IsAnswer at ns (elim r [ none ↦ none | some (p, n) ↦ some n ])
IsAnswer-of_scan at ns none h = h.1
IsAnswer-of_scan at ns (some (p, n)) (inl same, rest, before) = cc same
IsAnswer-of_scan at ns (some (p, n)) (inr (mem, e), first, before) = (mem, (p, e, first))

not-true : (b : Bool) → not b ≡ true → b ≡ false
not-true true h = cc
not-true false h = refl

no_token :
    (path : Bytes)
    → (is_nil path || not (contains path token_prefix)) ≡ true
    → contains path token_prefix ≡ false
no_token [] e = refl
no_token (c ∷ s) e = not-true (contains (c ∷ s) token_prefix) e

-- With a store that lists its names, the gate lets a path through exactly when no listed name
-- offends in it, and otherwise answers a listed name that offends before every other. A name
-- offends where its token stands in the path and its stored value has a slash.
pub gate_reject-IsAnswer :
    (be : Backend) (project path : Bytes) (ns : List Bytes)
    → be.names project ≡ some ns
    → IsAnswer (offence be project path) ns (gate_reject (some be) project path)
unfolding gate_reject
gate_reject-IsAnswer be project path ns listed =
    elim (Bool-cases (is_nil path || not (contains path token_prefix))) [
      | inl skip ↦ rw (skip, gate_reject) (All-none be project path ns (no_token path skip))
      | inr scan ↦
          rw (scan, listed, gate_reject)
            (IsAnswer-of_scan (offence be project path) ns (scan_names be project path ns none)
              (scan_names-IsScan be project path ns none))
    ]
