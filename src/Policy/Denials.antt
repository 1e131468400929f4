-- ===== src/Policy/Denials.antt =====
-- internal/serviceapi/denials.go: how often each (host, path) of a project was rejected.
-- Times are numbers; a Go map is an association list.
use devm.Base.{
  ℕ, ◌+◌, ◌≡◌, refl, ◌≢◌, ◌⊎◌, inl, inr, Bool, true, false, ◌&&◌, ◌||◌, not, Option, none, some,
  List, [], ◌∷◌, map, arith, ltb, nat_beq, if◌then◌else◌, ◌==◌, nat_eq, bool_eq, pair_beq_iff,
  pair_eq, Bool-cases, Option-cases, is_nil, Bytes, bytes_beq, bytes_beq_iff, bytes_eq, bytes_ltb,
}
use devm.Base.Assoc.{Map, lookup, insert, delete, lookup-insert, lookup-delete}

pub record Counter : Type 0 where
  pub count : ℕ
  pub method : Bytes
  pub first_seen : ℕ
  pub last_seen : ℕ

abbrev pub DenialKey : Type 0
DenialKey = Bytes × Bytes

abbrev pub Rows : Type 0
Rows = Map DenialKey Counter

-- `byProject`.
abbrev pub Denials : Type 0
Denials = Map Bytes Rows

pub record Denial : Type 0 where
  pub host : Bytes
  pub path : Bytes
  pub method : Bytes
  pub count : ℕ
  pub first_seen : ℕ
  pub last_seen : ℕ

-- A missing project reads as Go's nil map.
unfoldable pub rows_of : Bytes → Denials → Rows
rows_of project d = elim (lookup project d) [ none ↦ [] | some rows ↦ rows ]

pub bump : Bytes → ℕ → Option Counter → Counter
bump method now none = record { count = 1; method = method; first_seen = now; last_seen = now }
bump method now (some c) = record c { count = c.count + 1; method = method; last_seen = now }

unfoldable pub record_denial : Bytes → Bytes → Bytes → Bytes → ℕ → Denials → Denials
unfolding bump
record_denial project host path method now d =
    if is_nil project || is_nil host
    then d
    else let rows = rows_of project d in
      insert project (insert (host, path) (bump method now (lookup (host, path) rows)) rows) d

unfoldable pub clear_project : Bytes → Denials → Denials
clear_project project d = delete project d

-- The rows whose key the predicate spares.
unfoldable pub spare : (Bytes → Bytes → Bool) → Rows → Rows
spare gone [] = []
spare gone ((k, c) ∷ rows) =
    let rest = spare gone rows in if gone k.0 k.1 then rest else (k, c) ∷ rest

unfoldable pub invalidate_resolved : Bytes → (Bytes → Bytes → Bool) → Denials → Denials
invalidate_resolved project allowed d = elim (lookup project d) [
  | none ↦ d
  | some rows ↦ insert project (spare allowed rows) d
]

-- The order of `Snapshot`: count descending, then host, then path.
denial_less : Denial → Denial → Bool
denial_less a b =
    if not (nat_beq a.count b.count)
    then ltb b.count a.count
    else if not (bytes_beq a.host b.host)
    then bytes_ltb a.host b.host
    else bytes_ltb a.path b.path

insert_denial : Denial → List Denial → List Denial
insert_denial x [] = x ∷ []
insert_denial x (y ∷ ys) = elim (denial_less y x) [
  | true ↦ y ∷ insert_denial x ys
  | false ↦ x ∷ y ∷ ys
]

sort_denials : List Denial → List Denial
sort_denials [] = []
sort_denials (x ∷ xs) = insert_denial x (sort_denials xs)

to_denial : DenialKey × Counter → Denial
to_denial (k, c) = record {
  host = k.0;
  path = k.1;
  method = c.method;
  count = c.count;
  first_seen = c.first_seen;
  last_seen = c.last_seen;
}

unfoldable pub snapshot : Bytes → Denials → List Denial
unfolding denial_less insert_denial sort_denials to_denial
snapshot project d = sort_denials (map to_denial (rows_of project d))

-- How often (host, path) was denied.
unfoldable pub count_of : Bytes → DenialKey → Denials → ℕ
count_of project k d = elim (lookup k (rows_of project d)) [ none ↦ 0 | some c ↦ c.count ]

pub lookup-spare :
    (gone : Bytes → Bytes → Bool) (k : DenialKey) (rows : Rows)
    → lookup k (spare gone rows) ≡ (if gone k.0 k.1 then none else lookup k rows)
unfolding spare lookup
lookup-spare gone k [] = ground arith
lookup-spare gone k ((j, c) ∷ rows) = ground (arith, pair_beq_iff j k, lookup-spare gone k rows)

pub rows_of-insert :
    (p q : Bytes) (rows : Rows) (d : Denials)
    → rows_of p (insert q rows d) ≡ (if q == p then rows else rows_of p d)
unfolding rows_of
rows_of-insert p q rows d = ground (arith, lookup-insert p q rows d)

pub rows_of-delete :
    (p q : Bytes) (d : Denials) → rows_of p (delete q d) ≡ (if q == p then [] else rows_of p d)
unfolding rows_of
rows_of-delete p q d = ground (arith, lookup-delete p q d)

pub rows_of-invalidate_resolved :
    (p q : Bytes) (allowed : Bytes → Bytes → Bool) (d : Denials)
    → rows_of p (invalidate_resolved q allowed d)
      ≡ (if q == p then spare allowed (rows_of p d) else rows_of p d)
unfolding rows_of invalidate_resolved spare
rows_of-invalidate_resolved p q allowed d = elim (Option-cases (lookup q d)) [
  | inl missing ↦ ground (arith, bytes_beq_iff q p)
  | inr (rows, found) ↦ ground (arith, bytes_beq_iff q p, lookup-insert p q (spare allowed rows) d)
]

pub lookup-record_denial :
    (project host path method : Bytes) (now : ℕ) (d : Denials) (p : Bytes) (k : DenialKey)
    → project ≢ []
    → host ≢ []
    → lookup k (rows_of p (record_denial project host path method now d)) ≡ (
        if project == p && (host, path) == k
        then some (bump method now (lookup k (rows_of p d)))
        else lookup k (rows_of p d))
unfolding record_denial
lookup-record_denial [] host path method now d p k hp hh = absurd (hp refl)
lookup-record_denial (c ∷ cs) [] path method now d p k hp hh = absurd (hh refl)
lookup-record_denial (c ∷ cs) (h ∷ hs) path method now d p k hp hh =
    let rows = rows_of (c ∷ cs) d in
    let key : DenialKey = (h ∷ hs, path) in
    let new = bump method now (lookup key rows) in
    ground (
      arith,
      rows_of-insert p (c ∷ cs) (insert key new rows) d,
      bytes_beq_iff (c ∷ cs) p,
      lookup-insert k key new rows,
      pair_beq_iff key k,
    )

-- A row counts one more denial for the key that was rejected; every other row keeps its count.
pub count_of-record_denial :
    (project host path method : Bytes) (now : ℕ) (d : Denials) (p : Bytes) (k : DenialKey)
    → project ≢ []
    → host ≢ []
    → count_of p k (record_denial project host path method now d)
      ≡ count_of p k d + (if project == p && (host, path) == k then 1 else 0)
unfolding count_of bump
count_of-record_denial project host path method now d p k hp hh =
    ground (arith, lookup-record_denial project host path method now d p k hp hh)

-- A row after a denial was there before, or is the row of that denial.
pub row_of-record_denial :
    (project host path method : Bytes) (now : ℕ) (d : Denials) (p : Bytes) (k : DenialKey)
    (c : Counter)
    → lookup k (rows_of p (record_denial project host path method now d)) ≡ some c
    → ((b : Counter) × (lookup k (rows_of p d) ≡ some b)) ⊎ ((project ≡ p) × ((host, path) ≡ k))
row_of-record_denial [] host path method now d p k c h = inl (c, unfold record_denial in h)
row_of-record_denial (x ∷ xs) [] path method now d p k c h = inl (c, unfold record_denial in h)
row_of-record_denial (x ∷ xs) (y ∷ ys) path method now d p k c h =
    let law = lookup-record_denial (x ∷ xs) (y ∷ ys) path method now d p k (λ e. cc) (λ e. cc) in
    elim (Bool-cases (x ∷ xs == p && (y ∷ ys, path) == k)) [
      | inl e ↦
          inr (
            ground (arith, bytes_beq_iff (x ∷ xs) p),
            ground (arith, pair_beq_iff (y ∷ ys, path) k),
          )
      | inr e ↦ inl (c, ground (arith, law))
    ]
