-- ===== src/Softnet/Dedup.antt =====
-- internal/softnet/dedup.go: one log line for each key and window. Times are numbers.
use devm.Base.{
  ℕ, ◌+◌, ◌≡◌, refl, inl, inr, Bool, true, false, ◌&&◌, none, some, List, [], ◌∷◌, arith, leb,
  if◌then◌else◌, ◌==◌, nat_eq, bool_eq, pair_eq, Option-cases, Bytes, bytes_beq_iff, bytes_eq,
}
use devm.Base.Assoc.{Map, lookup, insert, lookup-insert}

pub record DedupEntry : Type 0 where
  pub last_logged_at : ℕ
  pub suppressed : ℕ

abbrev pub DedupState : Type 0
DedupState = Map Bytes DedupEntry

-- `check`: whether to log, and how many events of the key were kept back since the last line.
unfoldable pub check : ℕ → ℕ → Bytes → DedupState → DedupState × (Bool × ℕ)
check window now key d = elim (lookup key d) [
  | none ↦ (insert key (record { last_logged_at = now; suppressed = 0 }) d, (true, 0))
  | some s ↦
      if leb (s.last_logged_at + window) now
      then (insert key (record { last_logged_at = now; suppressed = 0 }) d, (true, s.suppressed))
      else (insert key (record s { suppressed = s.suppressed + 1 }) d, (false, 0))
]

-- A sequence of events, each a time and a key, with what each of them logs.
unfoldable pub check_all :
    ℕ → List (ℕ × Bytes) → DedupState → DedupState × List (Bytes × (Bool × ℕ))
unfolding check
check_all window [] d = (d, [])
check_all window ((now, key) ∷ es) d =
    let one = check window now key d in
    let rest = check_all window es one.0 in (rest.0, (key, one.1) ∷ rest.1)

-- How many events of a key there are, how many its log lines speak for, and how many wait.
abbrev pub events_of : Bytes → List (ℕ × Bytes) → ℕ
events_of k [] = 0
events_of k ((now, key) ∷ es) = (if key == k then 1 else 0) + events_of k es

abbrev pub logged_of : Bytes → List (Bytes × (Bool × ℕ)) → ℕ
logged_of k [] = 0
logged_of k ((key, (emit, n)) ∷ ls) = (if key == k && emit then n + 1 else 0) + logged_of k ls

unfoldable pub pending_of : Bytes → DedupState → ℕ
pending_of k d = elim (lookup k d) [ none ↦ 0 | some s ↦ s.suppressed ]

module _ (window now : ℕ) (key k : Bytes) (d : DedupState) where
  -- One event is logged with those that waited, or waits itself.
  check_accounts :
      (if key == k then 1 else 0) + pending_of k d
      ≡ (if key == k && (check window now key d).1.0 then (check window now key d).1.1 + 1 else 0)
        + pending_of k (check window now key d).0
  unfolding check pending_of
  check_accounts = elim (Option-cases (lookup key d)) [
    | inl new ↦
        let e : DedupEntry = record { last_logged_at = now; suppressed = 0 } in
        rw (new, check) (ground (arith, bytes_beq_iff key k, lookup-insert k key e d))
    | inr (s, old) ↦
        let e : DedupEntry = record { last_logged_at = now; suppressed = 0 } in
        let e' : DedupEntry = record s { suppressed = s.suppressed + 1 } in
        rw (old, check)
          (ground (arith, bytes_beq_iff key k, lookup-insert k key e d, lookup-insert k key e' d))
  ]

-- No event is lost: the events of a key are those that its log lines speak for and those that
-- wait for its next line.
pub check_all_accounts :
    (window : ℕ) (es : List (ℕ × Bytes)) (k : Bytes) (d : DedupState)
    → events_of k es + pending_of k d
      ≡ logged_of k (check_all window es d).1 + pending_of k (check_all window es d).0
unfolding check_all
check_all_accounts window [] k d = refl
check_all_accounts window ((now, key) ∷ es) k d = omega (
  arith,
  check_accounts window now key k d,
  check_all_accounts window es k (check window now key d).0,
)
