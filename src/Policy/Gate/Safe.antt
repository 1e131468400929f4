-- ===== src/Policy/Gate/Safe.antt =====
-- What `secretGateReject` (internal/serviceapi/policyauthority.go) has against no name: the paths
-- that it lets through, said without the scan.
use devm.Base.{
  ℕ, ◌≡◌, refl, sym, ◌↔◌, ◌⊎◌, inl, inr, false, Option, none, some, List, [], ◌∷◌, ◌++◌, arith,
  nat_eq, bool_eq, pair_eq, Option-cases, All, Bytes, bytes_eq, index, contains, has_byte,
}
use mathlib.Core.List.{Memᴰ}
use mathlib.Core.Path.{subst}
use devm.Policy.Gate.{
  GetResult, found, not_found, failed, Backend, token_of, offence, has_slash, gate_reject,
}
use devm.Policy.Gate.First.{IsAnswer, gate_reject-IsAnswer}

-- A stored name that the gate has nothing against: its token is not in the path, or the store finds
-- no value of it with a slash.
abbrev pub IsSafe : Backend → (project path name : Bytes) → Type 0
IsSafe be project path name =
    (contains path (token_of name) ≡ false)
    ⊎ ((v : Bytes) → be.get (project ++ b'/' ∷ name) ≡ found v → has_byte v b'/' ≡ false)

-- Every name that the store lists for the project is safe. Without a store, or where the store
-- cannot list its names, nothing is asked of the path.
abbrev pub IsSafePath : Option Backend → (project path : Bytes) → Type 0
IsSafePath none project path = Unit
IsSafePath (some be) project path = elim (be.names project) [
  | none ↦ Unit
  | some ns ↦ All (IsSafe be project path) ns
]

has_slash_iff :
    (g : GetResult) → (has_slash g ≡ false) ↔ ((v : Bytes) → g ≡ found v → has_byte v b'/' ≡ false)
unfolding has_slash
has_slash_iff (found v) = (λ h u e. ground arith, λ f. f v refl)
has_slash_iff not_found = (λ h u e. absurd cc, λ f. refl)
has_slash_iff failed = (λ h u e. absurd cc, λ f. refl)

offence-IsSafe :
    (be : Backend) (project path n : Bytes)
    → (offence be project path n ≡ none) ↔ IsSafe be project path n
unfolding offence
offence-IsSafe be project path n =
    let slash = has_slash_iff (be.get (project ++ b'/' ∷ n)) in
    elim (Option-cases (index path (token_of n))) [
      | inl e ↦ (λ h. inl (rw (e, contains) refl), λ h. rw (e, offence))
      | inr (i, e) ↦ (
        λ h. inr (slash.0 (ground arith)),
        λ safe. elim safe [
          | inl absent ↦ absurd (cc (rw (e, contains) at absent))
          | inr safe ↦ ground (arith, slash.1 safe)
        ],
      )
    ]

All-iff :
    {P Q : Bytes → Type 0} → ((n : Bytes) → P n ↔ Q n) → (ns : List Bytes) → All P ns ↔ All Q ns
All-iff each [] = (λ h. tt, λ h. tt)
All-iff each (n ∷ ns) =
    (λ h. ((each n).0 h.0, (All-iff each ns).0 h.1), λ h. ((each n).1 h.0, (All-iff each ns).1 h.1))

All-Mem : (P : Bytes → Type 0) (n : Bytes) (ns : List Bytes) → Memᴰ n ns → All P ns → P n
All-Mem P n [] mem h = elim mem [ ]
All-Mem P n (m ∷ ns) (Memᴰ.head e) h = subst P (sym e) (h.0)
All-Mem P n (m ∷ ns) (Memᴰ.tail mem) h = All-Mem P n ns mem (h.1)

-- Of an answer: there is none exactly when no name offends.
IsAnswer-iff :
    (at : Bytes → Option ℕ) (ns : List Bytes) (r : Option Bytes)
    → IsAnswer at ns r
    → (r ≡ none) ↔ All (λ n. at n ≡ none) ns
IsAnswer-iff at ns none a = (λ e. a, λ h. refl)
IsAnswer-iff at ns (some n) (mem, offends) =
    (λ same. absurd (cc), λ h. absurd (cc (offends.1, All-Mem (λ m. at m ≡ none) n ns mem h)))

-- Without a list of names the gate lets every path through.
unlisted :
    (be : Backend) (project path : Bytes)
    → be.names project ≡ none
    → gate_reject (some be) project path ≡ none
unfolding gate_reject
unlisted be project path e = rw (e, gate_reject) (ground arith)

no_store : (project path : Bytes) → gate_reject none project path ≡ none
unfolding gate_reject
no_store project path = ground arith

pub gate_reject-IsSafePath :
    (backend : Option Backend) (project path : Bytes)
    → (gate_reject backend project path ≡ none) ↔ IsSafePath backend project path
gate_reject-IsSafePath none project path = (λ e. tt, λ u. no_store project path)
gate_reject-IsSafePath (some be) project path = elim (Option-cases (be.names project)) [
  | inl e ↦ (λ h. rw e tt, λ u. unlisted be project path e)
  | inr (ns, e) ↦
      let answers =
        IsAnswer-iff (offence be project path) ns (gate_reject (some be) project path)
          (gate_reject-IsAnswer be project path ns e) in
      let each = All-iff (offence-IsSafe be project path) ns in
      (λ h. rw e (each.0 (answers.0 h)), λ safe. answers.1 (each.1 (rw e at safe)))
]
