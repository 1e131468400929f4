-- ===== src/Policy/Authority/Consistent.antt =====
-- The denial rows of the authority agree with its allowlists, whatever it is asked to do.
use devm.Base.{
  ℕ, ◌≡◌, refl, ◌⊎◌, inl, inr, Bool, true, false, Option, some, List, [], ◌∷◌, arith, nat_eq,
  bool_eq, pair_eq, Bool-cases, Option-cases, Bytes, bytes_beq_iff, bytes_eq,
}
use devm.Base.Assoc.{lookup, lookup-insert, lookup-delete}
use devm.Policy.Match.{allowed, strip_port}
use devm.Policy.Denials.{
  DenialKey, Counter, rows_of, record_denial, clear_project, lookup-spare, rows_of-delete,
  rows_of-invalidate_resolved, row_of-record_denial,
}
use devm.Policy.Gate.{Backend, gate_reject}
use devm.Policy.Authority.{
  Mode, restricted, passthrough, Authority, new_authority, allowlist_for, mode_for, set_allowlist,
  set_mode, ensure_serving, stop_serving, purge_project, use_secret_backend, decide, HttpRequest,
  transform_request,
}

-- Every row is a request that the project's current list would still reject.
abbrev pub IsConsistent : Authority → Type 0
IsConsistent a =
    (project : Bytes) (k : DenialKey) (c : Counter)
    → lookup k (rows_of project a.denials) ≡ some c
    → allowed (allowlist_for project a) k.0 k.1 ≡ false

-- The rows and the lists are all that the invariant reads.
keep-IsConsistent :
    (a b : Authority) → b.denials ≡ a.denials → b.allow ≡ a.allow → IsConsistent a → IsConsistent b
unfolding allowlist_for
keep-IsConsistent a b d e c p k row h = rw e (c p k row (rw d at h))

set_allowlist-IsConsistent :
    (project : Bytes) (list : List Bytes) (a : Authority)
    → IsConsistent a
    → IsConsistent (set_allowlist project list a)
unfolding set_allowlist allowlist_for
set_allowlist-IsConsistent project list a c p k row h = ground (
  arith,
  lookup-insert p project list a.allow,
  c p k row,
  bytes_beq_iff project p,
  rows_of-invalidate_resolved p project (allowed list) a.denials,
  lookup-spare (allowed list) k (rows_of p a.denials),
)

purge_project-IsConsistent :
    (project : Bytes) (a : Authority) → IsConsistent a → IsConsistent (purge_project project a)
unfolding purge_project allowlist_for clear_project lookup
purge_project-IsConsistent project a c p k row h =
    ground (arith, lookup-delete p project a.allow, c p k row, rows_of-delete p project a.denials)

Mode-cases : (m : Mode) → (m ≡ passthrough) ⊎ (m ≡ restricted)
Mode-cases restricted = inr refl
Mode-cases passthrough = inl refl

-- A decision changes nothing, or rejects by the list and records that.
pub decide_cases :
    (project host path method : Bytes) (now : ℕ) (a : Authority)
    → (decide project host path method now a ≡ (a, true))
      ⊎ ((decide project host path method now a
            ≡ (record a { denials = record_denial project host path method now a.denials }, false))
          × (mode_for project a ≡ restricted)
          × (allowed (allowlist_for project a) host path ≡ false))
unfolding decide
decide_cases project host path method now a = elim (Mode-cases (mode_for project a)) [
  | inl free ↦ inl (rw (free, decide))
  | inr closed ↦ elim (Bool-cases (allowed (allowlist_for project a) host path)) [
    | inl covered ↦ inl (rw (closed, covered, decide))
    | inr missed ↦ inr (rw (closed, missed, decide), closed, missed)
  ]
]

decide-IsConsistent :
    (project host path method : Bytes) (now : ℕ) (a : Authority)
    → IsConsistent a
    → IsConsistent (decide project host path method now a).0
unfolding allowlist_for
decide-IsConsistent project host path method now a c =
    elim (decide_cases project host path method now a) [
      | inl same ↦ rw same c
      | inr (e, _, missed) ↦ rw e λ p k row h.
          elim (row_of-record_denial project host path method now a.denials p k row h) [
            | inl (old, was) ↦ c p k old was
            | inr (here, key) ↦ rw (← here, ← key) missed
          ]
    ]

-- The operations of the authority, with the outcomes of the system calls that they make.
pub data Op : Type 0 where
  op_set_allowlist : Bytes → List Bytes → Op
  op_set_mode : Bytes → Mode → Op
  op_ensure_serving : Bytes → Bytes → (made bound : Bool) → Op
  op_stop_serving op_purge_project : Bytes → Op
  op_use_secret_backend : Option Backend → Op
  op_transform : Bytes → HttpRequest → ℕ → Op

unfoldable pub apply : (Bytes → Bytes) → Op → Authority → Authority
apply url_path (op_set_allowlist p l) a = set_allowlist p l a
apply url_path (op_set_mode p m) a = set_mode p m a
apply url_path (op_ensure_serving p s made bound) a = (ensure_serving p s made bound a).0
apply url_path (op_stop_serving p) a = stop_serving p a
apply url_path (op_purge_project p) a = purge_project p a
apply url_path (op_use_secret_backend b) a = use_secret_backend b a
apply url_path (op_transform p r now) a = (transform_request url_path p r now a).0

unfoldable pub run : (Bytes → Bytes) → List Op → Authority → Authority
unfolding apply
run url_path [] a = a
run url_path (o ∷ os) a = run url_path os (apply url_path o a)

ensure_serving_keeps :
    (p s : Bytes) (made bound : Bool) (a : Authority)
    → ((ensure_serving p s made bound a).0.denials ≡ a.denials)
      × ((ensure_serving p s made bound a).0.allow ≡ a.allow)
unfolding ensure_serving
ensure_serving_keeps p s made bound a = ground arith

transform_request-IsConsistent :
    (url_path : Bytes → Bytes) (p : Bytes) (r : HttpRequest) (now : ℕ) (a : Authority)
    → IsConsistent a
    → IsConsistent (transform_request url_path p r now a).0
unfolding transform_request
transform_request-IsConsistent url_path p r now a c =
    elim (Option-cases (gate_reject a.secrets p (url_path r.url))) [
      | inl e ↦
          rw (e, transform_request)
            (decide-IsConsistent p (strip_port r.host) (url_path r.url) r.method now a c)
      | inr (n, e) ↦ rw (e, transform_request) c
    ]

apply-IsConsistent :
    (url_path : Bytes → Bytes) (o : Op) (a : Authority)
    → IsConsistent a
    → IsConsistent (apply url_path o a)
unfolding apply set_mode stop_serving use_secret_backend
apply-IsConsistent url_path (op_set_allowlist p l) a c = set_allowlist-IsConsistent p l a c
apply-IsConsistent url_path (op_set_mode p m) a c = keep-IsConsistent a _ refl refl c
apply-IsConsistent url_path (op_ensure_serving p s made bound) a c =
    let keeps = ensure_serving_keeps p s made bound a in keep-IsConsistent a _ keeps.0 keeps.1 c
apply-IsConsistent url_path (op_stop_serving p) a c = keep-IsConsistent a _ refl refl c
apply-IsConsistent url_path (op_purge_project p) a c = purge_project-IsConsistent p a c
apply-IsConsistent url_path (op_use_secret_backend b) a c = keep-IsConsistent a _ refl refl c
apply-IsConsistent url_path (op_transform p r now) a c =
    transform_request-IsConsistent url_path p r now a c

run-IsConsistent_from :
    (url_path : Bytes → Bytes) (os : List Op) (a : Authority)
    → IsConsistent a
    → IsConsistent (run url_path os a)
unfolding run
run-IsConsistent_from url_path [] a c = c
run-IsConsistent_from url_path (o ∷ os) a c =
    run-IsConsistent_from url_path os (apply url_path o a) (apply-IsConsistent url_path o a c)

-- Whatever the new authority is asked to do, in any order, no denial row is left that the
-- project's current allowlist would let through.
pub run-IsConsistent :
    (url_path : Bytes → Bytes) (os : List Op) → IsConsistent (run url_path os new_authority)
unfolding new_authority allowed allowlist_for lookup
run-IsConsistent url_path os = run-IsConsistent_from url_path os new_authority new_empty
  where
    new_empty : IsConsistent new_authority
    new_empty p k c h = cc h
