-- ===== src/Hairpin/Peers/Inverse.antt =====
-- The two maps of internal/serviceapi/peers.go are the same graph, read from its two ends.
use devm.Base.{
  ◌≡◌, refl, sym, ◌∙◌, ◌⊎◌, false, ◌&&◌, ◌||◌, not, none, some, Option-cases, inl, inr, List, [],
  ◌∷◌, arith, is_nil_iff, keep, if◌then◌else◌, ◌==◌, Bytes, bytes_eq, bytes_beq_iff,
}
use devm.Base.Assoc.{Map, lookup, insert, delete, lookup-insert, lookup-delete}
use devm.Base.Names.{has, insert_name, sorted_set, has-insert_name, has-sorted_set, has-keep}
use devm.Hairpin.Peers.{
  PeersIndex, new_peers_index, set_at, drop_edge, drop_edges, add_edges, set_peers, remove_project,
  dependents_of,
}

set_at-insert :
    (q k : Bytes) (s : List Bytes) (m : Map Bytes (List Bytes))
    → set_at q (insert k s m) ≡ (if k == q then s else set_at q m)
unfolding set_at
set_at-insert q k s m = ground (arith, lookup-insert q k s m)

set_at-delete :
    (q k : Bytes) (m : Map Bytes (List Bytes))
    → set_at q (delete k m) ≡ (if k == q then [] else set_at q m)
unfolding set_at
set_at-delete q k m = ground (arith, lookup-delete q k m)

set_at-cases :
    (k : Bytes) (m : Map Bytes (List Bytes)) (s : List Bytes)
    → ((lookup k m ≡ none) × (s ≡ [])) ⊎ (lookup k m ≡ some s)
    → set_at k m ≡ s
unfolding set_at
set_at-cases k m s (inl (absent, e)) = rw (absent, e, set_at) refl
set_at-cases k m s (inr there) = rw (there, set_at) refl

has-drop_edge :
    (p q project peer : Bytes) (deps : Map Bytes (List Bytes))
    → has p (set_at q (drop_edge project peer deps))
      ≡ (has p (set_at q deps) && not (q == peer && p == project))
unfolding drop_edge
has-drop_edge p q project peer deps = elim (Option-cases (lookup peer deps)) [
  | inl absent ↦
      let empty = set_at-cases peer deps [] (inl (absent, refl)) in
      rw (absent, drop_edge) (ground (arith, bytes_beq_iff q peer, empty))
  | inr (d, old) ↦
      let left = keep (λ r. not (r == project)) d in
      let kept = has-keep (λ r. not (r == project)) p d in
      let there = set_at-cases peer deps d (inr old) in
      rw (old, drop_edge)
        (ground (
          arith,
          bytes_beq_iff q peer,
          bytes_beq_iff peer q,
          there,
          kept,
          is_nil_iff left,
          set_at-insert q peer left deps,
          set_at-delete q peer deps,
        ))
]

has-drop_edges :
    (p q project : Bytes) (peers : List Bytes) (deps : Map Bytes (List Bytes))
    → has p (set_at q (drop_edges project peers deps))
      ≡ (has p (set_at q deps) && not (has q peers && p == project))
unfolding drop_edges
has-drop_edges p q project [] deps = ground arith
has-drop_edges p q project (peer ∷ peers) deps = ground (
  arith,
  has-drop_edges p q project peers (drop_edge project peer deps),
  has-drop_edge p q project peer deps,
  bytes_beq_iff q peer,
  bytes_beq_iff peer q,
)

has-add_edges :
    (p q project : Bytes) (peers : List Bytes) (deps : Map Bytes (List Bytes))
    → has p (set_at q (add_edges project peers deps))
      ≡ (has p (set_at q deps) || (has q peers && p == project))
unfolding add_edges
has-add_edges p q project [] deps = ground arith
has-add_edges p q project (peer ∷ peers) deps =
    let added = insert_name project (set_at peer deps) in
    let more = has-insert_name p project (set_at peer deps) in
    ground (
      arith,
      has-add_edges p q project peers (insert peer added deps),
      set_at-insert q peer added deps,
      more,
      bytes_beq_iff q peer,
      bytes_beq_iff peer q,
      bytes_beq_iff p project,
      bytes_beq_iff project p,
    )

-- Both maps tell of the same edges.
abbrev pub IsInverse : PeersIndex → Type 0
IsInverse x = (p q : Bytes) → has q (set_at p x.peers_of) ≡ has p (set_at q x.deps)

set_peers-IsInverse :
    (project : Bytes) (peers : List Bytes) (x : PeersIndex)
    → IsInverse x
    → IsInverse (set_peers project peers x)
unfolding set_peers
set_peers-IsInverse project peers x inv p q =
    let set = sorted_set peers in
    let old = set_at project x.peers_of in
    let rest = drop_edges project old x.deps in
    ground (
      arith,
      set_at-insert p project set x.peers_of,
      has-add_edges p q project set rest,
      has-drop_edges p q project old x.deps,
      inv p q,
      inv project q,
      bytes_beq_iff p project,
      bytes_beq_iff project p,
    )

remove_project-IsInverse :
    (project : Bytes) (x : PeersIndex) → IsInverse x → IsInverse (remove_project project x)
unfolding remove_project
remove_project-IsInverse project x inv p q =
    let old = set_at project x.peers_of in
    ground (
      arith,
      set_at-delete p project x.peers_of,
      has-drop_edges p q project old x.deps,
      inv p q,
      inv project q,
      bytes_beq_iff p project,
      bytes_beq_iff project p,
    )

-- What the daemon does with the index, in order.
pub data PeerOp : Type 0 where
  op_set : (project : Bytes) → (peers : List Bytes) → PeerOp
  op_remove : (project : Bytes) → PeerOp

unfoldable pub step : PeerOp → PeersIndex → PeersIndex
step (op_set project peers) x = set_peers project peers x
step (op_remove project) x = remove_project project x

unfoldable pub run : List PeerOp → PeersIndex → PeersIndex
unfolding step
run [] x = x
run (op ∷ ops) x = run ops (step op x)

-- The peers that a project has declared last, if it was not removed since.
abbrev declared_by : PeerOp → Bytes → List Bytes → List Bytes
declared_by (op_set project peers) p current = if project == p then peers else current
declared_by (op_remove project) p current = if project == p then [] else current

abbrev pub declared : List PeerOp → Bytes → List Bytes → List Bytes
declared [] p current = current
declared (op ∷ ops) p current = declared ops p (declared_by op p current)

step-IsInverse : (op : PeerOp) (x : PeersIndex) → IsInverse x → IsInverse (step op x)
unfolding step
step-IsInverse (op_set project peers) x inv = set_peers-IsInverse project peers x inv
step-IsInverse (op_remove project) x inv = remove_project-IsInverse project x inv

has-step :
    (op : PeerOp) (x : PeersIndex) (p q : Bytes) (current : List Bytes)
    → has q (set_at p x.peers_of) ≡ has q current
    → has q (set_at p (step op x).peers_of) ≡ has q (declared_by op p current)
unfolding step set_peers remove_project
has-step (op_set project peers) x p q current same =
    ground
      (arith, set_at-insert p project (sorted_set peers) x.peers_of, has-sorted_set q peers, same)
has-step (op_remove project) x p q current same =
    ground (arith, set_at-delete p project x.peers_of, same)

run-declared_from :
    (ops : List PeerOp) (x : PeersIndex) (p q : Bytes) (current : List Bytes)
    → IsInverse x
    → has q (set_at p x.peers_of) ≡ has q current
    → (has q (set_at p (run ops x).peers_of) ≡ has q (declared ops p current))
      × (has p (dependents_of q (run ops x)) ≡ has q (declared ops p current))
unfolding run dependents_of
run-declared_from [] x p q current inv same = (same, ground (arith, inv p q, same))
run-declared_from (op ∷ ops) x p q current inv same =
    run-declared_from ops (step op x) p q (declared_by op p current) (step-IsInverse op x inv)
      (has-step op x p q current same)

empty : (q p : Bytes) → has q (set_at p []) ≡ false
unfolding set_at lookup
empty q p = refl

-- After any sequence of calls of `setPeers` and `remove` on a new index, the peers of a project are
-- those that it declared last, none if it was removed since, and it is a dependent of exactly these.
pub run-declared :
    (ops : List PeerOp) (p q : Bytes)
    → (has q (set_at p (run ops new_peers_index).peers_of) ≡ has q (declared ops p []))
      × (has p (dependents_of q (run ops new_peers_index)) ≡ has q (declared ops p []))
run-declared ops p q =
    run-declared_from ops new_peers_index p q [] (λ a b. empty b a ∙ sym (empty a b)) (empty q p)
