-- ===== src/Daemon/Routes/Isolated.antt =====
-- No project moves another's routes (internal/serviceapi/routes.go).
use devm.Base.{
  ◌≡◌, ◌≢◌, ◌⊎◌, refl, sym, ◌∙◌, ◌↔◌, inl, inr, none, some, Option-cases, Bool-cases, List, [], ◌∷◌,
  arith, ◌==◌, All, Bytes, bytes_beq_iff, bytes_eq, is_nil_iff,
}
use devm.Base.Assoc.{lookup}
use devm.Daemon.Routes.{Routes, new_routes, lookup_route, lan_lookup}
use devm.Base.Checks.{iff_trans, iff_refl}
use devm.Daemon.Routes.Reading.{owner_at}
use devm.Daemon.Routes.Owned.{IsOwned}
use devm.Daemon.Routes.Runs.{Op, step, run, IsHonest, actor, step-IsOwned, run-IsOwned}
use devm.Daemon.Routes.Unmoved.{IsUnmoved, IsUnmoved-refl, step-IsUnmoved, has-step}

-- What a run of others leaves a project at a hostname.
record IsSpared (h q : Bytes) (before after : Routes) : Type 0 where
  owner : (owner_at h after ≡ some q) ↔ (owner_at h before ≡ some q)
  unmoved : owner_at h before ≡ some q → IsUnmoved h before after

step-IsSpared :
    (o : Op) (r : Routes) (h q : Bytes)
    → IsOwned r
    → IsHonest o
    → actor o ≢ q
    → IsSpared h q r (step o r)
step-IsSpared o r h q own honest other = record {
  owner =
      ground
        (arith, own.listed q h, (step-IsOwned o r own honest).listed q h, has-step o r q h other);
  unmoved = λ mine. step-IsUnmoved r own h q mine o honest other;
}

IsUnmoved-trans : (h : Bytes) (a b c : Routes) → IsUnmoved h a b → IsUnmoved h b c → IsUnmoved h a c
IsUnmoved-trans h a b c f g = record { same = g.same ∙ f.same; same_lan = g.same_lan ∙ f.same_lan }

-- Honest steps of other projects.
abbrev pub IsForeign : Bytes → Op → Type 0
IsForeign q o = IsHonest o × (actor o ≢ q)

run-IsSpared :
    (os : List Op) (r : Routes) (h q : Bytes)
    → IsOwned r
    → All (IsForeign q) os
    → IsSpared h q r (run os r)
unfolding run
run-IsSpared [] r h q own foreign = record {
  owner = iff_refl;
  unmoved = λ mine. IsUnmoved-refl h r;
}
run-IsSpared (o ∷ os) r h q own ((honest, other), foreign) =
    let first = step-IsSpared o r h q own honest other in
    let rest = run-IsSpared os (step o r) h q (step-IsOwned o r own honest) foreign in
    record {
      owner = iff_trans rest.owner first.owner;
      unmoved = λ mine.
          IsUnmoved-trans h r (step o r) (run os (step o r)) (first.unmoved mine)
            (rest.unmoved (first.owner.1 mine));
    }

owner_or_not : (h q : Bytes) (r : Routes) → (owner_at h r ≡ some q) ⊎ (owner_at h r ≢ some q)
owner_or_not h q r = elim (Option-cases (owner_at h r)) [
  | inl free ↦ inr (λ mine. cc (free, mine))
  | inr (p, owner) ↦ elim (Bool-cases (p == q)) [
    | inl same ↦ inl (ground (arith, bytes_beq_iff p q))
    | inr other ↦ inr (λ mine. ground (arith, bytes_beq_iff p q))
  ]
]

-- A named project's proxy finds only its own routes.
unowned_route :
    (h q : Bytes) (r : Routes) → q ≢ [] → owner_at h r ≢ some q → lookup_route h q r ≡ none
unfolding lookup_route
unowned_route h q r named other = elim (Option-cases (lookup h r.hostname_to_route)) [
  | inl missing ↦ rw (missing, lookup_route) refl
  | inr (rt, found) ↦ ground (arith, bytes_beq_iff rt.project q, is_nil_iff q)
]

lookup_route-IsUnmoved :
    (h q : Bytes) (a b : Routes) → IsUnmoved h a b → lookup_route h q b ≡ lookup_route h q a
unfolding lookup_route
lookup_route-IsUnmoved h q a b u = rw (u.same, lookup_route) refl

-- After any history of operations with routes that carry their own project's name, what other
-- projects then do changes neither what the proxy of a named project finds at any hostname, nor
-- what the LAN listener finds at a hostname that the project owns.
pub run-lookup_route :
    (tld : Bytes) (history os : List Op) (host project : Bytes)
    → All IsHonest history
    → project ≢ []
    → All (IsForeign project) os
    → (let before = run history (new_routes tld) in
        (lookup_route host project (run os before) ≡ lookup_route host project before)
        × (owner_at host before ≡ some project
            → lan_lookup host (run os before) ≡ lan_lookup host before))
unfolding lan_lookup
run-lookup_route tld history os host project honest named foreign =
    let before = run history (new_routes tld) in
    let spared = run-IsSpared os before host project (run-IsOwned tld history honest) foreign in
    (
      elim (owner_or_not host project before) [
        | inl mine ↦
            lookup_route-IsUnmoved host project before (run os before) (spared.unmoved mine)
        | inr other ↦
            unowned_route host project (run os before) named (λ now. other (spared.owner.0 now))
            ∙ sym (unowned_route host project before named other)
      ],
      λ mine. (spared.unmoved mine).same_lan,
    )
