-- ===== src/Live/Careful/Known.antt =====
-- What stays known over a quiet step of internal/reconcile/apply_live.go.
use devm.Base.{Option, none, some, Bool, true, false, ◌∷◌, Bytes, ◌≡◌, refl, inr}
use devm.Live.World.{
  scan, ensure_dir, move, clone, Event, guest_ran, made_dir, listed_dir, walked, verified_head,
  listed_sessions, operated, wrote_config, created, removed, removed_all, renamed, built_bundle,
  piped_bundle, dispatched, set_allowlist, Trace, World, LiveError, M, give, fail, or_fail, unless,
  ask, from_option, when_some,
}
use devm.Live.Careful.{IsCareful, IsJustified, IsQuiet, Seen}
use devm.Live.Careful.Rules.{Does}

module _ (w : World) (project : Bytes) where
  quiet-IsJustified : (e : Event) (t : Trace) → IsQuiet e → IsJustified w project e t
  quiet-IsJustified (guest_ran (scan path) reply) t q = tt
  quiet-IsJustified (guest_ran (ensure_dir path) reply) t q = elim q [ ]
  quiet-IsJustified (guest_ran (move a b) reply) t q = elim q [ ]
  quiet-IsJustified (guest_ran (clone url secret target ca_path) reply) t q = elim q [ ]
  quiet-IsJustified (made_dir path done) t q = elim q [ ]
  quiet-IsJustified (listed_dir path reply) t q = tt
  quiet-IsJustified (walked path reply) t q = tt
  quiet-IsJustified (verified_head path done) t q = tt
  quiet-IsJustified (listed_sessions name reply) t q = tt
  quiet-IsJustified (operated op id done) t q = elim q [ ]
  quiet-IsJustified (wrote_config path ignores done) t q = tt
  quiet-IsJustified (created name alpha beta config done) t q = elim q [ ]
  quiet-IsJustified (removed path done) t q = elim q [ ]
  quiet-IsJustified (removed_all path done) t q = elim q [ ]
  quiet-IsJustified (renamed a b done) t q = elim q [ ]
  quiet-IsJustified (built_bundle c done) t q = elim q [ ]
  quiet-IsJustified (piped_bundle reply) t q = elim q [ ]
  quiet-IsJustified (dispatched reply) t q = elim q [ ]
  quiet-IsJustified (set_allowlist p allowlist done) t q = elim q [ ]

  -- A predicate on traces that no quiet step takes back.
  pub record IsLasting (K : Trace → Type 0) : Type 0 where
    pub safe : (t : Trace) → K t → IsCareful w project t
    pub lasts : (e : Event) (t : Trace) → IsQuiet e → K t → K (e ∷ t)

  pub careful-IsLasting : IsLasting (IsCareful w project)
  careful-IsLasting = record { safe = λ t c. c; lasts = λ e t q c. (quiet-IsJustified e t q, c) }

  pub Seen-IsLasting :
      (P : Event → Type 0) {K : Trace → Type 0} → IsLasting K → IsLasting (λ t. Seen P t × K t)
  Seen-IsLasting P l = record {
    safe = λ t k. l.safe t k.1;
    lasts = λ e t q k. (inr (q, k.0), l.lasts e t q k.1);
  }

  pub fact-IsLasting : (F : Type 0) {K : Trace → Type 0} → IsLasting K → IsLasting (λ t. F × K t)
  fact-IsLasting F l = record {
    safe = λ t k. l.safe t k.1;
    lasts = λ e t q k. (k.0, l.lasts e t q k.1);
  }

  module _ {K : Trace → Type 0} (l : IsLasting K) where
    pub give-Lasts : {A : Type 0} (a : A) → Does w project K (give a) (λ b. K)
    unfolding give
    give-Lasts a = record { ends = λ t k. k }

    pub quiet-Lasts :
        {A : Type 0} (answer : Trace → A) (event : A → Event)
        → ((a : A) → IsQuiet (event a))
        → Does w project K (ask answer event) (λ a. K)
    unfolding ask
    quiet-Lasts answer event quiet = record {
      ends = λ t k. l.lasts (event (answer t)) t (quiet (answer t)) k;
    }

    -- What is behind a step that ends unless the test holds.
    pub or_fail-Lasts :
        (e : LiveError) (b : Bool) → Does w project K (or_fail e b) (λ u t. (b ≡ true) × K t)
    unfolding or_fail give fail
    or_fail-Lasts e true = record { ends = λ t k. (refl, k) }
    or_fail-Lasts e false = record { ends = l.safe }

    pub or_fail-Lasts_all : (e : LiveError) (b : Bool) → Does w project K (or_fail e b) (λ u. K)
    unfolding or_fail give fail
    or_fail-Lasts_all e true = record { ends = λ t k. k }
    or_fail-Lasts_all e false = record { ends = l.safe }

    pub from_option-Lasts :
        {A : Type 0} (e : LiveError) (o : Option A)
        → Does w project K (from_option e o) (λ a t. (o ≡ some a) × K t)
    unfolding from_option give fail
    from_option-Lasts e none = record { ends = l.safe }
    from_option-Lasts e (some a) = record { ends = λ t k. (refl, k) }

    pub unless-Lasts :
        (b : Bool) {m : M (Unit {0})}
        → (b ≡ false → Does w project K m (λ u. IsCareful w project))
        → Does w project K (unless b m) (λ u. IsCareful w project)
    unfolding unless give
    unless-Lasts true d = record { ends = l.safe }
    unless-Lasts false d = d refl

    pub unless-Lasts_all :
        (b : Bool) {m : M (Unit {0})}
        → Does w project K m (λ u. K)
        → Does w project K (unless b m) (λ u. K)
    unfolding unless give
    unless-Lasts_all true d = record { ends = λ t k. k }
    unless-Lasts_all false d = d

    pub when_some-Lasts :
        {A : Type 0} (o : Option A) {f : A → M (Unit {0})}
        → ((a : A) → Does w project K (f a) (λ u. K))
        → Does w project K (when_some o f) (λ u. K)
    unfolding when_some give
    when_some-Lasts none d = record { ends = λ t k. k }
    when_some-Lasts (some a) d = d a

  -- What follows from less.
  pub weaken-Does :
      {A : Type 0} {P P' : Trace → Type 0} {m : M A} {Q : A → Trace → Type 0}
      → ((t : Trace) → P' t → P t)
      → Does w project P m Q
      → Does w project P' m Q
  weaken-Does less d = record { ends = λ t p. d.ends t (less t p) }
