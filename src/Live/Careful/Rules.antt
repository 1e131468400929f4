-- ===== src/Live/Careful/Rules.antt =====
-- Rules for the steps of internal/reconcile/apply_live.go: what holds of the trace before, and what
-- holds of the answer and the trace behind, with a careful trace where a step fails.
use devm.Base.{Option, none, some, Bool, true, false, List, [], ◌∷◌, Bytes}
use devm.Live.World.{
  Event, Trace, World, LiveError, Result, ok, failed, M, after, ◌>>=◌, give, fail, or_fail, unless,
  ask, each_do, from_option, when_some,
}
use devm.Live.Careful.{IsCareful, IsJustified}

module _ (w : World) (project : Bytes) where
  -- Any answer satisfies `Q`, any failure leaves a careful trace.
  abbrev pub Ends : {A : Type 0} → (A → Trace → Type 0) → Result A × Trace → Type 0
  Ends Q (ok a, t) = Q a t
  Ends Q (failed e, t) = IsCareful w project t

  pub record Does {A : Type 0} (P : Trace → Type 0) (m : M A) (Q : A → Trace → Type 0)
      : Type 0 where
    pub ends : (t : Trace) → P t → Ends Q (m t)

  after-Ends :
      {A B : Type 0} (Q : A → Trace → Type 0) (R : B → Trace → Type 0) (f : A → M B)
      → (r : Result A × Trace) → Ends Q r
      → ((a : A) (t : Trace) → Q a t → Ends R (f a t))
      → Ends R (after r f)
  after-Ends Q R f (ok a, t) q next = next a t q
  after-Ends Q R f (failed e, t) q next = q

  pub bind-Does :
      {A B : Type 0} {P : Trace → Type 0} {m : M A} {f : A → M B}
      → (Q : A → Trace → Type 0) {R : B → Trace → Type 0} → Does P m Q
      → ((a : A) → Does (Q a) (f a) R)
      → Does P (m >>= f) R
  unfolding ◌>>=◌
  bind-Does {m = m} {f = f} Q {R = R} first next = record {
    ends = λ t p. after-Ends Q R f (m t) (first.ends t p) (λ a u q. (next a).ends u q);
  }

  -- What keeps a trace careful.
  abbrev pub Keeps : {A : Type 0} → M A → Type 0
  Keeps m = Does (IsCareful w project) m (λ a. IsCareful w project)

  pub then-Keeps :
      {A B : Type 0} {m : M A} {f : A → M B} → Keeps m → ((a : A) → Keeps (f a)) → Keeps (m >>= f)
  then-Keeps first next = bind-Does (λ a. IsCareful w project) first next

  pub give-Keeps : {A : Type 0} (a : A) → Keeps (give a)
  unfolding give
  give-Keeps a = record { ends = λ t c. c }

  pub fail-Keeps : {A : Type 0} (e : LiveError) → Keeps {A = A} (fail e)
  unfolding fail
  fail-Keeps e = record { ends = λ t c. c }

  pub or_fail-Keeps : (e : LiveError) (b : Bool) → Keeps (or_fail e b)
  unfolding or_fail give fail
  or_fail-Keeps e true = give-Keeps tt
  or_fail-Keeps e false = fail-Keeps e

  -- What an answer of `true` has established.
  abbrev pub Once : (Trace → Type 0) → Bool → Trace → Type 0
  Once P true t = P t
  Once P false t = IsCareful w project t

  pub or_fail-Once :
      (P : Trace → Type 0) (e : LiveError) (b : Bool) → Does (Once P b) (or_fail e b) (λ u. P)
  unfolding or_fail give fail
  or_fail-Once P e true = record { ends = λ t c. c }
  or_fail-Once P e false = record { ends = λ t c. c }

  pub unless-Keeps : (b : Bool) {m : M (Unit {0})} → Keeps m → Keeps (unless b m)
  unfolding unless give
  unless-Keeps true k = give-Keeps tt
  unless-Keeps false k = k

  pub each_do-Keeps :
      {A : Type 0} (f : A → M (Unit {0}))
      → ((a : A) → Keeps (f a))
      → (xs : List A) → Keeps (each_do f xs)
  unfolding each_do give
  each_do-Keeps f k [] = give-Keeps tt
  each_do-Keeps f k (x ∷ xs) = then-Keeps (k x) (λ u. each_do-Keeps f k xs)

  pub from_option-Keeps : {A : Type 0} (e : LiveError) (o : Option A) → Keeps (from_option e o)
  unfolding from_option give fail
  from_option-Keeps e none = record { ends = λ t c. c }
  from_option-Keeps e (some a) = record { ends = λ t c. c }

  pub when_some-Keeps :
      {A : Type 0} (o : Option A) {f : A → M (Unit {0})}
      → ((a : A) → Keeps (f a))
      → Keeps (when_some o f)
  unfolding when_some give
  when_some-Keeps none k = record { ends = λ t c. c }
  when_some-Keeps (some a) k = k a

  -- A call whose event needs no grounds.
  pub ask-Keeps :
      {A : Type 0} (answer : Trace → A) (event : A → Event)
      → ((a : A) (t : Trace) → IsJustified w project (event a) t)
      → Keeps (ask answer event)
  unfolding ask
  ask-Keeps answer event free = record { ends = λ t c. (free (answer t) t, c) }

  -- What is more than needed.
  pub loosen-Does :
      {A : Type 0} {P : Trace → Type 0} {m : M A} {Q R : A → Trace → Type 0}
      → ((a : A) (t : Trace) → Q a t → R a t)
      → Does P m Q
      → Does P m R
  loosen-Does {Q = Q} {R = R} more d = record { ends = λ t p. ends_more _ (d.ends t p) }
    where
      ends_more : (r : _) → Ends Q r → Ends R r
      ends_more (ok a, t) q = more a t q
      ends_more (failed e, t) q = q
