-- ===== src/Live/Careful/Dropped.antt =====
-- `toggleRepoVolume` of internal/reconcile/apply_live.go where it drops a mirror: what the trace tells
-- before the mirror is removed with all that is in it.
use devm.Base.{
  ℕ, ◌≡◌, refl, ◌∙◌, ap, inl, inr, Bool, true, false, Option, none, some, List, ◌∷◌, Bytes,
}
use devm.Live.World.{
  DirReply, absent, unreadable, holds, Session, flush, terminate, Event, made_dir, listed_dir,
  listed_sessions, operated, Trace, World, LiveError, session_list, session_flush,
  session_terminate, mirror_dir, ◌>>◌, give, fail, or_fail, from_option, when_some, ask,
}
use devm.Live.Mirrors.{mirror_path, entry_count, default_mirror_dir, resolve_mirror_path}
use devm.Live.Sessions.{
  session_name, find_session, find_exact_session, operate, terminate_session_if_exists,
}
use devm.Live.Repos.{drop_mirror}
use devm.Live.Careful.{IsCareful, IsJustified, IsEnded, IsUnsynced}
use devm.Live.Careful.Rules.{Does, Keeps, bind-Does, or_fail-Keeps, loosen-Does}

module _ (w : World) (project : Bytes) where
  abbrev Safe : Trace → Type 0
  Safe = IsCareful w project

  -- The newest event, what held before it, and a careful trace.
  record Told (P : Trace → Type 0) (e : Event) (t : Trace) : Type 0 where
    before : Trace
    newest : t ≡ e ∷ before
    held : P before
    careful : Safe t

  ask-Told :
      {A : Type 0} (P : Trace → Type 0) (answer : Trace → A) (event : A → Event)
      → ((t : Trace) → P t → Safe t)
      → ((a : A) (t : Trace) → P t → IsJustified w project (event a) t)
      → Does w project P (ask answer event) (λ a. Told P (event a))
  unfolding ask
  ask-Told P answer event safe free = record {
    ends = λ t p. record {
      before = t;
      newest = refl;
      held = p;
      careful = (free (answer t) t p, safe t p);
    };
  }

  or_fail-Told :
      (P : Trace → Type 0) (event : Bool → Event) (e : LiveError) (b : Bool)
      → Does w project (Told P (event b)) (or_fail e b) (λ u. Told P (event true))
  unfolding or_fail give fail
  or_fail-Told P event e true = record { ends = λ t p. p }
  or_fail-Told P event e false = record { ends = λ t p. p.careful }

  from_option-Told :
      {A : Type 0} (P : Trace → Type 0) (event : Option A → Event) (e : LiveError) (o : Option A)
      → Does w project (Told P (event o)) (from_option e o) (λ a. Told P (event (some a)))
  unfolding from_option give fail
  from_option-Told P event e none = record { ends = λ t p. p.careful }
  from_option-Told P event e (some a) = record { ends = λ t p. p }

  -- The answer of a lookup comes from the list that was just read.
  record Found (name : Bytes) (found : Option Session) (t : Trace) : Type 0 where
    sessions : List Session
    answer : find_session name sessions ≡ found
    listed : Told Safe (listed_sessions name (some sessions)) t

  find_exact_session-Found :
      (name : Bytes) → Does w project Safe (find_exact_session w name) (Found name)
  unfolding find_exact_session give
  find_exact_session-Found name =
      bind-Does w project (λ o. Told Safe (listed_sessions name o))
        (ask-Told Safe (λ t. w.sessions t name) (listed_sessions name) (λ t c. c) (λ a t c. tt))
        (λ o.
          bind-Does w project (λ ss. Told Safe (listed_sessions name (some ss)))
            (from_option-Told Safe (listed_sessions name) session_list o)
            (λ ss. record { ends = λ t l. record { sessions = ss; answer = refl; listed = l } }))

  abbrev Ended : Bytes → Trace → Type 0
  Ended name t = IsEnded name t × Safe t

  Told-IsEnded :
      (name : Bytes) (s : Session) (t : Trace)
      → Told
          (Told (Found name (some s)) (operated flush s.id true))
          (operated terminate s.id true)
          t
      → IsEnded name t
  Told-IsEnded name s t told =
      let found = told.held.held in
      let e1 = told.newest in
      let e2 = ap (λ u. operated terminate s.id true ∷ u) told.held.newest in
      let e3 =
        ap (λ u. operated terminate s.id true ∷ operated flush s.id true ∷ u) found.listed.newest in
      (found.sessions, found.listed.before, inr (s, found.answer, e1 ∙ e2 ∙ e3))

  flush_and_terminate-Ended :
      (name : Bytes) (s : Session)
      → Does w project
          (Found name (some s))
          (operate w flush session_flush s.id >> operate w terminate session_terminate s.id)
          (λ u. Ended name)
  unfolding operate
  flush_and_terminate-Ended name s =
      let Flushed = Told (Found name (some s)) (operated flush s.id true) in
      bind-Does w project (λ u. Flushed)
        (bind-Does w project (λ b. Told (Found name (some s)) (operated flush s.id b))
          (ask-Told _ _ _ (λ t f. f.listed.careful) (λ b t f. tt))
          (or_fail-Told _ (operated flush s.id) session_flush))
        (λ u.
          loosen-Does w project (λ a t told. (Told-IsEnded name s t told, told.careful))
            (bind-Does w project (λ b. Told Flushed (operated terminate s.id b))
              (ask-Told _ _ _ (λ t f. f.careful) (λ b t f. rw (f.newest) (inl refl)))
              (or_fail-Told _ (operated terminate s.id) session_terminate)))

  terminate-Found-Ended :
      (name : Bytes) (found : Option Session)
      → Does w project
          (Found name found)
          (when_some found
            (λ s. operate w flush session_flush s.id >> operate w terminate session_terminate s.id))
          (λ u. Ended name)
  unfolding when_some give
  terminate-Found-Ended name none = record {
    ends =
        λ t f. ((f.sessions, f.listed.before, inl (f.answer, f.listed.newest)), f.listed.careful);
  }
  terminate-Found-Ended name (some s) = flush_and_terminate-Ended name s

  terminate_session_if_exists-Ended :
      (label : Bytes)
      → Does w project Safe
          (terminate_session_if_exists w project label)
          (λ u. Ended (session_name project label))
  unfolding terminate_session_if_exists
  terminate_session_if_exists-Ended label =
      bind-Does w project (Found (session_name project label))
        (find_exact_session-Found (session_name project label))
        (terminate-Found-Ended (session_name project label))

  -- The directory was just made sure of and listed.
  abbrev Made : (Trace → Type 0) → Bytes → Trace → Type 0
  Made P path = Told P (made_dir path true)

  record LookedUp (P : Trace → Type 0) (path : Bytes) (t : Trace) : Type 0 where
    entries : ℕ
    listed : Told (Made P path) (listed_dir path (holds entries)) t

  entry_count-LookedUp :
      (P : Trace → Type 0) (path : Bytes) (r : DirReply)
      → Does w project
          (Told (Made P path) (listed_dir path r))
          (from_option mirror_dir (entry_count r))
          (λ n. LookedUp P path)
  unfolding from_option give fail entry_count
  entry_count-LookedUp P path absent = record { ends = λ t p. p.careful }
  entry_count-LookedUp P path unreadable = record { ends = λ t p. p.careful }
  entry_count-LookedUp P path (holds n) = record {
    ends = λ t p. record { entries = n; listed = p };
  }

  default_mirror_dir-LookedUp :
      (P : Trace → Type 0) (label : Bytes)
      → ((t : Trace) → P t → Safe t)
      → Does w project P
          (default_mirror_dir w project label)
          (λ a t. (a.0 ≡ mirror_path w project label) × LookedUp P a.0 t)
  unfolding default_mirror_dir give
  default_mirror_dir-LookedUp P label safe =
      let path = mirror_path w project label in
      bind-Does w project (λ b. Told P (made_dir path b)) (ask-Told P _ _ safe (λ b t p. tt))
        (λ b.
          bind-Does w project (λ u. Made P path) (or_fail-Told P (made_dir path) mirror_dir b)
            (λ u.
              bind-Does w project (λ r. Told (Made P path) (listed_dir path r))
                (ask-Told (Made P path) _ _ (λ t p. p.careful) (λ r t p. tt))
                (λ r.
                  bind-Does w project (λ n. LookedUp P path) (entry_count-LookedUp P path r)
                    (λ n. record { ends = λ t p. (refl, p) }))))

  resolve_mirror_path-LookedUp :
      (P : Trace → Type 0) (label : Bytes)
      → ((t : Trace) → P t → Safe t)
      → Does w project P
          (resolve_mirror_path w project label)
          (λ path t. (path ≡ mirror_path w project label) × LookedUp P path t)
  unfolding resolve_mirror_path give
  resolve_mirror_path-LookedUp P label safe =
      bind-Does w project (λ a t. (a.0 ≡ mirror_path w project label) × LookedUp P a.0 t)
        (default_mirror_dir-LookedUp P label safe) (λ a. record { ends = λ t p. p })

  LookedUp-IsUnsynced :
      (label path : Bytes) (t : Trace)
      → path ≡ mirror_path w project label
      → LookedUp (Ended (session_name project label)) path t
      → IsUnsynced w project path t
  LookedUp-IsUnsynced label path t at l = record {
    label = label;
    entries = l.entries;
    before = l.listed.held.before;
    is_mirror = at;
    looked_up =
        l.listed.newest ∙ ap (λ u. listed_dir path (holds l.entries) ∷ u) l.listed.held.newest;
    ended = l.listed.held.held.0;
  }

  -- A mirror is dropped only where no session of its label is left.
  pub drop_mirror-Keeps : (label : Bytes) → Keeps w project (drop_mirror w project label)
  unfolding drop_mirror ask
  drop_mirror-Keeps label =
      let name = session_name project label in
      bind-Does w project (λ u. Ended name) (terminate_session_if_exists-Ended label)
        (λ u.
          bind-Does w project
            (λ path t. (path ≡ mirror_path w project label) × LookedUp (Ended name) path t)
            (resolve_mirror_path-LookedUp (Ended name) label (λ t e. e.1))
            (λ path.
              bind-Does w project (λ done. Safe)
                (record {
                  ends = λ t l. (LookedUp-IsUnsynced label path t (l.0) (l.1), l.1.listed.careful);
                })
                (or_fail-Keeps w project _)))
