-- ===== src/Live/Careful/Steps.antt =====
-- The steps of internal/reconcile/apply_live.go that keep a trace careful by themselves.
use devm.Base.{zero, suc, Bool, true, false, ◌∷◌, ◌≡◌, refl, inl, bytes_eq, Bytes}
use devm.Live.World.{
  DirReply, absent, unreadable, holds, flush, terminate, listed_dir, operated, Trace, World,
  session_flush, session_terminate, ◌>>◌, give, fail, ask,
}
use devm.Live.Guest.{must_run, ensure_guest_dir, move_guest_dir}
use devm.Live.Mirrors.{
  default_mirror_dir, resolve_mirror_path, remove_mirror_if_empty, remove_if_empty, rename_mirror,
}
use devm.Live.Sessions.{session_name, find_exact_session, operate, terminate_session_if_exists}
use devm.Live.Careful.{IsCareful, Seen, IsFlush}
use devm.Live.Careful.Rules.{
  Does, Keeps, bind-Does, then-Keeps, give-Keeps, or_fail-Keeps, Once, or_fail-Once,
  from_option-Keeps, when_some-Keeps, ask-Keeps,
}

module _ (w : World) (project : Bytes) where
  abbrev Safe : Trace → Type 0
  Safe = IsCareful w project

  pub ensure_guest_dir-Keeps : (path : Bytes) → Keeps w project (ensure_guest_dir w path)
  unfolding ensure_guest_dir must_run
  ensure_guest_dir-Keeps path =
      then-Keeps w project (ask-Keeps w project _ _ (λ a t. tt)) (λ r. or_fail-Keeps w project _ _)

  pub move_guest_dir-Keeps : (a b : Bytes) → Keeps w project (move_guest_dir w a b)
  unfolding move_guest_dir must_run
  move_guest_dir-Keeps a b =
      then-Keeps w project (ask-Keeps w project _ _ (λ r t. tt)) (λ r. or_fail-Keeps w project _ _)

  pub default_mirror_dir-Keeps :
      (label : Bytes) → Keeps w project (default_mirror_dir w project label)
  unfolding default_mirror_dir
  default_mirror_dir-Keeps label =
      then-Keeps w project (ask-Keeps w project _ _ (λ a t. tt)) (λ made.
        then-Keeps w project (or_fail-Keeps w project _ made) (λ u.
          then-Keeps w project (ask-Keeps w project _ _ (λ a t. tt)) (λ r.
            then-Keeps w project (from_option-Keeps w project _ _) (λ n. give-Keeps w project _))))

  pub resolve_mirror_path-Keeps :
      (label : Bytes) → Keeps w project (resolve_mirror_path w project label)
  unfolding resolve_mirror_path
  resolve_mirror_path-Keeps label =
      then-Keeps w project (default_mirror_dir-Keeps label) (λ a. give-Keeps w project _)

  pub rename_mirror-Keeps : (a b : Bytes) → Keeps w project (rename_mirror w project a b)
  unfolding rename_mirror
  rename_mirror-Keeps a b = then-Keeps w project (resolve_mirror_path-Keeps a) (λ path.
      then-Keeps w project (ask-Keeps w project _ _ (λ r t. tt))
        (λ done. or_fail-Keeps w project _ done))

  pub find_exact_session-Keeps : (name : Bytes) → Keeps w project (find_exact_session w name)
  unfolding find_exact_session
  find_exact_session-Keeps name =
      then-Keeps w project (ask-Keeps w project _ _ (λ r t. tt))
        (λ r. then-Keeps w project (from_option-Keeps w project _ r) (λ ss. give-Keeps w project _))

  flushed :
      (id : Bytes) (t : Trace) (b : Bool)
      → Safe t
      → Once w project (λ u. Seen (IsFlush id) u × Safe u) b (operated flush id b ∷ t)
  flushed id t true c = (inl refl, (tt, c))
  flushed id t false c = (tt, c)

  -- A session is ended only behind its flush.
  flush_and_terminate-Keeps :
      (id : Bytes)
      → Keeps w project
          (operate w flush session_flush id >> operate w terminate session_terminate id)
  unfolding operate ask
  flush_and_terminate-Keeps id =
      let Behind = λ (t : Trace). Seen (IsFlush id) t × Safe t in
      bind-Does w project (λ u. Behind)
        (bind-Does w project (Once w project Behind)
          (record { ends = λ t c. flushed id t (w.session_op t flush id) c })
          (or_fail-Once w project Behind session_flush))
        (λ u.
          bind-Does w project (λ b. Safe) (record { ends = λ t c. c }) (or_fail-Keeps w project _))

  pub terminate_session_if_exists-Keeps :
      (label : Bytes) → Keeps w project (terminate_session_if_exists w project label)
  unfolding terminate_session_if_exists
  terminate_session_if_exists-Keeps label =
      then-Keeps w project (find_exact_session-Keeps (session_name project label))
        (λ found. when_some-Keeps w project found (λ s. flush_and_terminate-Keeps s.id))

  remove_if_empty-Does :
      (mirror : Bytes) (r : DirReply)
      → Does w project
          (λ t. (t' : Trace) × ((t ≡ listed_dir mirror r ∷ t') × Safe t'))
          (remove_if_empty w mirror r)
          (λ u. Safe)
  unfolding remove_if_empty ask give fail
  remove_if_empty-Does mirror absent = record { ends = λ t c. rw (c.1.0) (tt, c.1.1) }
  remove_if_empty-Does mirror unreadable = record { ends = λ t c. rw (c.1.0) (tt, c.1.1) }
  remove_if_empty-Does mirror (holds (suc n)) = record { ends = λ t c. rw (c.1.0) (tt, c.1.1) }
  remove_if_empty-Does mirror (holds zero) =
      bind-Does w project (λ b. Safe) (record { ends = λ t c. rw (c.1.0) (inl refl, (tt, c.1.1)) })
        (or_fail-Keeps w project _)

  pub remove_mirror_if_empty-Keeps :
      (label : Bytes) → Keeps w project (remove_mirror_if_empty w project label)
  unfolding remove_mirror_if_empty ask
  remove_mirror_if_empty-Keeps label =
      then-Keeps w project (resolve_mirror_path-Keeps label) (λ mirror.
        bind-Does w project (λ r t. (t' : Trace) × ((t ≡ listed_dir mirror r ∷ t') × Safe t'))
          (record { ends = λ t c. (t, (refl, c)) }) (remove_if_empty-Does mirror))
