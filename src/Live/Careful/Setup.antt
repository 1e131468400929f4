-- ===== src/Live/Careful/Setup.antt =====
-- The set-up of a session and the clone of a repo (internal/reconcile/apply_live.go): what they do
-- to the two sides has its grounds in the trace.
use devm.Base.{
  Bool, true, false, ◌||◌, not, Option, none, some, ◌++◌, ◌≡◌, refl, ◌==◌, Bytes, codes,
}
use native.Mathlib.Omega.{arith}
use devm.Base.Int.{ℤ, pos, negsuc, int_eq, int_above}
use devm.Live.World.{Session, created, Trace, World, ask}
use devm.Live.Guest.{Side, must_run, clone_repo_in_guest}
use devm.Live.Mirrors.{guard_ok}
use devm.Live.Sessions.{
  SessionSpec, guest_ssh_target, operate, start_session, setup_single_session,
  clone_one_repo_if_empty, setup_and_clone, recreate_session_with_ignore,
  ensure_repo_cloned_in_guest,
}
use devm.Live.Careful.{IsCareful, Seen, IsMacScan, IsGuestScan}
use devm.Live.Careful.Rules.{
  Does, Keeps, bind-Does, then-Keeps, or_fail-Keeps, when_some-Keeps, ask-Keeps, unless-Keeps,
}
use devm.Live.Careful.Known.{
  IsLasting, careful-IsLasting, Seen-IsLasting, fact-IsLasting, quiet-Lasts, or_fail-Lasts_all,
  unless-Lasts, weaken-Does,
}
use devm.Live.Careful.Steps.{
  ensure_guest_dir-Keeps, default_mirror_dir-Keeps, terminate_session_if_exists-Keeps,
}
use devm.Live.Careful.Scans.{
  GuestSeen, scan_mac_side-Does, scan_guest_side-Does, check_sides-Does, find_exact_session-Does,
}

module _ (w : World) (project : Bytes) where
  abbrev Safe : Trace → Type 0
  Safe = IsCareful w project

  -- Both sides were seen.
  abbrev BothSeen : (path guest_path : Bytes) (mac guest : Side) → Trace → Type 0
  BothSeen path guest_path mac guest t =
      Seen (IsGuestScan guest_path guest) t × (Seen (IsMacScan w path mac) t × Safe t)

  -- Both sides were seen and the guard accepts them.
  abbrev Accepted : (path guest_path : Bytes) (mac guest : Side) → Trace → Type 0
  Accepted path guest_path mac guest t =
      ((guard_ok mac guest).0 ≡ true) × BothSeen path guest_path mac guest t

  BothSeen-IsLasting :
      (path guest_path : Bytes) (mac guest : Side)
      → IsLasting w project (BothSeen path guest_path mac guest)
  BothSeen-IsLasting path guest_path mac guest =
      Seen-IsLasting w project _ (Seen-IsLasting w project _ (careful-IsLasting w project))

  Accepted-IsLasting :
      (path guest_path : Bytes) (mac guest : Side)
      → IsLasting w project (Accepted path guest_path mac guest)
  Accepted-IsLasting path guest_path mac guest =
      fact-IsLasting w project _ (BothSeen-IsLasting path guest_path mac guest)

  created-Does :
      (spec : SessionSpec) (mirror : Bytes) (mac guest : Side) (name config : Bytes)
      → let beta = codes "devm@" ++ (guest_ssh_target project ++ (codes ":" ++ spec.guest_path)) in
        Does w project
          (Accepted mirror spec.guest_path mac guest)
          (ask (λ t. w.create t name mirror beta config) (created name mirror beta config))
          (λ b. Safe)
  unfolding ask
  created-Does spec mirror mac guest name config = record {
    ends = λ t k. (
      record {
        guest_path = spec.guest_path;
        mac = mac;
        guest = guest;
        target = refl;
        accepted = k.0;
        seen_mac = k.1.1.0;
        seen_guest = k.1.0;
      },
      k.1.1.1,
    );
  }

  -- A session is created only behind two scans that the guard accepts.
  start_session-Does :
      (spec : SessionSpec) (mirror : Bytes) (mac guest : Side) (found : Option Session)
      → Does w project
          (Accepted mirror spec.guest_path mac guest)
          (start_session w project spec mirror found)
          (λ u. Safe)
  unfolding start_session operate
  start_session-Does spec mirror mac guest (some s) =
      weaken-Does w project (λ t k. k.1.1.1)
        (unless-Keeps w project _
          (then-Keeps w project (ask-Keeps w project _ _ (λ b t. tt)) (or_fail-Keeps w project _)))
  start_session-Does spec mirror mac guest none =
      let l = Accepted-IsLasting mirror spec.guest_path mac guest in
      bind-Does w project (λ b. Accepted mirror spec.guest_path mac guest)
        (quiet-Lasts w project l _ _ (λ b. tt))
        (λ b.
          bind-Does w project (λ u. Accepted mirror spec.guest_path mac guest)
            (or_fail-Lasts_all w project l _ b)
            (λ u.
              bind-Does w project (λ done. Safe) (created-Does spec mirror mac guest _ _)
                (or_fail-Keeps w project _)))

  pub setup_single_session-Keeps :
      (spec : SessionSpec) → Keeps w project (setup_single_session w project spec)
  unfolding setup_single_session
  setup_single_session-Keeps spec =
      let safe = careful-IsLasting w project in
      then-Keeps w project (default_mirror_dir-Keeps w project spec.label) (λ place.
        then-Keeps w project (ensure_guest_dir-Keeps w project spec.guest_path) (λ u.
          bind-Does w project _ (scan_mac_side-Does w project safe place.0) (λ mac.
            bind-Does w project (λ guest. BothSeen place.0 spec.guest_path mac guest)
              (scan_guest_side-Does w project (Seen-IsLasting w project _ safe) spec.guest_path)
              (λ guest.
                bind-Does w project (λ u. Accepted place.0 spec.guest_path mac guest)
                  (check_sides-Does w project (BothSeen-IsLasting place.0 spec.guest_path mac guest)
                    spec place.0 mac guest)
                  (λ u.
                    bind-Does w project (λ found. Accepted place.0 spec.guest_path mac guest)
                      (find_exact_session-Does w project
                        (Accepted-IsLasting place.0 spec.guest_path mac guest) _)
                      (start_session-Does spec place.0 mac guest))))))

  -- A repo is cloned only into a directory that was seen to have no entries.
  clone_repo_in_guest-Does :
      (url secret target ca_path : Bytes) (guest : Side)
      → int_above guest.count 0 ≡ false
      → Does w project
          (GuestSeen w project (careful-IsLasting w project) target guest)
          (clone_repo_in_guest w url secret target ca_path)
          (λ u. Safe)
  unfolding clone_repo_in_guest must_run ask
  clone_repo_in_guest-Does url secret target ca_path guest empty =
      bind-Does w project (λ r. Safe)
        (record { ends = λ t k. (record { guest = guest; seen_guest = k.0; empty = empty }, k.1) })
        (λ r. or_fail-Keeps w project _ _)

  or_false_right : (a b : Bool) → (a || b) ≡ false → b ≡ false
  or_false_right true b e = ground arith
  or_false_right false b e = e

  pub clone_one_repo_if_empty-Keeps :
      (spec : SessionSpec) → Keeps w project (clone_one_repo_if_empty w project spec)
  unfolding clone_one_repo_if_empty
  clone_one_repo_if_empty-Keeps spec =
      let safe = careful-IsLasting w project in
      when_some-Keeps w project spec.repo (λ r.
        then-Keeps w project (default_mirror_dir-Keeps w project spec.label) (λ place.
          bind-Does w project _ (scan_mac_side-Does w project safe place.0) (λ mac.
            weaken-Does w project (λ t k. k.1)
              (bind-Does w project _ (scan_guest_side-Does w project safe spec.guest_path) (λ guest.
                unless-Lasts w project (Seen-IsLasting w project _ safe) _ (λ off.
                  clone_repo_in_guest-Does r.url r.secret spec.guest_path r.ca_path guest
                    (or_false_right _ _ off)))))))

  pub setup_and_clone-Keeps :
      (spec : SessionSpec) → Keeps w project (setup_and_clone w project spec)
  unfolding setup_and_clone
  setup_and_clone-Keeps spec =
      then-Keeps w project (setup_single_session-Keeps spec)
        (λ u. clone_one_repo_if_empty-Keeps spec)

  pub recreate_session_with_ignore-Keeps :
      (spec : SessionSpec) → Keeps w project (recreate_session_with_ignore w project spec)
  unfolding recreate_session_with_ignore
  recreate_session_with_ignore-Keeps spec =
      then-Keeps w project (terminate_session_if_exists-Keeps w project spec.label)
        (λ u. setup_and_clone-Keeps spec)

  int_above_zero : (n : ℤ) → not (n == pos 0) ≡ false → int_above n 0 ≡ false
  int_above_zero (pos n) e = ground arith
  int_above_zero (negsuc n) e = refl

  pub ensure_repo_cloned_in_guest-Keeps :
      (url secret guest_path ca_path : Bytes)
      → Keeps w project (ensure_repo_cloned_in_guest w url secret guest_path ca_path)
  unfolding ensure_repo_cloned_in_guest
  ensure_repo_cloned_in_guest-Keeps url secret guest_path ca_path =
      let safe = careful-IsLasting w project in
      then-Keeps w project (ensure_guest_dir-Keeps w project guest_path) (λ u.
        bind-Does w project _ (scan_guest_side-Does w project safe guest_path) (λ guest.
          unless-Lasts w project (Seen-IsLasting w project _ safe) _ (λ off.
            clone_repo_in_guest-Does url secret guest_path ca_path guest
              (int_above_zero guest.count off))))
