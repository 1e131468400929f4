-- ===== src/Live/Careful/Scans.antt =====
-- The scans of the two sides and the checks before a session (internal/reconcile/apply_live.go): what
-- is known stays known over them.
use devm.Base.{true, Option, none, some, ◌∷◌, ◌≡◌, refl, inl, Bytes}
use devm.Base.Int.{int_eq}
use devm.Live.World.{
  scan, ExecReply, guest_ran, walked, Trace, World, guest_scan, mac_scan, ◌>>=◌, give, fail,
  from_option, ask,
}
use devm.Live.Guest.{Side, scan_guest_side, guest_side_of}
use devm.Live.Mirrors.{scan_mac_side, mac_side_of, guard_ok, verify_git_head}
use devm.Live.Sessions.{SessionSpec, find_exact_session, check_sides}
use devm.Live.Careful.{Seen, IsMacScan, IsGuestScan}
use devm.Live.Careful.Rules.{Does, Ends, bind-Does}
use devm.Live.Careful.Known.{
  IsLasting, fact-IsLasting, quiet-Lasts, or_fail-Lasts, or_fail-Lasts_all, from_option-Lasts,
  unless-Lasts_all, when_some-Lasts, weaken-Does, give-Lasts,
}

module _ (w : World) (project : Bytes) where
  module _ {K : Trace → Type 0} (l : IsLasting w project K) where
    abbrev pub MacSeen : Bytes → Side → Trace → Type 0
    MacSeen path side t = Seen (IsMacScan w path side) t × K t

    abbrev pub GuestSeen : Bytes → Side → Trace → Type 0
    GuestSeen path side t = Seen (IsGuestScan path side) t × K t

    mac_scanned :
        (path : Bytes) (t : Trace) (reply : _) (o : Option Side)
        → mac_side_of w.sha256_hex reply ≡ o
        → K t
        → Ends w project (MacSeen path) (from_option mac_scan o (walked path reply ∷ t))
    unfolding from_option give fail
    mac_scanned path t reply none e k = l.safe _ (l.lasts (walked path reply) t tt k)
    mac_scanned path t reply (some side) e k = (inl (refl, e), l.lasts (walked path reply) t tt k)

    pub scan_mac_side-Does : (path : Bytes) → Does w project K (scan_mac_side w path) (MacSeen path)
    unfolding scan_mac_side ask ◌>>=◌
    scan_mac_side-Does path = record { ends = λ t k. mac_scanned path t (w.walk t path) _ refl k }

    guest_scanned :
        (path : Bytes) (t : Trace) (reply : ExecReply) (o : Option Side)
        → guest_side_of reply ≡ o
        → K t
        → Ends w project
            (GuestSeen path)
            (from_option guest_scan o (guest_ran (scan path) reply ∷ t))
    unfolding from_option give fail
    guest_scanned path t reply none e k = l.safe _ (l.lasts (guest_ran (scan path) reply) t tt k)
    guest_scanned path t reply (some side) e k =
        (inl (refl, e), l.lasts (guest_ran (scan path) reply) t tt k)

    pub scan_guest_side-Does :
        (path : Bytes) → Does w project K (scan_guest_side w path) (GuestSeen path)
    unfolding scan_guest_side ask ◌>>=◌
    scan_guest_side-Does path = record { ends = λ t k. guest_scanned path t _ _ refl k }

    pub verify_git_head-Does :
        (label path : Bytes) → Does w project K (verify_git_head w label path) (λ u. K)
    unfolding verify_git_head
    verify_git_head-Does label path =
        bind-Does w project (λ b. K) (quiet-Lasts w project l _ _ (λ b. tt))
          (or_fail-Lasts_all w project l _)

  module _ {K : Trace → Type 0} (l : IsLasting w project K) where
    pub check_sides-Does :
        (spec : SessionSpec) (mirror : Bytes) (mac guest : Side)
        → Does w project K
            (check_sides w spec mirror mac guest)
            (λ u t. ((guard_ok mac guest).0 ≡ true) × K t)
    unfolding check_sides
    check_sides-Does spec mirror mac guest =
        let accepted = fact-IsLasting w project ((guard_ok mac guest).0 ≡ true) l in
        bind-Does w project (λ u t. ((guard_ok mac guest).0 ≡ true) × K t)
          (or_fail-Lasts w project l _ _)
          (λ u. when_some-Lasts w project accepted spec.repo (λ r.
            unless-Lasts_all w project accepted _
              (verify_git_head-Does accepted spec.label mirror)))

    pub find_exact_session-Does :
        (name : Bytes) → Does w project K (find_exact_session w name) (λ found. K)
    unfolding find_exact_session
    find_exact_session-Does name =
        bind-Does w project (λ r. K) (quiet-Lasts w project l _ _ (λ r. tt))
          (λ r.
            bind-Does w project (λ ss t. (r ≡ some ss) × K t) (from_option-Lasts w project l _ r)
              (λ ss. weaken-Does w project (λ t k. k.1) (give-Lasts w project l _)))
