-- ===== src/Policy/Tests.antt =====
-- Runs of the policy on concrete requests, and its theorems at concrete inputs.
use devm.Base.{
  ◌+◌, ◌≡◌, refl, ◌≢◌, ◌↔◌, ◌⊎◌, true, false, ◌&&◌, ◌||◌, none, some, List, [], ◌∷◌, ◌++◌, map,
  arith, if◌then◌else◌, ◌==◌, nat_eq, bool_eq, pair_beq, pair_eq, take, Bytes, codes, bytes_eq,
  has_prefix, index_byte, is_nil, has_byte,
}
use devm.Base.Assoc.{lookup, insert}
use devm.Schema.Allow.{AllowEntry, host_part, path_pattern, host_part-path_pattern}
use devm.Policy.Glob.{path_match}
use devm.Policy.Match.{
  covers, allowed, strip_port, covers_plain_host, covers_subtree, strip_port_lem,
}
use devm.Policy.Denials.{rows_of, count_of, snapshot, record_denial, invalidate_resolved}
use devm.Policy.Gate.{Backend, found, offence, gate_reject, scan_names, token_of}
use devm.Policy.Gate.First.{IsAnswer, gate_reject-IsAnswer}
use devm.Policy.Gate.Safe.{IsSafePath}
use devm.Policy.Authority.{
  restricted, passthrough, new_authority, allowlist_for, mode_for, set_allowlist, stop_serving,
  purge_project, decide, proceed, HttpRequest, transform_request,
}
use devm.Policy.Authority.Decisions.{transform_request-proceed_iff, stopped_project, decide_counts}
use devm.Policy.Authority.Consistent.{Op, op_set_allowlist, op_transform, run, run-IsConsistent}

abbrev no_query : Bytes → Bytes
no_query url = elim (index_byte url b'?') [ none ↦ url | some i ↦ take i url ]

abbrev ask : Bytes → Bytes → HttpRequest
ask host url = record { host = host; method = codes "GET"; url = url }

abbrev blog : Bytes
blog = codes "blog"

abbrev list : List Bytes
list = codes "*.example.com" ∷ codes "api.test/v1/*" ∷ codes "plain.org" ∷ []

abbrev configured : List Op
configured = op_set_allowlist blog list ∷ []

abbrev visits : List Op
visits =
    op_set_allowlist blog list
    ∷ op_transform blog (ask (codes "evil.org:443") (codes "/x")) 5
    ∷ op_transform blog (ask (codes "evil.org") (codes "/x?q")) 6
    ∷ op_transform blog (ask (codes "api.test") (codes "/v1beta")) 7
    ∷ []

allowed_tests :
    (allowed list (codes "a.b.example.com") (codes "/") ≡ true)
    × (allowed list (codes "example.com") (codes "/") ≡ true)
    × (allowed list (codes "badexample.com") (codes "/") ≡ false)
    × (allowed list (codes "api.test") (codes "/v1") ≡ true)
    × (allowed list (codes "api.test") (codes "/v1/x") ≡ true)
    × (allowed list (codes "api.test") (codes "/v1beta") ≡ false)
    × (allowed list (codes "plain.org") (codes "/any") ≡ true)
    × (allowed (codes "api.*.com" ∷ []) (codes "api.a.b.com") (codes "/") ≡ true)
unfolding allowed covers host_part path_pattern path_match
allowed_tests = (refl, refl, refl, refl, refl, refl, refl, refl)

run_tests :
    let a = run no_query visits new_authority in
    (count_of blog (codes "evil.org", codes "/x") a.denials ≡ 2)
    × (count_of blog (codes "api.test", codes "/v1beta") a.denials ≡ 1)
    × (map (λ d. d.host) (snapshot blog a.denials) ≡ codes "evil.org" ∷ codes "api.test" ∷ [])
unfolding run new_authority transform_request decide set_allowlist allowed covers host_part
    path_pattern path_match strip_port record_denial count_of rows_of snapshot gate_reject
    allowlist_for mode_for lookup insert invalidate_resolved
run_tests = (refl, refl, refl)

-- One line that opens the code that these runs go through.
policy : Unit {0}
unfolding run new_authority transform_request decide set_allowlist allowed covers host_part
    path_pattern path_match strip_port record_denial count_of rows_of snapshot gate_reject
    allowlist_for mode_for lookup insert invalidate_resolved
policy = tt

abbrev api_entry : AllowEntry
api_entry = record { host = codes "api.test/v1/*"; secrets = [] }

host_part-path_pattern_example :
    (host_part api_entry ++ path_pattern api_entry ≡ codes "api.test/v1/*")
    × (has_byte (host_part api_entry) b'/' ≡ false)
    × ((path_pattern api_entry ≡ []) ⊎ ((r : Bytes) × (path_pattern api_entry ≡ b'/' ∷ r)))
host_part-path_pattern_example = host_part-path_pattern api_entry

covers_plain_host_example :
    covers (codes "plain.org") (codes "/a") (codes "plain.org")
    ≡ (codes "plain.org" == codes "plain.org")
covers_plain_host_example =
    covers_plain_host (codes "plain.org") (codes "plain.org") (codes "/a") (omega arith) refl

covers_subtree_example :
    covers
      (codes "api.test")
      (codes "/v1beta")
      (codes "api.test" ++ b'/' ∷ (codes "v1" ++ codes "/*"))
    ≡ (codes "api.test" == codes "api.test"
        && (has_prefix (codes "/v1beta") (b'/' ∷ (codes "v1" ++ codes "/"))
            || codes "/v1beta" == b'/' ∷ codes "v1"))
covers_subtree_example =
    covers_subtree (codes "api.test") (codes "v1") (codes "api.test") (codes "/v1beta")
      (omega arith) refl

strip_port_lem_example :
    (strip_port (codes "a.org") ≡ codes "a.org")
    × (strip_port (codes "a.org" ++ b':' ∷ codes "443") ≡ codes "a.org")
    × (strip_port (b'[' ∷ (codes "::1" ++ b']' ∷ b':' ∷ codes "443")) ≡ codes "::1")
strip_port_lem_example =
    strip_port_lem (codes "a.org") (codes "::1") (codes "443") (refl, refl, refl) refl refl
      (refl, refl, refl)

abbrev store : Backend
store = record {
  names = λ project. some (codes "key" ∷ codes "path_key" ∷ []);
  get = λ k. if k == codes "blog/path_key" then found (codes "a/b") else found (codes "ab");
}

gate_tests :
    (gate_reject (some store) blog (codes "/__DEVM_SECRET_path_key__") ≡ some (codes "path_key"))
    × (gate_reject (some store) blog (codes "/__DEVM_SECRET_key__") ≡ none)
unfolding gate_reject scan_names offence token_of
gate_tests = (refl, refl)

gate_reject-IsAnswer_example :
    IsAnswer
      (offence store blog (codes "/__DEVM_SECRET_path_key__"))
      (codes "key" ∷ codes "path_key" ∷ [])
      (gate_reject (some store) blog (codes "/__DEVM_SECRET_path_key__"))
gate_reject-IsAnswer_example =
    gate_reject-IsAnswer store blog (codes "/__DEVM_SECRET_path_key__")
      (codes "key" ∷ codes "path_key" ∷ []) refl

transform_request-proceed_iff_example :
    ((transform_request no_query blog
        (ask (codes "plain.org:80") (codes "/x"))
        9
        (run no_query configured new_authority)).1
      ≡ proceed)
    ↔ (IsSafePath (run no_query configured new_authority).secrets blog (codes "/x")
        × ((mode_for blog (run no_query configured new_authority) ≡ passthrough)
            ⊎ (allowed
                  (allowlist_for blog (run no_query configured new_authority))
                  (strip_port (codes "plain.org:80"))
                  (codes "/x")
                ≡ true)))
transform_request-proceed_iff_example =
    transform_request-proceed_iff no_query blog (ask (codes "plain.org:80") (codes "/x")) 9
      (run no_query configured new_authority)

stopped_project_example :
    (mode_for blog (stop_serving blog (run no_query configured new_authority)) ≡ restricted)
    × (allowlist_for blog (stop_serving blog (run no_query configured new_authority))
        ≡ allowlist_for blog (run no_query configured new_authority))
    × ((transform_request no_query blog
          (ask (codes "plain.org") (codes "/x"))
          9
          (purge_project blog (run no_query configured new_authority))).1
        ≢ proceed)
stopped_project_example =
    stopped_project no_query blog (ask (codes "plain.org") (codes "/x")) 9
      (run no_query configured new_authority)

decide_counts_example :
    let a = run no_query visits new_authority in
    count_of blog
      (codes "evil.org", codes "/x")
      (decide blog (codes "evil.org") (codes "/x") (codes "GET") 9 a).0.denials
    ≡ count_of blog (codes "evil.org", codes "/x") a.denials
      + (if (decide blog (codes "evil.org") (codes "/x") (codes "GET") 9 a).1
            || is_nil blog
            || is_nil (codes "evil.org")
          then 0
          else if blog == blog
              && pair_beq (codes "evil.org", codes "/x") (codes "evil.org", codes "/x")
          then 1
          else 0)
decide_counts_example =
    decide_counts blog (codes "evil.org") (codes "/x") (codes "GET") 9
      (run no_query visits new_authority) blog (codes "evil.org", codes "/x")

run-IsConsistent_example :
    allowed (allowlist_for blog (run no_query visits new_authority)) (codes "evil.org") (codes "/x")
    ≡ false
run-IsConsistent_example =
    run-IsConsistent no_query visits blog (codes "evil.org", codes "/x")
      (record { count = 2; method = codes "GET"; first_seen = 5; last_seen = 6 })
      (unfold policy in refl)
