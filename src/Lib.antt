-- ===== src/Lib.antt =====
-- devm: the parts of the daemon and its helpers that decide things, over executable definitions.
--
-- devm runs each project in a virtual machine. A project's devm.yaml (internal/schema) says what
-- the machine holds and what it may reach. The daemon (internal/serviceapi) keeps the tables of all
-- projects: the egress policy that iron-proxy asks for every request, the hostnames, the host
-- endpoints and the loopback addresses. softnet (internal/softnet) is the network of one machine:
-- it forwards flows to the addresses that the daemon pushes, answers DNS and listens for what comes
-- in. An edit of devm.yaml goes through internal/reconcile, which says what has changed and whether
-- the machine must be started again or made anew.
--
-- The files, and the code that each is about:
--   Policy.Glob, Policy.Match   internal/policymatch: covers and allowed over the glob of path.Match
--   Policy.Denials              internal/serviceapi/denials.go: the table of rejected requests
--   Policy.Gate                 the token gate of policyauthority.go (secretGateReject): secrets in a path
--   Policy.Authority            policyauthority.go: SetAllowlist, SetMode, EnsureServing,
--                               StopServing, PurgeProject, decide, TransformRequest as functions
--                               on the record Authority; below it the invariant and the decisions
--   Daemon.Routes               routes.go and reserved_*_route.go: the record Routes has the two
--                               maps and the lists of hostnames; apply, apply_reserved_route,
--                               remove, lookup_route, lan_lookup are the methods of that name
--   Daemon.Ports                portclaims.go: reconcile and release
--   Daemon.ProjectIp            projectip.go: AllocateProjectIP and ReleaseProjectIP on Addresses
--   Schema.Config, Schema.Sizes the types of schema.go and repo.go, and the two size parsers
--   Schema.Allow                the allow entries of schema.go: host and path parts, validation
--   Schema.Service ... Labels   one file for each loop of Config.Validate: services, volumes, repos,
--                               secrets, functions, peers, labels; Schema.Validate composes them
--                               in the source's order, Schema.Valid says what they promise
--   Schema.Expand               env.go: expandWorkspace, the variables in an env value;
--                               Schema.Expand.Resolve has ResolveEnv
--   Reconcile.Change            diff.go: kinds of change, their buckets, RecreateFlavor
--   Reconcile.Walk ... All      diff.go: one compute_... function for each section, and
--                               ComputeAllChanges; Reconcile.Flavor and Reconcile.Same are about it
--   Hairpin.Slice, Hairpin.Sni  internal/serviceapi/sni_parse.go: reads that may panic, parseSNI
--   Hairpin.Peers               peers.go: the record PeersIndex has the two maps of the struct
--   Hairpin.Dispatch            hairpin_sni.go: hairpinDispatchHTTPS on the bytes a client sends
--   Live.World                  internal/reconcile/apply_live.go: what the steps ask of the outside,
--                               as events of a trace, and the monad of steps that may fail
--   Live.Guest ... Live.Apply   apply_live.go: the scripts for the guest and what they print, the
--                               mirrors and the guard, the sync sessions, the change of a volume
--                               and of a repo, and ApplyLive; Live.Careful is about its traces
--   Softnet.Egress, Dns         egress.go (target, udpTarget) and dns.go (policyResolver, and
--                               dnsZones before it: gvisor-tap-vsock's server is a parameter)
--   Softnet.Ingress             ingress.go: apply on the map of listeners
--   Softnet.Dedup               dedup.go: which log lines are printed and which are counted
--   Sync.Guard, Sync.Quote      mutagen_guard.go: the decision, and the quoting for a shell
--   Sync.Monitor                mutagen_monitor.go: the reconnect delays, the ticks and the health
--   Base                        bytes, maps, numbers, validators and lemmas that all of them share
--
-- How the code is read. A struct is a record, a Go map an association list in which `insert`
-- replaces, a pointer or a missing key an Option, a string its bytes, and an `int` that may be
-- negative the integer type of Base.Int. A method under a mutex is one step from state to state. An
-- error is a constructor with the names that its message carries, not the text. Where Go walks a
-- map in any order, the walk is over the association list, or over the sorted names where the
-- source sorts them. What belongs to the operating system or to a library that the code only
-- calls (the server behind startDNS, binding a port, probing a listener, writing a snapshot, the secret store, the path of a
-- URL, rendering a template) is an argument. From Go's standard library, path.Match,
-- net.SplitHostPort, filepath.Clean and Base, strconv.Atoi and Itoa and the name patterns of the
-- config are written out.
--
-- Bounds and fuel. The decimal print of n takes n + 1 rounds, more than it has digits. The search
-- for an address takes one round for each address of the pool. The expansion of an env value has as
-- many rounds as the value has bytes, and each round reads one or more. The two loops of
-- parseSNI have one round more than there are bytes left, and each round but the last takes some.
-- All other recursion is structural.
-- Guest ports wrap at 2 ^ 16 where the source converts them to uint16.
--
-- What is not modelled: bytes that move over sockets and pipes, processes and their signals, file
-- and keychain access, HTTP handlers, YAML and JSON decoding, the guest's shell commands,
-- templates, terminal output and the texts of errors; and, of the code with decisions of its own,
-- the lifecycle of a machine, proposals, the sync sessions of a cold start, the watchdog and the
-- supervisor.
pub mod Base
pub mod Daemon
pub mod Hairpin
pub mod Live
pub mod Policy
pub mod Reconcile
pub mod Schema
pub mod Softnet
pub mod Sync
