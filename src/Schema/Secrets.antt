-- ===== src/Schema/Secrets.antt =====
-- Secrets: `Network.SecretHosts` and `Config.validateSecretBindings` (internal/schema/schema.go).
use devm.Base.{
  ◌≡◌, refl, ap, ◌↔◌, inl, inr, not, Option, none, some, List, map, [], ◌∷◌, ◌++◌, arith, ◌==◌,
  nat_eq, keep, any, is_nil, Bool-cases, Bytes, bytes_eq, if◌then◌else◌, eq_of_==,
}
use devm.Base.Int.{int_eq}
use devm.Base.Assoc.{Map, lookup}
use devm.Base.Names.{
  has, keys, sorted_set, has-sorted_set, has-keep, sorted_set-is_nil, sorted_set-empty_iff,
}
use devm.Base.Rounds.{concat_map, any-concat_map}
use devm.Base.Checks.{◌or_else◌, reject_if, ◌and_also◌, reject_if_iff, iff_trans}
use devm.Schema.Allow.{AllowEntry, host_part}
use devm.Schema.Config.{Config, EnvValue}

pub data BindingError : Type 0 where
  bound_to_no_host never_delivered : List Bytes → BindingError

-- The secrets that a map of env values refers to.
unfoldable pub secrets_of : Map Bytes EnvValue → List Bytes
secrets_of [] = []
secrets_of ((k, v) ∷ env) =
    let rest = secrets_of env in elim (v.secret) [ none ↦ rest | some name ↦ name ∷ rest ]

unfoldable pub env_refs : Config → List Bytes
env_refs c = secrets_of c.env ++ concat_map (λ kv. secrets_of ((kv.1).env)) c.services

-- The secrets that some allow entry names, and the hosts that name one of them.
unfoldable pub named_secrets : List AllowEntry → List Bytes
named_secrets allow = concat_map (λ e. e.secrets) allow

unfoldable pub hosts_naming : Bytes → List AllowEntry → List Bytes
hosts_naming name allow = map host_part (keep (λ e. has name e.secrets) allow)

unfoldable pub secret_hosts : List AllowEntry → Map Bytes (List Bytes)
secret_hosts allow =
    map (λ name. (name, sorted_set (hosts_naming name allow))) (sorted_set (named_secrets allow))

-- Reading a missing key gives the empty list.
unfoldable pub hosts_of : Map Bytes (List Bytes) → Bytes → List Bytes
hosts_of hosts name = elim (lookup name hosts) [ none ↦ [] | some hs ↦ hs ]

unfoldable pub validate_secret_bindings : Config → Option BindingError
validate_secret_bindings c =
    let refs = env_refs c in
    let hosts = secret_hosts c.allow in
    let unscoped = sorted_set (keep (λ n. is_nil (hosts_of hosts n)) refs) in
    let undelivered = sorted_set (keep (λ n. not (has n refs)) (keys hosts)) in
    reject_if (not (is_nil unscoped)) (bound_to_no_host unscoped)
    or_else reject_if (not (is_nil undelivered)) (never_delivered undelivered)

-- Every secret is named on both sides of the config or on none.
abbrev pub SecretsBound : Config → Type 0
SecretsBound c = (n : Bytes) → has n (env_refs c) ≡ has n (named_secrets c.allow)

module _ {A : Type 0} where
  lookup-map :
      (f : Bytes → A) (n : Bytes) (xs : List Bytes)
      → lookup n (map (λ x. (x, f x)) xs) ≡ (if has n xs then some (f n) else none)
  unfolding lookup
  lookup-map f n [] = refl
  lookup-map f n (x ∷ xs) = elim (Bool-cases (x == n)) [
    | inl same ↦ rw same (ap (λ z. some (f z)) (eq_of_== x n same))
    | inr other ↦ rw other (lookup-map f n xs)
  ]

  keys-map : (f : Bytes → A) (xs : List Bytes) → keys (map (λ x. (x, f x)) xs) ≡ xs
  keys-map f [] = refl
  keys-map f (x ∷ xs) = ap (λ t. x ∷ t) (keys-map f xs)

hosts_naming-is_nil :
    (n : Bytes) (allow : List AllowEntry)
    → is_nil (hosts_naming n allow) ≡ not (any (λ e. has n e.secrets) allow)
unfolding hosts_naming
hosts_naming-is_nil n [] = refl
hosts_naming-is_nil n (e ∷ allow) = ground (arith, hosts_naming-is_nil n allow)

has-named_secrets :
    (n : Bytes) (allow : List AllowEntry)
    → has n (named_secrets allow) ≡ any (λ e. has n e.secrets) allow
unfolding named_secrets
has-named_secrets n allow = any-concat_map (λ y. y == n) (λ e. e.secrets) allow

hosts_of-is_nil :
    (n : Bytes) (allow : List AllowEntry)
    → is_nil (hosts_of (secret_hosts allow) n) ≡ not (has n (named_secrets allow))
unfolding hosts_of secret_hosts
hosts_of-is_nil n allow =
    rw
      (
        lookup-map (λ name. sorted_set (hosts_naming name allow)) n
            (sorted_set (named_secrets allow)),
        hosts_of,
      )
      (ground (
        arith,
        has-sorted_set n (named_secrets allow),
        has-named_secrets n allow,
        sorted_set-is_nil (hosts_naming n allow),
        hosts_naming-is_nil n allow,
      ))

has-secret_hosts :
    (n : Bytes) (allow : List AllowEntry)
    → has n (keys (secret_hosts allow)) ≡ has n (named_secrets allow)
unfolding secret_hosts
has-secret_hosts n allow =
    rw (keys-map (λ name. sorted_set (hosts_naming name allow)) (sorted_set (named_secrets allow)))
      (has-sorted_set n (named_secrets allow))

pub validate_secret_bindings_iff :
    (c : Config) → (validate_secret_bindings c ≡ none) ↔ SecretsBound c
unfolding validate_secret_bindings
validate_secret_bindings_iff c =
    let refs = env_refs c in
    let hosts = secret_hosts c.allow in
    let unscoped = keep (λ n. is_nil (hosts_of hosts n)) refs in
    let undelivered = keep (λ n. not (has n refs)) (keys hosts) in
    iff_trans
      (reject_if_iff _ _ (sorted_set-empty_iff unscoped)
        and_also reject_if_iff _ _ (sorted_set-empty_iff undelivered))
      (
        λ p n. ground (
          arith,
          p.0 n,
          p.1 n,
          has-keep (λ m. is_nil (hosts_of hosts m)) n refs,
          has-keep (λ m. not (has m refs)) n (keys hosts),
          has-secret_hosts n c.allow,
          hosts_of-is_nil n c.allow,
        ),
        λ b. (
          λ n. ground (
            arith,
            b n,
            has-keep (λ m. is_nil (hosts_of hosts m)) n refs,
            hosts_of-is_nil n c.allow,
          ),
          λ n. ground (
            arith,
            b n,
            has-keep (λ m. not (has m refs)) n (keys hosts),
            has-secret_hosts n c.allow,
          ),
        ),
      )
