-- ===== src/State/Domain.antt =====
-- internal/state/transaction.go: the record of a domain, and which domains there are.
use ghostd.Prelude.{
  String, ◌==◌, Bool, ◌||◌, Option, none, some, if◌then◌else◌, joined, is_none, contains,
}
use ghostd.Env.{Env, DomainState}
use ghostd.Effect.{M, ◌>>=◌, ◌>>◌, pure, or_fail, require, plain, probe}
use ghostd.State.Files.{save, load}

-- domains[domain]: the two core domains and what `RegisterDomain` has admitted.
unfoldable pub known_domain : Env → String → Bool
known_domain e domain =
    domain == "firewall" || (domain == "netconfig" || contains e.registered domain)

abbrev pub transaction_file : String → String
transaction_file domain = joined domain "-transaction.json"

unfoldable pub domain_file : Env → String → Option String
domain_file e domain = if known_domain e domain then some (transaction_file domain) else none

module _ {e : Env} where
  -- Store.Lock: mutations, boot recovery and the revert process take turns. That it
  -- creates transaction.lock, which nothing reads, is left out.
  unfoldable pub lock : M e (Unit {0})
  lock = probe

  unfoldable pub read_record : String → e.Blob → M e (DomainState e.Blob)
  read_record legacy_name raw =
      if e.is_empty raw
      then (do old ← load legacy_name; pure (record { confirmed = old; pending = none }))
      else or_fail plain (e.unmarshal raw)

  -- Store.Domain
  unfoldable pub domain_state : String → String → M e (DomainState e.Blob)
  domain_state domain legacy_name = do
    name ← or_fail plain (domain_file e domain)
    raw ← load name
    read_record legacy_name raw

  unfoldable pub save_domain : String → DomainState e.Blob → M e (Unit {0})
  save_domain domain d = do name ← or_fail plain (domain_file e domain); save name (e.marshal d)

  -- Store.SaveExternallyManagedConfig
  unfoldable pub save_externally_managed_config : String → String → e.Blob → M e (Unit {0})
  save_externally_managed_config domain legacy_name raw = do
    d ← domain_state domain legacy_name
    require (is_none d.pending) plain
    save_domain domain (record d { confirmed = raw })
    save legacy_name raw
