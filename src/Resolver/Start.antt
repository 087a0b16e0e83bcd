-- ===== src/Resolver/Start.antt =====
-- internal/resolver/resolver.go and plugins.go: start, which publishes where the resolver listens.
pub mod Closed
pub mod Files
pub mod Published
use ghostd.Ledger.Partial.{◌>>=◌, ◌>>◌, check}
use ghostd.Nft.Chains.{print, join}
use ghostd.Prelude.{
  String, Bool, true, false, ◌||◌, not, Option, none, some, List, [], ◌∷◌, ◌++◌, insert, erase,
  joined, if◌then◌else◌,
}
use ghostd.Resolver.Acl.{DnsIdentity, validate_acl}
use ghostd.Resolver.Host.{Host}
use ghostd.Resolver.Policy.{Policies, set_policies}

-- The variables of the package, the Corefile of the instance that runs, and the runtime directory.
pub record Service : Type 0 where
  pub policies : Policies
  pub has_lan : Bool
  pub running : Option String
  pub directory : List (String × String)

-- How far publish comes for a file.
pub data Publication : Type 0 where
  create_fails write_fails chmod_fails close_fails rename_fails : Publication
  renamed : Publication

-- The name of a temporary file: os.CreateTemp puts a text of its own after the prefix.
abbrev pub temp_name : String → String
temp_name random = joined ".dns-" random

-- publish: whether it went well, and the directory. The temporary file is removed on each way out.
unfoldable pub publish :
    String → String → String → Publication → List (String × String) → Bool × List (String × String)
publish random name content create_fails dir = (false, dir)
publish random name content renamed dir =
    (true, insert name content (erase (temp_name random) (insert (temp_name random) content dir)))
publish random name content _ dir =
    (false, erase (temp_name random) (insert (temp_name random) content dir))

-- for name, content := range files { … }, in the order of the list
unfoldable pub publish_all :
    String
    → (String → Publication)
    → List (String × String)
    → List (String × String)
    → Bool × List (String × String)
unfolding publish
publish_all random fate [] dir = (true, dir)
publish_all random fate ((name, content) ∷ files) dir =
    let (done, dir') = publish random name content (fate name) dir in
    let rest = publish_all random fate files dir' in if done then rest else (false, dir')

abbrev pub env_name : String → String
env_name name = joined "dns-" (joined name ".env")

abbrev pub conf_name : String → String
conf_name name = joined "resolv-" (joined name ".conf")

abbrev pub env_text : String → String
env_text address = print ("GHOSTD_DNS_ADDRESS=" ∷ address ∷ "\n" ∷ [])

conf_text : DnsIdentity → String
unfolding print
conf_text id = print (
    "# Managed by ghostd; resolver for identity " ∷ id.name ∷ " only.\nnameserver " ∷ id.listen
    ∷ "\n" ∷ [])

unfoldable pub identity_files : List DnsIdentity → List (String × String)
unfolding conf_text
identity_files [] = []
identity_files (id ∷ ids) =
    (env_name id.name, env_text id.listen) ∷ (conf_name id.name, conf_text id) ∷ identity_files ids

unfoldable pub files_of : String → List DnsIdentity → List (String × String)
unfolding identity_files
files_of address ids =
    ("dns.env", env_text address)
    ∷ (
      "resolv.conf",
      print (
          "# Managed by ghostd; for clients without Podman service discovery.\nnameserver "
          ∷ address ∷ "\n" ∷ []),
    )
    ∷ identity_files ids

-- The texts that pluginCorefile takes beside the listeners: the port, upstream and leaseDirective.
pub record Chain : Type 0 where
  pub port : String
  pub upstream : String
  pub lease_directive : String

block : Chain → String → String → String
unfolding print join
block c address acl = print (
    ".:"
    ∷ c.port
    ∷ " {\n bind "
    ∷ address
    ∷ "\n"
    ∷ acl
    ∷ c.lease_directive
    ∷ " cache 30 {\n servfail 5s\n }\n ghostlocal\n forward . "
    ∷ join " " (c.upstream ∷ "1.1.1.1" ∷ "8.8.8.8" ∷ [])
    ∷ " {\n max_concurrent 128\n policy sequential\n failover SERVFAIL REFUSED\n }\n}\n"
    ∷ [])

identity_blocks : Chain → List DnsIdentity → String
unfolding block
identity_blocks c [] = ""
identity_blocks c (id ∷ ids) =
    joined (block c id.listen (print (" ghostacl " ∷ id.name ∷ "\n" ∷ []))) (identity_blocks c ids)

-- pluginCorefile
unfoldable pub plugin_corefile : Chain → String → List DnsIdentity → String
unfolding block identity_blocks
plugin_corefile c address ids = joined (block c address "") (identity_blocks c ids)

-- What start meets: whether CoreDNS starts and the directory can be made, how each file fares, and in
-- which order Go ranges over the files.
pub record Course : Type 0 where
  pub caddy_starts : Bool
  pub directory_made : Bool
  pub random : String
  pub fate : String → Publication
  pub order : List (String × String) → List (String × String)

-- stop, on the way out of a start that fails
unfoldable pub stopped : Service → Service
stopped s = record s { policies = none; has_lan = false; running = none }

unfoldable pub published : Bool × List (String × String) → Service → Bool × Service
unfolding stopped
published (true, dir) s = (true, record s { directory = dir })
published (false, dir) s = (false, stopped (record s { directory = dir }))

module _ (h : Host) where
  -- An identity listens on the base address.
  unfoldable pub listens_on : h.Ip → DnsIdentity → Bool
  listens_on ip id = elim (h.parse_ip id.listen) [ none ↦ false | some other ↦ h.same_ip other ip ]

  unfoldable pub any_listens_on : h.Ip → List DnsIdentity → Bool
  unfolding listens_on
  any_listens_on ip [] = false
  any_listens_on ip (id ∷ ids) = listens_on ip id || any_listens_on ip ids

  -- The checks of start before it changes anything.
  unfoldable pub accept_start : String → List DnsIdentity → Option h.Ip
  accept_start address ids = do
    ip ← h.parse_ip address
    validate_acl h ids
    check (not (any_listens_on ip ids))
    some ip

  -- What follows the start of CoreDNS.
  unfoldable pub publish_service : Course → String → List DnsIdentity → Service → Bool × Service
  unfolding stopped published publish_all files_of
  publish_service course address ids s =
      if not course.directory_made
      then (false, stopped s)
      else published
          (publish_all course.random course.fate (course.order (files_of address ids)) s.directory)
          s

  unfoldable pub launch :
      Chain → Course → Bool → List DnsIdentity → String → Service → Bool × Service
  unfolding publish_service plugin_corefile
  launch chain course lan ids address s =
      let s' = record s { policies = set_policies ids; has_lan = s.has_lan || lan } in
      if not course.caddy_starts
      then (false, record s' { policies = none })
      else publish_service course address ids
          (record s' { running = some (plugin_corefile chain address ids) })

  unfoldable pub start_on :
      Chain → Course → Bool → List DnsIdentity → Service → Option h.Ip → Bool × Service
  unfolding launch
  start_on chain course lan ids s none = (false, s)
  start_on chain course lan ids s (some ip) = launch chain course lan ids (h.print_ip ip) s

  -- start: whether it went well, and the service after it
  unfoldable pub start :
      Chain → Course → Bool → List DnsIdentity → String → Service → Bool × Service
  unfolding accept_start start_on
  start chain course lan ids address s = start_on chain course lan ids s (accept_start address ids)
