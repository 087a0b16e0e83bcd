-- ===== src/Tests/World.antt =====
-- Documents as trees, an overlay with one deployer, commands that always work.
use ghostd.Prelude.{
  ℕ, String, ◌==◌, ◌≡◌, refl, Bool, true, false, Option, none, some, List, [], ◌∷◌, map, ap,
  Bool-cases, inl, inr, pos, if◌then◌else◌,
}
use ghostd.Env.{Env, DomainState, Pending, Caller, fine, IsJson, NftEntry, NftCommand, add_entry}
use ghostd.Rpc.Apply.Firewall.{FirewallSnapshot}
use ghostd.Nft.Owned.{nft_owned, is_owned, owned_entries, cleaned}
use ghostd.Effect.{Host}
use ghostd.Rpc.Restoring.{IsRestoring}
use ghostd.Rpc.Server.{Server, ApplyRequest}

pub data Doc : Type 0 where
  nothing : Doc
  text : String → Doc
  rule_set : List (NftEntry String) → Doc
  at_rest : Doc → Doc
  in_lease : Doc → Bool → String → ℕ → Doc → Doc → String → Doc

abbrev pub written : DomainState Doc → Doc
written d = elim d.pending [
  | none ↦ at_rest d.confirmed
  | some p ↦ in_lease d.confirmed p.applied p.id p.deadline p.snapshot p.target p.peer
]

abbrev pub read : Doc → Option (DomainState Doc)
read (at_rest c) = some (record { confirmed = c; pending = none })
read (in_lease c a i d s t p) = some (record {
  confirmed = c;
  pending = some (record { applied = a; id = i; deadline = d; snapshot = s; target = t; peer = p });
})
read _ = none

abbrev pub is_nothing : Doc → Bool
is_nothing nothing = true
is_nothing _ = false

-- A rule of ours as nft lists it.
abbrev pub rule : String → NftEntry String
rule t = record {
  kind = "rule";
  family = "inet";
  table = "stack_ghostd";
  name = "";
  handle = some 4;
  body = t;
}

-- A text as a kernel is one rule of ours.
abbrev pub entries_of : Doc → Option (List (NftEntry String))
entries_of (text t) = some (rule t ∷ [])
entries_of (rule_set entries) = some entries
entries_of _ = none

abbrev pub old_rules : Doc
old_rules = rule_set (rule "old" ∷ [])

-- What the commands add, each entry under a handle of its own.
abbrev pub added : List (NftCommand String) → List (NftEntry String)
added [] = []
added (add_entry entry ∷ commands) = record entry { handle = some 9 } ∷ added commands
added (_ ∷ commands) = added commands

abbrev pub deployer : Caller Doc
deployer = record {
  login = "";
  node_id = "n1";
  dns_name = "ci.example";
  tags = "tag:ci" ∷ "tag:stack-deployer" ∷ [];
  addresses = [];
  capabilities = λ _. [];
}

abbrev pub world : Env
world = record {
  Blob = Doc;
  Kernel = Doc;
  Script = Doc;
  Firewall = Doc;
  Netconfig = Doc;
  fate = λ _. fine;
  clock = λ n. n;
  ctx_done = λ _. false;
  new_lease_id = λ _. "lease-1";
  torn = λ _ _. none;
  timer_left = λ _. false;
  empty = nothing;
  is_empty = is_nothing;
  empty_object = text "{}";
  marshal = written;
  unmarshal = read;
  deploy_flag = λ _. none;
  report_flag = λ _. none;
  whois = λ _ _. some (some deployer);
  nft_parse = λ b. some b;
  nft_render = λ b. some b;
  nft_redirect_only = λ _. false;
  nft_coexists = λ _. true;
  nft_list = λ k. k;
  Body = String;
  nft_entries = entries_of;
  nft_document = rule_set;
  nft_commit = λ script _. script;
  nft_load = λ commands _. rule_set (added commands);
  net_parse = λ b. some b;
  net_validate = λ _. true;
  net_snapshot = λ _ k. k;
  net_apply = λ desired _. desired;
  net_rollback = λ snapshot _. snapshot;
  registered = [];
  half_done = λ _ k. k;
}

read-written : (d : DomainState Doc) → read (written d) ≡ some d
read-written d = by_pending d.confirmed d.pending
  where
    by_pending :
        (c : Doc) (o : Option (Pending Doc))
        → read (written (record { confirmed = c; pending = o }))
          ≡ some (record { confirmed = c; pending = o })
    by_pending c none = refl
    by_pending c (some p) = refl

written-full :
    (c : Doc) (o : Option (Pending Doc))
    → is_nothing (written (record { confirmed = c; pending = o })) ≡ false
written-full c none = refl
written-full c (some p) = refl

pub world-IsJson : IsJson world
world-IsJson = record {
  read_back = read-written;
  written = λ d. written-full d.confirmed d.pending;
  nothing = refl;
}

-- Loaded again, our entries are ours and differ in their handles only.
added-cleaned :
    (listed : List (NftEntry String))
    → map cleaned (
        owned_entries
          (added (map (λ x. add_entry (record x { handle = none })) (owned_entries listed))))
      ≡ map cleaned (owned_entries listed)
unfolding owned_entries is_owned
added-cleaned [] = refl
added-cleaned (entry ∷ listed) = elim (Bool-cases (is_owned entry)) [
  | inl ours ↦ rw ours (rw ours (ap (λ es. cleaned entry ∷ es) (added-cleaned listed)))
  | inr other ↦ rw other (added-cleaned listed)
]

pub world-IsRestoring : IsRestoring world
world-IsRestoring = record {
  read_back = λ es. refl;
  written = λ es. refl;
  loaded = λ k now listed found. (
    added (map (λ x. add_entry (record x { handle = none })) (owned_entries listed)),
    refl,
    added-cleaned listed,
  );
}

-- The part of the old rule set that is ours.
pub old-taken : FirewallSnapshot world (text "old") old_rules
unfolding nft_owned
old-taken = refl

-- A host where nothing was ever written, with the live rule_set or network `k`.
abbrev pub fresh : Doc → Host world
fresh k = record { files = λ _. none; units = []; timers = []; kernel = k; step = 0 }

abbrev pub lease : Bool → Pending Doc
lease applied = record {
  applied = applied;
  id = "lease-1";
  deadline = 5;
  snapshot = old_rules;
  target = text "new";
  peer = "10.0.0.1:4000";
}

-- A host whose firewall has a pending lease and the new ruleset.
abbrev pub leased : Host world
leased = record (fresh (text "new")) {
  files = λ name.
      if name == "firewall-transaction.json"
      then some (written (record { confirmed = nothing; pending = some (lease true) }))
      else none;
}

-- The same host, much later.
abbrev pub overdue : Host world
overdue = record leased { step = 9 }

abbrev pub server : Server world
server = record {
  observe_only = false;
  authenticator = record { deployer_tag = "tag:stack-deployer"; deployer_users = [] };
  extra_domains = [];
}

abbrev pub request : String → ApplyRequest world
request domain = record {
  domain = domain;
  desired_state_json = text "new";
  dead_man_switch_seconds = pos 60;
}
