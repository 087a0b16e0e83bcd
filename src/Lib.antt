-- ===== src/Lib.antt =====
-- A model of ghostd, the daemon that enacts firewall and network state on a host under a
-- dead-man's switch: each Apply stores a lease with a snapshot of what it replaces, arms a systemd
-- timer that reverts it, and mutates; a Confirm over a new connection makes the state permanent.
--
-- Parts, and the code they model:
--   Env           what the daemon stands on, as parameters: encoding/json, system calls, systemd, the
--                 clock, the answers of the overlay (internal/overlay), nft(8) with the
--                 entries of its documents, and the executors of internal/netconfig.
--   Effect        programs over the host (files, units of leases, timers, kernel): errors are values,
--                 and at every external step the process may die. Effect/Triple has the rules for
--                 what holds at each of the three ways to end.
--   State         internal/state. Files is Store.Save and Store.Load (lastgood.go), Domain the
--                 records of transaction.go, Leases the timers of lease.go. Atomic, Records,
--                 Arming and Live are about what their callers rely on.
--   Auth          internal/auth/auth.go, whole.
--   Rpc           internal/rpc/server.go and features.go: Server (tables, peerAddr, legacyName),
--                 Executors (the calls into internal/nft/nft.go and internal/netconfig), Lease
--                 (begin, finishApply, recoverExpired), Apply, Confirm, Reading (GetState). Cover
--                 and Restoring state how a domain stands around a mutation, Expiry is about
--                 recovery, Lease/Live and Apply/Live about requests that nothing stands against.
--   Nft           internal/nft: the policy of desiredstate.go, and validate and validateOutput of
--                 render.go and output.go, with their regular expressions character by character. The
--                 parser of addresses (net/netip) is a parameter. Render is Render of render.go, with the
--                 lines of each chain in Chains and Hooks, so that the script is the text that nft
--                 loads; Sorting has the sorts and the decimals of Go that it uses. Owned is OwnedRuleset of
--                 nft.go and the commands of its Restore, on the entries of an nft document.
--   Daemon        cmd/ghostd/main.go and feature.go: recoverDomain, runRevert, prepareDomain and the
--                 start of runDaemonWith.
--   Ledger        internal/addressbook. Net is what the code takes from Go's network packages, Tx a
--                 transaction of bbolt, Keys the ordered keys of its buckets, Binding and Store
--                 readBinding, save and appendEvent of store.go, and Live the scans of index.go.
--                 Config, Identifiers, Options, Accept and Settings are config.go with Config.Validate,
--                 Admit, Allocate and Grant are Store.Allocate of allocate.go, Release is Release and
--                 Expire, Journal is Store.Events, Names is Store.DNSBindings, and Prefixes is
--                 prefixAt of pd.go. Indexed relates the indices to the bindings, Accepted a
--                 configuration to its scopes; Readings, Saved and Held are about single steps,
--                 Policy, Owned, Expired and Ends about whole operations.
--   Resolver      internal/resolver. Host is what it takes from net and strings. Acl is ACL.Validate,
--                 Policy the rest of acl.go (Decide, GrantHost, setPolicies, ServeDNS of ghostacl),
--                 Local the ghostlocal handler of resolver.go, Lan its lookups, and History the
--                 sequences of requests, answers and changes of the policies, where a request reaches
--                 ghostlocal some time after ghostacl has passed it on, and may do so more than once.
--                 Start is start and publish of resolver.go with the Corefile of plugins.go.
--   Tests         a concrete host, and each theorem at an input where its hypotheses hold.
--
-- Apply, Confirm, the boot and the revert command hold the lock of the store from reading a record
-- to writing it, so a program here is one holder of the lock, and its effects are not interleaved
-- with others. Every external step has a number, and the oracles of Env answer by that number, so that
-- time, failures and deaths vary freely between steps. Loops are over a list, with three exceptions in
-- Ledger: the loop of Config.Validate over a pool has the 65536 rounds of the code, the search of
-- Allocate has one round more as its fuel, with a fault of its own where that runs out, and the parts
-- of a text are split with its length as fuel, since each separator takes a byte. A decimal has the 20
-- places that an int can fill. Ports and the
-- seconds of a request are integers, all else natural numbers; a time and a timeout are in
-- nanoseconds. The field dead_man_switch_seconds is an int32, whose product with a second is below
-- 2 ^ 63, so time.Duration does not wrap.
--
-- In Ledger the numbers of a configuration are integers, and times are seconds since 1970 as natural
-- numbers; s.now() is read once for a transaction and once for each event, and by DNSBindings for each binding. A panic is a fault of
-- the transaction, and the database takes a transaction whole or not at all.
--
-- Not modelled: the command line, listeners, watchdog and the optional features (internal/mdns,
-- internal/coredhcpserver, internal/replica), which enter through the tables of
-- extra domains and of hooks only; of internal/addressbook the observation of an event, ParseConfig
-- (encoding/json), imports, snapshots, the rest of prefix delegation, identity repair, handover and
-- the DHCP servers; of internal/nft the parser of a policy and the encoding of nft's documents, and the whole of
-- internal/netconfig, which stand behind fields of Env that the RPCs read; an event of the ledger that
-- does not decode; the creation of transaction.lock, which no operation reads; the texts of errors; log
-- output; of internal/resolver ParseACL, the
-- end of a started resolver and registry.go. Contexts are modelled by whether they are over when asked.
pub mod Prelude
pub mod Nft
pub mod Resolver
pub mod Ledger
pub mod Env
pub mod Effect
pub mod State
pub mod Auth
pub mod Rpc
pub mod Daemon
pub mod Tests
