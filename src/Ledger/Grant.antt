-- ===== src/Ledger/Grant.antt =====
-- internal/addressbook/allocate.go: the binding that Store.Allocate makes, and the whole of it.
use Prim.Native.String.{slice}
use ghostd.Prelude.{
  ℕ, ◌+◌, String, ◌==◌, Bool, true, false, ◌&&◌, ◌||◌, not, Option, none, some, List, [], ◌∷◌,
  if◌then◌else◌, ltb, joined, is_none,
}
use ghostd.Ledger.Binding.{Binding, Association, active, offered, is_active, is_declined}
use ghostd.Ledger.Config.{Config, Scope, Reservation, DeviceConfig, find_device, scope_is6}
use ghostd.Ledger.Identifiers.{split, trim_prefix}
use ghostd.Ledger.Admit.{admit}
use ghostd.Ledger.Allocate.{reservation, available, preferred, first_available, later}
use ghostd.Ledger.Net.{Net}
use ghostd.Ledger.Store.{read_association, read_binding, save_binding}
use ghostd.Ledger.Tx.{
  Ledger, Tx, Result, err, unavailable, refused, ◌>>=◌, ◌>>◌, pure, fail, require, must, update,
}

-- The parts of an IPv6 client, which was accepted and so has two.
first_part : List String → String
first_part [] = ""
first_part (x ∷ xs) = x

second_part : List String → String
second_part (x ∷ y ∷ ys) = y
second_part _ = ""

-- The binding of a client that renews, rediscovers or comes back keeps its identity.
unfoldable pub keeps : ℕ → String → Binding → Binding → Binding
keeps now client old b =
    if old.client == client && (ltb now old.end && not (is_declined old.state))
    then record b {
      device = old.device;
      name = old.name;
      start = old.start;
      node_id = old.node_id;
      evidence = old.evidence;
    }
    else b

-- A durable operator association outranks the last lease.
unfoldable pub associated : Option Association → Binding → Binding
associated none b = b
associated (some a) b = record b {
  device = a.device;
  name = a.name;
  node_id = a.node_id;
  evidence = joined "operator repair: " a.reason;
}

no_device : DeviceConfig
no_device = record { aliases = []; node_ids = []; id = ""; name = ""; node_id = "" }

found_or_none : Option DeviceConfig → DeviceConfig
found_or_none none = no_device
found_or_none (some d) = d

-- The inventory outranks both.
unfoldable pub inventoried : Config → Option Reservation → Binding → Binding
unfolding found_or_none no_device
inventoried c none b = b
inventoried c (some r) b =
    let d = found_or_none (find_device c r.device) in
    record b {
      device = d.id;
      name = d.name;
      node_id = d.node_id;
      evidence = "inventory reservation";
    }

-- A commit makes the lease active for its time; an offer stands for thirty seconds.
unfoldable pub timed : ℕ → Scope → Bool → Bool → Binding → Binding
timed now s is6 false b = b
timed now s is6 true b = record b {
  state = active;
  end = later now s.lease_seconds;
  preferred_end = if is6 then later now s.preferred_seconds else b.preferred_end;
}

unfoldable pub grant_kind : ℕ → String → Binding → Bool → String
grant_kind now client old false = "offer"
grant_kind now client old true =
    if old.client == client && (is_active old.state && ltb now old.end) then "renew" else "grant"

unfoldable pub found_ip : Option String → Tx String
found_ip none = fail unavailable
found_ip (some ip) = pure ip

-- A candidate that is not usable has no substitute on a commit or for a reservation.
unfoldable pub chosen : Bool → String → Tx String → Bool → Tx String
chosen settled candidate pool true = pure candidate
chosen true candidate pool false = fail unavailable
chosen false candidate pool false = pool

module _ (e : Net) where
  -- deviceID
  unfoldable pub device_id : String → String → String
  device_id scope client =
      slice (joined "device-" (e.digest (joined (joined scope "/") client))) 0 23

  -- The binding before what is known of the client: a new offer.
  unfoldable pub new_offer : ℕ → Scope → String → String → String → String → String → Binding
  unfolding first_part second_part split trim_prefix device_id
  new_offer now s scope_id client mac claimed candidate =
      let is6 = scope_is6 e s in
      let parts = split (trim_prefix client "duid:") "/iaid:" in
      record {
        duid = if is6 then first_part parts else "";
        iaid = if is6 then second_part parts else "";
        preferred_end = 0;
        scope = scope_id;
        address = candidate;
        client = client;
        mac = mac;
        device = device_id scope_id client;
        name = device_id scope_id client;
        claimed_name = e.to_valid_utf8 claimed;
        state = offered;
        origin = if is6 then "dhcpv6" else "dhcpv4";
        start = now;
        end = now + 30;
        node_id = "";
        evidence = "";
        via = "";
      }

  -- The first address of the pool that is available. The fuel is the greatest pool that
  -- Config.Validate accepts, and one.
  unfoldable pub from_pool : ℕ → Scope → String → String → String → Tx String
  unfolding first_available found_ip
  from_pool now s scope_id client mac = must (e.parse_addr s.start) >>= λ start.
      must (e.parse_addr s.end) >>= λ end.
      first_available e 65537 now s scope_id client mac start end >>= found_ip

  unfoldable pub choose : ℕ → Scope → String → String → String → String → Bool → Tx String
  unfolding available from_pool chosen reservation
  choose now s scope_id client mac candidate commit =
      available e now s scope_id client mac candidate
      >>= chosen (commit || not (is_none (reservation s client mac))) candidate
          (from_pool now s scope_id client mac)

  unfoldable pub grant_of :
      ℕ
      → Config
      → Scope
      → String
      → String
      → String
      → String
      → String
      → Bool
      → Binding
      → Option Association
      → Binding
  unfolding new_offer keeps associated inventoried timed reservation
  grant_of now c s scope_id client mac claimed candidate commit old known =
      timed now s (scope_is6 e s) commit (
        inventoried c (reservation s client mac) (
          associated known
            (keeps now client old (new_offer now s scope_id client mac claimed candidate))))

  -- The binding is made of the offer, of what is known of the client and of the inventory, and saved.
  unfoldable pub making :
      (ℕ → ℕ)
      → ℕ
      → Config
      → Scope
      → String
      → String
      → String
      → String
      → String
      → Bool
      → Binding
      → Tx Binding
  unfolding grant_of grant_kind
  making clock now c s scope_id client mac claimed ip commit old =
      read_association client >>= λ known.
      save_binding clock (grant_of now c s scope_id client mac claimed ip commit old known)
        (grant_kind now client old commit)
      >>= λ _. pure (grant_of now c s scope_id client mac claimed ip commit old known)

  -- The transaction of Store.Allocate: on a rediscovery the lease that stands is found again.
  unfoldable pub allocating :
      (ℕ → ℕ) → ℕ → Config → Scope → String → String → String → String → String → Bool → Tx Binding
  unfolding preferred choose making
  allocating clock now c s scope_id client mac claimed requested commit = do
    require (not (commit && requested == "")) unavailable
    candidate ← preferred e now s scope_id client mac requested commit
    ip ← choose now s scope_id client mac candidate commit
    old ← read_binding scope_id ip
    if not commit && (old.client == client && (is_active old.state && ltb now old.end))
        then pure old
        else making clock now c s scope_id client mac claimed ip commit old

  unfoldable pub allocate_for :
      Bool
      → (ℕ → ℕ)
      → ℕ
      → Config
      → String
      → String
      → String
      → String
      → Bool
      → Option (Scope × String)
      → Ledger
      → Result Binding × Ledger
  unfolding allocating
  allocate_for commits clock now c scope_id client claimed requested commit none l =
      (err refused, l)
  allocate_for commits clock now c scope_id client claimed requested commit (some (s, hw)) l =
      update commits (allocating clock now c s scope_id client hw claimed requested commit) l

  -- Store.Allocate. `commits` is whether the database can write the transaction.
  unfoldable pub allocate :
      Bool
      → (ℕ → ℕ)
      → ℕ
      → Config
      → String
      → String
      → String
      → String
      → String
      → Bool
      → Ledger
      → Result Binding × Ledger
  unfolding admit allocate_for
  allocate commits clock now c scope_id client mac claimed requested commit =
      allocate_for commits clock now c scope_id client claimed requested commit
        (admit e c scope_id client mac)
