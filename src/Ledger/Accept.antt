-- ===== src/Ledger/Accept.antt =====
-- internal/addressbook/config.go: Config.Validate. Each part answers whether the code returns no
-- error; the sets and lists that it collects on the way are passed along.
use Prim.Native.String.{len}
use ghostd.Prelude.{
  ℕ, zero, suc, ◌+◌, ◌-◌, ◌*◌, ◌/◌, ◌^◌, String, ◌==◌, Bool, true, false, ◌&&◌, ◌||◌, not, Option,
  none, some, List, [], ◌∷◌, ◌++◌, if◌then◌else◌, leb, ltb, codes, joined, contains, ℤ, pos, negsuc,
}
use ghostd.Nft.Names.{matches_interface}
use ghostd.Ledger.Config.{Scope, DeviceConfig, TftpConfig, scope_is6}
use ghostd.Ledger.Identifiers.{is_label}
use ghostd.Ledger.Net.{Net}
use ghostd.Ledger.Partial.{◌>>=◌, ◌>>◌, check}

-- low <= z && z <= high
unfoldable pub within : ℕ → ℕ → ℤ → Bool
within low high (pos n) = leb low n && leb n high
within low high (negsuc n) = false

unfoldable pub add_aliases : List String → List String → Option (List String)
add_aliases [] names = some names
add_aliases (a ∷ rest) names = elim (is_label a && (not (a == "ns") && not (contains names a))) [
  | true ↦ add_aliases rest (a ∷ names)
  | false ↦ none
]

unfoldable pub add_nodes : List String → List String → Option (List String)
add_nodes [] nodes = some nodes
add_nodes (n ∷ rest) nodes = elim (n == "") [
  | true ↦ add_nodes rest nodes
  | false ↦ elim (contains nodes n) [ true ↦ none | false ↦ add_nodes rest (n ∷ nodes) ]
]

-- The loop over the devices: the device IDs, if all is well.
unfoldable pub device_ids :
    List DeviceConfig → List String → List String → List String → Option (List String)
device_ids [] ids names nodes = some ids
device_ids (d ∷ ds) ids names nodes = do
  check (
      is_label d.id
      && (is_label d.name
          && (not (d.name == "ns") && (not (contains ids d.id) && not (contains names d.name)))))
  names' ← add_aliases d.aliases (d.name ∷ names)
  nodes' ← add_nodes (d.node_ids ++ (d.node_id ∷ [])) nodes
  device_ids ds (d.id ∷ ids) names' nodes'

all_interfaces : List String → Bool
all_interfaces [] = true
all_interfaces (i ∷ is) = matches_interface (codes i) && all_interfaces is

module _ (e : Net) where
  open e use {Addr, Prefix}

  unfoldable pub valid_tftp : Option TftpConfig → Bool
  unfolding all_interfaces matches_interface
  valid_tftp none = true
  valid_tftp (some t) =
      all_interfaces t.interfaces
      && (e.is_abs t.root
          && (e.clean t.root == t.root && (leb (len t.root) 4096 && not (t.root == "/"))))

  unfoldable pub overlaps_any : Prefix → List Prefix → Bool
  overlaps_any p [] = false
  overlaps_any p (q ∷ qs) = e.overlaps p q || overlaps_any p qs

  -- lastAddr: n |= 0xffffffff >> bits
  unfoldable pub last_addr : Prefix → Addr
  last_addr p =
      let hosts = 2 ^ (32 - e.bits p) in
      let n = e.as4 (e.prefix_addr p) in e.from4 (n / hosts * hosts + (hosts - 1))

  unfoldable pub valid_prefix : Prefix → Bool
  valid_prefix p =
      let a = e.prefix_addr p in
      e.same_prefix p (e.masked p)
      && (not (e.is4in6 a)
          && (not (e.is_multicast a)
              && (not (e.is4 a && ltb 30 (e.bits p)) && not (e.is6 a && ltb 126 (e.bits p)))))

  -- The closure `valid` of one scope.
  unfoldable pub is_host : Prefix → String → Bool
  unfolding last_addr
  is_host p v = elim (e.parse_addr v) [
    | none ↦ false
    | some a ↦
        e.in_prefix p a
        && (not (e.same_addr a (e.prefix_addr p))
            && (not (e.is4 a) || not (e.same_addr a (last_addr p))))
  ]

  unfoldable pub valid_server : Prefix → Addr → Bool
  valid_server p server =
      not (e.is_unspecified server)
      && (not (e.is_multicast server)
          && (elim (e.is4 server) [
            | true ↦ e.is4 (e.prefix_addr p)
            | false ↦ not (e.is4 (e.prefix_addr p))
          ]
              && not (e.has_zone server)))

  -- Scope.socketKey
  unfoldable pub socket_key : Scope → String
  socket_key s = joined (joined (if scope_is6 e s then "6" else "4") "/") s.interface

  -- The selector of a scope, if its relay or its server is well.
  unfoldable pub selector_of : Scope → Prefix → Addr → Option String
  unfolding is_host socket_key
  selector_of s p server = elim s.relay [
    | none ↦ if is_host p s.server then some (joined (socket_key s) "/direct") else none
    | some r ↦ elim (e.parse_addr r.peer) [
      | none ↦ none
      | some peer ↦ elim (e.parse_addr r.link) [
        | none ↦ none
        | some link ↦
            if not (e.is_unspecified peer)
              && (not (e.is_multicast peer)
                  && (elim (e.is4 peer) [ true ↦ e.is4 server | false ↦ not (e.is4 server) ]
                      && (e.in_prefix p link && not (e.is_unspecified link))))
            then some (
                joined (joined (joined (joined (socket_key s) "/") (e.print_addr peer)) "/")
                  (e.print_addr link))
            else none
      ]
    ]
  ]

  -- The loop over the pool: it passes the end within so many addresses.
  unfoldable pub pool_ends : ℕ → Addr → Addr → Bool
  pool_ends zero a end = e.is_after a end
  pool_ends (suc n) a end = elim (e.is_after a end) [
    | true ↦ true
    | false ↦ pool_ends n (e.next a) end
  ]

  -- Start, end and router, their order, and the size of the pool.
  unfoldable pub valid_pool : Scope → Prefix → Bool
  valid_pool s p =
      is_host p s.start
      && (is_host p s.end
          && ((scope_is6 e s || is_host p s.router) && elim (e.parse_addr s.start) [
            | none ↦ false
            | some start ↦ elim (e.parse_addr s.end) [
              | none ↦ false
              | some end ↦ not (e.is_after start end) && pool_ends 65536 start end
            ]
          ]))
