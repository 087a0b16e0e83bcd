-- ===== src/Resolver/Local.antt =====
-- internal/resolver/resolver.go: ghostlocal, which answers .local names and DNS-SD from the LAN.
use ghostd.Ledger.Identifiers.{has_suffix}
use ghostd.Prelude.{
  ℕ, suc, String, Bool, true, false, ◌&&◌, ◌||◌, not, Option, none, some, List, [], ◌∷◌, ◌++◌,
  insert, if◌then◌else◌, nat_eq,
}
use ghostd.Resolver.Host.{Host}
use ghostd.Resolver.Labels.{trim_suffix, service_class}
use ghostd.Resolver.Policy.{Policy, Policies, Question, grant_host, policy_of, class_inet}

-- dns.RcodeSuccess and so on.
pub data Rcode : Type 0 where
  success format_error server_failure name_error not_implemented refused : Rcode

abbrev pub type_a : ℕ
type_a = 1

abbrev pub type_ptr : ℕ
type_ptr = 12

abbrev pub type_txt : ℕ
type_txt = 16

abbrev pub type_aaaa : ℕ
type_aaaa = 28

abbrev pub type_srv : ℕ
type_srv = 33

-- dns.RR_Header
pub record Header : Type 0 where
  pub name : String
  pub rrtype : ℕ
  pub class : ℕ
  pub ttl : ℕ

-- The table after the policy of a name has changed.
unfoldable pub store_policy : String → Policy → Policies → Policies
store_policy name p none = none
store_policy name p (some table) = some (insert name p table)

-- if len(records) == 0 { reply.Rcode = dns.RcodeNameError }
unfoldable pub reply_code {ℓ} : {A : Type ℓ} → List A → Rcode
reply_code [] = name_error
reply_code (_ ∷ _) = success

-- A DNS-SD question that the handler takes to the LAN.
abbrev pub browse_type : ℕ → Bool
browse_type t = nat_eq t type_ptr || (nat_eq t type_srv || nat_eq t type_txt)

module _ (h : Host) where
  -- dns.RR
  pub data Rr : Type 0 where
    a aaaa : Header → h.Ip → Rr
    srv : Header → String → Rr
    other : Header → Rr

  -- The fields of a reply that ghostlocal sets beyond SetReply.
  pub record Reply : Type 0 where
    pub rcode : Rcode
    pub recursion_available : Bool
    pub answer : List Rr
    pub extra : List Rr

  -- How ServeDNS ends: with the next handler, with a code alone, with a code and an error, or with
  -- RcodeSuccess and what WriteMsg gives for a reply.
  pub data Ending : Type 0 where
    next_handler : Ending
    returns fails : Rcode → Ending
    writes : Reply → Ending

  -- What browse gives: errNoLAN, another error, or the answers and the related records.
  pub data Browsed : Type 0 where
    no_lan lan_error : Browsed
    found : List Rr → List Rr → Browsed

  -- p.GrantHost for the target of each SRV record, each at its own reading of the clock
  unfoldable pub grant_targets : (ℕ → ℕ) → List Rr → Policy → Policy
  grant_targets clock [] p = p
  grant_targets clock (srv header target ∷ rrs) p =
      grant_targets (λ n. clock (suc n)) rrs (grant_host h (clock 0) target p)
  grant_targets clock (_ ∷ rrs) p = grant_targets clock rrs p

  unfoldable pub grant_found : (ℕ → ℕ) → List Rr → String → Option Policy → Policies → Policies
  grant_found clock rrs name none ps = ps
  grant_found clock rrs name (some p) ps = store_policy name (grant_targets clock rrs p) ps

  -- serveBrowse once the LAN has answered, and the policies after it.
  unfoldable pub browse_reply : (ℕ → ℕ) → Policies → String → Browsed → Ending × Policies
  unfolding reply_code grant_found
  browse_reply clock ps name no_lan = (returns not_implemented, ps)
  browse_reply clock ps name lan_error = (fails server_failure, ps)
  browse_reply clock ps name (found answers extra) = (
    writes (record {
      rcode = reply_code answers;
      recursion_available = true;
      answer = answers;
      extra = extra;
    }),
    grant_found clock (answers ++ extra) name (policy_of ps name) ps,
  )

  -- serveBrowse, with whether one of the slots is free
  unfoldable pub serve_browse : Bool → (ℕ → ℕ) → Policies → String → Browsed → Ending × Policies
  unfolding browse_reply
  serve_browse true clock ps name answer = browse_reply clock ps name answer
  serve_browse false clock ps name answer = (returns server_failure, ps)

  -- The records of an address reply.
  unfoldable pub address_records : String → ℕ → List h.Ip → List Rr
  address_records name qtype [] = []
  address_records name qtype (ip ∷ ips) =
      let rest = address_records name qtype ips in
      let header : Header = record { name = name; rrtype = qtype; class = class_inet; ttl = 30 } in
      if nat_eq qtype type_a && h.is_v4 ip
      then a header ip ∷ rest
      else if nat_eq qtype type_aaaa && not (h.is_v4 ip)
      then aaaa header ip ∷ rest
      else rest

  unfoldable pub lookup_reply : Question → Option (List h.Ip) → Ending
  unfolding address_records reply_code
  lookup_reply q none = fails server_failure
  lookup_reply q (some ips) = writes (record {
    rcode = reply_code ips;
    recursion_available = true;
    answer = address_records q.name q.qtype ips;
    extra = [];
  })

  -- The lookups that a handler of ghostlocal was made with: `browse` may be nil.
  pub record LocalHandler : Type 0 where
    pub lookup : String → Option (List h.Ip)
    pub browse : Option (String → ℕ → Browsed)

  -- What follows the class test: a browse, or the listed_addresses of a host.
  unfoldable pub serve_lan :
      LocalHandler
      → Bool
      → (ℕ → ℕ)
      → Policies
      → String
      → Question
      → Option (String → ℕ → Browsed)
      → Ending × Policies
  unfolding serve_browse lookup_reply trim_suffix
  serve_lan handler free clock ps name q (some browse) =
      serve_browse free clock ps name (browse q.name q.qtype)
  serve_lan handler free clock ps name q none =
      if not (nat_eq q.qtype type_a || nat_eq q.qtype type_aaaa)
      then (returns not_implemented, ps)
      else if not free
      then (returns server_failure, ps)
      else (lookup_reply q (handler.lookup (trim_suffix q.name ".")), ps)

  -- The browse that the question goes to, if any.
  unfoldable pub browse_for :
      Question → Option String → Option (String → ℕ → Browsed) → Option (String → ℕ → Browsed)
  browse_for q (some service) (some browse) = if browse_type q.qtype then some browse else none
  browse_for q _ _ = none

  unfoldable pub serve_question :
      LocalHandler → Bool → (ℕ → ℕ) → Policies → String → Question → Ending × Policies
  unfolding serve_lan browse_for
  serve_question handler free clock ps name q =
      if not (has_suffix (h.to_lower q.name) ".local.")
      then (next_handler, ps)
      else if not (nat_eq q.qclass class_inet)
      then (returns refused, ps)
      else serve_lan handler free clock ps name q
          (browse_for q (service_class h q.name) handler.browse)

  -- localHandler.ServeDNS, under the name that the context carries
  unfoldable pub local_serve :
      LocalHandler → Bool → (ℕ → ℕ) → Policies → String → List Question → Ending × Policies
  unfolding serve_question
  local_serve handler free clock ps name (q ∷ []) = serve_question handler free clock ps name q
  local_serve handler free clock ps name _ = (returns format_error, ps)
