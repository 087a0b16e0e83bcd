-- ===== src/State/Records.antt =====
-- What the files say of a domain, and what reading and writing its record does to that.
use ghostd.Prelude.{
  ◌≤◌, String, ◌==◌, ◌≡◌, refl, true, false, Option, none, some, if◌then◌else◌, ◌⊎◌, inl, inr,
  arith, joined-ne_self, some_inj, Bool-cases,
}
use ghostd.Env.{Env, DomainState, IsJson}
use ghostd.Effect.{Host, Code, plain, probe, advance}
use ghostd.Effect.Triple.{
  After-weaken, Triple, Triple-bind, Triple-sys, Triple-or_fail, Triple-pure, Triple-read,
  Triple-or_fail_last,
}
use ghostd.State.Files.{content, tmp_name, load}
use ghostd.State.Atomic.{Kept, Written, AllOrNothing, save_atomic}
use ghostd.State.Domain.{
  known_domain, transaction_file, domain_file, read_record, domain_state, save_domain,
}

module _ (e : Env) where
  abbrev decoded : e.Blob → e.Blob → Option (DomainState e.Blob)
  decoded raw old =
      if e.is_empty raw then some (record { confirmed = old; pending = none }) else e.unmarshal raw

module _ {e : Env} where
  -- The record of a domain, as the files have it.
  abbrev pub stored : String → String → Host e → Option (DomainState e.Blob)
  stored domain legacy h = decoded e (content h (transaction_file domain)) (content h legacy)

-- A domain that is known, with a legacy file that no write of its record touches.
pub record IsPlaced (e : Env) (domain legacy : String) : Type 0 where
  pub known : known_domain e domain ≡ true
  pub apart : (tmp_name (transaction_file domain) == legacy) ≡ false

pub firewall_IsPlaced : (e : Env) → IsPlaced e "firewall" "nft-ruleset.json"
unfolding known_domain
firewall_IsPlaced e = record { known = refl; apart = refl }

pub netconfig_IsPlaced : (e : Env) → IsPlaced e "netconfig" "netconfig-state.json"
unfolding known_domain
netconfig_IsPlaced e = record { known = refl; apart = refl }

-- A predicate that does not depend on how many steps were made.
abbrev pub Timeless : {e : Env} → (Host e → Type 0) → Type 0
Timeless {e} P = (h : Host e) → P h → P (advance h)

pub domain_file-eq :
    (e : Env) (domain name : String)
    → domain_file e domain ≡ some name
    → name ≡ transaction_file domain
unfolding domain_file
domain_file-eq e domain name h = ground arith

module _ {e : Env} {P : Host e → Type 0} {E : Option Code → Host e → Type 0} (timeless : Timeless P)
    (ends : (o : Option Code) (h : Host e) → P h → E o h) where
  pub Triple-probe : Triple P (probe {e = e}) (λ _. P) E
  unfolding probe
  Triple-probe = Triple-sys _ _ timeless (λ o h p. ends o _ (timeless h p))

  pub Triple-load : (name : String) → Triple P (load name) (λ raw h. P h × (content h name ≡ raw)) E
  unfolding load
  Triple-load name = Triple-bind (λ _. P) _ _ Triple-probe λ _. Triple-read _ (λ h p. (p, refl))

module _ {e : Env} {P : Host e → Type 0} {E : Option Code → Host e → Type 0} (timeless : Timeless P)
    (ends : (o : Option Code) (h : Host e) → P h → E o h) where
  Triple-read_record :
      (domain legacy : String) (raw : e.Blob)
      → Triple
          (λ h. P h × (content h (transaction_file domain) ≡ raw))
          (read_record legacy raw)
          (λ d h. P h × (stored domain legacy h ≡ some d))
          E
  unfolding read_record
  Triple-read_record domain legacy raw = elim (Bool-cases (e.is_empty raw)) [
    | inl none_yet ↦ rw none_yet (
        Triple-bind
          (λ old h. (P h × (content h (transaction_file domain) ≡ raw)) × (content h legacy ≡ old))
          _ _ (Triple-load (λ h p. (timeless h p.0, p.1)) (λ o h p. ends o h p.0) legacy)
          λ old. Triple-pure _ (λ h p. (p.0.0, rw (p.0.1, none_yet, p.1) refl)))
    | inr full ↦ rw full (
        Triple-or_fail_last plain (e.unmarshal raw) (λ d h q p. (p.0, rw (p.1, full) q))
          (λ h p. ends (some plain) h p.0))
  ]

  -- Store.Domain returns what is stored, and disturbs nothing.
  pub Triple-domain_state :
      (domain legacy : String)
      → Triple P (domain_state domain legacy) (λ d h. P h × (stored domain legacy h ≡ some d)) E
  unfolding domain_state
  Triple-domain_state domain legacy =
      Triple-or_fail plain (domain_file e domain) _
        (λ name q.
          Triple-bind (λ raw h. P h × (content h (transaction_file domain) ≡ raw)) _ _
            (rw (domain_file-eq e domain name q)
              (Triple-load timeless ends (transaction_file domain)))
            (Triple-read_record domain legacy))
        (λ h p _. ends (some plain) h p)

-- All files but one are the same.
abbrev pub SameFiles : {e : Env} → String → Host e → Host e → Type 0
SameFiles one h h' = (name : String) → (one == name) ≡ false → h'.files name ≡ h.files name

-- All files but one and its temporary file are the same.
abbrev pub OtherFiles : {e : Env} → String → Host e → Host e → Type 0
OtherFiles one h h' =
    (name : String)
    → (tmp_name one == name) ≡ false
    → (one == name) ≡ false
    → h'.files name ≡ h.files name

-- The record of one domain across a write of it.
module _ {e : Env} (domain legacy : String) where
  pub record Saved (d : DomainState e.Blob) (h h' : Host e) : Type 0 where
    pub record_is : stored domain legacy h' ≡ some d
    pub units : h'.units ≡ h.units
    pub timers : h'.timers ≡ h.timers
    pub kernel : h'.kernel ≡ h.kernel
    pub later : h.step ≤ h'.step
    pub elsewhere : OtherFiles (transaction_file domain) h h'

  pub record Unsaved (h h' : Host e) : Type 0 where
    pub record_is : stored domain legacy h' ≡ stored domain legacy h
    pub units : h'.units ≡ h.units
    pub timers : h'.timers ≡ h.timers
    pub kernel : h'.kernel ≡ h.kernel
    pub later : h.step ≤ h'.step
    pub elsewhere : SameFiles (tmp_name (transaction_file domain)) h h'

module _ {e : Env} (json : IsJson e) {domain legacy : String}
    (placed : IsPlaced e domain legacy) where
  Written-Saved :
      (d : DomainState e.Blob) (h h' : Host e)
      → Written (transaction_file domain) (e.marshal d) h h'
      → Saved domain legacy d h h'
  Written-Saved d h h' w = record {
    record_is = rw (w.at, json.written d) (json.read_back d);
    units = w.units;
    timers = w.timers;
    kernel = w.kernel;
    later = w.later;
    elsewhere = w.elsewhere;
  }

  Kept-Unsaved : (h h' : Host e) → Kept (transaction_file domain) h h' → Unsaved domain legacy h h'
  Kept-Unsaved h h' k = record {
    record_is = rw (
      k.elsewhere (transaction_file domain)
          (joined-ne_self (transaction_file domain) ".tmp" 3 refl),
      k.elsewhere legacy placed.apart,
    );
    units = k.units;
    timers = k.timers;
    kernel = k.kernel;
    later = k.later;
    elsewhere = k.elsewhere;
  }

  module _ {P : Host e → Type 0} {Q : Unit {0} → Host e → Type 0}
      {E : Option Code → Host e → Type 0} where
    pub Triple-save_domain :
        (d : DomainState e.Blob)
        → ((h h' : Host e) → P h → Saved domain legacy d h h' → Q tt h')
        → ((o : Option Code) (h h' : Host e)
            → P h
            → Unsaved domain legacy h h' ⊎ Saved domain legacy d h h'
            → E o h')
        → Triple P (save_domain domain d) Q E
    unfolding save_domain domain_file
    Triple-save_domain d kq ke =
        rw (placed.known, domain_file)
          (Triple-or_fail plain (some (transaction_file domain)) _
            (λ name q. record {
              run = λ h p. rw (← some_inj q) (
                  After-weaken _ _ _ _ (λ a h' w. kq h h' p (Written-Saved d h h' w))
                    (λ o h' r. ke o h h' p (by_case d h h' r)) _
                    (save_atomic (transaction_file domain) (e.marshal d) h));
            })
            (λ h p q. cc))
      where
        by_case :
            (d : DomainState e.Blob) (h h' : Host e)
            → AllOrNothing (transaction_file domain) (e.marshal d) h h'
            → Unsaved domain legacy h h' ⊎ Saved domain legacy d h h'
        by_case d h h' (inl k) = inl (Kept-Unsaved h h' k)
        by_case d h h' (inr w) = inr (Written-Saved d h h' w)
