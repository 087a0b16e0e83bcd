-- ===== src/Resolver/History/Bound.antt =====
-- internal/resolver/acl.go: how many hosts may be granted at a time.
use ghostd.Prelude.{
  ℕ, suc, ◌≤◌, String, ◌==◌, ◌≡◌, sym, ◌∙◌, ap, subst, arith, Bool, inl, inr, Bool-cases, Option,
  none, some, some_inj, List, [], ◌∷◌, ◌++◌, erase, insert, length,
}
use ghostd.Resolver.History.{
  Request, ResolverEvent, replace, clear, ask, ask_base, answer, nth, policies_after, step, after,
}
use ghostd.Resolver.History.Offers.{local_serve-Offer}
use ghostd.Resolver.History.Tables.{policy_of-known, policy_for-store, set_policies-empty}
use ghostd.Resolver.Host.{Host}
use ghostd.Resolver.Local.{Rr, a, aaaa, srv, other, LocalHandler, grant_targets}
use ghostd.Resolver.Policy.{Policy, Policies, policy_for, grant_host, sweep, most_grants}

length-erase-le :
    (key : String) (entries : List (String × ℕ)) → length (erase key entries) ≤ length entries
unfolding erase
length-erase-le key [] = omega arith
length-erase-le key ((name, e) ∷ entries) = ground (arith, length-erase-le key entries)

length-sweep-le :
    (now : ℕ) (entries : List (String × ℕ)) → length (sweep now entries) ≤ length entries
unfolding sweep
length-sweep-le now [] = omega arith
length-sweep-le now ((name, e) ∷ entries) = ground (arith, length-sweep-le now entries)

abbrev pub IsBounded : Policy → Type 0
IsBounded p = length p.granted ≤ most_grants

module _ (h : Host) where
  grant_host-IsBounded :
      (now : ℕ) (host : String) (p : Policy) → IsBounded p → IsBounded (grant_host h now host p)
  unfolding grant_host insert
  grant_host-IsBounded now host p ok = ground (
    arith,
    length-sweep-le now p.granted,
    length-erase-le (h.to_lower host) (sweep now p.granted),
  )

  grant_targets-IsBounded :
      (clock : ℕ → ℕ) (rrs : List (Rr h)) (p : Policy)
      → IsBounded p
      → IsBounded (grant_targets h clock rrs p)
  unfolding grant_targets
  grant_targets-IsBounded clock [] p ok = ok
  grant_targets-IsBounded clock (srv header target ∷ rrs) p ok =
      grant_targets-IsBounded (λ n. clock (suc n)) rrs (grant_host h (clock 0) target p)
        (grant_host-IsBounded (clock 0) target p ok)
  grant_targets-IsBounded clock (a header ip ∷ rrs) p ok = grant_targets-IsBounded clock rrs p ok
  grant_targets-IsBounded clock (aaaa header ip ∷ rrs) p ok = grant_targets-IsBounded clock rrs p ok
  grant_targets-IsBounded clock (other header ∷ rrs) p ok = grant_targets-IsBounded clock rrs p ok

  abbrev AllBounded : Policies → Type 0
  AllBounded ps = (name : String) (p : Policy) → policy_for ps name ≡ some p → IsBounded p

  request-AllBounded :
      (handler : LocalHandler h) (free : Bool) (clock : ℕ → ℕ) (ps : Policies)
      (found : Option Request)
      → AllBounded ps
      → AllBounded (policies_after h handler free clock ps found)
  unfolding policies_after
  request-AllBounded handler free clock ps none all name p has = all name p has
  request-AllBounded handler free clock ps (some r) all name p has =
      elim (local_serve-Offer h handler free clock ps r.listener r.question) [
        | inl same ↦ all name p (ap (λ x. policy_for x name) (sym same) ∙ has)
        | inr o ↦
            let (_, known) = policy_of-known ps r.listener o.policy o.known in
            let q = grant_targets h clock (o.answers ++ o.extra) o.policy in
            let stored =
              ap (λ x. policy_for x name) o.stored
              ∙ policy_for-store ps r.listener name q o.policy known in
            elim (Bool-cases (r.listener == name)) [
              | inl same ↦
                  subst (λ x. IsBounded x) (some_inj (sym (rw same at stored) ∙ has))
                    (grant_targets-IsBounded clock (o.answers ++ o.extra) o.policy
                      (all r.listener o.policy known))
              | inr differs ↦ all name p (sym (rw differs at stored) ∙ has)
            ]
      ]

  -- After any history of requests, answers and changes of the policies, no policy holds more than
  -- 4096 granted hosts.
  pub after-AllBounded : (es : List (ResolverEvent h)) → AllBounded (after h es).policies
  unfolding after step policy_for
  after-AllBounded [] name p has = cc has
  after-AllBounded (replace ids ∷ es) name p has =
      let empty = set_policies-empty ids name p has in
      subst (λ x. length x ≤ most_grants) (sym empty) (omega arith)
  after-AllBounded (clear ∷ es) name p has = cc has
  after-AllBounded (ask listener now qs ∷ es) name p has = after-AllBounded es name p has
  after-AllBounded (ask_base qs ∷ es) name p has = after-AllBounded es name p has
  after-AllBounded (answer handler free clock n ∷ es) name p has =
      request-AllBounded handler free clock (after h es).policies (nth h (after h es).passed n)
        (after-AllBounded es) name p has
