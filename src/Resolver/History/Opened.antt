-- ===== src/Resolver/History/Opened.antt =====
-- internal/resolver/acl.go: what a grant opens, and for whom.
use ghostd.Ledger.Identifiers.{has_suffix}
use ghostd.Prelude.{
  ℕ, ◌+◌, ◌<◌, String, ◌≡◌, ◌≢◌, refl, sym, ◌∙◌, ap, arith, eq_refl, true, inl, inr, none, some,
  List, [], ◌∷◌, lookup, length, ltb, ne→eq-false,
}
use ghostd.Resolver.History.Tables.{lookup-insert, policy_for-store}
use ghostd.Resolver.Host.{Host}
use ghostd.Resolver.Labels.{service_class}
use ghostd.Resolver.Local.{store_policy}
use ghostd.Resolver.Policy.{
  Policy, Policies, Question, passes, acl_serve, admit_question, policy_for, grant_host, grant_time,
  sweep, most_grants, class_inet,
}
use ghostd.Resolver.Policy.Admits.{acl_serve-passes_iff}

module _ (h : Host) where
  lookup-grant_host :
      (now : ℕ) (host : String) (p : Policy)
      → length (sweep now p.granted) < most_grants
      → lookup (h.to_lower host) (grant_host h now host p).granted ≡ some (now + grant_time)
  unfolding grant_host
  lookup-grant_host now host p room =
      let open_table : ltb (length (sweep now p.granted)) most_grants ≡ true =
        ground (arith, room) in
      rw open_table (
        lookup-insert (h.to_lower host) (h.to_lower host) (now + grant_time) (sweep now p.granted)
        ∙ rw (eq_refl (h.to_lower host)) refl)

  module _ (ps : Policies) (name host : String) (p : Policy) (now : ℕ)
      (known : policy_for ps name ≡ some p) where
    abbrev after_grant : Policies
    after_grant = store_policy name (grant_host h now host p) ps

    -- If the table of a policy has room once what is over is dropped, a grant to it has the listener
    -- of its name pass on a question of class IN for that host, which is under .local and names no
    -- service, until the two minutes of the grant are over; and every other listener passes on and
    -- refuses what it did before.
    pub grant_host-Opens :
        length (sweep now p.granted) < most_grants
        → ((q : Question) (later : ℕ)
            → h.to_lower q.name ≡ h.to_lower host
            → q.qclass ≡ class_inet
            → has_suffix (h.to_lower q.name) ".local." ≡ true
            → service_class h (h.to_lower q.name) ≡ none
            → later < now + grant_time
            → acl_serve h after_grant name later (q ∷ []) ≡ passes name)
          × ((other : String) (later : ℕ) (questions : List Question)
              → other ≢ name
              → acl_serve h after_grant other later questions
                ≡ acl_serve h ps other later questions)
    unfolding acl_serve
    grant_host-Opens room = (
      λ q later same inet local plain in_time.
          (acl_serve-passes_iff h after_grant name later (q ∷ [])).1 (
            grant_host h now host p,
            q,
            policy_for-store ps name name (grant_host h now host p) p known
                ∙ rw (eq_refl name) refl,
            refl,
            (
              inet,
              inr (
                  inl (
                    local,
                    plain,
                    inr (
                      now + grant_time,
                      ap (λ x. lookup x (grant_host h now host p).granted) same
                          ∙ lookup-grant_host now host p room,
                      in_time,
                    ),
                  )),
            ),
          ),
      λ other later questions differs.
          ap (λ x. admit_question h other later x questions)
            (policy_for-store ps name other (grant_host h now host p) p known
              ∙ rw (ne→eq-false name other (λ e. differs (sym e))) refl),
    )
