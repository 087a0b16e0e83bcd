-- ===== src/Resolver/Start/Closed.antt =====
-- internal/resolver/resolver.go: how a start that fails leaves the resolver.
use ghostd.Prelude.{
  ℕ, String, ◌≡◌, refl, sym, ◌∙◌, ap, Bool, true, false, ◌⊎◌, inl, inr, Bool-cases, Option, none,
  some, List,
}
use ghostd.Resolver.Acl.{DnsIdentity}
use ghostd.Resolver.Host.{Host}
use ghostd.Resolver.Policy.{Question, acl_serve, admit_question, policy_for, refuses_silently}
use ghostd.Resolver.Start.{
  Service, Chain, Course, stopped, published, publish_all, publish_service, files_of, launch,
  accept_start, start_on, start,
}

module _ (h : Host) where
  -- No instance runs, and every listener refuses every request.
  abbrev pub IsClosed : Service → Type 0
  IsClosed s =
      (s.running ≡ none)
      × ((name : String) (now : ℕ) (questions : List Question)
          → acl_serve h s.policies name now questions ≡ refuses_silently)

  no_policies : (s : Service) → s.policies ≡ none → s.running ≡ none → IsClosed s
  unfolding acl_serve admit_question policy_for
  no_policies s gone idle = (idle, λ name now questions. rw gone refl)

  published-IsClosed :
      (dirs : Bool × List (String × String)) (s s' : Service)
      → published dirs s ≡ (false, s')
      → IsClosed s'
  unfolding published stopped
  published-IsClosed (true, dir) s s' e = cc (ap (λ x. x.0) e)
  published-IsClosed (false, dir) s s' e =
      no_policies s' (ap (λ x. x.1.policies) (sym e)) (ap (λ x. x.1.running) (sym e))

  service-IsClosed :
      (course : Course) (address : String) (ids : List DnsIdentity) (s s' : Service)
      → publish_service h course address ids s ≡ (false, s')
      → IsClosed s'
  unfolding publish_service stopped
  service-IsClosed course address ids s s' e = elim (Bool-cases course.directory_made) [
    | inl made ↦
        published-IsClosed
          (publish_all course.random course.fate (course.order (files_of address ids)) s.directory)
          s s' (rw made at e)
    | inr no_directory ↦
        let failed = rw no_directory at e in
        no_policies s' (ap (λ x. x.1.policies) (sym failed)) (ap (λ x. x.1.running) (sym failed))
  ]

  launch-IsClosed :
      (chain : Chain) (course : Course) (lan : Bool) (ids : List DnsIdentity) (address : String)
      (s s' : Service)
      → s.running ≡ none
      → launch h chain course lan ids address s ≡ (false, s')
      → IsClosed s'
  unfolding launch
  launch-IsClosed chain course lan ids address s s' idle e = elim (Bool-cases course.caddy_starts) [
    | inl starts ↦ service-IsClosed course address ids _ s' (rw starts at e)
    | inr fails ↦
        let failed = rw fails at e in
        no_policies s' (ap (λ x. x.1.policies) (sym failed))
          (ap (λ x. x.1.running) (sym failed) ∙ idle)
  ]

  start_on-IsClosed :
      (chain : Chain) (course : Course) (lan : Bool) (ids : List DnsIdentity) (s s' : Service)
      (found : Option h.Ip)
      → s.running ≡ none
      → start_on h chain course lan ids s found ≡ (false, s')
      → (s' ≡ s) ⊎ IsClosed s'
  unfolding start_on
  start_on-IsClosed chain course lan ids s s' none idle e = inl (ap (λ x. x.1) (sym e))
  start_on-IsClosed chain course lan ids s s' (some ip) idle e =
      inr (launch-IsClosed chain course lan ids (h.print_ip ip) s s' idle e)

  -- A start that fails while no instance runs changes nothing, or leaves no instance running and
  -- has every listener refuse every request.
  pub start-IsClosed :
      (chain : Chain) (course : Course) (lan : Bool) (ids : List DnsIdentity) (address : String)
      (s s' : Service)
      → s.running ≡ none
      → start h chain course lan ids address s ≡ (false, s')
      → (s' ≡ s) ⊎ IsClosed s'
  unfolding start
  start-IsClosed chain course lan ids address s s' idle e =
      start_on-IsClosed chain course lan ids s s' (accept_start h address ids) idle e
