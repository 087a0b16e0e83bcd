-- ===== src/Resolver/Start/Published.antt =====
-- internal/resolver/resolver.go: what a start that goes well has published.
use ghostd.Prelude.{
  String, ◌==◌, ◌≡◌, refl, sym, ◌∙◌, ap, subst, eq_iff, Bool, true, false, not, ◌⊎◌, inl, inr,
  Bool-cases, Option, none, some, List, [], ◌∷◌, All, Any, lookup, insert, erase, lookup-erase,
  if◌then◌else◌,
}
use ghostd.Ledger.Partial.{>>=-eq-some, check-eq-some}
use ghostd.Resolver.Acl.{DnsIdentity, validate_acl}
use ghostd.Resolver.Acl.Separate.{Separate, validate_acl-Separate}
use ghostd.Resolver.History.Tables.{lookup-insert}
use ghostd.Resolver.Host.{Host}
use ghostd.Resolver.Policy.{set_policies}
use ghostd.Resolver.Start.Files.{
  Own, base-ne_env, base_conf-ne_env, temp-ne_env, identity_files-Own, identity_files-Any, all_same,
}
use ghostd.Resolver.Start.{
  Service, Chain, Course, Publication, create_fails, write_fails, chmod_fails, close_fails,
  rename_fails, renamed, temp_name, publish, publish_all, env_name, env_text, files_of, published,
  publish_service, launch, accept_start, start_on, start, any_listens_on, plugin_corefile,
}

abbrev Files : Type 0
Files = List (String × String)

publish-lookup :
    (random name content key : String) (fate : Publication) (dir dir' : Files)
    → (temp_name random == key) ≡ false
    → publish random name content fate dir ≡ (true, dir')
    → lookup key dir' ≡ (if name == key then some content else lookup key dir)
unfolding publish
publish-lookup random name content key renamed dir dir' apart e =
    subst (λ d. lookup key d ≡ (if name == key then some content else lookup key dir))
      (ap (λ x. x.1) e)
      (lookup-insert name key content
          (erase (temp_name random) (insert (temp_name random) content dir))
        ∙ ap (λ o. if name == key then some content else o)
            (lookup-erase (temp_name random) key (insert (temp_name random) content dir)
              ∙ rw apart (lookup-insert (temp_name random) key content dir ∙ rw apart refl)))
publish-lookup random name content key create_fails dir dir' apart e = cc (ap (λ x. x.0) e)
publish-lookup random name content key write_fails dir dir' apart e = cc (ap (λ x. x.0) e)
publish-lookup random name content key chmod_fails dir dir' apart e = cc (ap (λ x. x.0) e)
publish-lookup random name content key close_fails dir dir' apart e = cc (ap (λ x. x.0) e)
publish-lookup random name content key rename_fails dir dir' apart e = cc (ap (λ x. x.0) e)

-- Every file of the name has this text, and one of them was published or it stands there already.
Settled : String → String → Files → Files → Type 0
Settled key text files dir =
    All (λ f. f.0 ≡ key → f.1 ≡ text) files
    × (Any (λ f. (f.0 ≡ key) × (f.1 ≡ text)) files ⊎ (lookup key dir ≡ some text))

publish_all-lookup :
    (random key text : String) (fate : String → Publication) (files dir dir' : Files)
    → (temp_name random == key) ≡ false
    → Settled key text files dir
    → publish_all random fate files dir ≡ (true, dir')
    → lookup key dir' ≡ some text
unfolding publish_all Settled
publish_all-lookup random key text fate [] dir dir' apart (all, inl there) e = elim there [ ]
publish_all-lookup random key text fate [] dir dir' apart (all, inr there) e =
    subst (λ d. lookup key d ≡ some text) (ap (λ x. x.1) e) there
publish_all-lookup random key text fate ((name, content) ∷ files) dir dir' apart (all, there) e =
    let step = publish random name content (fate name) dir in
    elim (Bool-cases step.0) [
      | inr failed ↦ absurd (cc (sym (rw failed at (ap (λ x. x.0) e))))
      | inl done ↦
          publish_all-lookup random key text fate files step.1 dir' apart
            (all.1, settle (Bool-cases (name == key)) done) (rw done at e)
    ]
  where
    after_it :
        (publish random name content (fate name) dir).0 ≡ true
        → lookup key (publish random name content (fate name) dir).1
          ≡ (if name == key then some content else lookup key dir)
    after_it done =
        publish-lookup random name content key (fate name) dir
          (publish random name content (fate name) dir).1 apart
          (λ i. (done i, (publish random name content (fate name) dir).1))

    settle :
        ((name == key) ≡ true) ⊎ ((name == key) ≡ false)
        → (publish random name content (fate name) dir).0 ≡ true
        → Any (λ f. (f.0 ≡ key) × (f.1 ≡ text)) files
          ⊎ (lookup key (publish random name content (fate name) dir).1 ≡ some text)
    settle (inl same) done =
        inr (after_it done ∙ rw same (ap some (all.0 ((eq_iff name key).0 same))))
    settle (inr differs) done = elim there [
      | inl (inl (same, _)) ↦ absurd (cc (sym differs ∙ (eq_iff name key).1 same))
      | inl (inr later) ↦ inl later
      | inr old ↦ inr (after_it done ∙ rw differs old)
    ]

-- Go ranges over every file of a map, and over nothing else.
pub record Ranges (course : Course) : Type 1 where
  pub reaches :
      (P : String × String → Type 0) (files : Files) → Any P files → Any P (course.order files)
  pub adds_none :
      (P : String × String → Type 0) (files : Files) → All P files → All P (course.order files)

-- The policies and the instance of a start, and what it has published.
abbrev pub Publishes : Chain → List DnsIdentity → String → Service → Type 0
Publishes chain ids address s =
    (s.policies ≡ set_policies ids)
    × (s.running ≡ some (plugin_corefile chain address ids))
    × ((id : DnsIdentity)
        → Any (λ x. x ≡ id) ids
        → lookup (env_name id.name) s.directory ≡ some (env_text id.listen))

module _ (h : Host) (course : Course) (ranges : Ranges course) where
  files-Settled :
      (address : String) (ids : List DnsIdentity) (id : DnsIdentity) (dir : Files)
      → Separate h ids
      → Any (λ x. x ≡ id) ids
      → Settled (env_name id.name) (env_text id.listen) (course.order (files_of address ids)) dir
  unfolding Settled files_of
  files-Settled address ids id dir apart there = (
    ranges.adds_none (Own h id) (files_of address ids) (
      λ e. absurd (base-ne_env id.name e),
      (
        λ e. absurd (base_conf-ne_env id.name e),
        identity_files-Own h id ids (all_same h id ids apart there),
      ),
    ),
    inl (
        ranges.reaches (λ f. (f.0 ≡ env_name id.name) × (f.1 ≡ env_text id.listen))
          (files_of address ids) (inr (inr (identity_files-Any h id ids there)))),
  )

  service-published :
      (address : String) (ids : List DnsIdentity) (s s' : Service)
      → publish_service h course address ids s ≡ (true, s')
      → (dir : Files) × (publish_all course.random course.fate
            (course.order (files_of address ids))
            s.directory
          ≡ (true, dir))
        × (s' ≡ record s { directory = dir })
  unfolding publish_service published
  service-published address ids s s' e = elim (Bool-cases course.directory_made) [
    | inr no_directory ↦ absurd (cc (ap (λ x. x.0) (rw no_directory at e)))
    | inl made ↦
        ended
          (publish_all course.random course.fate (course.order (files_of address ids)) s.directory)
          (rw made at e)
  ]
    where
      ended :
          (done : Bool × Files)
          → published done s ≡ (true, s')
          → (dir : Files) × (done ≡ (true, dir)) × (s' ≡ record s { directory = dir })
      ended (true, dir) e = (dir, refl, ap (λ x. x.1) (sym e))
      ended (false, dir) e = cc (ap (λ x. x.0) e)

  launch-Publishes :
      (chain : Chain) (lan : Bool) (ids : List DnsIdentity) (address : String) (s s' : Service)
      → Separate h ids
      → launch h chain course lan ids address s ≡ (true, s')
      → Publishes chain ids address s'
  unfolding launch
  launch-Publishes chain lan ids address s s' apart e = elim (Bool-cases course.caddy_starts) [
    | inr fails ↦ absurd (cc (ap (λ x. x.0) (rw fails at e)))
    | inl starts ↦
        let (dir, all, same) = service-published address ids _ s' (rw starts at e) in
        (
          ap (λ x. x.policies) same,
          ap (λ x. x.running) same,
          λ id there.
              ap (λ (x : Service). lookup (env_name id.name) x.directory) same
              ∙ publish_all-lookup course.random (env_name id.name) (env_text id.listen) course.fate
                  (course.order (files_of address ids)) s.directory dir
                  (temp-ne_env course.random id.name)
                  (files-Settled address ids id s.directory apart there) all,
        )
  ]

  accept_start-Separate :
      (address : String) (ids : List DnsIdentity) (ip : h.Ip)
      → accept_start h address ids ≡ some ip
      → (h.parse_ip address ≡ some ip) × Separate h ids
  unfolding accept_start
  accept_start-Separate address ids ip e =
      let (first, parsed, e1) = >>=-eq-some (h.parse_ip address) _ e in
      let (done, valid, e2) = >>=-eq-some (validate_acl h ids) _ e1 in
      let (_, e3) = check-eq-some (not (any_listens_on h first ids)) _ e2 in
      (parsed ∙ e3, (validate_acl-Separate h ids valid).1)

  start_on-Publishes :
      (chain : Chain) (lan : Bool) (ids : List DnsIdentity) (address : String) (s s' : Service)
      (found : Option h.Ip)
      → accept_start h address ids ≡ found
      → start_on h chain course lan ids s found ≡ (true, s')
      → (ip : h.Ip) × (h.parse_ip address ≡ some ip) × Publishes chain ids (h.print_ip ip) s'
  unfolding start_on
  start_on-Publishes chain lan ids address s s' none is e = cc (ap (λ x. x.0) e)
  start_on-Publishes chain lan ids address s s' (some ip) is e =
      let (parsed, apart) = accept_start-Separate address ids ip is in
      (ip, parsed, launch-Publishes chain lan ids (h.print_ip ip) s s' apart e)

  -- When Go ranges over every file and over nothing else: a start that goes well has put the policies
  -- of all identities in force and runs CoreDNS with the Corefile of the base address and of every
  -- identity; and each identity finds its own address, and no other's, in the file of its name.
  pub start-Publishes :
      (chain : Chain) (lan : Bool) (ids : List DnsIdentity) (address : String) (s s' : Service)
      → start h chain course lan ids address s ≡ (true, s')
      → (ip : h.Ip) × (h.parse_ip address ≡ some ip) × Publishes chain ids (h.print_ip ip) s'
  unfolding start
  start-Publishes chain lan ids address s s' e =
      start_on-Publishes chain lan ids address s s' (accept_start h address ids) refl e
