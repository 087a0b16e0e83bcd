-- ===== src/Tests/Starts.antt =====
-- Starts of the resolver, with the listeners of two containers.
use ghostd.Prelude.{
  ◌==◌, ◌≡◌, ◌⊎◌, refl, if◌then◌else◌, Bool, true, false, none, some, [], ◌∷◌, contains,
}
use ghostd.Resolver.Acl.{
  validate_acl, accepts_name, accept_names, accept_services, accept_identity, accepts_service,
  class_is,
}
use ghostd.Resolver.Labels.{service_class, class_of, class_in, valid_name}
use ghostd.Resolver.Start.{Service, Chain, Course, renamed, rename_fails, start, any_listens_on}
use ghostd.Resolver.Start.Closed.{IsClosed, start-IsClosed}
use ghostd.Resolver.Start.Published.{Ranges, Publishes, start-Publishes}
use ghostd.Tests.Queries.{small_lan, printing, web}

abbrev chain : Chain
chain = record { port = "53"; upstream = "100.100.100.100"; lease_directive = "" }

abbrev idle : Service
idle = record { policies = none; has_lan = false; running = none; directory = [] }

abbrev good_course : Course
good_course = record {
  caddy_starts = true;
  directory_made = true;
  random = "123";
  fate = λ _. renamed;
  order = λ files. files;
}

-- The file of the second container cannot be renamed.
abbrev bad_course : Course
bad_course = record {
  caddy_starts = true;
  directory_made = true;
  random = "123";
  fate = λ name. if name == "dns-web.env" then rename_fails else renamed;
  order = λ files. files;
}

abbrev after_start : Course → Bool × Service
after_start course = start small_lan chain course true (printing ∷ web ∷ []) "100.64.0.1" idle

good_course-Ranges : Ranges good_course
good_course-Ranges = record { reaches = λ P files a. a; adds_none = λ P files a. a }

well_started : after_start good_course ≡ (true, (after_start good_course).1)
unfolding start validate_acl accept_identity accept_names accept_services service_class valid_name
    accepts_name contains accepts_service class_is class_of class_in any_listens_on
well_started = refl

start-Publishes_example :
    (ip : small_lan.Ip) × (small_lan.parse_ip "100.64.0.1" ≡ some ip)
    × Publishes chain (printing ∷ web ∷ []) (small_lan.print_ip ip) (after_start good_course).1
start-Publishes_example =
    start-Publishes small_lan good_course good_course-Ranges chain true (printing ∷ web ∷ [])
      "100.64.0.1" idle (after_start good_course).1 well_started

badly_started : after_start bad_course ≡ (false, (after_start bad_course).1)
unfolding start validate_acl accept_identity accept_names accept_services service_class valid_name
    accepts_name contains accepts_service class_is class_of class_in any_listens_on
badly_started = refl

start-IsClosed_example :
    ((after_start bad_course).1 ≡ idle) ⊎ IsClosed small_lan (after_start bad_course).1
start-IsClosed_example =
    start-IsClosed small_lan chain bad_course true (printing ∷ web ∷ []) "100.64.0.1" idle
      (after_start bad_course).1 refl badly_started
