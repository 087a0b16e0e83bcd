-- ===== src/Nft/Render/Reach.antt =====
-- internal/nft/render.go: what every script of a policy that filters lets in.
use mathlib.Core.List.{append_assoc}
use ghostd.Nft.Chains.{
  ReachabilityGuard, quoted, iface_set, sorted_strings, zone_chain_name, each, when, zone_of,
  sorted_zone_names, guard_rule, guard_lines, zone_jump, input_chain, ingress_input, forward_chain,
}
use ghostd.Nft.Hooks.{
  prerouting_chain, ingress_output_chain, postrouting_chain, zone_chain, zone_header,
}
use ghostd.Nft.Names.{valid_interface, valid_port, same_port, matches_interface}
use ghostd.Nft.Policy.{Zone, DesiredState}
use ghostd.Nft.Render.{
  write_chains, chain_lines, render, file_of, head_lines, tftp_helper, output_chain,
}
use ghostd.Nft.Render.Accepted.{script_lines, render-eq}
use ghostd.Nft.Render.Members.{
  append-Any_left, append-Any_right, sort-Any, map-Any, each-Any, Any-mono,
}
use ghostd.Nft.Render.Spelled.{reach_text, jump_text, header_text, input_start}
use ghostd.Nft.Sorting.{text_le}
use ghostd.Nft.Validate.{NetIp}
use ghostd.Prelude.{
  ℤ, pos, negsuc, String, ◌==◌, ◌≡◌, ◌↔◌, sym, ◌∙◌, ap, subst, arith, eq_iff, true, false, inl, inr,
  Bool-cases, some, List, [], ◌∷◌, ◌++◌, map, Any,
}

guard_port : (p : ℤ) → valid_port p ≡ true → same_port p (pos 0) ≡ false
unfolding valid_port same_port
guard_port (pos n) e = ground (arith, e)
guard_port (negsuc n) e = cc

guard_interface : (s : String) → valid_interface s ≡ true → (s == "") ≡ false
unfolding valid_interface matches_interface
guard_interface s e = elim (Bool-cases (s == "")) [
  | inr named ↦ named
  | inl empty ↦ absurd (cc (subst (λ t. valid_interface t ≡ true) ((eq_iff s "").0 empty) e))
]

guard_lines-eq :
    (guard : ReachabilityGuard)
    → valid_interface guard.tailscale_interface ≡ true
    → valid_port guard.port ≡ true
    → guard_lines guard ≡ reach_text guard.tailscale_interface guard.port ∷ []
unfolding guard_lines guard_rule quoted when
guard_lines-eq guard i p =
    let port = guard_port guard.port p in
    let interface_name = guard_interface guard.tailscale_interface i in
    ground (arith, port, interface_name)

module _ (ds : DesiredState) (guard : ReachabilityGuard) where
  abbrev at : String → Zone
  at = zone_of ds.zones

  abbrev names : List String
  names = sorted_zone_names ds.zones

  -- What the script has after the input chain.
  abbrev later_chains : List String
  later_chains =
      forward_chain at ds names
      ++ (output_chain ds.output
          ++ (prerouting_chain at ds names
              ++ (ingress_output_chain ds.ingress
                  ++ (postrouting_chain at names ++ each (zone_chain at) names))))

  abbrev before_input : List String
  before_input = head_lines ++ tftp_helper at names

  abbrev jumps : List String
  jumps = map (zone_jump at) names

  abbrev after_input : List String
  after_input = later_chains ++ ("}" ∷ [])

  abbrev spelled : List String
  spelled =
      before_input
      ++ (input_start
          ++ (reach_text guard.tailscale_interface guard.port
              ∷ (jumps ++ (ingress_input ds.ingress ++ ("  }" ∷ after_input)))))

  script_lines-eq :
      ds.redirect_only ≡ false
      → guard_lines guard ≡ reach_text guard.tailscale_interface guard.port ∷ []
      → script_lines ds guard ≡ spelled
  unfolding chain_lines write_chains input_chain
  script_lines-eq filtering guarded = rw (filtering, guarded) (simp (append_assoc))

  abbrev Is : String → String → Type 0
  Is name x = x ≡ name

  -- A zone of the policy has this jump.
  abbrev pub Jumps : String → Type 0
  Jumps line = Any (λ name. jump_text (at name).interfaces name ≡ line) (map (λ z. z.0) ds.zones)

  jumps-Jumps : (line : String) → Any (λ l. l ≡ line) jumps ↔ Jumps line
  unfolding zone_jump iface_set quoted sorted_strings zone_chain_name sorted_zone_names
  jumps-Jumps line =
      let mapped = map-Any (λ l. l ≡ line) (zone_jump at) names in
      let sorted =
        sort-Any (λ name. jump_text (at name).interfaces name ≡ line) text_le
          (map (λ z. z.0) ds.zones) in
      (λ a. sorted.0 (mapped.0 a), λ a. mapped.1 (sorted.1 a))

  named : (P : String → Type 0) → Any P (map (λ z. z.0) ds.zones) → Any P names
  unfolding sorted_zone_names
  named P a = (sort-Any P text_le (map (λ z. z.0) ds.zones)).1 a

  chain-Any :
      (name : String)
      → Any (Is name) (map (λ z. z.0) ds.zones)
      → Any (λ l. l ≡ header_text name) (each (zone_chain at) names)
  unfolding zone_chain zone_header zone_chain_name
  chain-Any name there = (each-Any (λ l. l ≡ header_text name) (zone_chain at) names).1 (
      Any-mono (Is name) (λ x. Any (λ l. l ≡ header_text name) (zone_chain at x)) names
        (λ x e. inl (ap header_text e)) (named (Is name) there))

  header-Any :
      (name : String)
      → Any (Is name) (map (λ z. z.0) ds.zones)
      → Any (λ l. l ≡ header_text name) after_input
  header-Any name there = append-Any_left P later_chains ("}" ∷ []) (
      append-Any_right P (forward_chain at ds names) _ (
        append-Any_right P (output_chain ds.output) _ (
          append-Any_right P (prerouting_chain at ds names) _ (
            append-Any_right P (ingress_output_chain ds.ingress) _
              (append-Any_right P (postrouting_chain at names) _ (chain-Any name there))))))
    where
      P : String → Type 0
      P l = l ≡ header_text name

-- The script of a policy that filters has an input chain of these lines, in this order: fixed ones,
-- which are written out and of which only the policy of the chain drops; the acceptance of the
-- daemon's own port on the guard's interface; one block of jumps, which has a line exactly when it is
-- the jump of a zone from its interfaces; the ports of the ingress; and the end of the chain. Each
-- zone has the chain that it jumps to behind the input chain.
pub render_reaches :
    (ip : NetIp) (ds : DesiredState) (guard : ReachabilityGuard) (script : String)
    → ds.redirect_only ≡ false
    → render ip ds guard ≡ some script
    → (before : List String) × (zone_lines : List String) × (after : List String) × (script
        ≡ file_of (
            before
            ++ (input_start
                ++ (reach_text guard.tailscale_interface guard.port
                    ∷ (zone_lines ++ (ingress_input ds.ingress ++ ("  }" ∷ after)))))))
      × ((line : String) → Any (λ l. l ≡ line) zone_lines ↔ Jumps ds guard line)
      × ((name : String)
          → Any (λ x. x ≡ name) (map (λ z. z.0) ds.zones)
          → Any (λ l. l ≡ header_text name) after)
render_reaches ip ds guard script filtering e =
    let (sound, open_port, valid, same) = render-eq ip ds guard script e in
    let guarded = guard_lines-eq guard sound open_port in
    (
      before_input ds guard,
      jumps ds guard,
      after_input ds guard,
      sym same ∙ ap file_of (script_lines-eq ds guard filtering guarded),
      jumps-Jumps ds guard,
      header-Any ds guard,
    )
