-- ===== src/Nft/Render/Accepted.antt =====
-- internal/nft/render.go: when Render gives a script, and which.
use ghostd.Nft.Chains.{ReachabilityGuard}
use ghostd.Nft.Names.{valid_interface, valid_port}
use ghostd.Nft.Policy.{DesiredState}
use ghostd.Nft.Render.{chain_lines, render_lines, render, file_of, head_lines}
use ghostd.Nft.Validate.{NetIp, validate}
use ghostd.Prelude.{
  String, ◌≡◌, refl, ◌∙◌, ap, arith, Bool, true, false, ◌||◌, not, Option, none, some, some_inj,
  List, [], ◌∷◌, ◌++◌, if◌then◌else◌,
}

abbrev pub script_lines : DesiredState → ReachabilityGuard → List String
script_lines ds guard = head_lines ++ (chain_lines ds guard ++ ("}" ∷ []))

choices :
    {A : Type 0} (bad good : Bool) (a b : A)
    → (if bad then none else if not good then none else some a) ≡ some b
    → (bad ≡ false) × (good ≡ true) × (a ≡ b)
choices true good a b e = cc e
choices false true a b e = (refl, refl, some_inj e)
choices false false a b e = cc e

render_lines-eq :
    (ip : NetIp) (ds : DesiredState) (guard : ReachabilityGuard) (lines : List String)
    → render_lines ip ds guard ≡ some lines
    → ((not (valid_interface guard.tailscale_interface) || not (valid_port guard.port)) ≡ false)
      × (validate ip ds ≡ true)
      × (script_lines ds guard ≡ lines)
unfolding render_lines
render_lines-eq ip ds guard lines e =
    choices (not (valid_interface guard.tailscale_interface) || not (valid_port guard.port))
      (validate ip ds) (script_lines ds guard) lines e

-- A script is that of an accepted policy and a sound guard.
pub render-eq :
    (ip : NetIp) (ds : DesiredState) (guard : ReachabilityGuard) (script : String)
    → render ip ds guard ≡ some script
    → (valid_interface guard.tailscale_interface ≡ true)
      × (valid_port guard.port ≡ true)
      × (validate ip ds ≡ true)
      × (file_of (script_lines ds guard) ≡ script)
unfolding render
render-eq ip ds guard script e = from (render_lines ip ds guard) refl e
  where
    from :
        (found : Option (List String))
        → render_lines ip ds guard ≡ found
        → elim found [ none ↦ none | some lines ↦ some (file_of lines) ] ≡ some script
        → (valid_interface guard.tailscale_interface ≡ true)
          × (valid_port guard.port ≡ true)
          × (validate ip ds ≡ true)
          × (file_of (script_lines ds guard) ≡ script)
    from none is e = cc e
    from (some lines) is e =
        let (sound, valid, same) = render_lines-eq ip ds guard lines is in
        (ground (arith, sound), ground (arith, sound), valid, ap file_of same ∙ some_inj e)
