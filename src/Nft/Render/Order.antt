-- ===== src/Nft/Render/Order.antt =====
-- internal/nft/render.go: the order in which Go ranges over the zones does not show in the script.
use mathlib.Core.List.{Permᴰ}
use mathlib.Core.Path.{fun_ext}
use ghostd.Nft.Chains.{ReachabilityGuard, zone_of, sorted_zone_names}
use ghostd.Nft.Policy.{Zone, DesiredState}
use ghostd.Nft.Render.Accepted.{render-eq}
use ghostd.Nft.Render.{write_chains, chain_lines, render, file_of, head_lines}
use ghostd.Nft.Sorting.{text_le}
use ghostd.Nft.Sorting.Laws.{text_le-IsOrder, sort-perm}
use ghostd.Nft.Validate.{NetIp}
use ghostd.Prelude.{String, ◌≡◌, sym, ◌∙◌, ap, some, List, [], ◌∷◌, ◌++◌, map, lookup, or_else}

-- The same map, read in any order: the same names, each as often, and the same zone under each.
pub record SameMap (zones zones' : List (String × Zone)) : Type 0 where
  pub keys : Permᴰ (map (λ z. z.0) zones) (map (λ z. z.0) zones')
  pub at : (name : String) → lookup name zones ≡ lookup name zones'

module _ (zones zones' : List (String × Zone)) (same : SameMap zones zones') where
  sorted_zone_names-SameMap : sorted_zone_names zones ≡ sorted_zone_names zones'
  unfolding sorted_zone_names
  sorted_zone_names-SameMap =
      sort-perm text_le text_le-IsOrder (map (λ z. z.0) zones) (map (λ z. z.0) zones') same.keys

  zone_of-SameMap : zone_of zones ≡ zone_of zones'
  unfolding zone_of
  zone_of-SameMap = fun_ext λ name. ap (or_else _) (same.at name)

abbrev pub with_zones : DesiredState → List (String × Zone) → DesiredState
with_zones ds zones = record ds { zones = zones }

-- When a policy is rendered twice, and the two readings differ in the order of the map of its zones
-- only, the scripts are the same.
pub render-SameMap :
    (ip : NetIp) (ds : DesiredState) (zones' : List (String × Zone)) (guard : ReachabilityGuard)
    (script script' : String)
    → SameMap ds.zones zones'
    → render ip ds guard ≡ some script
    → render ip (with_zones ds zones') guard ≡ some script'
    → script ≡ script'
unfolding chain_lines write_chains
render-SameMap ip ds zones' guard script script' same e e' =
    sym ((render-eq ip ds guard script e).3)
    ∙ (λ i. file_of (
        head_lines
        ++ (write_chains (zone_of-SameMap ds.zones zones' same i)
              (sorted_zone_names-SameMap ds.zones zones' same i) ds guard
            ++ ("}" ∷ []))))
    ∙ (render-eq ip (with_zones ds zones') guard script' e').3
