-- ===== src/Nft/Render/Forwards.antt =====
-- internal/nft/render.go: what the forward chain and the chain of inputs let through.
use ghostd.Nft.Chains.{
  each, when, quoted, iface_set, zone_of, sorted_zone_names, sorted_strings, forward_rule,
  forwards_of, forward_chain,
}
use ghostd.Nft.Policy.{Zone, DesiredState}
use ghostd.Nft.Render.Members.{
  Any-append, append-Any_left, append-Any_right, sort-Any, map-Any, each-Any, Any-mono,
}
use ghostd.Nft.Render.Spelled.{forward_text}
use ghostd.Nft.Sorting.{sort, text_le}
use ghostd.Prelude.{
  String, ◌≡◌, ◌↔◌, refl, sym, Bool, true, false, ◌⊎◌, inl, inr, List, [], ◌∷◌, ◌++◌, map, Any,
}

-- The lines that every forward chain has: its head, the acceptance of what is established, and of
-- translated connections where the policy says so.
abbrev pub IsFixed : Bool → String → Type 0
IsFixed dnat line =
    (line ≡ "  chain forward {")
    ⊎ ((line ≡ "    type filter hook forward priority 0; policy drop;")
        ⊎ ((line ≡ "    ct state established,related accept")
            ⊎ (((dnat ≡ true) × (line ≡ "    ct status dnat accept")) ⊎ (line ≡ "  }"))))

module _ (at : String → Zone) (line : String) where
  forwards_of-Any :
      (name : String)
      → Any (λ l. l ≡ line) (forwards_of at name)
        ↔ Any
            (λ egress. forward_text (at name).interfaces (at egress).interfaces ≡ line)
            (at name).forward
  unfolding forwards_of sorted_strings forward_rule iface_set quoted
  forwards_of-Any name =
      let mapped =
        map-Any (λ l. l ≡ line) (forward_rule at (at name)) (sort text_le (at name).forward) in
      let sorted =
        sort-Any (λ egress. forward_text (at name).interfaces (at egress).interfaces ≡ line) text_le
          (at name).forward in
      (λ a. sorted.0 (mapped.0 a), λ a. mapped.1 (sorted.1 a))

  -- A zone of the map and one of the zones that it forwards to have this line.
  abbrev pub Forwards : List String → Type 0
  Forwards names =
      Any
        (λ name.
          Any (λ egress. forward_text (at name).interfaces (at egress).interfaces ≡ line)
            (at name).forward)
        names

  Forwards-Any :
      (names : List String) → Any (λ l. l ≡ line) (each (forwards_of at) names) ↔ Forwards names
  Forwards-Any names =
      let all = each-Any (λ l. l ≡ line) (forwards_of at) names in
      (
        λ a.
            Any-mono (λ name. Any (λ l. l ≡ line) (forwards_of at name))
              (λ name.
                Any (λ egress. forward_text (at name).interfaces (at egress).interfaces ≡ line)
                  (at name).forward)
              names (λ name. (forwards_of-Any name).0) (all.0 a),
        λ a. all.1 (
            Any-mono
              (λ name.
                Any (λ egress. forward_text (at name).interfaces (at egress).interfaces ≡ line)
                  (at name).forward)
              (λ name. Any (λ l. l ≡ line) (forwards_of at name)) names
              (λ name. (forwards_of-Any name).1) a),
      )

  when-Any :
      (b : Bool) (fixed : String)
      → Any (λ l. l ≡ line) (when b (fixed ∷ [])) ↔ ((b ≡ true) × (line ≡ fixed))
  unfolding when
  when-Any true fixed = (
    λ a. elim a [ inl e ↦ (refl, sym e) | inr none_left ↦ elim none_left [ ] ],
    λ e. inl (sym e.1),
  )
  when-Any false fixed = (λ a. elim a [ ], λ e. absurd (cc e.0))

  forward_chain→ :
      (ds : DesiredState) (names : List String)
      → Any (λ l. l ≡ line) (forward_chain at ds names)
      → IsFixed ds.allow_dnat_forward line ⊎ Forwards names
  unfolding forward_chain
  forward_chain→ ds names (inl e) = inl (inl (sym e))
  forward_chain→ ds names (inr (inl e)) = inl (inr (inl (sym e)))
  forward_chain→ ds names (inr (inr (inl e))) = inl (inr (inr (inl (sym e))))
  forward_chain→ ds names (inr (inr (inr rest))) =
      elim (Any-append (λ l. l ≡ line)
        (when ds.allow_dnat_forward ("    ct status dnat accept" ∷ []))
        (each (forwards_of at) names ++ ("  }" ∷ [])) rest) [
          | inl dnat ↦ inl (
              inr (
                inr (
                  inr (inl ((when-Any ds.allow_dnat_forward "    ct status dnat accept").0 dnat)))))
          | inr more ↦
              elim (Any-append (λ l. l ≡ line) (each (forwards_of at) names) ("  }" ∷ []) more) [
                | inl forwards ↦ inr ((Forwards-Any names).0 forwards)
                | inr (inl e) ↦ inl (inr (inr (inr (inr (sym e)))))
                | inr (inr none_left) ↦ elim none_left [ ]
              ]
        ]

  →forward_chain :
      (ds : DesiredState) (names : List String)
      → IsFixed ds.allow_dnat_forward line ⊎ Forwards names
      → Any (λ l. l ≡ line) (forward_chain at ds names)
  unfolding forward_chain
  →forward_chain ds names (inl (inl e)) = inl (sym e)
  →forward_chain ds names (inl (inr (inl e))) = inr (inl (sym e))
  →forward_chain ds names (inl (inr (inr (inl e)))) = inr (inr (inl (sym e)))
  →forward_chain ds names (inl (inr (inr (inr (inl dnat))))) = inr (
      inr (
        inr (
          append-Any_left (λ l. l ≡ line)
            (when ds.allow_dnat_forward ("    ct status dnat accept" ∷ []))
            (each (forwards_of at) names ++ ("  }" ∷ []))
            ((when-Any ds.allow_dnat_forward "    ct status dnat accept").1 dnat))))
  →forward_chain ds names (inl (inr (inr (inr (inr e))))) = inr (
      inr (
        inr (
          append-Any_right (λ l. l ≡ line)
            (when ds.allow_dnat_forward ("    ct status dnat accept" ∷ []))
            (each (forwards_of at) names ++ ("  }" ∷ []))
            (append-Any_right (λ l. l ≡ line) (each (forwards_of at) names) ("  }" ∷ [])
              (inl (sym e))))))
  →forward_chain ds names (inr forwards) = inr (
      inr (
        inr (
          append-Any_right (λ l. l ≡ line)
            (when ds.allow_dnat_forward ("    ct status dnat accept" ∷ []))
            (each (forwards_of at) names ++ ("  }" ∷ []))
            (append-Any_left (λ l. l ≡ line) (each (forwards_of at) names) ("  }" ∷ [])
              ((Forwards-Any names).1 forwards)))))

-- A line stands in the forward chain, whose policy is drop, exactly when it is one of the fixed lines,
-- or the acceptance, as nft reads it, of what comes in by the interfaces of a zone and leaves by those
-- of a zone that it forwards to.
pub forward_chain-Forwards :
    (ds : DesiredState) (line : String)
    → Any (λ l. l ≡ line) (forward_chain (zone_of ds.zones) ds (sorted_zone_names ds.zones)) ↔ (
        IsFixed ds.allow_dnat_forward line
        ⊎ Forwards (zone_of ds.zones) line (map (λ z. z.0) ds.zones))
unfolding sorted_zone_names
forward_chain-Forwards ds line =
    let at = zone_of ds.zones in
    let names = map (λ (z : String × Zone). z.0) ds.zones in
    let sorted =
      sort-Any
        (λ name.
          Any (λ egress. forward_text (at name).interfaces (at egress).interfaces ≡ line)
            (at name).forward)
        text_le names in
    (
      λ a. elim (forward_chain→ at line ds (sort text_le names) a) [
        | inl fixed ↦ inl fixed
        | inr forwards ↦ inr (sorted.0 forwards)
      ],
      λ a.
          →forward_chain at line ds (sort text_le names)
            (elim a [ inl fixed ↦ inl fixed | inr forwards ↦ inr (sorted.1 forwards) ]),
    )
