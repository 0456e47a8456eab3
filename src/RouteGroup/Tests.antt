-- ===== src/RouteGroup/Tests.antt =====
-- Mappings of one prefix, one of them a shadow, one a redirect and one with another prefix; the weights are
-- numbers.
use emissary.Prelude.{
  ℕ, String, Bool, true, List, [], ◌∷◌, ◌++◌, none, Dict, lookup, insert, ltb, ◌≡◌, ◌≢◌, refl,
  string_eq, arith, ◌==◌,
}
use emissary.RouteGroup.{
  RouteMapping, HttpGroup, differs, mismatches, lift_keys, redirect_of, add_shadow, add_redirect,
  add_plain, place_mapping, add_mapping, new_group, add_mappings,
}
use emissary.RouteGroup.Laws.{IsGroup, add_mappings-IsGroup}
use emissary.RouteGroup.Accepted.{accepted, add_mappings-accepted}
use emissary.RouteGroup.Tcp.{TcpGroup}

abbrev above : ℕ → ℕ → Bool
above a b = ltb b a

abbrev is_true : String → Bool
is_true v = v == "true"

abbrev mapping : String → Dict String String → RouteMapping String ℕ
mapping name fields = record { name = name; fields = fields; route_weight = 3; usable = true }

abbrev plain : RouteMapping String ℕ
plain = mapping "plain" (("prefix", "/shop") ∷ [])

abbrev canary : RouteMapping String ℕ
canary = mapping "canary" (("prefix", "/shop") ∷ [])

abbrev shadow : RouteMapping String ℕ
shadow = mapping "shadow" (("prefix", "/shop") ∷ ("shadow", "true") ∷ [])

abbrev redirect : RouteMapping String ℕ
redirect = mapping "redirect" (("prefix", "/shop") ∷ ("host_redirect", "true") ∷ [])

abbrev elsewhere : RouteMapping String ℕ
elsewhere = mapping "elsewhere" (("prefix", "/other") ∷ [])

abbrev others : List (RouteMapping String ℕ)
others = shadow ∷ redirect ∷ elsewhere ∷ canary ∷ []

abbrev group : HttpGroup String ℕ
group = record {
  fields = ("prefix", "/shop") ∷ [];
  group_weight = 3;
  mappings = plain ∷ [];
  shadows = [];
  host_redirect = none;
  posted = [];
  references = "plain" ∷ [];
}

group-new : new_group is_true above plain ≡ group
unfolding new_group add_mapping place_mapping add_plain redirect_of mismatches differs lift_keys
    lookup insert
group-new = refl

two_taken : (add_mappings is_true above others group).mappings ≡ plain ∷ canary ∷ []
unfolding add_mappings add_mapping place_mapping add_plain add_shadow add_redirect redirect_of
    mismatches differs lookup
two_taken = refl

redirected_alone :
    (add_mappings is_true above (plain ∷ shadow ∷ []) (new_group is_true above redirect)).mappings
    ≡ []
unfolding add_mappings new_group add_mapping place_mapping add_plain add_shadow add_redirect
    redirect_of mismatches differs lift_keys lookup insert
redirected_alone = refl

add_mappings-IsGroup_example :
    IsGroup is_true above (add_mappings is_true above others (new_group is_true above plain))
add_mappings-IsGroup_example =
    add_mappings-IsGroup is_true above (λ a b c h k. ground (arith, h, k)) (λ a. ground arith) plain
      others

clear : redirect_of is_true above group ≡ none
unfolding redirect_of
clear = refl

taken : group.mappings ≢ []
taken h = cc

add_mappings-accepted_example :
    (add_mappings is_true above others group).mappings
    ≡ group.mappings ++ accepted is_true above group.fields others
add_mappings-accepted_example = add_mappings-accepted is_true above others group clear taken

abbrev tcp_group : TcpGroup String ℕ
tcp_group = record {
  fields = ("port", "80") ∷ [];
  group_weight = 3;
  mappings = [];
  posted = [];
  references = [];
}
