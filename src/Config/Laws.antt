-- ===== src/Config/Laws.antt =====
-- What the store keeps of the resources that are put into it.
use Prim.Native.String
use Prim.Native.String.{count}
use mathlib.Core.List.{append-nil}
use text.Mathlib.TextLemmas.{length-append}
use emissary.Prelude.{
  String, true, false, List, [], ◌∷◌, ◌++◌, Option, none, some, lookup, insert, ◌≡◌, ◌≢◌, refl, ◌∙◌,
  ap, arith, ◌&&◌, ◌==◌, if◌then◌else◌, string_eq, eq_iff, lookup-insert,
}
use emissary.Config.{
  Resource, Redefinition, Config, bucket, redefines, text_of, same_namespace, qualified, place,
  safe_store, get_config,
}

module _ {ℓ} {R : Type ℓ} where
  abbrev pub stored : String → String → Config R → Option (Resource R)
  stored kind name c = lookup name (bucket (get_config kind c))

  abbrev placed : String → Resource R → Config R → Resource R × List Redefinition
  placed k r c = place (bucket (get_config k c)) r

  -- One store changes one name of one kind.
  stored-safe_store :
      (k j name : String) (r : Resource R) (c : Config R)
      → stored j name (safe_store k r c) ≡ (
          if k == j && (placed k r c).0.name == name
          then some (placed k r c).0
          else stored j name c)
  unfolding safe_store get_config
  stored-safe_store k j name r c =
      let p = place (bucket (lookup k c.config)) r in
      ground (
        arith,
        lookup-insert k j (insert p.0.name p.0 (bucket (lookup k c.config))) c.config,
        lookup-insert p.0.name name p.0 (bucket (lookup k c.config)),
        eq_iff k j,
      )

  errors-safe_store :
      (k : String) (r : Resource R) (c : Config R)
      → (safe_store k r c).errors ≡ c.errors ++ (placed k r c).1
  unfolding safe_store get_config
  errors-safe_store k r c = refl

  -- A name that is free is taken with no error, and no other name of any kind changes.
  pub safe_store-free :
      (k j name : String) (r : Resource R) (c : Config R)
      → stored k r.name c ≡ none
      → ((safe_store k r c).errors ≡ c.errors)
        × (stored j name (safe_store k r c)
            ≡ (if k == j && r.name == name then some r else stored j name c))
  safe_store-free k j name r c free =
      let e : placed k r c ≡ (r, []) = unfold place in rw (free, place) in
      (errors-safe_store k r c ∙ rw e (append-nil c.errors), stored-safe_store k j name r c ∙ rw e)

  -- A name that a resource of the same namespace has is taken over, and the error is posted.
  pub safe_store-redefines :
      (k j name : String) (r old : Resource R) (c : Config R)
      → stored k r.name c ≡ some old
      → same_namespace r.namespace old.namespace ≡ true
      → ((safe_store k r c).errors ≡ c.errors ++ redefines r old ∷ [])
        × (stored j name (safe_store k r c)
            ≡ (if k == j && r.name == name then some r else stored j name c))
  safe_store-redefines k j name r old c taken same =
      let e : placed k r c ≡ (r, redefines r old ∷ []) =
        unfold place in rw (taken, place) (rw same) in
      (errors-safe_store k r c ∙ rw e, stored-safe_store k j name r c ∙ rw e)

  renamed :
      (k : String) (r old : Resource R) (c : Config R)
      → stored k r.name c ≡ some old
      → same_namespace r.namespace old.namespace ≡ false
      → placed k r c ≡ (record r { name = qualified r }, [])
  unfolding place
  renamed k r old c taken other = rw (taken, place) (rw other)

  -- A name that a resource of another namespace has is left to it: the new resource is stored under
  -- its qualified name with no error, whatever stood there.
  pub safe_store-renames :
      (k j name : String) (r old : Resource R) (c : Config R)
      → stored k r.name c ≡ some old
      → same_namespace r.namespace old.namespace ≡ false
      → ((safe_store k r c).errors ≡ c.errors)
        × (stored j name (safe_store k r c) ≡ (
            if k == j && qualified r == name
            then some (record r { name = qualified r })
            else stored j name c))
  safe_store-renames k j name r old c taken other =
      let e = renamed k r old c taken other in
      (errors-safe_store k r c ∙ rw e (append-nil c.errors), stored-safe_store k j name r c ∙ rw e)

  qualified-ne-name : (r : Resource R) → qualified r ≢ r.name
  qualified-ne-name r e = absurd (
      omega (
        arith,
        ap count e,
        length-append r.name (String.◌++◌ "." (text_of r.namespace)),
        length-append "." (text_of r.namespace),
        dot,
      ))
    where
      dot : count "." ≡ 1
      dot = refl

  -- Where a resource of another namespace has the name in the bucket, two resources of one name and
  -- namespace that are stored one after the other leave only the second, under the qualified name,
  -- and no error is posted.
  pub safe_store_hides :
      (k : String) (r r' old : Resource R) (c : Config R)
      → stored k r.name c ≡ some old
      → same_namespace r.namespace old.namespace ≡ false
      → r'.name ≡ r.name
      → r'.namespace ≡ r.namespace
      → ((safe_store k r' (safe_store k r c)).errors ≡ c.errors)
        × (stored k (qualified r) (safe_store k r' (safe_store k r c))
            ≡ some (record r' { name = qualified r }))
  safe_store_hides k r r' old c taken other same_name same_ns =
      let (quiet, first) = safe_store-renames k k r.name r old c taken other in
      let still : stored k r'.name (safe_store k r c) ≡ some old =
        rw same_name
          (first ∙ ground (arith, eq_iff (qualified r) r.name, qualified-ne-name r, taken)) in
      let other' : same_namespace r'.namespace old.namespace ≡ false = rw same_ns other in
      let (quiet', second) =
        safe_store-renames k k (qualified r) r' old (safe_store k r c) still other' in
      let same : qualified r' ≡ qualified r = rw (same_name, same_ns) in
      (
        quiet' ∙ quiet,
        second ∙ ground (arith, eq_iff k k, eq_iff (qualified r') (qualified r), same),
      )

  -- Every resource stands under its own name.
  unfoldable pub IsNamed : Config R → Type ℓ
  IsNamed c = (k name : String) (r : Resource R) → stored k name c ≡ some r → r.name ≡ name

  -- A store keeps every resource under its own name.
  pub safe_store-IsNamed :
      (k : String) (r : Resource R) (c : Config R) → IsNamed c → IsNamed (safe_store k r c)
  unfolding IsNamed
  safe_store-IsNamed k r c h j name found at =
      let p = (placed k r c).0 in
      ground (arith, stored-safe_store k j name r c, eq_iff p.name name, h j name found, at)
