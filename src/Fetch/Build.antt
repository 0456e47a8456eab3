-- ===== src/Fetch/Build.antt =====
-- How a resource is built, `NormalizedResource.from_data` and `from_kubernetes_object` of
-- python/ambassador/src/ambassador/fetch/resource.py: the dictionary and the key. `X` is any value of
-- a spec that these functions only pass on. The version and the group of a Kubernetes object, which
-- `KubernetesGVK` splits off its `apiVersion`, are arguments.
use Prim.Native.String
use emissary.Prelude.{
  ℕ, String, false, Option, none, some, Dict, lookup, insert, erase, ◌≡◌, refl, ◌∙◌, if◌then◌else◌,
  ◌==◌, string_eq, lookup-insert, Bool-cases, inl, inr,
}
use emissary.Results.{Result, ok, raised, attribute_error}

pub data Value (X : Type 0) : Type 0 where
  text : String → Value X
  number : ℕ → Value X
  labels : Dict String String → Value X
  other : X → Value X

-- The arguments of `from_data`, `none` and `[]` where one is not given.
pub record Data (X : Type 0) : Type 0 where
  pub kind : String
  pub name : String
  pub namespace : Option String
  pub generation : Option ℕ
  pub version : String
  pub api_group : String
  pub metadata_labels : Dict String String
  pub spec : Dict String (Value X)
  pub errors : String
  pub rkey : Option String

-- What `from_kubernetes_object` reads of the object; `generation` is 1 where it is missing.
pub record Source (X : Type 0) : Type 0 where
  pub kind : String
  pub name : String
  pub namespace : Option String
  pub generation : ℕ
  pub version : String
  pub api_group : String
  pub object_labels : Dict String String
  pub spec : Dict String (Value X)
  pub errors : String

-- A namespace in a formatted text.
abbrev or_none : Option String → String
or_none none = "None"
or_none (some n) = n

abbrev dotted : String → String → String
dotted a b = String.◌++◌ a (String.◌++◌ "." b)

-- The labels and the key, from the key that an annotation has.
abbrev labels_and_rkey : String → String → String → Dict String String → Dict String String × String
labels_and_rkey rkey name namespace given =
    if rkey == ""
    then (insert "ambassador_crd" (dotted name namespace) given, dotted name namespace)
    else (erase "ambassador_crd" given, rkey)

module _ {X : Type 0} where
  abbrev set_some {ℓ} :
      {A : Type ℓ}
      → String
      → (A → Value X)
      → Option A
      → Dict String (Value X)
      → Dict String (Value X)
  set_some key value none d = d
  set_some key value (some a) d = insert key (value a) d

  abbrev set_errors : String → Dict String (Value X) → Dict String (Value X)
  set_errors errors d = if errors == "" then d else insert "errors" (text errors) d

  abbrev named : Data X → Dict String (Value X)
  named d = insert "name" (text d.name) (
      insert "kind" (text d.kind)
        (insert "apiVersion" (text (String.◌++◌ d.api_group (String.◌++◌ "/" d.version))) d.spec))

  abbrev placed : Data X → Dict String (Value X)
  placed d =
      set_some "generation" number d.generation (set_some "namespace" text d.namespace (named d))

  unfoldable pub from_data : Data X → Dict String (Value X) × String
  from_data d = (
    set_errors d.errors (insert "metadata_labels" (labels d.metadata_labels) (placed d)),
    elim d.rkey [ none ↦ dotted d.name (or_none d.namespace) | some rkey ↦ rkey ],
  )

  -- Reading the namespace of an object that has none raises.
  unfoldable pub from_kubernetes_object :
      Source X → String → Result (Dict String (Value X) × String)
  unfolding from_data
  from_kubernetes_object obj rkey = elim obj.namespace [
    | none ↦ raised attribute_error
    | some namespace ↦
        let chosen = labels_and_rkey rkey obj.name namespace obj.object_labels in
        ok (
          from_data (record {
            kind = obj.kind;
            name = obj.name;
            namespace = some namespace;
            generation = some obj.generation;
            version = obj.version;
            api_group = obj.api_group;
            metadata_labels = chosen.0;
            spec = obj.spec;
            errors = obj.errors;
            rkey = some chosen.1;
          }))
  ]

  lookup-set_errors :
      (j errors : String) (d : Dict String (Value X))
      → ("errors" == j) ≡ false
      → lookup j (set_errors errors d) ≡ lookup j d
  lookup-set_errors j errors d differs = elim (Bool-cases (errors == "")) [
    | inl empty ↦ rw empty
    | inr given ↦ rw given (lookup-insert "errors" j (text errors) d ∙ rw differs)
  ]

  lookup-set_some :
      {A : Type 0} (key j : String) (value : A → Value X) (o : Option A) (d : Dict String (Value X))
      → lookup j (set_some key value o d)
        ≡ elim o [ none ↦ lookup j d | some a ↦ (if key == j then some (value a) else lookup j d) ]
  lookup-set_some key j value none d = refl
  lookup-set_some key j value (some a) d = lookup-insert key j (value a) d

  lookup-skip :
      {A : Type 0} (key j : String) (value : A → Value X) (o : Option A) (d : Dict String (Value X))
      → (key == j) ≡ false
      → lookup j (set_some key value o d) ≡ lookup j d
  lookup-skip key j value none d differs = refl
  lookup-skip key j value (some a) d differs = lookup-insert key j (value a) d ∙ rw differs

  -- A field that is set before the namespace.
  early :
      (j : String) (d : Data X)
      → ("errors" == j) ≡ false
      → ("metadata_labels" == j) ≡ false
      → ("generation" == j) ≡ false
      → ("namespace" == j) ≡ false
      → lookup j (from_data d).0 ≡ lookup j (named d)
  unfolding from_data
  early j d e₁ e₂ e₃ e₄ =
      lookup-set_errors j d.errors (insert "metadata_labels" (labels d.metadata_labels) (placed d))
        e₁
      ∙ (lookup-insert "metadata_labels" j (labels d.metadata_labels) (placed d) ∙ rw e₂)
      ∙ lookup-skip "generation" j number d.generation
          (set_some "namespace" text d.namespace (named d)) e₃
      ∙ lookup-skip "namespace" j text d.namespace (named d) e₄

  named-namespace : (d : Data X) → lookup "namespace" (named d) ≡ lookup "namespace" d.spec
  named-namespace d =
      lookup-insert "name" "namespace" _ _
      ∙ lookup-insert "kind" "namespace" _ _
      ∙ lookup-insert "apiVersion" "namespace" _ _

  set_some-namespace :
      (o : Option String) (d : Data X)
      → lookup "namespace" (set_some "namespace" text o (named d))
        ≡ elim o [ none ↦ lookup "namespace" d.spec | some n ↦ some (text n) ]
  set_some-namespace none d = named-namespace d
  set_some-namespace (some n) d = lookup-insert "namespace" "namespace" (text n) (named d)

  -- No spec overrides the kind, the name or the labels of the resource, nor its namespace where one is
  -- given; without a given namespace that of the spec stands.
  pub from_data-fields :
      (d : Data X)
      → (lookup "kind" (from_data d).0 ≡ some (text d.kind))
        × (lookup "name" (from_data d).0 ≡ some (text d.name))
        × (lookup "metadata_labels" (from_data d).0 ≡ some (labels d.metadata_labels))
        × (lookup "namespace" (from_data d).0
            ≡ elim d.namespace [ none ↦ lookup "namespace" d.spec | some n ↦ some (text n) ])
  unfolding from_data
  from_data-fields d = (
    early "kind" d refl refl refl refl
        ∙ (lookup-insert "name" "kind" _ _ ∙ lookup-insert "kind" "kind" _ _),
    early "name" d refl refl refl refl ∙ lookup-insert "name" "name" _ _,
    lookup-set_errors "metadata_labels" d.errors _ refl
        ∙ lookup-insert "metadata_labels" "metadata_labels" _ _,
    lookup-set_errors "namespace" d.errors _ refl
        ∙ lookup-insert "metadata_labels" "namespace" _ _
        ∙ lookup-skip "generation" "namespace" number d.generation _ refl
        ∙ set_some-namespace d.namespace d,
  )
