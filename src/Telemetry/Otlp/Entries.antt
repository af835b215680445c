-- ===== src/Telemetry/Otlp/Entries.antt =====
-- internal/telemetry/otlp.go: what `valueToString` and `attrsToMap` yield, described on their own.
use otel_policy_lab.Prelude.{
  ◌≡◌, ap, ◌∙◌, List, [], ◌∷◌, Text, text_Eq, insert, keys, IsMap, IsMap-insert, lookup,
  lookup-insert, refl, Option, none, some, inl, inr, Bool-cases, ◌==◌, if◌then◌else◌,
}
use otel_policy_lab.Telemetry.{Attributes}
use otel_policy_lab.Telemetry.Otlp.Accessors.{Pdata}
use otel_policy_lab.Telemetry.Otlp.Normal.{value_to_string, put_attrs, attrs_to_map}

-- The first of two optional texts that is there.
abbrev pub if_none : Option Text → Option Text → Option Text
if_none (some t) other = some t
if_none none other = other

if_none-none : (o : Option Text) → if_none o none ≡ o
if_none-none (some t) = refl
if_none-none none = refl

if_none_assoc : (a b c : Option Text) → if_none a (if_none b c) ≡ if_none (if_none a b) c
if_none_assoc (some t) b c = refl
if_none_assoc none b c = refl

text_order :
    (as_string json : Option Text) (printed : Text)
    → elim json [
      | none ↦ printed
      | some data_text ↦ elim as_string [ some str ↦ str | none ↦ data_text ]
    ]
      ≡ elim as_string [
        | some str ↦ elim json [ some data_text ↦ str | none ↦ printed ]
        | none ↦ elim json [ some data_text ↦ data_text | none ↦ printed ]
      ]
text_order none none printed = refl
text_order none (some json) printed = refl
text_order (some str) none printed = refl
text_order (some str) (some json) printed = refl

module _ (pdata : Pdata) where
  put_attrs-IsMap :
      (out : Attributes) (l : List (Text × pdata.Value)) → IsMap out → IsMap (put_attrs pdata out l)
  unfolding put_attrs
  put_attrs-IsMap out [] u = u
  put_attrs-IsMap out ((k, v) ∷ rest) u =
      put_attrs-IsMap (insert out k (value_to_string pdata v)) rest
        (IsMap-insert out k (value_to_string pdata v) u)

  pub attrs_to_map-IsMap : (attrs : pdata.Attrs) → IsMap (attrs_to_map pdata attrs)
  unfolding attrs_to_map keys
  attrs_to_map-IsMap attrs = put_attrs-IsMap [] (pdata.range attrs) tt

  -- A value as text: a string as it stands, any other value as JSON, and what has no JSON as it
  -- prints.
  abbrev pub plain_text : pdata.Value → Text
  plain_text v = elim (pdata.as_string v) [
    | some str ↦ elim (pdata.marshal v) [ some json ↦ str | none ↦ pdata.sprint v ]
    | none ↦ elim (pdata.marshal v) [ some json ↦ json | none ↦ pdata.sprint v ]
  ]

  pub value_to_string-eq : (v : pdata.Value) → value_to_string pdata v ≡ plain_text v
  unfolding value_to_string
  value_to_string-eq v = text_order (pdata.as_string v) (pdata.marshal v) (pdata.sprint v)

  -- The text of the last entry with a key.
  abbrev pub last_text : List (Text × pdata.Value) → Text → Option Text
  last_text [] key = none
  last_text ((k, v) ∷ entries) key =
      if_none (last_text entries key) (if k == key then some (plain_text v) else none)

  lookup-put_attrs :
      (out : Attributes) (l : List (Text × pdata.Value)) (key : Text)
      → lookup (put_attrs pdata out l) key ≡ if_none (last_text l key) (lookup out key)
  unfolding put_attrs
  lookup-put_attrs out [] key = refl
  lookup-put_attrs out ((k, v) ∷ rest) key =
      lookup-put_attrs (insert out k (value_to_string pdata v)) rest key
      ∙ ap (if_none (last_text rest key)) (lookup-insert out k key (value_to_string pdata v))
      ∙ (elim (Bool-cases (k == key)) [
        | inl e ↦ rw e (
            ap (λ t. if_none (last_text rest key) (some t)) (value_to_string-eq v)
            ∙ if_none_assoc (last_text rest key) (some (plain_text v)) (lookup out key))
        | inr e ↦ rw e (if_none_assoc (last_text rest key) none (lookup out key))
      ])

  -- A map holds each key of the attributes once, with the text of its last entry.
  pub record IsAttributes (attrs : pdata.Attrs) (m : Attributes) : Type 0 where
    pub distinct : IsMap m
    pub values : (key : Text) → lookup m key ≡ last_text (pdata.range attrs) key

  pub attrs_to_map-IsAttributes :
      (attrs : pdata.Attrs) → IsAttributes attrs (attrs_to_map pdata attrs)
  unfolding attrs_to_map lookup
  attrs_to_map-IsAttributes attrs = record {
    distinct = attrs_to_map-IsMap attrs;
    values = λ key. lookup-put_attrs [] (pdata.range attrs) key ∙ if_none-none _;
  }
