-- ===== src/Json.antt =====
-- `json_value` of backend/src/postmortem_backend/domain.py: what the dictionaries of events and of
-- incidents hold is made fit for JSON. `isoformat` of a time is a parameter.
use ckdb_aws.Base.{Bool, ap, refl, ℕ, ◌≡◌}
use ckdb_aws.Domain.{Datetime, Float, Text, Uuid, uuid_text}

-- What `asdict` puts into such a dictionary. A member of a `StrEnum` is a value of its own, by
-- the string that it stands for; `negsuc n` is the integer -(n + 1).
mutual
  pub data Dynamic : Type 0 where
    null : Dynamic
    bool : Bool → Dynamic
    pos negsuc : ℕ → Dynamic
    float : Float → Dynamic
    str enum_member : Text → Dynamic
    uuid : Uuid → Dynamic
    datetime : Datetime → Dynamic
    tuple list : Items → Dynamic
    dict : Fields → Dynamic

  pub data Items : Type 0 where
    nil : Items
    item : Dynamic → Items → Items

  pub data Fields : Type 0 where
    end : Fields
    field : Text → Dynamic → Fields → Fields

module _ (isoformat : Datetime → Text) where
  unfoldable mutual
    unfolding uuid_text

    pub json_value : Dynamic → Dynamic
    json_value (uuid u) = str (uuid_text u)
    json_value (datetime d) = str (isoformat d)
    json_value (enum_member t) = str t
    json_value (tuple xs) = list (json_items xs)
    json_value (list xs) = list (json_items xs)
    json_value (dict d) = dict (json_fields d)
    json_value null = null
    json_value (bool b) = bool b
    json_value (pos n) = pos n
    json_value (negsuc n) = negsuc n
    json_value (float x) = float x
    json_value (str t) = str t

    pub json_items : Items → Items
    json_items nil = nil
    json_items (item v xs) = item (json_value v) (json_items xs)

    pub json_fields : Fields → Fields
    json_fields end = end
    json_fields (field k v d) = field k (json_value v) (json_fields d)

-- No id, time, enum member or tuple anywhere in it.
mutual
  pub IsJson : Dynamic → Type 0
  IsJson (uuid u) = ⊥
  IsJson (datetime d) = ⊥
  IsJson (enum_member t) = ⊥
  IsJson (tuple xs) = ⊥
  IsJson (list xs) = AreJson xs
  IsJson (dict d) = FieldsAreJson d
  IsJson null = Unit
  IsJson (bool b) = Unit
  IsJson (pos n) = Unit
  IsJson (negsuc n) = Unit
  IsJson (float x) = Unit
  IsJson (str t) = Unit

  AreJson : Items → Type 0
  AreJson nil = Unit
  AreJson (item v xs) = IsJson v × AreJson xs

  FieldsAreJson : Fields → Type 0
  FieldsAreJson end = Unit
  FieldsAreJson (field k v d) = IsJson v × FieldsAreJson d

module _ (isoformat : Datetime → Text) where
  mutual
    unfolding json_value IsJson

    json_value-IsJson : (v : Dynamic) → IsJson (json_value isoformat v)
    json_value-IsJson null = tt
    json_value-IsJson (bool b) = tt
    json_value-IsJson (pos n) = tt
    json_value-IsJson (negsuc n) = tt
    json_value-IsJson (enum_member t) = tt
    json_value-IsJson (float x) = tt
    json_value-IsJson (str t) = tt
    json_value-IsJson (uuid u) = tt
    json_value-IsJson (datetime d) = tt
    json_value-IsJson (tuple xs) = json_items-AreJson xs
    json_value-IsJson (list xs) = json_items-AreJson xs
    json_value-IsJson (dict d) = json_fields-FieldsAreJson d

    json_items-AreJson : (xs : Items) → AreJson (json_items isoformat xs)
    json_items-AreJson nil = tt
    json_items-AreJson (item v xs) = (json_value-IsJson v, json_items-AreJson xs)

    json_fields-FieldsAreJson : (d : Fields) → FieldsAreJson (json_fields isoformat d)
    json_fields-FieldsAreJson end = tt
    json_fields-FieldsAreJson (field k v d) = (json_value-IsJson v, json_fields-FieldsAreJson d)

  mutual
    unfolding json_value IsJson

    same_value : (v : Dynamic) → IsJson v → json_value isoformat v ≡ v
    same_value null h = refl
    same_value (bool b) h = refl
    same_value (pos n) h = refl
    same_value (negsuc n) h = refl
    same_value (enum_member t) h = absurd h
    same_value (float x) h = refl
    same_value (str t) h = refl
    same_value (uuid u) h = absurd h
    same_value (datetime d) h = absurd h
    same_value (tuple xs) h = absurd h
    same_value (list xs) h = ap (λ ys. list ys) (same_items xs h)
    same_value (dict d) h = ap (λ e. dict e) (same_fields d h)

    same_items : (xs : Items) → AreJson xs → json_items isoformat xs ≡ xs
    same_items nil h = refl
    same_items (item v xs) h = cc (same_value v h.0, same_items xs h.1)

    same_fields : (d : Fields) → FieldsAreJson d → json_fields isoformat d ≡ d
    same_fields end h = refl
    same_fields (field k v d) h = cc (same_value v h.0, same_fields d h.1)

  -- What `json_value` gives has no id, time, enum member or tuple at any depth, and `json_value`
  -- gives it back as it is.
  pub json_value_plain :
      (v : Dynamic)
      → IsJson (json_value isoformat v)
        × (json_value isoformat (json_value isoformat v) ≡ json_value isoformat v)
  json_value_plain v =
      (json_value-IsJson v, same_value (json_value isoformat v) (json_value-IsJson v))
