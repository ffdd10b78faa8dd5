-- ===== src/Resolution/Entities.antt =====
-- The lookup, the matching and the creation of an entity, a supplier or a customer. The identifiers
-- of a payload are texts.
pub mod Refound
pub mod Again
use factpulse_billing_app_pu.Base.{
  ℕ, Bool, true, false, not, ◌&&◌, ◌||◌, Option, none, some, List, [], ◌∷◌, ◌++◌, leb, ◌==◌,
  if◌then◌else◌, is_some, any,
}
use factpulse_billing_app_pu.Base.Text.{Text, codes, ◌=ᵗ◌, truthy}
use factpulse_billing_app_pu.Base.Json.{Json, null, string, dict, Fields, field_end, field, lookup}
use factpulse_billing_app_pu.Core.Rows.{Answer, returned, raised, filter, get}

-- A row of the suppliers or of the customers; a customer leaves the last five at their defaults.
pub record Entity : Type 0 where
  pub pk : ℕ
  pub uuid : Text
  pub organization : ℕ
  pub external_id : Option Text
  pub name : Text
  pub siren : Text
  pub siret : Text
  pub vat_number : Text
  pub email : Text
  pub address : Fields
  pub contact : Fields
  pub electronic_address : Fields
  pub is_default : Bool
  pub iban : Text
  pub bic : Text
  pub legal_description : Text
  pub is_franchise : Bool

-- the `ValueError`s by their reason, and the exceptions of the database
pub data ResolutionError : Type 0 where
  no_default unknown_uuid unknown_external_id invalid_identifier no_match_key : ResolutionError
  both_given override_of_inline none_given several_rows integrity_error : ResolutionError

pub data Resolved (A : Type 0) : Type 0 where
  resolved : A → Resolved A
  refused : ResolutionError → Resolved A

-- a warning of `_compare_data`: the code's prefix and the key
pub record Warning : Type 0 where
  pub prefix : Text
  pub key : Text

-- a text of the payload, empty where the key is missing
abbrev pub text_or : Option Json → Text
text_or (some (string s)) = s
text_or _ = []

abbrev pub text_at : Text → Fields → Text
text_at key fields = text_or (lookup key fields)

abbrev pub optional_text : Option Json → Option Text
optional_text (some (string s)) = some s
optional_text _ = none

abbrev pub fields_or : Option Json → Fields
fields_or (some (dict fields)) = fields
fields_or _ = field_end

abbrev pub external_id_of : Fields → Option Text
external_id_of fields = optional_text (lookup (codes "external_id") fields)

abbrev pub has_external_id : Text → Entity → Bool
has_external_id value e = elim e.external_id [ none ↦ false | some x ↦ x =ᵗ value ]

abbrev pub has_siren : Text → Entity → Bool
has_siren siren e = e.siren =ᵗ siren

-- the character class `[a-zA-Z_]`
abbrev pub is_start : ℕ → Bool
is_start c = (leb b'a' c && leb c b'z') || (leb b'A' c && leb c b'Z') || (c == 95)

abbrev pub starts_well : Text → Bool
starts_well [] = false
starts_well (c ∷ s) = is_start c

-- the rows that answer a lookup, or the error for none
abbrev pub required : ResolutionError → Answer (Option Entity) → Resolved Entity
required e (raised x) = refused several_rows
required e (returned none) = refused e
required e (returned (some entity)) = resolved entity

-- The UUID parser and Python's `str` are not part of the program.
pub record Reading : Type 0 where
  pub parse_uuid : Text → Option Text
  pub str : Json → Text

module _ (reading : Reading) where
  -- `_is_uuid`
  abbrev pub is_uuid : Text → Bool
  is_uuid value = is_some (reading.parse_uuid value)

  -- `_validate_external_id`
  abbrev pub validate_external_id : Text → Bool
  validate_external_id value = not (is_uuid value) && starts_well value

  abbrev pub has_uuid : Text → Entity → Bool
  has_uuid value e = elim (reading.parse_uuid value) [ none ↦ false | some u ↦ e.uuid =ᵗ u ]

  -- `_lookup_by_identifier` in the rows of one model and organization; only suppliers have a default
  unfoldable pub lookup_by_identifier : Bool → Text → List Entity → Resolved Entity
  unfolding filter ◌=ᵗ◌
  lookup_by_identifier with_default identifier entities =
      if (identifier =ᵗ codes "default") && with_default
      then required no_default (get (λ (e : Entity). e.is_default) entities)
      else if is_uuid identifier
      then required unknown_uuid (get (has_uuid identifier) entities)
      else if validate_external_id identifier
      then required unknown_external_id (get (has_external_id identifier) entities)
      else refused invalid_identifier

  -- `_compare_data`
  abbrev pub differs : Option Json → Json → Bool
  differs none payload_value = false
  differs (some null) payload_value = false
  differs (some record_value) null = false
  differs (some record_value) payload_value =
      not (reading.str record_value =ᵗ reading.str payload_value)

  abbrev pub is_skipped : Text → Bool
  is_skipped key = (key =ᵗ codes "uuid") || (key =ᵗ codes "external_id") || (key =ᵗ codes "id")

  unfoldable pub compare_data : Fields → Fields → Text → List Warning
  unfolding lookup ◌=ᵗ◌
  compare_data record_data field_end prefix = []
  compare_data record_data (field key value rest) prefix =
      let later = compare_data record_data rest prefix in
      if not (is_skipped key) && differs (lookup key record_data) value
      then record { prefix = prefix; key = key } ∷ later
      else later

-- `_create_supplier` and `_create_customer`
unfoldable pub create_entity : ℕ → Text → ℕ → Fields → Entity
unfolding lookup
create_entity pk uuid organization inline_data = record {
  pk = pk;
  uuid = uuid;
  organization = organization;
  external_id = external_id_of inline_data;
  name = text_at (codes "name") inline_data;
  siren = text_at (codes "siren") inline_data;
  siret = text_at (codes "siret") inline_data;
  vat_number = text_at (codes "vatNumber") inline_data;
  email = text_at (codes "email") inline_data;
  address = fields_or (lookup (codes "postalAddress") inline_data);
  contact = fields_or (lookup (codes "contact") inline_data);
  electronic_address = fields_or (lookup (codes "electronicAddress") inline_data);
  is_default = false;
  iban = [];
  bic = [];
  legal_description = [];
  is_franchise = false;
}

-- `objects.create(...)`: the constraint on the external identifiers of an organization
abbrev pub clashes : Entity → Entity → Bool
clashes new_row e = elim new_row.external_id [ none ↦ false | some x ↦ has_external_id x e ]

abbrev pub insert : Entity → List Entity → Resolved (Entity × Bool × List Warning) × List Entity
insert new_row entities =
    if any (clashes new_row) entities
    then (refused integrity_error, entities)
    else (resolved (new_row, true, []), entities ++ new_row ∷ [])

-- a row that was matched, with the warnings of the comparison
abbrev pub matched_row :
    (Entity → List Warning)
    → Answer (Option Entity)
    → List Entity
    → Resolved (Entity × Bool × List Warning) × List Entity
    → Resolved (Entity × Bool × List Warning) × List Entity
matched_row warnings (raised x) entities otherwise = (refused several_rows, entities)
matched_row warnings (returned (some e)) entities otherwise =
    (resolved (e, false, warnings e), entities)
matched_row warnings (returned none) entities otherwise = otherwise

-- `_resolve_inline_entity` in the rows of one model and organization, in its three steps. `warnings`
-- is the comparison with the payload, `new_row` the row that `create_fn` makes.
module _ (reading : Reading) (warnings : Entity → List Warning) (inline_data : Fields)
    (new_row : Entity) (entities : List Entity) where
  -- the other match field, the SIREN
  unfoldable pub match_siren : Resolved (Entity × Bool × List Warning) × List Entity
  unfolding filter lookup ◌=ᵗ◌
  match_siren =
      let siren = text_at (codes "siren") inline_data in
      if truthy siren
      then matched_row warnings (get (has_siren siren) entities) entities (insert new_row entities)
      else (refused no_match_key, entities)

  -- the external identifier; where it is a match field, a row is created for one that is not found
  unfoldable pub match_external_id : Bool → Resolved (Entity × Bool × List Warning) × List Entity
  unfolding match_siren filter lookup
  match_external_id by_external_id =
      let external_id = text_at (codes "external_id") inline_data in
      if truthy external_id
      then matched_row warnings (get (has_external_id external_id) entities) entities
          (if by_external_id then insert new_row entities else match_siren)
      else match_siren

  -- the UUID
  unfoldable pub resolve_inline_entity :
      Bool → Resolved (Entity × Bool × List Warning) × List Entity
  unfolding match_external_id filter lookup
  resolve_inline_entity by_external_id =
      let uuid = text_at (codes "uuid") inline_data in
      if truthy uuid && is_uuid reading uuid
      then matched_row warnings (get (has_uuid reading uuid) entities) entities
          (match_external_id by_external_id)
      else match_external_id by_external_id
