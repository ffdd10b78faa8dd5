-- ===== src/Resolution/Parties.antt =====
-- `resolve_supplier`, `resolve_customer` and `resolve_product_lines`, and the data of a party.
use factpulse_billing_app_pu.Base.{
  ℕ, Bool, true, false, not, ◌&&◌, ◌||◌, Option, none, some, List, [], ◌∷◌, if◌then◌else◌, or_else,
}
use factpulse_billing_app_pu.Base.Text.{Text, codes, ◌=ᵗ◌, truthy}
use factpulse_billing_app_pu.Base.Json.{
  Json, null, string, dict, Fields, field_end, field, is_truthy, lookup,
}
use factpulse_billing_app_pu.Resolution.Merge.{set_field, deep_merge}
use factpulse_billing_app_pu.Resolution.Entities.{
  Entity, both_given, override_of_inline, none_given, Resolved, resolved, refused, Warning, text_at,
  Reading, lookup_by_identifier, compare_data, create_entity, resolve_inline_entity,
}

-- `if value: data[key] = value`, with what follows
abbrev pub text_field : Text → Text → Fields → Fields
text_field key value rest = if truthy value then field key (string value) rest else rest

abbrev pub dict_field : Text → Fields → Fields → Fields
dict_field key field_end rest = rest
dict_field key (field k v fields) rest = field key (dict (field k v fields)) rest

abbrev pub afnor_scheme_id : Text
afnor_scheme_id = codes "0225"

abbrev pub address_of : Json → Json → Fields
address_of identifier scheme_id =
    field (codes "identifier") identifier (field (codes "schemeId") scheme_id field_end)

-- `electronicAddress`: the stored one, or the SIREN, or the VAT number
unfoldable pub electronic_address_of : Entity → Fields
unfolding lookup
electronic_address_of e =
    if is_truthy (or_else (lookup (codes "identifier") e.electronic_address) null)
    then address_of (or_else (lookup (codes "identifier") e.electronic_address) null)
        (or_else (lookup (codes "schemeId") e.electronic_address) (string afnor_scheme_id))
    else if truthy e.siren
    then address_of (string e.siren) (string afnor_scheme_id)
    else if truthy e.vat_number
    then address_of (string e.vat_number) (string (codes "0088"))
    else field_end

-- `_entity_to_en16931`, with the extra fields as `extra`
unfoldable pub entity_to_en16931 : Entity → Fields → Fields
unfolding electronic_address_of
entity_to_en16931 e extra = field (codes "name") (string e.name) (
    text_field (codes "siren") e.siren (
      text_field (codes "siret") e.siret (
        text_field (codes "vatNumber") e.vat_number (
          text_field (codes "email") e.email (
            dict_field (codes "postalAddress") e.address (
              dict_field (codes "contact") e.contact
                (dict_field (codes "electronicAddress") (electronic_address_of e) extra)))))))

-- `_supplier_to_en16931`: a franchise without a VAT number is identified by its SIREN
unfoldable pub supplier_to_en16931 : Entity → Fields
unfolding entity_to_en16931
supplier_to_en16931 e =
    let registration =
      if e.is_franchise && not (truthy e.vat_number) && truthy e.siren
      then field (codes "taxRegistrationId") (string e.siren) field_end
      else field_end in
    entity_to_en16931 e (
      text_field (codes "iban") e.iban (
        text_field (codes "bic") e.bic
          (text_field (codes "legalDescription") e.legal_description registration)))

-- `_customer_to_en16931`
unfoldable pub customer_to_en16931 : Entity → Fields
unfolding entity_to_en16931
customer_to_en16931 e = entity_to_en16931 e field_end

-- the part of a payload about one party; an empty dict is falsy
pub record PartyPayload : Type 0 where
  pub identifier : Text
  pub inline_data : Fields
  pub override : Fields

abbrev pub is_filled : Fields → Bool
is_filled field_end = false
is_filled (field _ _ _) = true

-- the data of a looked-up party, with the override merged into it
abbrev pub overridden : Fields → Fields → Fields
overridden base override = if is_filled override then deep_merge base override else base

-- the entity, its data and the warnings
abbrev pub referenced :
    (Entity → Fields) → Fields → Resolved Entity → Resolved (Entity × Fields × List Warning)
referenced to_en16931 override (refused e) = refused e
referenced to_en16931 override (resolved entity) =
    resolved (entity, overridden (to_en16931 entity) override, [])

abbrev pub inlined :
    Fields
    → Resolved (Entity × Bool × List Warning) × List Entity
    → Resolved (Entity × Fields × List Warning) × List Entity
inlined inline_data (refused e, entities) = (refused e, entities)
inlined inline_data (resolved (entity, created, warnings), entities) =
    (resolved (entity, inline_data, warnings), entities)

module _ (reading : Reading) (organization pk : ℕ) (uuid : Text) where
  -- what both resolutions share: the exclusivity, the reference and the inline data
  unfoldable pub resolve_party :
      Bool
      → Text
      → (Entity → Fields)
      → Bool
      → PartyPayload
      → List Entity
      → Resolved (Entity × Fields × List Warning) × List Entity
  unfolding resolve_inline_entity lookup_by_identifier create_entity deep_merge
  resolve_party with_default label to_en16931 by_external_id payload entities =
      if truthy payload.identifier && is_filled payload.inline_data
      then (refused both_given, entities)
      else if is_filled payload.inline_data && is_filled payload.override
      then (refused override_of_inline, entities)
      else if truthy payload.identifier
      then (
        referenced to_en16931 payload.override
            (lookup_by_identifier reading with_default payload.identifier entities),
        entities,
      )
      else if is_filled payload.inline_data
      then inlined payload.inline_data (
          resolve_inline_entity reading
            (λ e. compare_data reading (to_en16931 e) payload.inline_data label) payload.inline_data
            (create_entity pk uuid organization payload.inline_data) entities by_external_id)
      else (refused none_given, entities)

  unfoldable pub resolve_supplier :
      PartyPayload → List Entity → Resolved (Entity × Fields × List Warning) × List Entity
  unfolding resolve_party supplier_to_en16931
  resolve_supplier = resolve_party true (codes "supplier") supplier_to_en16931 false

  -- A payload may name no customer; `none` is that case.
  unfoldable pub resolve_customer :
      PartyPayload → List Entity → Option (Resolved (Entity × Fields × List Warning) × List Entity)
  unfolding resolve_party customer_to_en16931
  resolve_customer payload entities =
      if truthy payload.identifier || is_filled payload.inline_data
      then some (resolve_party false (codes "recipient") customer_to_en16931 true payload entities)
      else none

-- A product; prices and rates are the texts that `str` shows.
pub record Product : Type 0 where
  pub uuid : Text
  pub external_id : Option Text
  pub name : Text
  pub default_unit_price : Option Text
  pub default_vat_rate : Option Text
  pub default_vat_category : Text
  pub default_unit : Text
  pub reference : Text
  pub description : Text

abbrev pub option_field : Text → Option Text → Fields → Fields
option_field key none rest = rest
option_field key (some value) rest = field key (string value) rest

-- the defaults that a product gives a line
unfoldable pub product_defaults : Product → Fields
product_defaults p = text_field (codes "itemName") p.name (
    option_field (codes "unitNetPrice") p.default_unit_price (
      option_field (codes "manualVatRate") p.default_vat_rate (
        text_field (codes "vatCategory") p.default_vat_category (
          text_field (codes "quantityUnit") p.default_unit (
            text_field (codes "itemReference") p.reference
              (text_field (codes "itemDescription") p.description field_end))))))

-- `{**defaults, **line}`
unfoldable pub spread : Fields → Fields → Fields
unfolding set_field
spread defaults field_end = defaults
spread defaults (field key value rest) = spread (set_field key value defaults) rest

-- `line.pop("product_id", None)`
unfoldable pub remove_key : Text → Fields → Fields
unfolding ◌=ᵗ◌
remove_key key field_end = field_end
remove_key key (field k v rest) =
    let later = remove_key key rest in if k =ᵗ key then later else field k v later

-- one line; `find` is `_lookup_product`
unfoldable pub resolve_line : (Text → Resolved Product) → Fields → Resolved Fields
unfolding lookup remove_key spread product_defaults
resolve_line find line =
    let product_id = text_at (codes "product_id") line in
    let rest = remove_key (codes "product_id") line in
    if truthy product_id
    then elim (find product_id) [
      | refused e ↦ refused e
      | resolved p ↦ resolved (spread (product_defaults p) rest)
    ]
    else resolved rest

-- the loop over `invoiceLines`; an error ends it
unfoldable pub resolve_product_lines :
    (Text → Resolved Product) → List Fields → Resolved (List Fields)
unfolding resolve_line
resolve_product_lines find [] = resolved []
resolve_product_lines find (line ∷ lines) =
    let rest = resolve_product_lines find lines in
    elim (resolve_line find line) [
      | refused e ↦ refused e
      | resolved first_line ↦ elim rest [
        | refused e ↦ refused e
        | resolved others ↦ resolved (first_line ∷ others)
      ]
    ]
