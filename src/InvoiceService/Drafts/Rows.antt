-- ===== src/InvoiceService/Drafts/Rows.antt =====
-- The rows of the database and the parties of a snapshot as the JSON values of the resolution.
use factpulse_billing_app_pu.Base.{true, false, Option, none, some, []}
use factpulse_billing_app_pu.Base.Text.{Text, codes, str_nat}
use factpulse_billing_app_pu.Base.Json.{Json, string, dict, Fields, field_end, field, lookup}
use factpulse_billing_app_pu.Model.{
  VatRegime, Address, ElectronicAddress, AddressField, address_dict, address_text, Party, Supplier,
  Customer,
}
use factpulse_billing_app_pu.Resolution.Entities.{Entity, optional_text, fields_or}
use factpulse_billing_app_pu.Resolution.Parties.{option_field, dict_field}

-- a text of a dict, and a dict of a dict
abbrev text_of : Text → Fields → Option Text
text_of key fields = optional_text (lookup key fields)

abbrev has_fields : {A : Type 0} → Fields → (Fields → A) → Option A
has_fields field_end read = none
has_fields (field k v rest) read = some (read (field k v rest))

unfoldable pub read_address : Fields → Address
unfolding lookup
read_address f = record {
  line_one = text_of (codes "lineOne") f;
  postal_code = text_of (codes "postalCode") f;
  city = text_of (codes "city") f;
  country_code = text_of (codes "countryCode") f;
}

unfoldable pub read_electronic : Fields → ElectronicAddress
unfolding lookup
read_electronic f = record {
  identifier = text_of (codes "identifier") f;
  scheme_id = text_of (codes "schemeId") f;
  value = text_of (codes "value") f;
}

abbrev electronic_field : Option Json → Option AddressField
electronic_field (some (dict f)) = some (address_dict (read_electronic f))
electronic_field (some (string s)) = some (address_text s)
electronic_field _ = none

-- the party of a snapshot that a dict describes
unfoldable pub read_party : Fields → Party
unfolding lookup read_address read_electronic
read_party f = record {
  name = text_of (codes "name") f;
  siren = text_of (codes "siren") f;
  siret = text_of (codes "siret") f;
  vat_number = text_of (codes "vatNumber") f;
  email = text_of (codes "email") f;
  postal_address = has_fields (fields_or (lookup (codes "postalAddress") f)) read_address;
  electronic_address = electronic_field (lookup (codes "electronicAddress") f);
  iban = text_of (codes "iban") f;
  bic = text_of (codes "bic") f;
  legal_description = text_of (codes "legalDescription") f;
  tax_registration_id = text_of (codes "taxRegistrationId") f;
}

abbrev address_fields : Option Address → Fields
address_fields none = field_end
address_fields (some a) = option_field (codes "lineOne") a.line_one (
    option_field (codes "postalCode") a.postal_code (
      option_field (codes "city") a.city
        (option_field (codes "countryCode") a.country_code field_end)))

abbrev electronic_fields : Option ElectronicAddress → Fields
electronic_fields none = field_end
electronic_fields (some a) =
    option_field (codes "identifier") a.identifier
      (option_field (codes "schemeId") a.scheme_id (option_field (codes "value") a.value field_end))

abbrev with_electronic : Option AddressField → Fields → Fields
with_electronic none rest = rest
with_electronic (some (address_text s)) rest = field (codes "electronicAddress") (string s) rest
with_electronic (some (address_dict a)) rest =
    field (codes "electronicAddress") (dict (electronic_fields (some a))) rest

-- the dict of a party
unfoldable pub party_fields : Option Party → Fields
party_fields none = field_end
party_fields (some p) = option_field (codes "name") p.name (
    option_field (codes "siren") p.siren (
      option_field (codes "siret") p.siret (
        option_field (codes "vatNumber") p.vat_number (
          option_field (codes "email") p.email (
            dict_field (codes "postalAddress") (address_fields p.postal_address) (
              with_electronic p.electronic_address (
                option_field (codes "iban") p.iban (
                  option_field (codes "bic") p.bic (
                    option_field (codes "legalDescription") p.legal_description (
                      option_field (codes "taxRegistrationId") p.tax_registration_id
                        field_end))))))))))

-- A UUID is the text of the primary key.
unfoldable pub entity_of_supplier : Supplier → Entity
unfolding str_nat
entity_of_supplier s = record {
  pk = s.pk;
  uuid = str_nat s.pk;
  organization = s.organization;
  external_id = s.external_id;
  name = s.name;
  siren = s.siren;
  siret = s.siret;
  vat_number = s.vat_number;
  email = s.email;
  address = address_fields s.address;
  contact = field_end;
  electronic_address = electronic_fields s.electronic_address;
  is_default = s.is_default;
  iban = s.iban;
  bic = s.bic;
  legal_description = s.legal_description;
  is_franchise = elim s.vat_regime [ VatRegime.franchise ↦ true | _ ↦ false ];
}

unfoldable pub entity_of_customer : Customer → Entity
unfolding str_nat
entity_of_customer c = record {
  pk = c.pk;
  uuid = str_nat c.pk;
  organization = c.organization;
  external_id = c.external_id;
  name = c.name;
  siren = c.siren;
  siret = c.siret;
  vat_number = c.vat_number;
  email = c.email;
  address = address_fields c.address;
  contact = field_end;
  electronic_address = electronic_fields c.electronic_address;
  is_default = false;
  iban = [];
  bic = [];
  legal_description = [];
  is_franchise = false;
}

-- `Supplier.objects.create(...)`, with the defaults of the model
unfoldable pub supplier_row : Entity → Supplier
unfolding read_address read_electronic
supplier_row e = record {
  pk = e.pk;
  organization = e.organization;
  name = e.name;
  siren = e.siren;
  siret = e.siret;
  vat_number = e.vat_number;
  iban = [];
  bic = [];
  email = e.email;
  legal_description = [];
  address = has_fields e.address read_address;
  electronic_address = has_fields e.electronic_address read_electronic;
  external_id = e.external_id;
  is_default = false;
  note_pmt = codes "Indemnité forfaitaire pour frais de recouvrement : 40 €";
  note_pmd = codes "Pénalités de retard : 3 fois le taux d'intérêt légal";
  note_aab = codes "Pas d'escompte";
  vat_regime = VatRegime.reel_normal_mensuel;
  default_vat_exemption_reason = [];
  default_vat_exemption_code = [];
  payment_terms_days = none;
  payment_terms_end_of_month = false;
}

unfoldable pub customer_row : Entity → Customer
unfolding read_address read_electronic
customer_row e = record {
  pk = e.pk;
  organization = e.organization;
  external_id = e.external_id;
  name = e.name;
  siren = e.siren;
  siret = e.siret;
  vat_number = e.vat_number;
  customer_type = none;
  email = e.email;
  address = has_fields e.address read_address;
  electronic_address = has_fields e.electronic_address read_electronic;
}
