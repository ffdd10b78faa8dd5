-- ===== src/SireneClient.antt =====
-- apps/billing/services/sirene_client.py: the search of a company in the public register. White space
-- and digits are those of ASCII; the API's answer is a parameter.
pub mod Keys
mod Tests
use factpulse_billing_app_pu.Base.{
  ℕ, zero, suc, ◌+◌, ◌-◌, ◌*◌, ◌%◌, Bool, true, false, not, ◌&&◌, ◌||◌, Option, none, some, List,
  [], ◌∷◌, ◌++◌, leb, ◌==◌, if◌then◌else◌, or_else, length,
}
use factpulse_billing_app_pu.Base.Int.{ℤ, pos, negsuc}
use factpulse_billing_app_pu.Base.Text.{strip, Text, codes, ◌=ᵗ◌, truthy, str_nat, zfill}
use factpulse_billing_app_pu.Base.Json.{Json, string, Fields, lookup}

-- The errors by their reason: `not_found` is `SireneNotFoundError`, and `not_a_number` the
-- `ValueError` of `int`.
pub data SireneError : Type 0 where
  malformed unreachable empty_query not_found not_a_number : SireneError

pub data Found (A : Type 0) : Type 0 where
  found : A → Found A
  failed : SireneError → Found A

-- `re.sub(r"\s+", "", query)`
unfoldable pub without_spaces : Text → Text
without_spaces [] = []
without_spaces (c ∷ s) =
    let rest = without_spaces s in if (c == 32) || (leb 9 c && leb c 13) then rest else c ∷ rest

abbrev pub is_digit : ℕ → Bool
is_digit c = leb b'0' c && leb c b'9'

unfoldable pub all_digits : Text → Bool
all_digits [] = true
all_digits (c ∷ s) = is_digit c && all_digits s

-- `re.fullmatch(r"\d{9}|\d{14}", cleaned)`
unfoldable pub is_number : Text → Bool
unfolding all_digits
is_number cleaned = all_digits cleaned && ((length cleaned == 9) || (length cleaned == 14))

-- `_is_siren_or_siret`
unfoldable pub is_siren_or_siret : Text → Bool
unfolding without_spaces is_number
is_siren_or_siret query = is_number (without_spaces query)

-- `_normalize_siren_siret`
unfoldable pub normalize_siren_siret : Text → Found Text
unfolding without_spaces is_number
normalize_siren_siret query =
    if is_number (without_spaces query) then found (without_spaces query) else failed malformed

-- the digits that `int` reads, with single underscores between them
unfoldable pub read_digits : Text → Bool → ℕ → Option ℕ
read_digits [] after_digit n = if after_digit then some n else none
read_digits (c ∷ s) after_digit n =
    let rest = read_digits s (is_digit c) (if is_digit c then n * 10 + (c - b'0') else n) in
    if is_digit c || (after_digit && (c == b'_')) then rest else none

abbrev plus : Option ℕ → Option ℤ
plus none = none
plus (some n) = some (pos n)

abbrev minus : Option ℕ → Option ℤ
minus none = none
minus (some zero) = some (pos 0)
minus (some (suc n)) = some (negsuc n)

-- a sign before the digits
abbrev read_signed : Text → Option ℤ
read_signed [] = none
read_signed (c ∷ s) =
    if c == b'-'
    then minus (read_digits s false 0)
    else if c == b'+'
    then plus (read_digits s false 0)
    else plus (read_digits (c ∷ s) false 0)

-- `int(text)`; `none` stands for its `ValueError`
unfoldable pub int_of : Text → Option ℤ
unfolding strip read_digits
int_of text = read_signed (strip text)

-- `n % 97`, which is not negative
abbrev pub mod_97 : ℤ → ℕ
mod_97 (pos n) = n % 97
mod_97 (negsuc n) = 96 - n % 97

-- the key of a French VAT number
abbrev pub vat_key : ℤ → ℕ
vat_key siren = (12 + 3 * mod_97 siren) % 97

-- `_compute_vat_number`
unfoldable pub compute_vat_number : Text → Found Text
unfolding str_nat zfill int_of
compute_vat_number siren = elim (int_of siren) [
  | none ↦ failed not_a_number
  | some n ↦ found (codes "FR" ++ zfill (str_nat (vat_key n)) 2 ++ siren)
]

-- `siege.get(key) or ""`
abbrev pub text_value : Option Json → Text
text_value (some (string s)) = s
text_value _ = []

abbrev pub text_field : Text → Fields → Text
text_field key fields = text_value (lookup key fields)

-- the parts that are not empty, and `" ".join(parts)`
unfoldable pub join_parts : List Text → Text
join_parts [] = []
join_parts (part ∷ rest) =
    let joined = join_parts rest in
    if not (truthy part)
    then joined
    else if truthy joined
    then part ++ codes " " ++ joined
    else part

-- `_build_address_line`
unfoldable pub build_address_line : Fields → Text
unfolding join_parts lookup
build_address_line siege = join_parts (
    text_field (codes "numero_voie") siege
    ∷ text_field (codes "indice_repetition_voie") siege
    ∷ text_field (codes "type_voie") siege
    ∷ text_field (codes "libelle_voie") siege
    ∷ [])

-- one company of the API's answer
pub record Company : Type 0 where
  pub full_name : Text
  pub siren : Text
  pub state : Text
  pub seat : Fields
  pub matching : List Fields

-- what `_format_result` returns
pub record CompanyData : Type 0 where
  pub name : Text
  pub siren : Text
  pub siret : Text
  pub vat_number : Text
  pub address_line1 : Text
  pub address_postcode : Text
  pub address_city : Text
  pub address_country : Text
  pub administrative_state : Text

-- the first establishment with the number that was asked for
unfoldable pub establishment : Text → List Fields → Option Fields
unfolding lookup ◌=ᵗ◌
establishment siret [] = none
establishment siret (e ∷ rest) =
    if text_field (codes "siret") e =ᵗ siret then some e else establishment siret rest

-- the establishment whose address is shown, and its number
unfoldable pub shown_establishment : Company → Text → Fields × Text
unfolding establishment lookup
shown_establishment company siret_query =
    if length siret_query == 14
    then (or_else (establishment siret_query company.matching) company.seat, siret_query)
    else (company.seat, text_field (codes "siret") company.seat)

-- `_compute_vat_number(siren) if siren else ""`
abbrev vat_number_of : Text → Found Text
vat_number_of siren = if truthy siren then compute_vat_number siren else found []

-- `_format_result`
unfoldable pub format_result : Company → Text → Found CompanyData
unfolding shown_establishment compute_vat_number build_address_line lookup
format_result company siret_query =
    let (siege, siret) = shown_establishment company siret_query in
    elim (vat_number_of company.siren) [
      | failed e ↦ failed e
      | found vat_number ↦ found (record {
        name = company.full_name;
        siren = company.siren;
        siret = siret;
        vat_number = vat_number;
        address_line1 = build_address_line siege;
        address_postcode = text_field (codes "code_postal") siege;
        address_city = text_field (codes "libelle_commune") siege;
        address_country = codes "FR";
        administrative_state = company.state;
      })
    ]

-- a result before the others, of which the first exception leaves the list
abbrev pub before : Found CompanyData → Found (List CompanyData) → Found (List CompanyData)
before (failed e) rest = failed e
before (found c) (failed e) = failed e
before (found c) (found cs) = found (c ∷ cs)

-- `[_format_result(r) for r in results[:limit]]`
unfoldable pub format_all : List Company → ℕ → Found (List CompanyData)
unfolding format_result
format_all companies zero = found []
format_all [] (suc limit) = found []
format_all (c ∷ companies) (suc limit) = before (format_result c []) (format_all companies limit)

-- `_search_api`: `none` stands for an exception of `requests`
module _ (search_api : Text → Option (List Company)) where
  -- the first of the results
  abbrev pub first_result : Text → Option (List Company) → Found CompanyData
  first_result cleaned none = failed unreachable
  first_result cleaned (some []) = failed not_found
  first_result cleaned (some (c ∷ rest)) = format_result c cleaned

  -- `lookup`
  unfoldable pub lookup_company : Text → Found CompanyData
  unfolding normalize_siren_siret format_result
  lookup_company query = elim (normalize_siren_siret query) [
    | failed e ↦ failed e
    | found cleaned ↦ first_result cleaned (search_api cleaned)
  ]

  -- a lookup as a list: a company that is not found gives an empty one
  abbrev pub as_list : Found CompanyData → Found (List CompanyData)
  as_list (found c) = found (c ∷ [])
  as_list (failed not_found) = found []
  as_list (failed malformed) = failed malformed
  as_list (failed unreachable) = failed unreachable
  as_list (failed empty_query) = failed empty_query
  as_list (failed not_a_number) = failed not_a_number

  -- the results of a name
  abbrev pub listed_results : Option (List Company) → ℕ → Found (List CompanyData)
  listed_results none limit = failed unreachable
  listed_results (some []) limit = failed not_found
  listed_results (some (c ∷ rest)) limit = format_all (c ∷ rest) limit

  -- `search`
  unfoldable pub search_companies : Text → ℕ → Found (List CompanyData)
  unfolding strip is_siren_or_siret lookup_company format_all
  search_companies query limit =
      let text = strip query in
      if not (truthy text)
      then failed empty_query
      else if is_siren_or_siret text
      then as_list (lookup_company text)
      else listed_results (search_api text) limit
