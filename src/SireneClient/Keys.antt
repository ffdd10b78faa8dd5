-- ===== src/SireneClient/Keys.antt =====
-- The key of a VAT number, and the number of results.
use factpulse_billing_app_pu.Base.{
  ℕ, zero, suc, ◌+◌, ◌*◌, ◌/◌, ◌%◌, ◌≤◌, ◌≡◌, inl, inr, refl, ap, subst, ◌∙◌, Option, none, some,
  List, [], ◌∷◌, ◌++◌, arith, Bool-cases, length,
}
use factpulse_billing_app_pu.Base.Int.{ℤ, pos}
use factpulse_billing_app_pu.Base.Text.{zfill-two, strip, Text, codes, truthy, str_nat, zfill}
use factpulse_billing_app_pu.SireneClient.{
  malformed, unreachable, empty_query, not_found, not_a_number, int_of, before, format_result,
  Found, found, failed, is_siren_or_siret, vat_key, compute_vat_number, Company, CompanyData,
  format_all, lookup_company, as_list, listed_results, search_companies,
}

vat_key-remainder : (siren : ℕ) → vat_key (pos siren) ≡ (siren * 100 + 12) % 97
vat_key-remainder siren = omega arith

-- Where int reads the SIREN as a number that is not negative, the VAT number is FR, a key of two
-- decimal digits and the SIREN, and the key is the remainder modulo 97 of the SIREN with 12 written
-- behind it, as the key of a French VAT number is defined.
pub compute_vat_number_lem :
    (siren : Text) (n : ℕ)
    → int_of siren ≡ some (pos n)
    → (a b : ℕ) × (a ≤ 9)
      × (b ≤ 9)
      × (compute_vat_number siren ≡ found (codes "FR" ++ (b'0' + a) ∷ (b'0' + b) ∷ siren))
      × (10 * a + b ≡ (n * 100 + 12) % 97)
unfolding compute_vat_number
compute_vat_number_lem siren n h =
    let key = vat_key (pos n) in
    let of_int : Option ℤ → Found Text = λ o. elim o [
      | none ↦ failed not_a_number
      | some k ↦ found (codes "FR" ++ zfill (str_nat (vat_key k)) 2 ++ siren)
    ] in
    (
      key / 10,
      key % 10,
      omega arith,
      omega arith,
      ap of_int h ∙ ap (λ k. found (codes "FR" ++ k ++ siren)) (zfill-two key (omega arith)),
      omega (arith, vat_key-remainder n),
    )

before-length :
    (r : Found CompanyData) (rest : Found (List CompanyData)) (n : ℕ) {results : List CompanyData}
    → ((cs : List CompanyData) → rest ≡ found cs → length cs ≤ n)
    → before r rest ≡ found results
    → length results ≤ suc n
before-length (failed e) rest n l h = absurd (cc h)
before-length (found c) (failed e) n l h = absurd (cc h)
before-length (found c) (found cs) n l h =
    subst (λ rs. length rs ≤ suc n) {x = c ∷ cs} (cc h) (omega (arith, l cs refl))

length-format_all :
    (companies : List Company) (limit : ℕ) {results : List CompanyData}
    → format_all companies limit ≡ found results
    → length results ≤ limit
unfolding format_all
length-format_all companies zero h = subst (λ rs. length rs ≤ 0) {x = []} (cc h) (omega arith)
length-format_all [] (suc limit) h =
    subst (λ rs. length rs ≤ suc limit) {x = []} (cc h) (omega arith)
length-format_all (c ∷ companies) (suc limit) h =
    before-length (format_result c []) (format_all companies limit) limit
      (λ cs e. length-format_all companies limit e) h

module _ (search_api : Text → Option (List Company)) where
  as_list-length :
      (r : Found CompanyData) {results : List CompanyData}
      → as_list search_api r ≡ found results
      → length results ≤ 1
  as_list-length (found c) h = subst (λ rs. length rs ≤ 1) {x = c ∷ []} (cc h) (omega arith)
  as_list-length (failed not_found) h = ground (arith, h)
  as_list-length (failed malformed) h = absurd (cc h)
  as_list-length (failed unreachable) h = absurd (cc h)
  as_list-length (failed empty_query) h = absurd (cc h)
  as_list-length (failed not_a_number) h = absurd (cc h)

  listed-length :
      (r : Option (List Company)) (limit : ℕ) {results : List CompanyData}
      → listed_results search_api r limit ≡ found results
      → length results ≤ limit
  listed-length none limit h = absurd (cc h)
  listed-length (some []) limit h = absurd (cc h)
  listed-length (some (c ∷ rest)) limit h = length-format_all (c ∷ rest) limit h

  -- A search with a limit of at least one that succeeds returns no more results than the limit, be
  -- it by number or by name.
  pub search_companies_bounded :
      (query : Text) (limit : ℕ) (results : List CompanyData)
      → 1 ≤ limit
      → search_companies search_api query limit ≡ found results
      → length results ≤ limit
  search_companies_bounded query limit results l h = elim (Bool-cases (truthy (strip query))) [
    | inr empty ↦ absurd (unfold search_companies in ground (arith, empty, h))
    | inl given ↦ elim (Bool-cases (is_siren_or_siret (strip query))) [
      | inl number ↦ omega (
        arith,
        l,
        as_list-length (lookup_company search_api (strip query)) {results = results}
            (unfold search_companies in ground (arith, given, number, h)),
      )
      | inr name ↦
          listed-length (search_api (strip query)) limit {results = results}
            (unfold search_companies in ground (arith, given, name, h))
    ]
  ]
