-- ===== src/FlowDetector/Enrichment.antt =====
-- What the injections add to a snapshot, and that they add it once.
use factpulse_billing_app_pu.Base.{
  ℕ, suc, ◌+◌, ◌≡◌, inl, inr, refl, ◌∙◌, true, not, ◌||◌, Option, none, some, List, [], ◌∷◌, ◌++◌,
  arith, ◌==◌, if◌then◌else◌, Bool-cases, or_else, any,
}
use factpulse_billing_app_pu.Base.Text.{text_or_empty, truthy}
use factpulse_billing_app_pu.Model.{
  Flow, OperationCategory, Snapshot, Note, Customer, Address, no_party, no_address, references_of,
}
use factpulse_billing_app_pu.FlowDetector.{
  is_bar, inject_bar_note, inject_framework, category_to_framework, enrich_recipient_country,
  customer_country,
}

-- the notes of a snapshot that are BAR notes
unfoldable pub count_bars : List Note → ℕ
unfolding is_bar
count_bars [] = 0
count_bars (n ∷ notes) = let rest = count_bars notes in if is_bar n then suc rest else rest

abbrev pub address_of : Snapshot → Address
address_of en = or_else (or_else en.recipient no_party).postal_address no_address

abbrev pub notes_of : Snapshot → List Note
notes_of en = or_else en.notes []

count_bars-append : (xs ys : List Note) → count_bars (xs ++ ys) ≡ count_bars xs + count_bars ys
unfolding count_bars
count_bars-append [] ys = omega arith
count_bars-append (x ∷ xs) ys = ground (arith, count_bars-append xs ys)

any-count_bars : (notes : List Note) → any is_bar notes ≡ not (count_bars notes == 0)
unfolding count_bars
any-count_bars [] = refl
any-count_bars (x ∷ xs) = ground (arith, any-count_bars xs)

inject_present :
    (en : Snapshot) (f : Flow) → any is_bar (notes_of en) ≡ true → inject_bar_note en (some f) ≡ en
unfolding inject_bar_note
inject_present en f h = rw h

module _ (en : Snapshot) (flow : Flow) where
  bar_count :
      count_bars (notes_of (inject_bar_note en (some flow)))
      ≡ (if count_bars (notes_of en) == 0 then 1 else count_bars (notes_of en))
  unfolding inject_bar_note
  bar_count = elim (Bool-cases (any is_bar (notes_of en))) [
    | inl old ↦ rw old (ground (arith, old, any-count_bars (notes_of en)))
    | inr new ↦
        rw (new, count_bars-append)
          (unfold count_bars in ground (arith, new, any-count_bars (notes_of en)))
  ]

  -- After the injection there is a BAR note: one, if there was none, and as many as before, if
  -- there were some; a second injection, for whatever flow, changes nothing.
  pub inject_bar_note_once :
      (again : Option Flow)
      → (count_bars (notes_of (inject_bar_note en (some flow)))
          ≡ (if count_bars (notes_of en) == 0 then 1 else count_bars (notes_of en)))
        × (inject_bar_note (inject_bar_note en (some flow)) again ≡ inject_bar_note en (some flow))
  inject_bar_note_once none = (bar_count, unfold inject_bar_note in refl)
  inject_bar_note_once (some f) = (bar_count, again_same)
    where
      present : any is_bar (notes_of (inject_bar_note en (some flow))) ≡ true
      present =
          any-count_bars (notes_of (inject_bar_note en (some flow))) ∙ ground (arith, bar_count)

      again_same :
          inject_bar_note (inject_bar_note en (some flow)) (some f) ≡ inject_bar_note en (some flow)
      again_same = inject_present (inject_bar_note en (some flow)) f present

module _ (en : Snapshot) where
  -- The framework is the one that stood there, or else that of the category; the other references
  -- are kept, and a second injection changes nothing.
  pub inject_framework_once :
      (category again : OperationCategory)
      → let en' = inject_framework en category in
        let refs = references_of en.references in
        (references_of en'.references ≡ record refs {
          invoicing_framework =
              (if truthy (text_or_empty refs.invoicing_framework)
                then refs.invoicing_framework
                else some (category_to_framework category));
        })
        × (inject_framework en' again ≡ en')
  unfolding inject_framework category_to_framework
  inject_framework_once category again = (ground arith, ground arith)

  -- A country code that the snapshot has is kept; where it has none and the address of the customer
  -- gives one, it is that one, and the rest of the address is kept; a second enrichment changes
  -- nothing.
  pub enrich_recipient_country_lem :
      (customer : Option Customer)
      → let en' = enrich_recipient_country en customer in
        let address = address_of en in
        (address_of en' ≡ (
          if truthy (text_or_empty address.country_code) || not (truthy (customer_country customer))
          then address
          else record address { country_code = some (customer_country customer) }))
        × (enrich_recipient_country en' customer ≡ en')
  unfolding enrich_recipient_country
  enrich_recipient_country_lem customer = (ground arith, ground arith)
