-- ===== src/InvoiceService/Preparation.antt =====
-- What the steps of the preparation of a validation leave of an invoice.
use factpulse_billing_app_pu.Base.{◌≡◌, refl, ◌∙◌, Option, none, some, arith}
use factpulse_billing_app_pu.Model.{
  Flow, OperationCategory, Customer, Snapshot, sync_denormalized_fields, Invoice, World, ok,
}
use factpulse_billing_app_pu.FlowDetector.{
  inject_bar_note, inject_framework, enrich_recipient_country,
}
use factpulse_billing_app_pu.InvoiceService.Lifecycle.{reflect_payment, start_processing}

-- what the later steps of the preparation leave alone
pub record SameIdentity (a b : Invoice) : Type 0 where
  pub pk : b.pk ≡ a.pk
  pub number : b.number ≡ a.number
  pub shown : b.en16931_data.invoice_number ≡ a.en16931_data.invoice_number

pub reflect_payment-SameIdentity : (a b : Invoice) → reflect_payment a ≡ ok b → SameIdentity a b
unfolding reflect_payment
reflect_payment-SameIdentity a b h = ground arith

shown-inject_bar_note :
    (en : Snapshot) (flow : Option Flow)
    → (inject_bar_note en flow).invoice_number ≡ en.invoice_number
unfolding inject_bar_note
shown-inject_bar_note en none = refl
shown-inject_bar_note en (some flow) = ground arith

shown-inject_framework :
    (en : Snapshot) (c : OperationCategory)
    → (inject_framework en c).invoice_number ≡ en.invoice_number
unfolding inject_framework
shown-inject_framework en c = ground arith

shown-enrich :
    (en : Snapshot) (c : Option Customer)
    → (enrich_recipient_country en c).invoice_number ≡ en.invoice_number
unfolding enrich_recipient_country
shown-enrich en c = ground arith

pub start_processing-SameIdentity :
    (a : Invoice) (w : World) → SameIdentity a (start_processing a w)
unfolding start_processing
start_processing-SameIdentity a w = record {
  pk = refl;
  number = refl;
  shown = simp (shown-enrich, shown-inject_framework, shown-inject_bar_note);
}

pub sync-SameIdentity : (a : Invoice) → SameIdentity a (sync_denormalized_fields a)
unfolding sync_denormalized_fields
sync-SameIdentity a = record { pk = refl; number = refl; shown = refl }

pub SameIdentity-trans : (a b c : Invoice) → SameIdentity a b → SameIdentity b c → SameIdentity a c
SameIdentity-trans a b c h k = record {
  pk = k.pk ∙ h.pk;
  number = k.number ∙ h.number;
  shown = k.shown ∙ h.shown;
}
