-- ===== src/Model/Rows.antt =====
-- The models of apps/billing/models.py as records; a foreign key is the key of the other row.
use factpulse_billing_app_pu.Base.{ℕ, Bool, Option, List}
use factpulse_billing_app_pu.Base.Text.{Text}
use factpulse_billing_app_pu.Base.Decimal.{Decimal}
use factpulse_billing_app_pu.Base.Date.{Date}
use factpulse_billing_app_pu.Model.Choices.{
  Status, Flow, OperationCategory, EreportingStatus, VatRegime, CustomerType, AuditAction,
}
use factpulse_billing_app_pu.Model.Data.{Address, ElectronicAddress, Snapshot}

pub record Organization : Type 0 where
  pub pk : ℕ
  pub uuid : Text
  pub name : Text
  pub slug : Text
  pub factpulse_client_uid : Option Text

pub record Supplier : Type 0 where
  pub pk : ℕ
  pub organization : ℕ
  pub name : Text
  pub siren : Text
  pub siret : Text
  pub vat_number : Text
  pub iban : Text
  pub bic : Text
  pub email : Text
  pub legal_description : Text
  pub address : Option Address
  pub electronic_address : Option ElectronicAddress
  pub external_id : Option Text
  pub is_default : Bool
  pub note_pmt : Text
  pub note_pmd : Text
  pub note_aab : Text
  pub vat_regime : VatRegime
  pub default_vat_exemption_reason : Text
  pub default_vat_exemption_code : Text
  pub payment_terms_days : Option ℕ
  pub payment_terms_end_of_month : Bool

pub record Customer : Type 0 where
  pub pk : ℕ
  pub organization : ℕ
  pub external_id : Option Text
  pub name : Text
  pub siren : Text
  pub siret : Text
  pub vat_number : Text
  pub customer_type : Option CustomerType
  pub email : Text
  pub address : Option Address
  pub electronic_address : Option ElectronicAddress

pub data ErrorType : Type 0 where
  not_provisioned validation_rejected unavailable timeout transmission_failed : ErrorType
  pa_submission_failed refused_by_buyer rejected_by_pa : ErrorType

-- the JSON of `Invoice.factpulse_error`
pub record FactpulseError : Type 0 where
  pub error_type : ErrorType
  pub message : Text
  pub error_code : Text
  pub errors : List Text

pub record Invoice : Type 0 where
  pub pk : ℕ
  pub organization : ℕ
  pub supplier : ℕ
  pub customer : Option ℕ
  pub number : Text
  pub invoice_type_code : Text
  pub currency_code : Text
  pub issue_date : Option Date
  pub due_date : Option Date
  pub status : Status
  pub total_excl_tax : Option Decimal
  pub total_tax : Option Decimal
  pub total_incl_tax : Option Decimal
  pub en16931_data : Snapshot
  pub detected_flow : Option Flow
  pub operation_category : OperationCategory
  pub ereporting_status : EreportingStatus
  pub ereporting_error : Option Text
  pub facturx_status : Text
  pub pdp_transmission_id : Text
  pub pdp_status : Text
  pub factpulse_error : Option FactpulseError
  pub external_id : Option Text
  pub pdf_file : Option Text
  pub preceding_invoice : Option ℕ
  pub is_internal : Bool
  pub payment_date : Option Date
  pub payment_reference : Text
  pub payment_amount : Option Decimal
  pub deleted : Bool
  pub version : ℕ

-- the parts of `InvoiceAuditLog.details` that the code reads again or that tell branches apart
pub data Details : Type 0 where
  plain : Details
  event : Text → Text → Details
  source : Text → Details
  failure : ErrorType → Details
  credit_note_validated : ℕ → Details

pub record AuditLog : Type 0 where
  pub invoice : ℕ
  pub action : AuditAction
  pub old_status : Option Status
  pub new_status : Option Status
  pub details : Details

pub record NumberingSequence : Type 0 where
  pub supplier : ℕ
  pub prefix_template : Text
  pub padding : ℕ

pub record NumberingCounter : Type 0 where
  pub sequence : ℕ
  pub resolved_prefix : Text
  pub last_number : ℕ
