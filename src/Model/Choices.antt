-- ===== src/Model/Choices.antt =====
-- The choices of apps/billing/models.py: `Invoice.Status`, `Flow`, `OperationCategory`,
-- `EreportingStatus`, `InvoiceAuditLog.Action`, `Supplier.VatRegime`, `Customer.CustomerType`.
use factpulse_billing_app_pu.Base.{ℕ, ◌≡◌, ◌↔◌, Bool, true, arith, ◌==◌}

pub data Status : Type 0 where
  draft processing validated transmitting transmitted accepted rejected refused paid cancelled :
      Status

-- a number for each status, so that two of them can be compared
abbrev pub status_index : Status → ℕ
status_index Status.draft = 0
status_index Status.processing = 1
status_index Status.validated = 2
status_index Status.transmitting = 3
status_index Status.transmitted = 4
status_index Status.accepted = 5
status_index Status.rejected = 6
status_index Status.refused = 7
status_index Status.paid = 8
status_index Status.cancelled = 9

infix 50 ◌=ˢ◌
abbrev pub ◌=ˢ◌ : Status → Status → Bool
a =ˢ b = status_index a == status_index b

pub =ˢ_iff : (a b : Status) → ((a =ˢ b) ≡ true) ↔ (a ≡ b)
=ˢ_iff a b = ground arith

pub data Flow : Type 0 where
  b2b_domestic b2c b2b_intra_eu b2b_extra_eu b2g : Flow

pub data OperationCategory : Type 0 where
  tps1 tlb1 tnt1 tma1 : OperationCategory

-- `EreportingStatus.NONE` is the empty text
pub data EreportingStatus : Type 0 where
  nothing pending submitted accepted error : EreportingStatus

pub data VatRegime : Type 0 where
  reel_normal_mensuel reel_normal_trimestriel simplifie franchise : VatRegime

pub data CustomerType : Type 0 where
  assujetti_fr intra_ue extra_ue particulier public : CustomerType

pub data AuditAction : Type 0 where
  created status_change delete flow_submitted cdar_event cdar_paid_submitted : AuditAction
  cdar_paid_skipped cdar_paid_error data_update ereporting_submitted ereporting_error : AuditAction
