-- ===== src/FlowDetector/Tests.antt =====
-- Tests of the flow detection, on parties with few identifiers.
use factpulse_billing_app_pu.Base.{some}
use factpulse_billing_app_pu.Base.Text.{codes}
use factpulse_billing_app_pu.Model.{Party, no_party}

abbrev spanish_party : Party
spanish_party = record no_party { vat_number = some (codes "ESB12345678") }
