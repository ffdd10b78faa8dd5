-- ===== src/FactpulseTasks/Transmission/PaidStatus.antt =====
-- What the report of a payment to the platform does.
use factpulse_billing_app_pu.Base.{
  ℕ, ◌≡◌, ◌⊎◌, inl, inr, refl, sym, subst, not, ◌||◌, none, some, ◌∷◌, arith, Bool-cases,
  Option-cases,
}
use factpulse_billing_app_pu.Base.Text.{Text, truthy}
use factpulse_billing_app_pu.Model.{
  Status, ◌=ˢ◌, AuditAction, plain, Invoice, World, address_dict, ElectronicAddress, Party, audit,
  Result, ok, err, find_invoice,
}
use factpulse_billing_app_pu.InvoiceService.Lifecycle.{log_entry}
use factpulse_billing_app_pu.FactpulseTasks.Generation.{get_client_uid}
use factpulse_billing_app_pu.FactpulseTasks.Transmission.{
  FlowApi, submit_cdar_paid, send_report, skip_report, paid_report, lacks_buyer, supplier_siren,
  buyer_address,
}

-- what a call may leave
abbrev pub Reported : World → Result (Unit {0}) × World → Type 0
Reported w r =
    (r.0 ≡ ok tt)
    × (r.1.invoices ≡ w.invoices)
    × (r.1.tasks ≡ w.tasks)
    × (r.1.webhooks ≡ w.webhooks)
    × ((r.1.audit_logs ≡ w.audit_logs)
        ⊎ ((pk : ℕ) × (a : AuditAction) × ((a ≡ AuditAction.cdar_paid_skipped)
              ⊎ ((a ≡ AuditAction.cdar_paid_submitted) ⊎ (a ≡ AuditAction.cdar_paid_error)))
            × (r.1.audit_logs ≡ log_entry pk a plain ∷ w.audit_logs)))

nothing_Reported : (w : World) → Reported w (ok tt, w)
nothing_Reported w = (refl, refl, refl, refl, inl refl)

ends_in : (w : World) (r s : Result (Unit {0}) × World) → r ≡ s → Reported w s → Reported w r
ends_in w r s h = subst (Reported w) (sym h)

module _ (api : FlowApi) (w : World) where
  answered : Invoice → (r : Result (Unit {0})) → Result (Unit {0}) × World
  answered invoice (ok _) = audit (log_entry invoice.pk AuditAction.cdar_paid_submitted plain) w
  answered invoice (err _) = audit (log_entry invoice.pk AuditAction.cdar_paid_error plain) w

  answered-Reported : (invoice : Invoice) (r : Result (Unit {0})) → Reported w (answered invoice r)
  unfolding answered
  answered-Reported invoice (ok _) = (
    refl,
    refl,
    refl,
    refl,
    inr (invoice.pk, AuditAction.cdar_paid_submitted, inr (inl refl), refl),
  )
  answered-Reported invoice (err _) =
      (refl, refl, refl, refl, inr (invoice.pk, AuditAction.cdar_paid_error, inr (inr refl), refl))

  send_report-Reported :
      (invoice : Invoice) (uid siren : Text) → Reported w (send_report api invoice uid siren w)
  send_report-Reported invoice uid siren =
      let answer = api.submit_paid_status (paid_report invoice siren) uid in
      ends_in w (send_report api invoice uid siren w) (answered invoice answer)
        (unfold send_report in unfold answered in ground arith) (answered-Reported invoice answer)

  skip-Reported : (invoice : Invoice) → Reported w (skip_report invoice w)
  skip-Reported invoice =
      (refl, refl, refl, refl, inr (invoice.pk, AuditAction.cdar_paid_skipped, inl refl, refl))

  -- The report of a payment is best effort: whatever the API answers, the task ends, no invoice
  -- changes, nothing is queued or sent, and at most one entry, of one of three actions, is written
  -- to the audit log.
  pub submit_cdar_paid_best_effort : (k : ℕ) → Reported w (submit_cdar_paid api k w)
  submit_cdar_paid_best_effort k = elim (Option-cases (find_invoice k w)) [
    | inl e ↦
        ends_in w (submit_cdar_paid api k w) (ok tt, w)
          (unfold submit_cdar_paid in ground (arith, e)) (nothing_Reported w)
    | inr (invoice, e) ↦ elim (Bool-cases (invoice.status =ˢ Status.paid)) [
      | inr p ↦
          ends_in w (submit_cdar_paid api k w) (ok tt, w)
            (unfold submit_cdar_paid in ground (arith, e, p)) (nothing_Reported w)
      | inl p ↦ elim (Option-cases (get_client_uid invoice w)) [
        | inl u ↦
            ends_in w (submit_cdar_paid api k w) (ok tt, w)
              (unfold submit_cdar_paid in ground (arith, e, p, u)) (nothing_Reported w)
        | inr (uid, u) ↦
            elim (Bool-cases (lacks_buyer invoice || not (truthy (supplier_siren invoice w)))) [
              | inl b ↦
                  ends_in w (submit_cdar_paid api k w) (skip_report invoice w)
                    (unfold submit_cdar_paid in ground (arith, e, p, u, b)) (skip-Reported invoice)
              | inr b ↦
                  ends_in w (submit_cdar_paid api k w)
                    (send_report api invoice uid (supplier_siren invoice w) w)
                    (unfold submit_cdar_paid in ground (arith, e, p, u, b))
                    (send_report-Reported invoice uid (supplier_siren invoice w))
            ]
      ]
    ]
  ]

-- A buyer with an electronic address that stands under the key `identifier`, as the resolution of a
-- customer writes it, and without a SIREN is never reported, whatever the API would answer.
pub identifier_never_reported :
    (api : FlowApi) (invoice : Invoice) (buyer : Party) (a : ElectronicAddress) (uid : Text)
    (w : World)
    → find_invoice invoice.pk w ≡ some invoice
    → invoice.status ≡ Status.paid
    → get_client_uid invoice w ≡ some uid
    → invoice.en16931_data.recipient ≡ some buyer
    → buyer.siren ≡ none
    → buyer.electronic_address ≡ some (address_dict a)
    → a.value ≡ none
    → submit_cdar_paid api invoice.pk w ≡ (
      ok tt,
      record w {
        audit_logs = log_entry invoice.pk AuditAction.cdar_paid_skipped plain ∷ w.audit_logs;
      },
    )
unfolding submit_cdar_paid buyer_address
identifier_never_reported api invoice buyer a uid w found paid client recipient siren address
      value =
    ground (arith, found, paid, client, recipient, siren, address, value)
