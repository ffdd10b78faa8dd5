-- ===== src/InvoiceService/Drafts/Refusals.antt =====
-- What a creation or an update leaves when it raises, and the optimistic locking.
use factpulse_billing_app_pu.Base.{ℕ, ◌+◌, ◌≡◌, sym, ap, subst, ◌∙◌, not, some, List, arith}
use factpulse_billing_app_pu.Model.{
  Status, AuditAction, World, Error, only_drafts_edited, version_stale, Result, ok, err, Action,
  ◌>>=◌, lift, raise_if, Invoice,
}
use factpulse_billing_app_pu.Resolution.Entities.{Warning}
use factpulse_billing_app_pu.StateMachine.{is_editable}
use factpulse_billing_app_pu.InvoiceService.Payloads.{
  Payload, Parties, Built, with_number, draft_of, save_and_log, insert_draft, validate_editable,
  rebuilt,
}
use factpulse_billing_app_pu.InvoiceService.Drafts.{
  build_invoice_data, create_invoice, replace_draft_data, apply_update, update_invoice,
}
use factpulse_billing_app_pu.InvoiceService.Drafts.Frames.{
  Same, Same-refl, Same-trans, KeepsInvoices, Leaves-Same, DoneBy, build-Leaves,
  apply_update-Leaves,
}
use factpulse_billing_app_pu.InvoiceService.Drafts.Written.{>>=-err, save_and_log_err}
use factpulse_billing_app_pu.InvoiceService.Drafts.Updates.{next_key-Same, update_invoice_lem}

-- a run that leaves the invoices where it raises
abbrev pub Spares : {A : Type 0} → World → Result A × World → Type 0
Spares w p = (e : Error) → p.0 ≡ err e → Same w p.1

bind_of :
    {A B : Type 0} (w : World) (f : A → Action B) (p : Result A × World)
    → Same w p.1
    → ((a : A) (w' : World) → Same w w' → Spares w (f a w'))
    → Spares {A = B} w (elim p.0 [ ok a ↦ f a p.1 | err e ↦ (err e, p.1) ])
bind_of w f (ok a, w') s next = next a w' s
bind_of w f (err e, w') s next = λ x h. s

>>=-Spares :
    {A B : Type 0} (w : World) (m : Action A) (f : A → Action B) (v : World)
    → Same w (m v).1
    → ((a : A) (w' : World) → Same w w' → Spares w (f a w'))
    → Spares w ((m >>= f) v)
>>=-Spares w m f v s next = bind_of w f (m v) s next

save_and_log-Spares :
    (action : AuditAction) (ws : List Warning) (invoice : Invoice) (w v : World)
    → Same w v
    → Spares w (save_and_log action ws invoice v)
save_and_log-Spares action ws invoice w v s e h =
    subst (Same w) (sym (save_and_log_err action ws invoice v h)) s

module _ (parties : Parties) (keeps : KeepsInvoices parties) where
  built-Same :
      (organization : ℕ) (payload : Payload) (w : World)
      → Same w (build_invoice_data parties organization payload w).1
  built-Same organization payload w =
      Leaves-Same w (λ (b : Built). Unit {0}) _ (build-Leaves parties keeps organization payload w)

  create-Spares :
      (organization : ℕ) (payload : Payload) (w : World)
      → Spares w (create_invoice parties organization payload w)
  unfolding create_invoice insert_draft
  create-Spares organization payload w =
      >>=-Spares w (build_invoice_data parties organization payload)
        (insert_draft organization payload) w (built-Same organization payload w)
        (λ b v s.
          save_and_log-Spares AuditAction.created b.warnings
            (with_number payload.number (draft_of organization payload b v.next_pk)) w
            (record v { next_pk = v.next_pk + 1 }) (next_key-Same s))

  replace-Spares :
      (invoice : Invoice) (payload : Payload) (w : World)
      → Spares w (replace_draft_data parties invoice payload w)
  unfolding replace_draft_data
  replace-Spares invoice payload w =
      let build = build_invoice_data parties invoice.organization payload in
      let write =
        λ (b : Built). save_and_log AuditAction.data_update b.warnings (rebuilt invoice b) in
      >>=-Spares w (raise_if (not (is_editable invoice)) only_drafts_edited) (λ _. build >>= write)
        w (Same-refl w)
        (λ _ v s.
          >>=-Spares w build write v (Same-trans s (built-Same invoice.organization payload v))
            (λ b v' s'.
              save_and_log-Spares AuditAction.data_update b.warnings (rebuilt invoice b) w v' s'))

  update-Spares :
      (invoice : Invoice) (payload : Payload) (w : World)
      → Spares w (update_invoice parties invoice payload w)
  unfolding update_invoice
  update-Spares invoice payload w =
      let apply = apply_update parties invoice payload in
      let write = λ (c : Invoice × List Warning). save_and_log AuditAction.data_update c.1 c.0 in
      >>=-Spares w (lift (validate_editable invoice payload)) (λ _. apply >>= write) w (Same-refl w)
        (λ _ v s.
          >>=-Spares w apply write v
            (Same-trans s (
              Leaves-Same v (DoneBy invoice) _
                (apply_update-Leaves parties keeps invoice payload v)))
            (λ c v' s'. save_and_log-Spares AuditAction.data_update c.1 c.0 w v' s'))

  -- A creation, a replacement or an update of a draft that raises leaves the invoices, the audit
  -- log, the tasks and the counters as they were.
  pub refused_edits :
      (invoice : Invoice) (payload : Payload) (w : World)
      → Spares w (create_invoice parties invoice.organization payload w)
        × Spares w (replace_draft_data parties invoice payload w)
        × Spares w (update_invoice parties invoice payload w)
  refused_edits invoice payload w = (
    create-Spares invoice.organization payload w,
    replace-Spares invoice payload w,
    update-Spares invoice payload w,
  )

  stale :
      (invoice : Invoice) (payload : Payload) (n : ℕ)
      → invoice.status ≡ Status.draft
      → payload.version ≡ some n
      → invoice.version ≡ n + 1
      → validate_editable invoice payload ≡ err version_stale
  unfolding validate_editable is_editable
  stale invoice payload n d h g = ground (arith, d, h, g)

  -- After an update, one that names the same version again is refused as stale and changes nothing,
  -- whatever the database is by then.
  pub stale_update_refused :
      (invoice : Invoice) (payload again : Payload) (w v : World) {r : Invoice × List Warning}
      {w' : World}
      → update_invoice parties invoice payload w ≡ (ok r, w')
      → again.version ≡ payload.version
      → update_invoice parties r.0 again v ≡ (err version_stale, v)
  unfolding update_invoice
  stale_update_refused invoice payload again w v {r} h same =
      let (given, updated) = update_invoice_lem parties keeps invoice payload w h in
      >>=-err (lift (validate_editable r.0 again))
        (λ _. apply_update parties r.0 again >>= λ c. save_and_log AuditAction.data_update c.1 c.0)
        v
        (ap (λ (x : Result (Unit {0})). lift x v)
          (stale r.0 again invoice.version updated.status (same ∙ given) updated.version))
