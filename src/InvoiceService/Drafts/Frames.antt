-- ===== src/InvoiceService/Drafts/Frames.antt =====
-- What the steps that build a draft leave as it is.
use factpulse_billing_app_pu.Base.{
  ℕ, ◌+◌, ◌≤◌, ◌≡◌, refl, sym, ap, subst, ◌∙◌, Option, none, some, List, [], ◌++◌, arith, or_else,
}
use factpulse_billing_app_pu.Model.{World, Result, ok, err, Action, ◌>>=◌, pure, Invoice}
use factpulse_billing_app_pu.Resolution.Entities.{Warning}
use factpulse_billing_app_pu.Resolution.Parties.{PartyPayload}
use factpulse_billing_app_pu.InvoiceService.Payloads.{
  Payload, no_party_payload, NamedSupplier, NamedCustomer, Parties, Built, update_scalar_fields,
  enrich_for,
}
use factpulse_billing_app_pu.InvoiceService.Drafts.{
  assemble, build_invoice_data, set_supplier, update_supplier, set_customer, update_customer,
  update_en16931_data, re_enrich, update_rest, apply_update,
}

-- Suppliers and customers may come in; all else stays.
pub record Same (w w' : World) : Type 0 where
  pub invoices : w'.invoices ≡ w.invoices
  pub audit_logs : w'.audit_logs ≡ w.audit_logs
  pub tasks : w'.tasks ≡ w.tasks
  pub counters : w'.counters ≡ w.counters
  pub keys : w.next_pk ≤ w'.next_pk

pub Same-refl : (w : World) → Same w w
Same-refl w = record {
  invoices = refl;
  audit_logs = refl;
  tasks = refl;
  counters = refl;
  keys = omega arith;
}

pub Same-trans : {w1 w2 w3 : World} → Same w1 w2 → Same w2 w3 → Same w1 w3
Same-trans s t = record {
  invoices = t.invoices ∙ s.invoices;
  audit_logs = t.audit_logs ∙ s.audit_logs;
  tasks = t.tasks ∙ s.tasks;
  counters = t.counters ∙ s.counters;
  keys = omega (arith, s.keys, t.keys);
}

-- What the service relies on: the resolution of a party writes no invoice.
pub record KeepsInvoices (parties : Parties) : Type 0 where
  pub of_supplier :
      (organization : ℕ) (p : PartyPayload) (w : World)
      → Same w (parties.resolve_supplier organization p w).1
  pub of_customer :
      (organization : ℕ) (p : PartyPayload) (w : World)
      → Same w (parties.resolve_customer organization p w).1

-- A run that leaves the invoices, and whose result, if there is one, is as `P` says.
abbrev pub Leaves : {A : Type 0} → World → (A → Type 0) → Result A × World → Type 0
Leaves w P (ok a, w') = Same w w' × P a
Leaves w P (err e, w') = Same w w'

bind_of :
    {A B : Type 0} (w : World) (P : A → Type 0) (Q : B → Type 0) (f : A → Action B)
    (p : Result A × World)
    → Leaves w P p
    → ((a : A) (w' : World) → Same w w' → P a → Leaves w Q (f a w'))
    → Leaves w Q (elim p.0 [ ok a ↦ f a p.1 | err e ↦ (err e, p.1) ])
bind_of w P Q f (ok a, w') h next = next a w' h.0 h.1
bind_of w P Q f (err e, w') h next = h

pub >>=-Leaves :
    {A B : Type 0} (w : World) (P : A → Type 0) (Q : B → Type 0) (m : Action A) (f : A → Action B)
    (v : World)
    → Leaves w P (m v)
    → ((a : A) (w' : World) → Same w w' → P a → Leaves w Q (f a w'))
    → Leaves w Q ((m >>= f) v)
>>=-Leaves w P Q m f v h next = bind_of w P Q f (m v) h next

pub pure-Leaves :
    {A : Type 0} (w : World) (P : A → Type 0) {a : A} {w' : World}
    → Same w w'
    → P a
    → Leaves w P (ok a, w')
pure-Leaves w P s h = (s, h)

-- Inversion of a run that succeeds.
pub Leaves-ok :
    {A : Type 0} (w : World) (P : A → Type 0) (p : Result A × World) {a : A} {w' : World}
    → Leaves w P p
    → p ≡ (ok a, w')
    → Same w w' × P a
Leaves-ok w P p h e = subst (Leaves w P) e h

pub Leaves-Same :
    {A : Type 0} (w : World) (P : A → Type 0) (p : Result A × World) → Leaves w P p → Same w p.1
Leaves-Same w P (ok a, w') h = h.0
Leaves-Same w P (err e, w') h = h

-- a step that leaves the invoices, whatever it returns
pub Same-Leaves :
    {A : Type 0} (w v : World) (p : Result A × World)
    → Same w v
    → Same v p.1
    → Leaves w (λ a. Unit {0}) p
Same-Leaves w v (ok a, w') s t = (Same-trans s t, tt)
Same-Leaves w v (err e, w') s t = Same-trans s t

-- The object that an update has changed so far: the fields that it leaves.
pub record EditOf (invoice changed : Invoice) (grown : ℕ) : Type 0 where
  pub pk : changed.pk ≡ invoice.pk
  pub organization : changed.organization ≡ invoice.organization
  pub number : changed.number ≡ invoice.number
  pub status : changed.status ≡ invoice.status
  pub preceding : changed.preceding_invoice ≡ invoice.preceding_invoice
  pub version : changed.version ≡ invoice.version + grown

-- the object at the end: its version is counted up, and an old error and PDF are gone
pub record EditDone (invoice changed : Invoice) : Type 0 where
  pub edit : EditOf invoice changed 1
  pub error : changed.factpulse_error ≡ none
  pub pdf_file : changed.pdf_file ≡ none

abbrev pub DoneBy : Invoice → Invoice × List Warning → Type 0
DoneBy invoice r = EditDone invoice r.0

abbrev pub EditedBy : Invoice → ℕ → Invoice × List Warning → Type 0
EditedBy invoice grown r = EditOf invoice r.0 grown

EditOf-trans : {a b c : Invoice} → EditOf a b 0 → EditDone b c → EditDone a c
EditOf-trans h k = ground (arith, h, k, k.edit)

module _ (parties : Parties) where
  assemble-world :
      (organization : ℕ) (payload : Payload) (s : NamedSupplier) (c : NamedCustomer) (w : World)
      → (assemble parties organization payload s c w).1 ≡ w
  unfolding assemble enrich_for
  assemble-world organization payload s c w = ground arith

  update_rest_lem :
      (payload : Payload) (invoice : Invoice) (w : World) {changed : Invoice} {w' : World}
      → update_rest parties payload invoice w ≡ (ok changed, w')
      → EditDone invoice changed
  unfolding update_rest update_en16931_data update_scalar_fields re_enrich enrich_for
  update_rest_lem payload invoice w h = ground (arith, h)

  update_rest-world :
      (payload : Payload) (invoice : Invoice) (w : World)
      → (update_rest parties payload invoice w).1 ≡ w
  unfolding update_rest update_en16931_data update_scalar_fields re_enrich enrich_for
  update_rest-world payload invoice w = ground arith

module _ (parties : Parties) (keeps : KeepsInvoices parties) where
  pub build-Leaves :
      (organization : ℕ) (payload : Payload) (w : World)
      → Leaves w (λ (b : Built). Unit {0}) (build_invoice_data parties organization payload w)
  unfolding build_invoice_data
  build-Leaves organization payload w =
      >>=-Leaves w (λ (s : NamedSupplier). Unit {0}) (λ (b : Built). Unit {0})
        (parties.resolve_supplier organization (or_else payload.supplier no_party_payload))
        (λ s.
          parties.resolve_customer organization (or_else payload.customer no_party_payload) >>= λ c.
          assemble parties organization payload s c)
        w (Same-Leaves w w _ (Same-refl w) (keeps.of_supplier _ _ w))
        (λ s w1 s1 _.
          >>=-Leaves w (λ (c : NamedCustomer). Unit {0}) (λ (b : Built). Unit {0})
            (parties.resolve_customer organization (or_else payload.customer no_party_payload))
            (λ c. assemble parties organization payload s c) w1
            (Same-Leaves w w1 _ s1 (keeps.of_customer _ _ w1))
            (λ c w2 s2 _. Same-Leaves w w2 (assemble parties organization payload s c w2) s2 (
              subst (Same w2) (sym (assemble-world parties organization payload s c w2))
                (Same-refl w2))))

  supplier_of_payload :
      (invoice : Invoice) (payload : Payload) (w : World) (p : Option PartyPayload)
      → payload.supplier ≡ p
      → Leaves w (EditedBy invoice 0) (update_supplier parties invoice payload w)
  unfolding update_supplier
  supplier_of_payload invoice payload w none e =
      rw e (pure-Leaves w (EditedBy invoice 0) {a = (invoice, [])} (Same-refl w) (ground arith))
  supplier_of_payload invoice payload w (some p) e = rw e (
      >>=-Leaves w (λ (s : NamedSupplier). Unit {0}) (EditedBy invoice 0)
        (parties.resolve_supplier invoice.organization p)
        (λ s. pure (set_supplier parties p invoice s, s.warnings)) w
        (Same-Leaves w w _ (Same-refl w) (keeps.of_supplier _ _ w))
        (λ s w1 s1 _. (s1, unfold set_supplier in ground arith)))

  customer_of_payload :
      (invoice changed : Invoice) (payload : Payload) (w v : World) (p : Option PartyPayload)
      → payload.customer ≡ p
      → Same w v
      → EditOf invoice changed 0
      → Leaves w (EditedBy invoice 0) (update_customer parties changed payload v)
  unfolding update_customer
  customer_of_payload invoice changed payload w v none e s h = rw e (s, h)
  customer_of_payload invoice changed payload w v (some p) e s h = rw e (
      >>=-Leaves w (λ (c : NamedCustomer). Unit {0}) (EditedBy invoice 0)
        (parties.resolve_customer changed.organization p)
        (λ c. pure (set_customer parties payload.names_customer_id p changed c, c.warnings)) v
        (Same-Leaves w v _ s (keeps.of_customer _ _ v))
        (λ c w1 s1 _. (s1, unfold set_customer in ground (arith, h))))

  pub apply_update-Leaves :
      (invoice : Invoice) (payload : Payload) (w : World)
      → Leaves w (DoneBy invoice) (apply_update parties invoice payload w)
  unfolding apply_update
  apply_update-Leaves invoice payload w =
      >>=-Leaves w (EditedBy invoice 0) (DoneBy invoice) (update_supplier parties invoice payload)
        (λ s. update_customer parties s.0 payload >>= λ c.
          update_rest parties payload c.0 >>= λ i. pure (i, s.1 ++ c.1))
        w (supplier_of_payload invoice payload w payload.supplier refl)
        (λ s w1 s1 h1.
          >>=-Leaves w (EditedBy invoice 0) (DoneBy invoice) (update_customer parties s.0 payload)
            (λ c. update_rest parties payload c.0 >>= λ i. pure (i, s.1 ++ c.1)) w1
            (customer_of_payload invoice s.0 payload w w1 payload.customer refl s1 h1)
            (λ c w2 s2 h2.
              >>=-Leaves w (EditDone invoice) (DoneBy invoice) (update_rest parties payload c.0)
                (λ i. pure (i, s.1 ++ c.1)) w2
                (rest invoice payload w w2 c.0 (update_rest parties payload c.0 w2) refl s2 h2)
                (λ i w3 s3 h3. (s3, h3))))
    where
      rest :
          (invoice : Invoice) (payload : Payload) (w v : World) (changed : Invoice)
          (p : Result Invoice × World)
          → update_rest parties payload changed v ≡ p
          → Same w v
          → EditOf invoice changed 0
          → Leaves w (EditDone invoice) p
      rest invoice payload w v changed (ok i, v') e s h = (
        subst (Same w)
            (sym (
              ap (λ (p : Result Invoice × World). p.1) (sym e)
              ∙ update_rest-world parties payload changed v))
            s,
        EditOf-trans h (update_rest_lem parties payload changed v e),
      )
      rest invoice payload w v changed (err x, v') e s h =
          subst (Same w)
            (sym (
              ap (λ (p : Result Invoice × World). p.1) (sym e)
              ∙ update_rest-world parties payload changed v))
            s
