-- ===== src/StripeImport/CatchUp.antt =====
-- apps/payments/catchup.py: the import of the documents that no webhook delivered. The lists of
-- Stripe, the private module `apps.connect` and the API key are parameters.
use factpulse_billing_app_pu.Base.{
  ℕ, ◌+◌, Bool, ◌&&◌, List, [], ◌∷◌, ◌++◌, ltb, ◌==◌, if◌then◌else◌, any,
}
use factpulse_billing_app_pu.Base.Text.{Text, codes, ◌=ᵗ◌}
use factpulse_billing_app_pu.Model.{World, ok, err, Action, ◌>>=◌, pure, Invoice}
use factpulse_billing_app_pu.StripeImport.Customers.{is_external}

-- what the catch-up reads of a document of Stripe
pub record Listed (A : Type 0) : Type 0 where
  pub status : Text
  pub created : ℕ
  pub body : A

module _ {A : Type 0} where
  -- `_recent`: a list of Stripe has the newest document first
  unfoldable pub recent : ℕ → List (Listed A) → List (Listed A)
  recent threshold [] = []
  recent threshold (d ∷ ds) =
      let rest = recent threshold ds in if ltb d.created threshold then [] else d ∷ rest

  -- `FINALIZED_STATUSES`
  unfoldable pub finalized : List (Listed A) → List (Listed A)
  unfolding ◌=ᵗ◌
  finalized [] = []
  finalized (d ∷ ds) =
      let rest = finalized ds in
      if any (λ s. s =ᵗ d.status) (codes "open" ∷ codes "paid" ∷ codes "uncollectible" ∷ [])
      then d ∷ rest
      else rest

-- a row of the organization, deleted or not, has the external identifier
unfoldable pub is_imported : ℕ → List Invoice → Text → Bool
unfolding ◌=ᵗ◌
is_imported organization rows id =
    any (λ (i : Invoice). i.organization == organization && is_external id i.external_id) rows

module _ {A : Type 0} (id_of : A → Text) (organization : ℕ) where
  -- `_unknown`, the oldest first; the rows are read before any import
  unfoldable pub unknown : List Invoice → List (Listed A) → List (Listed A)
  unfolding is_imported
  unknown rows [] = []
  unknown rows (d ∷ ds) =
      unknown rows ds ++ (if is_imported organization rows (id_of d.body) then [] else d ∷ [])

-- the loop over the unknown documents, with the number of the imports
unfoldable pub import_each : {A : Type 0} → (A → Action Bool) → List (Listed A) → ℕ → Action ℕ
import_each import_one [] imported = pure imported
import_each import_one (d ∷ ds) imported = do
  is_new ← import_one d.body
  import_each import_one ds (if is_new then imported + 1 else imported)

-- the first loop
unfoldable pub import_invoices :
    {A : Type 0} → (A → Text) → (A → Action Bool) → ℕ → ℕ → List (Listed A) → Action ℕ
unfolding recent finalized unknown import_each
import_invoices invoice_id import_invoice organization threshold invoices w =
    import_each import_invoice
      (unknown invoice_id organization w.invoices (finalized (recent threshold invoices))) 0 w

module _ {A B : Type 0} (invoice_id : A → Text) (note_id : B → Text)
    (import_invoice : A → Action Bool) (import_credit_note : B → Action Bool)
    (organization threshold : ℕ) where
  -- `catch_up_organization`, where there are handlers and a key: the invoices come first
  unfoldable pub catch_up_organization : List (Listed A) → List (Listed B) → Action ℕ
  unfolding import_invoices recent unknown import_each
  catch_up_organization invoices notes = do
    imported ← import_invoices invoice_id import_invoice organization threshold invoices
    λ w.
        import_each import_credit_note
          (unknown note_id organization w.invoices (recent threshold notes)) imported w

-- `catch_up_stripe`: an organization that fails does not block the others
unfoldable pub catch_up_stripe : List (Action ℕ) → ℕ → World → ℕ × World
catch_up_stripe [] imported w = (imported, w)
catch_up_stripe (m ∷ configs) imported w = elim (m w).0 [
  | ok n ↦ catch_up_stripe configs (imported + n) (m w).1
  | err e ↦ catch_up_stripe configs imported (m w).1
]
