-- ===== src/Model/Constraints.antt =====
-- When a save meets the constraints of the table.
use factpulse_billing_app_pu.Base.{◌≡◌, refl, ap, ◌∙◌, false, List, [], ◌∷◌, arith, any}
use factpulse_billing_app_pu.Model.Rows.{Invoice}
use factpulse_billing_app_pu.Model.Effects.{World, ok}
use factpulse_billing_app_pu.Model.Store.{
  put, invoice_key, collides, save, sync_denormalized_fields,
}

-- No other row has the number or the external identifier of the object.
abbrev pub IsFree : Invoice → World → Type 0
IsFree inv w = any (collides inv) w.invoices ≡ false

-- the fields that the constraints read
pub record SameKeys (a b : Invoice) : Type 0 where
  pub pk : a.pk ≡ b.pk
  pub supplier : a.supplier ≡ b.supplier
  pub organization : a.organization ≡ b.organization
  pub number : a.number ≡ b.number
  pub external_id : a.external_id ≡ b.external_id

collides_same : (a b c : Invoice) → SameKeys a b → collides a c ≡ collides b c
unfolding collides
collides_same a b c h = cc (h.pk, h.supplier, h.organization, h.number, h.external_id)

pub any-collides :
    (a b : Invoice) (rows : List Invoice)
    → SameKeys a b
    → any (collides a) rows ≡ any (collides b) rows
any-collides a b [] h = refl
any-collides a b (c ∷ rows) h = cc (collides_same a b c h, any-collides a b rows h)

collides_own : (a b : Invoice) → a.pk ≡ b.pk → collides a b ≡ false
unfolding collides
collides_own a b h = ground arith

any-collides-put :
    (a b : Invoice) (rows : List Invoice)
    → a.pk ≡ b.pk
    → any (collides a) rows ≡ false
    → any (collides a) (put invoice_key b rows) ≡ false
unfolding put
any-collides-put a b [] h e = ground (arith, collides_own a b h)
any-collides-put a b (c ∷ rows) h e =
    ground (arith, collides_own a b h, any-collides-put a b rows h)

pub sync_keys : (inv : Invoice) → SameKeys (sync_denormalized_fields inv) inv
unfolding sync_denormalized_fields
sync_keys inv = record {
  pk = refl;
  supplier = refl;
  organization = refl;
  number = refl;
  external_id = refl;
}

-- A free object is saved.
pub save_free :
    (inv : Invoice) (w : World)
    → IsFree inv w
    → save inv w ≡ (
      ok (sync_denormalized_fields inv),
      record w { invoices = put invoice_key (sync_denormalized_fields inv) w.invoices },
    )
unfolding save
save_free inv w h =
    rw (any-collides (sync_denormalized_fields inv) inv w.invoices (sync_keys inv) ∙ h)

pub IsFree-same : (a b : Invoice) (w : World) → SameKeys a b → IsFree b w → IsFree a w
IsFree-same a b w h free = any-collides a b w.invoices h ∙ free

-- An object stays free when its own row is written.
pub IsFree-put :
    (a b : Invoice) (w w' : World)
    → a.pk ≡ b.pk
    → w'.invoices ≡ put invoice_key b w.invoices
    → IsFree a w
    → IsFree a w'
IsFree-put a b w w' h e free = ap (any (collides a)) e ∙ any-collides-put a b w.invoices h free
