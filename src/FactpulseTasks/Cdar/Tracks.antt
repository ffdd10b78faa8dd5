-- ===== src/FactpulseTasks/Cdar/Tracks.antt =====
-- An invoice whose object is handed from step to step, and what the steps do to its row.
use factpulse_billing_app_pu.Base.{
  ℕ, ◌≡◌, ◌⊎◌, inl, refl, sym, ap, subst, ◌∙◌, true, false, some, arith, ◌==◌, if◌then◌else◌,
}
use factpulse_billing_app_pu.Model.{Status, Invoice, World, find, find_invoice, invoice_key}
use factpulse_billing_app_pu.StateMachine.{can_transition}
use factpulse_billing_app_pu.StateMachine.Reach.{Reach, here, next, Reach-trans}

-- of the invoices only the row `k` changes, and its status along allowed transitions
pub record Moves (k : ℕ) (w w' : World) : Type 0 where
  pub others : (j : ℕ) → (k == j) ≡ false → find_invoice j w' ≡ find_invoice j w
  pub path :
      (row : Invoice)
      → find_invoice k w ≡ some row
      → (row' : Invoice) × (find_invoice k w' ≡ some row') × Reach row.status row'.status

-- The object and its row have the same status, or the object is paid: an object that could not be
-- saved as paid.
pub record Tracks (invoice : Invoice) (w : World) : Type 0 where
  pub row : Invoice
  pub stored : find_invoice invoice.pk w ≡ some row
  pub status : (row.status ≡ invoice.status) ⊎ (invoice.status ≡ Status.paid)

-- what a step that returns the object does
pub record Followed (invoice changed : Invoice) (w w' : World) : Type 0 where
  pub pk : changed.pk ≡ invoice.pk
  pub tracks : Tracks changed w'
  pub moves : Moves invoice.pk w w'

pub Moves-refl : (k : ℕ) (w w' : World) → w'.invoices ≡ w.invoices → Moves k w w'
Moves-refl k w w' h = record {
  others = λ j e. ap (find invoice_key j) h;
  path = λ row e. (row, ap (find invoice_key k) h ∙ e, here);
}

pub Moves-trans : (k : ℕ) (a b c : World) → Moves k a b → Moves k b c → Moves k a c
Moves-trans k a b c p q = record {
  others = λ j e. q.others j e ∙ p.others j e;
  path = λ row e.
      let (row', e', r) = p.path row e in
      let (row'', e'', r') = q.path row' e' in (row'', e'', Reach-trans r r');
}

pub Followed-trans :
    (x y z : Invoice) (a b c : World) → Followed x y a b → Followed y z b c → Followed x z a c
Followed-trans x y z a b c p q = record {
  pk = q.pk ∙ p.pk;
  tracks = q.tracks;
  moves = Moves-trans x.pk a b c p.moves (subst (λ k. Moves k b c) p.pk q.moves);
}

-- a step that leaves the rows and the object as they are
pub Followed-nothing :
    (x : Invoice) (w w' : World) → w'.invoices ≡ w.invoices → Tracks x w → Followed x x w w'
Followed-nothing x w w' h t = record {
  pk = refl;
  tracks = record {
    row = t.row;
    stored = ap (find invoice_key x.pk) h ∙ t.stored;
    status = t.status;
  };
  moves = Moves-refl x.pk w w' h;
}

pub same_row : {a b : Invoice} → some a ≡ some b → a ≡ b
same_row h = cc

-- a step that writes one row along a transition
pub Followed-write :
    (x y row new : Invoice) (w w' : World)
    → find_invoice x.pk w ≡ some row
    → ((k : ℕ) → find_invoice k w' ≡ (if x.pk == k then some new else find_invoice k w))
    → y.pk ≡ x.pk
    → new.status ≡ y.status
    → can_transition row.status new.status ≡ true
    → Followed x y w w'
Followed-write x y row new w w' found at pk same allowed = record {
  pk = pk;
  tracks = record { row = new; stored = ground (arith, at y.pk); status = inl same };
  moves = record {
    others = λ j e. ground (arith, at j);
    path = λ r e. (
      new,
      ground (arith, at x.pk),
      subst (λ (i : Invoice). Reach i.status new.status) (same_row (sym found ∙ e))
          (next {s = row.status} here allowed),
    );
  };
}
