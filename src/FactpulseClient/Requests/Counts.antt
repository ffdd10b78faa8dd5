-- ===== src/FactpulseClient/Requests/Counts.antt =====
-- Methods that send a bounded number of requests.
use factpulse_billing_app_pu.Base.{
  ℕ, ◌+◌, ◌≤◌, ◌≡◌, ap, Bool, true, false, arith, if◌then◌else◌, length,
}
use factpulse_billing_app_pu.FactpulseClient.Wire.{
  Wire, Outcome, done, failed, Session, Call, ◌>>=◌, settled, Environment, send,
}

-- A method that sends at most `n` requests, and takes none back.
unfoldable pub SendsAtMost : {A : Type 0} → ℕ → Call A → Type 0
SendsAtMost n m = (s : Session) → (length (m s).1.sent ≤ length s.sent + n)

module _ {A B : Type 0} where
  after_step :
      (j k : ℕ) (s : Session) (f : A → Call B) (p : Outcome A × Session)
      → ((a : A) → SendsAtMost k (f a))
      → length p.1.sent ≤ length s.sent + j
      → length
          (elim p.0 as (λ _. Outcome B × Session) [
            | done a ↦ f a p.1
            | failed e ↦ (failed e, p.1)
          ]).1.sent
        ≤ length s.sent + (j + k)
  unfolding SendsAtMost
  after_step j k s f (done a, s1) hf h = omega (arith, h, hf a s1)
  after_step j k s f (failed e, s1) hf h = omega (arith, h)

  pub SendsAtMost->>= :
      (j k : ℕ) (m : Call A) (f : A → Call B)
      → SendsAtMost j m
      → ((a : A) → SendsAtMost k (f a))
      → SendsAtMost (j + k) (m >>= f)
  unfolding SendsAtMost
  SendsAtMost->>= j k m f hm hf s = after_step j k s f (m s) hf (hm s)

module _ {A : Type 0} where
  pub SendsAtMost-more : (j k : ℕ) (m : Call A) → j ≤ k → SendsAtMost j m → SendsAtMost k m
  unfolding SendsAtMost
  SendsAtMost-more j k m h hm s = omega (arith, h, hm s)

  pub SendsAtMost-settled : (n : ℕ) (r : Outcome A) → SendsAtMost n (settled r)
  unfolding SendsAtMost
  SendsAtMost-settled n r s = omega arith

  pub SendsAtMost-if :
      (n : ℕ) (b : Bool) (x y : Call A)
      → SendsAtMost n x
      → SendsAtMost n y
      → SendsAtMost n (if b then x else y)
  SendsAtMost-if n true x y hx hy = hx
  SendsAtMost-if n false x y hx hy = hy

pub SendsAtMost-send : (env : Environment) (w : Wire) → SendsAtMost 1 (send env w)
unfolding SendsAtMost
SendsAtMost-send env w s = omega arith

pub SendsAtMost-quiet :
    (env : Environment) {A : Type 0} (m : Call A)
    → ((s : Session) → (m s).1.sent ≡ s.sent)
    → SendsAtMost 0 m
unfolding SendsAtMost
SendsAtMost-quiet env m h s = omega (arith, ap (length {A = Wire}) (h s))
