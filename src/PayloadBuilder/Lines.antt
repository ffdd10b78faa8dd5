-- ===== src/PayloadBuilder/Lines.antt =====
-- `_enrich_lines` and `_apply_default_vat_exemption` of payload_builder.py.
use factpulse_billing_app_pu.Base.{
  ℕ, ◌+◌, Bool, not, ◌&&◌, ◌||◌, Option, none, some, List, [], ◌∷◌, if◌then◌else◌, or_else,
}
use factpulse_billing_app_pu.Base.Text.{text_or_empty, Text, codes, truthy}
use factpulse_billing_app_pu.Base.Int.{pos}
use factpulse_billing_app_pu.Base.Decimal.{
  Decimal, zero_dec, ◌*ᵈ◌, quantize_half_up, is_pos_dec, is_zero_dec,
}
use factpulse_billing_app_pu.Model.{
  Amount, dec, text, Line, Supplier, invalid_amount, Result, ok, err,
}

abbrev pub whole : ℕ → Decimal
whole n = record { coeff = pos n; scale = 0 }

-- `Decimal(str(line.get(key, default)))`
unfoldable pub read_amount : Option Amount → Decimal → Result Decimal
read_amount none default = ok default
read_amount (some (dec d)) default = ok d
read_amount (some (text t)) default = err invalid_amount

-- the first of two values that is there
abbrev pub first_of : {A : Type 0} → Option A → Option A → Option A
first_of (some a) b = some a
first_of none b = b

abbrev pub default_to : {A : Type 0} → Option A → A → Option A
default_to (some a) d = some a
default_to none d = some d

abbrev pub with_category : Line → Decimal → Line
with_category line rate = record line {
  vat_category = some (if is_pos_dec rate then codes "S" else codes "E");
}

-- the keys that need no number
unfoldable pub enrich_keys : ℕ → Line → Line
enrich_keys i line = record line {
  line_number = default_to line.line_number (i + 1);
  unit = default_to line.unit (codes "PIECE");
  unit_net_price = first_of line.unit_net_price line.unit_price;
  manual_vat_rate = default_to line.manual_vat_rate (or_else line.vat_rate (dec (whole 20)));
}

unfoldable pub enrich_category : Line → Result Line
unfolding read_amount
enrich_category line = elim line.vat_category [
  | some _ ↦ ok line
  | none ↦ elim (read_amount line.manual_vat_rate (whole 20)) [
    | ok rate ↦ ok (with_category line rate)
    | err e ↦ err e
  ]
]

unfoldable pub net_amount : Line → Result Decimal
unfolding read_amount
net_amount line = elim (read_amount line.quantity (whole 1)) [
  | err e ↦ err e
  | ok qty ↦ elim (read_amount (first_of line.unit_net_price line.unit_price) zero_dec) [
    | err e ↦ err e
    | ok price ↦ ok (quantize_half_up (qty *ᵈ price))
  ]
]

unfoldable pub enrich_net_amount : Line → Result Line
unfolding net_amount
enrich_net_amount line = elim line.line_net_amount [
  | some _ ↦ ok line
  | none ↦ elim (net_amount line) [
    | ok n ↦ ok (record line { line_net_amount = some (dec n) })
    | err e ↦ err e
  ]
]

unfoldable pub enrich_line : ℕ → Line → Result Line
enrich_line i line = elim (enrich_category (enrich_keys i line)) [
  | ok l ↦ enrich_net_amount l
  | err e ↦ err e
]

abbrev cons_line : Line → Result (List Line) → Result (List Line)
cons_line l (ok ls) = ok (l ∷ ls)
cons_line l (err e) = err e

unfoldable pub enrich_lines : ℕ → List Line → Result (List Line)
unfolding enrich_line
enrich_lines i [] = ok []
enrich_lines i (line ∷ lines) =
    let rest = enrich_lines (i + 1) lines in
    elim (enrich_line i line) [ ok l ↦ cons_line l rest | err e ↦ err e ]

abbrev has_text : Option Text → Bool
has_text t = truthy (text_or_empty t)

-- the supplier's default on a line at 0 % that has no exemption of its own
abbrev stamped : Text → Text → Line → Line
stamped reason code line = record line {
  vat_category = some (codes "E");
  exemption_reason = (if truthy reason then some reason else line.exemption_reason);
  vatex_code = (if truthy code then some code else line.vatex_code);
}

unfoldable pub exempt_line : Text → Text → Line → Result Line
unfolding read_amount
exempt_line reason code line = elim (read_amount line.manual_vat_rate zero_dec) [
  | err e ↦ err e
  | ok rate ↦
      if not (is_zero_dec rate) || has_text line.exemption_reason || has_text line.vatex_code
      then ok line
      else ok (stamped reason code line)
]

unfoldable pub exempt_lines : Text → Text → List Line → Result (List Line)
unfolding exempt_line
exempt_lines reason code [] = ok []
exempt_lines reason code (line ∷ lines) =
    let rest = exempt_lines reason code lines in
    elim (exempt_line reason code line) [ ok l ↦ cons_line l rest | err e ↦ err e ]

unfoldable pub apply_default_vat_exemption : Option Supplier → List Line → Result (List Line)
apply_default_vat_exemption none lines = ok lines
apply_default_vat_exemption (some s) lines =
    if not (truthy s.default_vat_exemption_reason) && not (truthy s.default_vat_exemption_code)
    then ok lines
    else exempt_lines s.default_vat_exemption_reason s.default_vat_exemption_code lines
