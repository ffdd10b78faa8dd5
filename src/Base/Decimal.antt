-- ===== src/Base/Decimal.antt =====
-- Python's `decimal.Decimal`: an integer coefficient and the number of digits behind the point.
-- The results stay below the 28 digits of the default context, so sums and products are exact.
mod Sums
mod Rounding
unfoldable pub use Sums.{◌+ᵈ◌, ◌-ᵈ◌, ◌*ᵈ◌, pow10, times}
pub use Sums.{Decimal, zero_dec, times_one, sub_add_cents, +ᵈ_comm, +ᵈ_assoc, zero-+ᵈ}
unfoldable pub use Rounding.{eq_dec, quantize_half_up, quantize_half_even, percent}
pub use Rounding.{is_zero_dec, is_pos_dec, IsNearest, quantize_half_up-IsNearest}
