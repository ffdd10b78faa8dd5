-- ===== src/Numbering/Tests.antt =====
-- Tests of the numbering, on the sample database.
use factpulse_billing_app_pu.Base.{◌≡◌, ◌≢◌, refl, [], ◌∷◌}
use factpulse_billing_app_pu.Base.Text.{codes, str_nat, zfill}
use factpulse_billing_app_pu.Model.{ok, find, put}
use factpulse_billing_app_pu.Numbering.{
  last_number, assign_number, assign_all, number_text, increment, sequence_row, with_sequence,
}
use factpulse_billing_app_pu.Numbering.Gapless.{numbers_never_repeat}
use factpulse_billing_app_pu.Numbering.{assigned}
use factpulse_billing_app_pu.Numbering.Series.{
  assigned-series_numbers, series_numbers, request_of, counts_of,
}
use factpulse_billing_app_pu.Base.{map}
use factpulse_billing_app_pu.Samples.{sample_draft, sample_render, sample_world}

first_number : (assign_number sample_render sample_draft sample_world).0 ≡ ok (codes "F-001")
unfolding assign_number increment last_number number_text sequence_row with_sequence find put
    str_nat zfill
first_number = refl

numbers_never_repeat_example : codes "F-001" ≢ codes "F-003"
unfolding assign_number assign_all increment last_number number_text sequence_row with_sequence find
    put str_nat zfill
numbers_never_repeat_example =
    numbers_never_repeat sample_render sample_draft sample_draft (sample_draft ∷ []) sample_world
      refl refl refl refl

assigned-series_numbers_example :
    assigned sample_render (sample_draft ∷ sample_draft ∷ []) sample_world
    ≡ map ok (
        series_numbers
          (map (request_of sample_render sample_world) (sample_draft ∷ sample_draft ∷ []))
          (counts_of sample_world))
assigned-series_numbers_example =
    assigned-series_numbers sample_render (sample_draft ∷ sample_draft ∷ []) sample_world
