-- ===== src/Resolution/Entities/Again.antt =====
-- What was created for an inline entity is matched when the same data come again.

use factpulse_billing_app_pu.Base.{
  ℕ, ◌≡◌, ◌⊎◌, inl, inr, refl, sym, ap, subst₂, ◌∙◌, Bool, true, false, ◌&&◌, none, some, List, [],
  ◌∷◌, ◌++◌, if◌then◌else◌, Bool-cases,
}
use factpulse_billing_app_pu.Base.Text.{Text, codes, ◌=ᵗ◌, =ᵗ_iff, truthy}
use factpulse_billing_app_pu.Base.Json.{Fields, lookup}
use factpulse_billing_app_pu.Core.Rows.{returned, get, get-append, get-none}
use factpulse_billing_app_pu.Resolution.Entities.{
  Entity, resolved, Warning, text_at, external_id_of, has_external_id, has_siren, Reading, is_uuid,
  has_uuid, create_entity, insert, matched_row, match_siren, match_external_id,
  resolve_inline_entity,
}
use factpulse_billing_app_pu.Resolution.Entities.Refound.{
  Outcome, created_by, inserted, refound, if_true, if_false, refused_is_created, given_text,
}

-- `row` is the row of the inline data, as far as the matching goes.
module _ (reading : Reading) (warnings : Entity → List Warning) (inline_data : Fields)
    (row other : Entity) (own_siren : row.siren ≡ text_at (codes "siren") inline_data)
    (own_id : row.external_id ≡ external_id_of inline_data) (entities : List Entity) where
  abbrev after : List Entity
  after = entities ++ row ∷ []

  abbrev matched_again : Outcome
  matched_again = (resolved (row, false, warnings row), after)

  siren_again :
      {e : Entity} {ws : List Warning} {es : List Entity}
      → match_siren reading warnings inline_data row entities ≡ (resolved (e, true, ws), es)
      → (row ≡ e)
        × (after ≡ es)
        × (match_siren reading warnings inline_data other after ≡ matched_again)
  unfolding match_siren
  siren_again h = elim (Bool-cases (truthy (text_at (codes "siren") inline_data))) [
    | inr missing ↦ absurd (refused_is_created (sym (if_false _ _ missing) ∙ h))
    | inl given ↦
        let (none_before, made) =
          created_by warnings row entities _ _ (sym (if_true _ _ given) ∙ h) in
        let (same, rows) = inserted warnings row entities made in
        (
          same,
          rows,
          if_true _ _ given
              ∙ ap (λ r. matched_row warnings r after (insert other after))
                  (get-append (has_siren (text_at (codes "siren") inline_data)) entities row
                    (get-none _ entities none_before)
                    ((=ᵗ_iff row.siren (text_at (codes "siren") inline_data)).1 own_siren)),
        )
  ]

  -- after the external identifier was looked up in vain
  id_again :
      (by_external_id : Bool) {e : Entity} {ws : List Warning} {es : List Entity}
      → match_external_id reading warnings inline_data row entities by_external_id
        ≡ (resolved (e, true, ws), es)
      → (row ≡ e)
        × (after ≡ es)
        × (match_external_id reading warnings inline_data other after by_external_id
            ≡ matched_again)
  unfolding match_external_id
  id_again by_external_id h =
      elim (Bool-cases (truthy (text_at (codes "external_id") inline_data))) [
        | inr missing ↦
            let (same, rows, again) = siren_again (sym (if_false _ _ missing) ∙ h) in
            (same, rows, if_false _ _ missing ∙ again)
        | inl given ↦
            let (none_before, made) =
              created_by warnings row entities _ _ (sym (if_true _ _ given) ∙ h) in
            let (same, rows) = made_by by_external_id made in
            (
              same,
              rows,
              if_true _ _ given
                  ∙ ap
                      (λ r. matched_row warnings r after (
                        if by_external_id
                        then insert other after
                        else match_siren reading warnings inline_data other after))
                      (get-append (has_external_id (text_at (codes "external_id") inline_data))
                        entities row (get-none _ entities none_before) (own_row given)),
            )
      ]
    where
      made_by :
          (b : Bool) {e : Entity} {ws : List Warning} {es : List Entity}
          → ◌≡◌ {A = Outcome}
              (if b
                then insert row entities
                else match_siren reading warnings inline_data row entities)
              (resolved (e, true, ws), es)
          → (row ≡ e) × (after ≡ es)
      made_by true k = inserted warnings row entities k
      made_by false k = let (a, b, c) = siren_again k in (a, b)

      own_row :
          truthy (text_at (codes "external_id") inline_data) ≡ true
          → has_external_id (text_at (codes "external_id") inline_data) row ≡ true
      own_row given =
          ap
            (λ o. elim o as (λ _. Bool) [
              | none ↦ false
              | some x ↦ x =ᵗ text_at (codes "external_id") inline_data
            ])
            own_id
          ∙ given_text (lookup (codes "external_id") inline_data) given

  -- whole
  pub inline_again :
      (by_external_id : Bool) {e : Entity} {ws : List Warning} {es : List Entity}
      → resolve_inline_entity reading warnings inline_data row entities by_external_id
        ≡ (resolved (e, true, ws), es)
      → (row ≡ e)
        × (after ≡ es)
        × (resolve_inline_entity reading warnings inline_data other after by_external_id
            ≡ matched_again)
  unfolding resolve_inline_entity
  inline_again by_external_id h =
      elim (Bool-cases (
        truthy (text_at (codes "uuid") inline_data)
        && is_uuid reading (text_at (codes "uuid") inline_data))) [
          | inr missing ↦
              let (same, rows, again) = id_again by_external_id (sym (if_false _ _ missing) ∙ h) in
              (same, rows, if_false _ _ missing ∙ again)
          | inl given ↦
              let (none_before, made) =
                created_by warnings row entities _ _ (sym (if_true _ _ given) ∙ h) in
              let (same, rows, again) = id_again by_external_id made in
              (
                same,
                rows,
                if_true _ _ given
                    ∙ found again (
                        refound (has_uuid reading (text_at (codes "uuid") inline_data)) row entities
                          none_before),
              )
        ]
    where
      found :
          match_external_id reading warnings inline_data other after by_external_id ≡ matched_again
          → (get (has_uuid reading (text_at (codes "uuid") inline_data)) after
              ≡ returned (some row))
            ⊎ (get (has_uuid reading (text_at (codes "uuid") inline_data)) after ≡ returned none)
          → matched_row warnings
              (get (has_uuid reading (text_at (codes "uuid") inline_data)) after)
              after
              (match_external_id reading warnings inline_data other after by_external_id)
            ≡ matched_again
      found again (inl hit) =
          ap
            (λ r.
              matched_row warnings r after
                (match_external_id reading warnings inline_data other after by_external_id))
            hit
      found again (inr miss) =
          ap
            (λ r.
              matched_row warnings r after
                (match_external_id reading warnings inline_data other after by_external_id))
            miss
          ∙ again

-- When a row was created for inline data, it stands behind the others, and the same inline data,
-- whatever the key and UUID of another new row would be, match it and create nothing.
pub created_entity_is_matched :
    (reading : Reading) (warnings : Entity → List Warning) (by_external_id : Bool)
    (inline_data : Fields) (pk pk' organization : ℕ) (uuid uuid' : Text) (entities : List Entity)
    {e : Entity} {ws : List Warning} {es : List Entity}
    → resolve_inline_entity reading warnings inline_data
        (create_entity pk uuid organization inline_data)
        entities
        by_external_id
      ≡ (resolved (e, true, ws), es)
    → (es ≡ entities ++ e ∷ [])
      × (resolve_inline_entity reading warnings inline_data
            (create_entity pk' uuid' organization inline_data)
            es
            by_external_id
          ≡ (resolved (e, false, warnings e), es))
created_entity_is_matched reading warnings by_external_id inline_data pk pk' organization uuid uuid'
      entities {e} {ws} {es} h =
    let row = create_entity pk uuid organization inline_data in
    let (same, rows, again) =
      inline_again reading warnings inline_data row
        (create_entity pk' uuid' organization inline_data) (unfold create_entity in refl)
        (unfold create_entity in refl) entities by_external_id h in
    (
      sym rows ∙ ap (λ r. entities ++ r ∷ []) same,
      subst₂
          (λ r rs.
            resolve_inline_entity reading warnings inline_data
              (create_entity pk' uuid' organization inline_data) rs by_external_id
            ≡ (resolved (r, false, warnings r), rs))
          same rows again,
    )
