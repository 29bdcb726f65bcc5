-- ===== src/Protocol/Artifacts/Put.antt =====
-- What putArtifact stores is what getArtifact and the two searches answer.
use labpics_id.Prelude.{
  if◌then◌else◌, is_null, Bool-cases, Option-cases, ℕ, String, ◌≡◌, refl, ap, ◌∙◌, ◌⊎◌, inl, inr,
  Bool, true, false, ◌&&◌, Option, none, some, List, arith, ◌==◌, eq_iff, eq_refl,
}
use labpics_id.Sql.{update, insert, find}
use labpics_id.Sql.Rows.{find_passes, find-update, find-insert}
use labpics_id.Sql.Lone.{find-update_other}
use labpics_id.Domain.Result.{ok, thrown}
use labpics_id.Domain.Json.{Members}
use labpics_id.Domain.Protocol.{
  ArtifactModel, model_text, ProtocolArtifactRecord, ArtifactPutOptions,
}
use labpics_id.Protocol.Rows.{ArtifactRow}
use labpics_id.Protocol.Artifacts.{
  names, artifact_record, found_artifact, get_artifact, index_clash, artifact_row, overwrite,
  put_artifact,
}
use labpics_id.Domain.Protocol.Models.{model_text-injective}

-- The instant at which the artifact was consumed, if it is there and was.
abbrev pub consumed_of : Option ProtocolArtifactRecord → Option ℕ
consumed_of none = none
consumed_of (some a) = a.consumed_at

-- The record that is answered: what was put, and the consumption of the artifact that it replaces.
abbrev pub stored :
    ArtifactModel
    → String
    → Members
    → ArtifactPutOptions
    → Option ProtocolArtifactRecord
    → ProtocolArtifactRecord
stored model id payload options before = record {
  model = model;
  id = id;
  grant_id = options.grant_id;
  payload = payload;
  expires_at = options.expires_at;
  consumed_at = consumed_of before;
  uid = options.uid;
  user_code = options.user_code;
}

-- A row of one key is of another only if the keys are the same.
named_alike :
    (model : ArtifactModel) (id : String) (m : ArtifactModel) (i : String) (r : ArtifactRow)
    → names m i r ≡ true
    → names model id r ≡ (model_text model == model_text m && id == i)
unfolding names
named_alike model id m i r h = grind (
  arith,
  eq_iff (model_text r.model) (model_text m),
  eq_iff r.id i,
  eq_iff (model_text model) (model_text m),
  eq_iff id i,
  eq_iff (model_text r.model) (model_text model),
  eq_iff r.id id,
)

overwritten :
    (model : ArtifactModel) (id : String) (payload : Members) (options : ArtifactPutOptions)
    (r : ArtifactRow)
    → names model id r ≡ true
    → artifact_record (overwrite payload options r)
      ≡ stored model id payload options (some (artifact_record r))
unfolding names
overwritten model id payload options r h =
    let same_id : r.id ≡ id = ground (arith, eq_iff r.id id) in
    let same_model : r.model ≡ model =
      model_text-injective r.model model
        (ground (arith, eq_iff (model_text r.model) (model_text model))) in
    rw (same_id, same_model) refl

pub keys_same :
    (model : ArtifactModel) (id : String) (m : ArtifactModel) (i : String)
    → (model_text model == model_text m && id == i) ≡ true
    → (model ≡ m) × (id ≡ i)
keys_same model id m i h = (
  model_text-injective model m (ground (arith, eq_iff (model_text model) (model_text m))),
  ground (arith, eq_iff id i),
)

module _ (model : ArtifactModel) (id : String) (payload : Members) (options : ArtifactPutOptions)
    (rows : List ArtifactRow) where
  mine-update :
      is_null (find (names model id) rows) ≡ false
      → found_artifact
          (find (names model id) (update (names model id) (overwrite payload options) rows))
        ≡ some (stored model id payload options (found_artifact (find (names model id) rows)))
  unfolding names
  mine-update here = elim (Option-cases (find (names model id) rows)) [
    | inl e ↦ absurd (let no = rw e at here in cc)
    | inr (r, e) ↦
        let passes = find_passes (names model id) rows r e in
        ap found_artifact (
          find-update (names model id) (names model id) (overwrite payload options) rows
            (λ r. refl))
        ∙ rw (e, passes) (ap some (overwritten model id payload options r passes))
  ]

  mine-insert :
      find (names model id) rows ≡ none
      → found_artifact (find (names model id) (insert (artifact_row model id payload options) rows))
        ≡ some (stored model id payload options none)
  unfolding names
  mine-insert free =
      ap found_artifact (find-insert (names model id) (artifact_row model id payload options) rows)
      ∙ rw (free, eq_refl (model_text model), eq_refl id) refl

  module _ (m : ArtifactModel) (i : String)
      (other : (model_text model == model_text m && id == i) ≡ false) where
    other-update :
        find (names m i) (update (names model id) (overwrite payload options) rows)
        ≡ find (names m i) rows
    unfolding names
    other-update =
        find-update_other (names model id) (overwrite payload options) (names m i) rows (λ r h.
          grind (
            arith,
            other,
            eq_iff (model_text r.model) (model_text m),
            eq_iff r.id i,
            eq_iff (model_text model) (model_text m),
            eq_iff id i,
            eq_iff (model_text r.model) (model_text model),
            eq_iff r.id id,
          ))

    other-insert :
        find (names m i) (insert (artifact_row model id payload options) rows)
        ≡ find (names m i) rows
    unfolding names
    other-insert =
        find-insert (names m i) (artifact_row model id payload options) rows
        ∙ go (find (names m i) rows)
      where
        go :
            (o : Option ArtifactRow)
            → (elim o [
              | some x ↦ some x
              | none ↦
                  if names m i (artifact_row model id payload options)
                  then some (artifact_row model id payload options)
                  else none
            ])
              ≡ o
        go (some x) = refl
        go none = rw other refl

-- A stored artifact is read back with the payload and the options of the call, still consumed if it
-- was consumed before; every other artifact is read back as before. A call that throws, on a uid or a
-- user code that another artifact has, changes nothing that is read back.
pub get_artifact-put_artifact :
    (model : ArtifactModel) (id : String) (payload : Members) (options : ArtifactPutOptions)
    (rows : List ArtifactRow) (m : ArtifactModel) (i : String)
    → let (answer, after) = put_artifact model id payload options rows in
      get_artifact m i after ≡ (elim answer [
        | thrown f ↦ get_artifact m i rows
        | ok _ ↦
            if model_text model == model_text m && id == i
            then some (stored model id payload options (get_artifact model id rows))
            else get_artifact m i rows
      ])
unfolding put_artifact get_artifact
get_artifact-put_artifact model id payload options rows m i =
    elim (Bool-cases (index_clash (artifact_row model id payload options) rows)) [
      | inl c ↦ rw c refl
      | inr c ↦ elim (Bool-cases (model_text model == model_text m && id == i)) [
        | inl same ↦
            let (m≡, i≡) = keys_same model id m i same in
            rw (c, same, ← m≡, ← i≡) (mine (Option-cases (find (names model id) rows)))
        | inr other ↦
            rw (c, other)
              (ap found_artifact (elsewhere other (is_null (find (names model id) rows))))
      ]
    ]
  where
    after : Bool → List ArtifactRow
    after free =
        if free
        then insert (artifact_row model id payload options) rows
        else update (names model id) (overwrite payload options) rows

    elsewhere :
        (model_text model == model_text m && id == i) ≡ false
        → (free : Bool) → find (names m i) (after free) ≡ find (names m i) rows
    elsewhere other true = other-insert model id payload options rows m i other
    elsewhere other false = other-update model id payload options rows m i other

    mine :
        ((find (names model id) rows ≡ none)
          ⊎ ((r : ArtifactRow) × (find (names model id) rows ≡ some r)))
        → found_artifact (find (names model id) (after (is_null (find (names model id) rows))))
          ≡ some (stored model id payload options (found_artifact (find (names model id) rows)))
    mine (inl e) = rw e (mine-insert model id payload options rows e)
    mine (inr (r, e)) =
        let updated = mine-update model id payload options rows (ap is_null e) in
        rw e (rw e at updated)
