-- ===== src/Protocol/Interactions/Details.antt =====
-- What the consent ceremony reads of an interaction after it has been extended.
use labpics_id.Prelude.{
  sym, if◌then◌else◌, is_null, Bool-cases, Option-cases, String, ◌≡◌, refl, ap, ◌∙◌, inl, inr, Bool,
  false, none, some, List, [], arith, ◌==◌, eq_iff, eq_refl,
}
use labpics_id.Sql.{find}
use labpics_id.Sql.Rows.{find_passes, find-update, find-insert}
use labpics_id.Domain.Result.{ok}
use labpics_id.Domain.Json.{Json, Members, member_of, with_member, text, no_members, member}
use labpics_id.Domain.Protocol.{
  ArtifactModel, InteractionDetails, InteractionSession, InteractionResult,
}
use labpics_id.Protocol.Rows.{ArtifactRow}
use labpics_id.Protocol.Artifacts.{
  names, has_uid, artifact_record, found_artifact, find_artifact_by_uid,
}
use labpics_id.Protocol.Interactions.{
  details, details_of, get_interaction_details, with_session, with_result, interaction_row,
  merge_payload, set_interaction_session, finish_interaction,
}

member_of-with_member :
    (k j : String) (v : Json) (ms : Members)
    → member_of k (with_member j v ms) ≡ (if j == k then some v else member_of k ms)
unfolding member_of with_member
member_of-with_member k j v no_members = refl
member_of-with_member k j v (member name w rest) =
    ground (arith, member_of-with_member k j v rest, eq_iff name j, eq_iff name k, eq_iff j k)

abbrev pub blank : String → InteractionDetails
blank uid = record {
  uid = uid;
  client_id = "";
  client_name = none;
  client_logo_uri = none;
  requested_scopes = [];
  redirect_uri = "";
  nonce = none;
  state = none;
  subject_id = none;
  session_id = none;
  resume_url = none;
}

abbrev pub details_or_blank : String → List ArtifactRow → InteractionDetails
details_or_blank uid rows = elim (get_interaction_details uid rows) [
  | none ↦ blank uid
  | some d ↦ d
]

member_of-with_session :
    (k : String) (opened : InteractionSession) (ms : Members)
    → member_of k (with_session opened ms) ≡ (
        if "sessionId" == k
        then some (text opened.session_id)
        else if "subjectId" == k
        then some (text opened.subject_id)
        else member_of k ms)
member_of-with_session k opened ms =
    member_of-with_member k "sessionId" (text opened.session_id) _
    ∙ ap (λ rest. if "sessionId" == k then some (text opened.session_id) else rest)
        (member_of-with_member k "subjectId" (text opened.subject_id) ms)

abbrev pub signed_in : InteractionSession → InteractionDetails → InteractionDetails
signed_in opened d = record d {
  subject_id = some opened.subject_id;
  session_id = some opened.session_id;
}

details-with_session :
    (opened : InteractionSession) (r : ArtifactRow)
    → details (artifact_record (record r { payload = with_session opened r.payload }))
      ≡ signed_in opened (details (artifact_record r))
details-with_session opened r =
    rw
      (
        member_of-with_session "clientId" opened r.payload,
        member_of-with_session "clientName" opened r.payload,
        member_of-with_session "clientLogoUri" opened r.payload,
        member_of-with_session "requestedScopes" opened r.payload,
        member_of-with_session "redirectUri" opened r.payload,
        member_of-with_session "nonce" opened r.payload,
        member_of-with_session "state" opened r.payload,
        member_of-with_session "subjectId" opened r.payload,
        member_of-with_session "sessionId" opened r.payload,
        member_of-with_session "resumeUrl" opened r.payload,
      )
      refl

member_of-with_result :
    (k : String) (result : InteractionResult) (merge : Bool) (at : String) (ms : Members)
    → "finishedAt" == k ≡ false
    → "mergeWithLastSubmission" == k ≡ false
    → "result" == k ≡ false
    → member_of k (with_result result merge at ms) ≡ member_of k ms
member_of-with_result k result merge at ms no_at no_merge no_result =
    member_of-with_member k "finishedAt" _ _
    ∙ rw no_at (
        member_of-with_member k "mergeWithLastSubmission" _ _
        ∙ rw no_merge (member_of-with_member k "result" _ ms ∙ rw no_result refl))

details-with_result :
    (result : InteractionResult) (merge : Bool) (at : String) (r : ArtifactRow)
    → details (artifact_record (record r { payload = with_result result merge at r.payload }))
      ≡ details (artifact_record r)
details-with_result result merge at r =
    rw
      (
        member_of-with_result "clientId" result merge at r.payload refl refl refl,
        member_of-with_result "clientName" result merge at r.payload refl refl refl,
        member_of-with_result "clientLogoUri" result merge at r.payload refl refl refl,
        member_of-with_result "requestedScopes" result merge at r.payload refl refl refl,
        member_of-with_result "redirectUri" result merge at r.payload refl refl refl,
        member_of-with_result "nonce" result merge at r.payload refl refl refl,
        member_of-with_result "state" result merge at r.payload refl refl refl,
        member_of-with_result "subjectId" result merge at r.payload refl refl refl,
        member_of-with_result "sessionId" result merge at r.payload refl refl refl,
        member_of-with_result "resumeUrl" result merge at r.payload refl refl refl,
      )
      refl

-- Where the merge goes through, the interaction's details are those of the merged payload.
merge_payload-details :
    (uid : String) (change : Members → Members) (f : InteractionDetails → InteractionDetails)
    (rows : List ArtifactRow)
    → ((r : ArtifactRow)
        → details (artifact_record (record r { payload = change r.payload }))
          ≡ f (details (artifact_record r)))
    → (merge_payload uid change rows).0 ≡ ok tt
    → get_interaction_details uid (merge_payload uid change rows).1
      ≡ some (f (details_or_blank uid rows))
unfolding merge_payload get_interaction_details find_artifact_by_uid has_uid member_of
merge_payload-details uid change f rows changes h =
    elim (Option-cases (find (has_uid ArtifactModel.interaction uid) rows)) [
      | inr (r, e) ↦
          let passes = find_passes (has_uid ArtifactModel.interaction uid) rows r e in
          rw e (
            ap (λ o. details_of (found_artifact o))
              (find-update (has_uid ArtifactModel.interaction uid)
                (has_uid ArtifactModel.interaction uid)
                (λ x. record x { payload = change r.payload }) rows (λ x. refl))
            ∙ rw (e, passes) (ap some (changes r ∙ ap f (sym (there r e)))))
      | inl e ↦ elim (Bool-cases (is_null (find (names ArtifactModel.interaction uid) rows))) [
        | inr t ↦ absurd (let failed = rw (e, t) at h in cc)
        | inl t ↦
            rw (e, t)
              (ap (λ o. details_of (found_artifact o))
                  (find-insert (has_uid ArtifactModel.interaction uid)
                    (interaction_row uid (change no_members)) rows)
                ∙ rw (e, eq_refl uid)
                    (ap some (changes (interaction_row uid no_members) ∙ ap f (sym (none_yet e)))))
      ]
    ]
  where
    none_yet :
        find (has_uid ArtifactModel.interaction uid) rows ≡ none
        → details_or_blank uid rows ≡ blank uid
    none_yet e = rw (details_or_blank, e) refl

    there :
        (r : ArtifactRow)
        → find (has_uid ArtifactModel.interaction uid) rows ≡ some r
        → details_or_blank uid rows ≡ details (artifact_record r)
    there r e = rw (details_or_blank, e) refl

-- After setInteractionSession has gone through, getInteractionDetails answers the subject and the
-- session that were set, and else what it answered before, or an empty interaction if there was none.
pub set_interaction_session-details :
    (uid : String) (opened : InteractionSession) (rows : List ArtifactRow)
    → (set_interaction_session uid opened rows).0 ≡ ok tt
    → get_interaction_details uid (set_interaction_session uid opened rows).1
      ≡ some (signed_in opened (details_or_blank uid rows))
unfolding set_interaction_session
set_interaction_session-details uid opened rows h =
    merge_payload-details uid (with_session opened) (signed_in opened) rows
      (details-with_session opened) h

-- finishInteraction changes none of the details that getInteractionDetails answers; where there was
-- no interaction it starts an empty one.
pub finish_interaction-details :
    (uid : String) (result : InteractionResult) (merge : Bool) (finished_at : String)
    (rows : List ArtifactRow)
    → (finish_interaction uid result merge finished_at rows).0 ≡ ok tt
    → get_interaction_details uid (finish_interaction uid result merge finished_at rows).1
      ≡ some (details_or_blank uid rows)
unfolding finish_interaction
finish_interaction-details uid result merge finished_at rows h =
    merge_payload-details uid (with_result result merge finished_at) (λ d. d) rows
      (details-with_result result merge finished_at) h
