-- ===== src/Login/Active.antt =====
-- The account that bindAccount of packages/domain/src/identity/otp-use-cases.ts answers, as a row of the
-- users.
use labpics_id.Prelude.{
  true, ℕ, ◌≡◌, refl, sym, ◌∙◌, ap, ◌⊎◌, inl, inr, Option, none, some, List, String, ◌==◌, ◌&&◌,
  eq_iff, arith, Bool-cases,
}
use labpics_id.Domain.Email
use labpics_id.Domain.Email.{Email}
use labpics_id.Domain.Ids.{user_id, branded_ok}
use labpics_id.Domain.Result.{Result, ok, thrown, Result-cases}
use labpics_id.Domain.Contract.{SubjectView, SubjectState}
use labpics_id.Sql.{find}
use labpics_id.Tables.{UserRow}
use labpics_id.Login.{
  LoginDb, state_of, is_active, view_of, viewed, view_option, subject_view, find_subject_by_email,
  bound_id, bind_account,
}

ok_some_injective {ℓ} : {A : Type ℓ} {a b : A} → ok (some a) ≡ ok (some b) → a ≡ b
ok_some_injective h = cc

active_state : (at : Option ℕ) (s : SubjectState) → s ≡ state_of at → is_active s ≡ true → at ≡ none
active_state none s e h = refl
active_state (some t) s e h = absurd (let h' = rw e at h in cc)

-- What the view of a row has of it.
pub record Views (row : UserRow) (v : SubjectView) : Type 0 where
  pub same_id : v.id ≡ row.id
  pub same_verified : v.email_verified ≡ row.email_verified
  pub same_state : v.state ≡ state_of row.deactivated_at

-- The row of the email, which is not deactivated, and the account that the challenge names, if it
-- names one.
pub record BoundTo (persisted : Option (Option String)) (email : Email) (users : List UserRow)
    (id : String) : Type 0 where
  pub row : UserRow
  pub is_account : find (λ u. u.email == email.value) users ≡ some row
  pub active : row.deactivated_at ≡ none
  pub same_id : id ≡ row.id
  pub named : (persisted ≡ none) ⊎ (persisted ≡ some (some row.id))

module _ (sha256 lower_case : String → String) (iso : ℕ → String) where
  pub view_option-some :
      (o : Option UserRow) (v : SubjectView)
      → view_option sha256 lower_case iso o ≡ ok (some v)
      → (row : UserRow) × (o ≡ some row) × Views row v
  unfolding subject_view
  view_option-some none v h = absurd (cc)
  view_option-some (some row) v h = go (user_id row.id) refl (Email.from lower_case row.email) h
    where
      go :
          (r : Result String)
          → user_id row.id ≡ r
          → (e : Result Email)
          → viewed sha256 lower_case iso (view_of sha256 lower_case iso row r e) ≡ ok (some v)
          → (x : UserRow) × (some row ≡ some x) × Views x v
      go (thrown f) t e k = absurd (cc)
      go (ok id) t (thrown f) k = absurd (cc)
      go (ok id) t (ok email) k =
          let (id≡, filled) = branded_ok row.id t in
          let same = sym (ok_some_injective k) in
          (
            row,
            refl,
            record {
              same_id = ap (λ (x : SubjectView). x.id) same ∙ id≡;
              same_verified = ap (λ (x : SubjectView). x.email_verified) same;
              same_state = ap (λ (x : SubjectView). x.state) same;
            },
          )

  bound_row :
      (persisted : Option (Option String)) (email : Email) (users : List UserRow) (id : String)
      (found : Option SubjectView)
      → find_subject_by_email sha256 lower_case iso email users ≡ ok found
      → bound_id sha256 lower_case iso persisted found ≡ some id
      → BoundTo persisted email users id
  unfolding find_subject_by_email
  bound_row (some none) email users id found h k = absurd (cc)
  bound_row none email users id none h k = absurd (cc)
  bound_row (some (some i)) email users id none h k = absurd (cc)
  bound_row none email users id (some v) h k =
      let (row, is_row, views) = view_option-some (find (λ u. u.email == email.value) users) v h in
      elim (Bool-cases (is_active v.state)) [
        | inr off ↦ absurd (let k' = rw off at k in cc)
        | inl on ↦
            let k' : some v.id ≡ some id = rw on at k in
            let same : v.id ≡ id = cc in
            record {
              row = row;
              is_account = is_row;
              active = active_state row.deactivated_at v.state views.same_state on;
              same_id = sym same ∙ views.same_id;
              named = inl refl;
            }
      ]
  bound_row (some (some i)) email users id (some v) h k =
      let (row, is_row, views) = view_option-some (find (λ u. u.email == email.value) users) v h in
      elim (Bool-cases (is_active v.state && v.id == i)) [
        | inr off ↦ absurd (let k' = rw off at k in cc)
        | inl on ↦
            let k' : some v.id ≡ some id = rw on at k in
            let same : v.id ≡ id = cc in
            let is_on : is_active v.state ≡ true = ground (arith, on) in
            let is_named : v.id ≡ i = grind (arith, eq_iff v.id i, on) in
            record {
              row = row;
              is_account = is_row;
              active = active_state row.deactivated_at v.state views.same_state is_on;
              same_id = sym same ∙ views.same_id;
              named = inr (ap (λ x. some (some x)) (sym is_named ∙ views.same_id));
            }
      ]

  -- The account that is answered is bound so.
  pub bind_account-BoundTo :
      (persisted : Option (Option String)) (email : Email) (db : LoginDb) (id : String)
      → (bind_account sha256 lower_case iso persisted email db).0 ≡ ok (some id)
      → BoundTo persisted email db.users id
  unfolding bind_account
  bind_account-BoundTo (some none) email db id h = absurd (cc)
  bind_account-BoundTo none email db id h =
      elim (Result-cases (find_subject_by_email sha256 lower_case iso email db.users)) [
        | inr bad ↦ absurd (let h' = rw bad.1 at h in cc)
        | inl good ↦ let h' = rw good.1 at h in bound_row none email db.users id good.0 good.1 (cc)
      ]
  bind_account-BoundTo (some (some i)) email db id h =
      elim (Result-cases (find_subject_by_email sha256 lower_case iso email db.users)) [
        | inr bad ↦ absurd (let h' = rw bad.1 at h in cc)
        | inl good ↦
            let h' = rw good.1 at h in
            bound_row (some (some i)) email db.users id good.0 good.1 (cc)
      ]
