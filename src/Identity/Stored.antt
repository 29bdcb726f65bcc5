-- ===== src/Identity/Stored.antt =====
-- Tokens of packages/db/src/identity-adapter.ts: what storeToken stores, consumeToken answers.
use Prim.Native.Char.{code}
use Prim.Native.String
use Prim.Native.String.append
use labpics_id.Prelude.{
  first, leb, if◌then◌else◌, ℕ, ◌<◌, String, ◌≡◌, refl, ◌∙◌, true, ◌&&◌, none, some, List, arith,
  eq_refl,
}
use labpics_id.Sql.{select, insert, find}
use labpics_id.Sql.Rows.{first-select, find-insert}
use labpics_id.Domain.Result.{ok}
use labpics_id.Domain.Ids.{user_id}
use labpics_id.Domain.Ports.{TokenPurpose}
use labpics_id.Tables.{VerificationTokenRow}
use labpics_id.Identity.{
  identified, purpose_prefix, store_token, slice_after, redeemable, consume_token,
}

slice_after-append : (p s : String) → slice_after p (String.◌++◌ p s) ≡ some s
unfolding slice_after
slice_after-append String.[] s = rw (append.nil s) refl
slice_after-append (String.◌∷◌ c p) s =
    rw (append.cons c p s) (rw (slice_after-append p s) (same_code (code c)))
  where
    same_code : (n : ℕ) → (if leb n n && leb n n then some s else none) ≡ some s
    same_code n = ground arith

redeemable-stored :
    (row : VerificationTokenRow) (now : ℕ)
    → now < row.expires_at
    → redeemable row.value now row ≡ true
unfolding redeemable
redeemable-stored row now lt = rw (eq_refl row.value) (ground arith)

-- A token that is stored for an account names it when it is presented in time for its purpose, if no
-- other token with its digest is live.
pub consume_token-store_token :
    (id subject_id : String) (purpose : TokenPurpose) (digest : String) (expires_at now : ℕ)
    (rows : List VerificationTokenRow)
    → now < expires_at
    → user_id subject_id ≡ ok subject_id
    → find (redeemable digest now) rows ≡ none
    → (consume_token purpose digest now
        (store_token id subject_id purpose digest expires_at rows)).0
      ≡ ok (some subject_id)
unfolding consume_token store_token
consume_token-store_token id subject_id purpose digest expires_at now rows live named free =
    let row : VerificationTokenRow = record {
      id = id;
      identifier = String.◌++◌ (purpose_prefix purpose) subject_id;
      value = digest;
      expires_at = expires_at;
    } in
    let picked : first (select (redeemable digest now) (insert row rows)) ≡ some row =
      first-select (redeemable digest now) (insert row rows)
      ∙ find-insert (redeemable digest now) row rows
      ∙ rw (free, redeemable-stored row now live) refl in
    rw picked (rw (slice_after-append (purpose_prefix purpose) subject_id, identified, named) refl)
