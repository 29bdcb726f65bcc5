-- ===== src/Identity/Tokens.antt =====
-- Tokens of packages/db/src/identity-adapter.ts: each is consumed once.
use labpics_id.Prelude.{
  ℕ, ◌≤◌, ◌≡◌, refl, ap, false, none, List, [], ◌∷◌, String, first, arith, Bool-cases, inl, inr,
}
use labpics_id.Sql.{select, delete}
use labpics_id.Domain.Result.{ok}
use labpics_id.Domain.Ports.{TokenPurpose}
use labpics_id.Tables.{VerificationTokenRow}
use labpics_id.Identity.{redeemable, consume_token, token_owner}

still-redeemable :
    (digest : String) (now later : ℕ) (row : VerificationTokenRow)
    → now ≤ later
    → redeemable digest now row ≡ false
    → redeemable digest later row ≡ false
unfolding redeemable
still-redeemable digest now later row le h = ground arith

select-delete :
    (digest : String) (now later : ℕ) (rows : List VerificationTokenRow)
    → now ≤ later
    → select (redeemable digest later) (delete (redeemable digest now) rows) ≡ []
unfolding select delete
select-delete digest now later [] le = refl
select-delete digest now later (row ∷ rows) le = elim (Bool-cases (redeemable digest now row)) [
  | inl e ↦ rw e (select-delete digest now later rows le)
  | inr e ↦
      rw (e, still-redeemable digest now later row le e) (select-delete digest now later rows le)
]

-- A token that has been presented once is worth nothing from then on: presented again, for any
-- purpose and at no earlier time, it names no subject.
pub consume_token_once :
    (purpose again : TokenPurpose) (digest : String) (now later : ℕ)
    (rows : List VerificationTokenRow)
    → now ≤ later
    → (consume_token again digest later (consume_token purpose digest now rows).1).0 ≡ ok none
unfolding consume_token
consume_token_once purpose again digest now later rows le =
    ap (λ found. token_owner again (first found)) (select-delete digest now later rows le)
