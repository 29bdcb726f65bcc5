-- ===== src/Identity/Tests.antt =====
-- A verification token of packages/db/src/identity-adapter.ts that is presented twice.
use labpics_id.Prelude.{◌≡◌, refl, none, some, List, [], arith}
use labpics_id.Sql.{select, insert}
use labpics_id.Domain.Result.{ok}
use labpics_id.Domain.Ids.{branded}
use labpics_id.Domain.Ports.{email_verification, password_reset}
use labpics_id.Tables.{VerificationTokenRow}
use labpics_id.Identity.{consume_token, store_token, redeemable, slice_after}
use labpics_id.Identity.Tokens.{consume_token_once}

abbrev tokens : List VerificationTokenRow
unfolding store_token
tokens = store_token "t1" "u1" email_verification "d" 5000 []

consumed_first : (consume_token email_verification "d" 1000 tokens).0 ≡ ok (some "u1")
unfolding consume_token store_token insert select redeemable slice_after branded
consumed_first = refl

consume_token_once_example :
    (consume_token password_reset "d" 2000 (consume_token email_verification "d" 1000 tokens).1).0
    ≡ ok none
consume_token_once_example =
    consume_token_once email_verification password_reset "d" 1000 2000 tokens (omega arith)
