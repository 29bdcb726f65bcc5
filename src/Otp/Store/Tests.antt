-- ===== src/Otp/Store/Tests.antt =====
-- Runs of packages/db/src/otp-challenge-store.ts on two challenges, and the theorems at them. The
-- digest is the text itself.
use labpics_id.Prelude.{◌≡◌, refl, ◌≤◌, some, List, [], ◌∷◌, String}
use labpics_id.Sql.Keyed.{row_of, IsUnique}
use labpics_id.Sql.{returning}
use labpics_id.Domain.Result.{ok}
use labpics_id.Domain.Email
use labpics_id.Domain.Email.{Email}
use labpics_id.Domain.Ids.{branded}
use labpics_id.Domain.OtpContract.{
  OtpChallengeRecord, CreateOtpChallengeInput, ConsumeOtpChallengeInput, consumed, email_otp_login,
}
use labpics_id.Otp.Store.{OtpRow, digest_of, create, consume, row_for, wins, won}
use labpics_id.Otp.Store.Judge.{Refines, consume-Refines}
use labpics_id.Otp.Store.History.{Event, creates, consumes, compared, granted, total, step, run}
use labpics_id.Otp.Store.Bounds.{create_bounds, spent_forever, run-Elsewhere}

abbrev itself : String → String
itself s = s

abbrev challenge : String → CreateOtpChallengeInput
challenge id = record {
  id = id;
  email = record { value = "a@b.co" };
  purpose = email_otp_login;
  account_id = some "u1";
  code_digest = "123456";
  created_at = 1000;
  expires_at = 601000;
  max_attempts = 5;
}

abbrev attempt : String → String → ConsumeOtpChallengeInput
attempt id code = record { id = id; purpose = email_otp_login; code_digest = code; now = 2000 }

abbrev rows : List OtpRow
unfolding row_for
rows = row_for itself itself (challenge "c1") ∷ row_for itself itself (challenge "c2") ∷ []

abbrev given : OtpChallengeRecord
given = record {
  id = "c3";
  email = record { value = "a@b.co" };
  purpose = email_otp_login;
  account_id = some (some "u1");
  code_digest = "123456";
  created_at = 1000;
  expires_at = 601000;
  remaining_attempts = 5;
}

rows-IsUnique : IsUnique digest_of rows
unfolding row_of row_for
rows-IsUnique = (refl, (refl, tt))

consume-Refines_example : Refines itself itself (attempt "c2" "654321") rows
consume-Refines_example = consume-Refines itself itself (attempt "c2" "654321") rows rows-IsUnique

abbrev history : List Event
history =
    consumes (attempt "c3" "000000")
    ∷ creates (challenge "c4")
    ∷ consumes (attempt "c3" "123456")
    ∷ consumes (attempt "c3" "123456")
    ∷ []

created : (create itself itself (challenge "c3") rows).0 ≡ ok given
unfolding create row_of row_for
created = refl

create_bounds_example :
    (total itself itself compared "c3" history (create itself itself (challenge "c3") rows).1 ≤ 5)
    × (total itself itself granted "c3" history (create itself itself (challenge "c3") rows).1 ≤ 1)
create_bounds_example =
    create_bounds itself itself (challenge "c3") rows given history rows-IsUnique created

abbrev winner : OtpChallengeRecord
winner = record {
  id = "c1";
  email = record { value = "a@b.co" };
  purpose = email_otp_login;
  account_id = some (some "u1");
  code_digest = "123456";
  created_at = 1000;
  expires_at = 601000;
  remaining_attempts = 5;
}

won_first : (consume itself itself (attempt "c1" "123456") rows).0 ≡ ok (consumed winner)
unfolding consume wins row_for won Email.from Email.trim Email.email_pattern Email.utf16_length
    branded returning
won_first = refl

spent_forever_example :
    total itself itself compared "c1"
      (consumes (attempt "c1" "123456") ∷ history)
      (step itself itself (consumes (attempt "c1" "123456")) rows)
    ≡ 0
spent_forever_example =
    spent_forever itself itself (attempt "c1" "123456") rows winner
      (consumes (attempt "c1" "123456") ∷ history) rows-IsUnique won_first

second : row_of digest_of "c2" rows ≡ some (row_for itself itself (challenge "c2"))
unfolding row_of row_for
second = refl

run-Elsewhere_example :
    row_of digest_of "c2" (run itself itself history rows)
    ≡ some (row_for itself itself (challenge "c2"))
run-Elsewhere_example =
    run-Elsewhere itself itself "c2" history rows (row_for itself itself (challenge "c2"))
      rows-IsUnique second (refl, (tt, (refl, (refl, tt))))
