-- ===== src/Boundary/Header.antt =====
-- The two regular expressions of packages/contracts/src/boundary-auth.ts, as functions.
use Prim.Native.Char.{Char, code}
use Prim.Native.String
use Prim.Native.String.{count}
use labpics_id.Prelude.{
  ℕ, ◌≡◌, refl, Bool, true, false, ◌&&◌, ◌||◌, Option, none, some, String, leb, if◌then◌else◌,
}

abbrev pub boundary_auth_scheme : String
boundary_auth_scheme = "Labpics-HMAC-SHA256"

abbrev code_is : Char → ℕ → Bool
code_is c n = leb (code c) n && leb n (code c)

-- [A-Za-z0-9_-]
is_url_safe : Char → Bool
is_url_safe c =
    (leb b'A' (code c) && leb (code c) b'Z')
    || (leb b'a' (code c) && leb (code c) b'z')
    || (leb b'0' (code c) && leb (code c) b'9')
    || code_is c b'_'
    || code_is c b'-'

-- [A-Za-z0-9._~-]
is_unreserved : Char → Bool
is_unreserved c = is_url_safe c || code_is c b'.' || code_is c b'~'

all_chars : (Char → Bool) → String → Bool
all_chars p String.[] = true
all_chars p (String.◌∷◌ c s) = p c && all_chars p s

-- The rest of a text after a prefix.
after_prefix : String → String → Option String
after_prefix String.[] s = some s
after_prefix (String.◌∷◌ p ps) String.[] = none
after_prefix (String.◌∷◌ p ps) (String.◌∷◌ c s) =
    if code_is c (code p) then after_prefix ps s else none

-- The parts before and after the first colon.
split_colon : String → String → Option (String × String)
split_colon before String.[] = none
split_colon before (String.◌∷◌ c s) =
    let longer = split_colon (String.◌++◌ before (String.◌∷◌ c String.[])) s in
    if code_is c b':' then some (before, s) else longer

abbrev checked : Option (String × String) → Option (String × String)
checked none = none
checked (some (id, signature)) =
    if all_chars is_unreserved id
      && leb 1 (count id)
      && leb (count id) 128
      && all_chars is_url_safe signature
      && leb 43 (count signature)
      && leb (count signature) 43
    then some (id, signature)
    else none

-- AUTHORIZATION_PATTERN.exec: the credential's id and the signature. No colon is in either class.
unfoldable pub parse_authorization : String → Option (String × String)
unfolding after_prefix split_colon all_chars is_url_safe is_unreserved
parse_authorization header = elim (after_prefix "Labpics-HMAC-SHA256 " header) [
  | none ↦ none
  | some rest ↦ checked (split_colon "" rest)
]

-- NONCE_PATTERN.test
unfoldable pub nonce_pattern : String → Bool
unfolding all_chars is_url_safe
nonce_pattern nonce = all_chars is_url_safe nonce && leb 22 (count nonce) && leb (count nonce) 128

parse_tests :
    (parse_authorization "Labpics-HMAC-SHA256 w.1:aaaaaaaaaabbbbbbbbbbccccccccccdddddddddd123"
      ≡ some ("w.1", "aaaaaaaaaabbbbbbbbbbccccccccccdddddddddd123"))
    × (parse_authorization "Labpics-HMAC-SHA256 w.1:short" ≡ none)
    × (parse_authorization "Bearer w" ≡ none)
    × (nonce_pattern "aaaaaaaaaabbbbbbbbbbcc" ≡ true)
    × (nonce_pattern "aaaaaaaaaabbbbbbbbbb+c" ≡ false)
unfolding parse_authorization nonce_pattern
parse_tests = (refl, refl, refl, refl, refl)
