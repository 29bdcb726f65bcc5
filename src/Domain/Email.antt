-- ===== src/Domain/Email.antt =====
-- packages/domain/src/value-objects/email.ts. The pattern is read off the regular expression as an
-- automaton, and `length` counts UTF-16 units. `toLowerCase` is Unicode's table, the parameter
-- `lower_case`.
use Prim.Native.Char.{Char, code}
use labpics_id.Prelude.{
  ℕ, ◌+◌, ◌≡◌, refl, Bool, true, false, ◌&&◌, ◌||◌, String, ◌==◌, ltb, leb, if◌then◌else◌,
}
use labpics_id.Domain.Result.{Result, ok, thrown, invalid_email}

pub record Email : Type 0 where
  pub value : String

abbrev max_email_length : ℕ
max_email_length = 254

abbrev code_is : Char → ℕ → Bool
code_is c n = leb (code c) n && leb n (code c)

-- The class `\s`, which `trim` removes too.
is_space : Char → Bool
is_space c =
    (leb 9 (code c) && leb (code c) 13)
    || code_is c 32
    || code_is c 160
    || code_is c 0x1680
    || (leb 0x2000 (code c) && leb (code c) 0x200a)
    || code_is c 0x2028
    || code_is c 0x2029
    || code_is c 0x202f
    || code_is c 0x205f
    || code_is c 0x3000
    || code_is c 0xfeff

trim_start : String → String
trim_start String.[] = String.[]
trim_start (String.◌∷◌ c s) = let rest = trim_start s in if is_space c then rest else String.◌∷◌ c s

trim_end : String → String
trim_end String.[] = String.[]
trim_end (String.◌∷◌ c s) =
    let rest = trim_end s in if is_space c && rest == "" then "" else String.◌∷◌ c rest

unfoldable pub trim : String → String
unfolding trim_start trim_end is_space
trim s = trim_end (trim_start s)

-- `s.length`: a character above the basic plane takes two units.
unfoldable pub utf16_length : String → ℕ
utf16_length String.[] = 0
utf16_length (String.◌∷◌ c s) = (if ltb (code c) 0x10000 then 1 else 2) + utf16_length s

-- How much of `[^\s@]+\.[^\s@]+` the part after the `@` has matched.
pub data Phase : Type 0 where
  nothing label dot accept : Phase

abbrev is_accept : Phase → Bool
is_accept accept = true
is_accept _ = false

abbrev advance : Phase → Bool → Phase
advance nothing is_dot = label
advance label true = dot
advance label false = label
advance dot is_dot = accept
advance accept is_dot = accept

domain_part : Phase → String → Bool
domain_part phase String.[] = is_accept phase
domain_part phase (String.◌∷◌ c s) =
    let rest = domain_part (advance phase (code_is c b'.')) s in
    if is_space c || code_is c b'@' then false else rest

local_part : Bool → String → Bool
local_part seen String.[] = false
local_part seen (String.◌∷◌ c s) =
    let rest = local_part true s in
    if code_is c b'@' then seen && domain_part nothing s else if is_space c then false else rest

-- /^[^\s@]+@[^\s@]+\.[^\s@]+$/
unfoldable pub email_pattern : String → Bool
unfolding local_part domain_part is_space
email_pattern s = local_part false s

module _ (lower_case : String → String) where
  -- Email.from
  unfoldable pub from : String → Result Email
  from raw =
      let normalized = lower_case (trim raw) in
      if normalized == "" || ltb max_email_length (utf16_length normalized)
      then thrown invalid_email
      else if email_pattern normalized
      then ok (record { value = normalized })
      else thrown invalid_email

-- email.equals
unfoldable pub equals : Email → Email → Bool
equals a b = a.value == b.value

from_tests :
    (from (λ s. s) "  a@b.co " ≡ ok (record { value = "a@b.co" }))
    × (from (λ s. s) "a@b." ≡ thrown invalid_email)
    × (from (λ s. s) "a@.b" ≡ thrown invalid_email)
    × (from (λ s. s) "a@@b.c" ≡ thrown invalid_email)
    × (from (λ s. s) "@b.c" ≡ thrown invalid_email)
    × (from (λ s. s) "a@..b" ≡ ok (record { value = "a@..b" }))
unfolding from trim email_pattern utf16_length
from_tests = (refl, refl, refl, refl, refl, refl)
