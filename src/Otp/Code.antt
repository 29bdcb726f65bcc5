-- ===== src/Otp/Code.antt =====
-- packages/db/src/otp-code.ts. The words that crypto.getRandomValues draws are a list; the loop ends
-- at the first word below the limit.
pub mod Decimal
pub mod Uniform
mod Tests
use Prim.Native.String.{◌++◌ as append}
use labpics_id.Prelude.{
  ℕ, ◌*◌, ◌/◌, ◌%◌, ◌^◌, ◌≡◌, refl, Option, none, some, List, [], ◌∷◌, String, ltb, if◌then◌else◌,
}

abbrev pub code_space : ℕ
code_space = 10 ^ 6

-- The largest multiple of the code space among the 32-bit words.
abbrev pub limit : ℕ
limit = 2 ^ 32 / code_space * code_space

abbrev pub digit : ℕ → String
digit d =
    if ltb d 1
    then "0"
    else if ltb d 2
    then "1"
    else if ltb d 3
    then "2"
    else if ltb d 4
    then "3"
    else if ltb d 5
    then "4"
    else if ltb d 6
    then "5"
    else if ltb d 7
    then "6"
    else if ltb d 8
    then "7"
    else if ltb d 9
    then "8"
    else "9"

-- `toString().padStart(6, "0")` of a number below the code space: its six decimal digits.
unfoldable pub six_digits : ℕ → String
six_digits v = append (digit (v / 100000 % 10)) (
    append (digit (v / 10000 % 10)) (
      append (digit (v / 1000 % 10))
        (append (digit (v / 100 % 10)) (append (digit (v / 10 % 10)) (digit (v % 10))))))

unfoldable pub random_code : List ℕ → Option String
random_code [] = none
random_code (word ∷ words) =
    let rest = random_code words in
    if ltb word limit then some (six_digits (word % code_space)) else rest

-- RandomOtpCodePort.generate: the code with its digest.
unfoldable pub generate : (String → String) → List ℕ → Option (String × String)
generate sha256 words = elim (random_code words) [
  | none ↦ none
  | some code ↦ some (code, sha256 code)
]

random_code_tests :
    (random_code (4294967295 ∷ 1000042 ∷ []) ≡ some "000042")
    × (random_code (4294000000 ∷ []) ≡ none)
unfolding random_code six_digits
random_code_tests = (refl, refl)
