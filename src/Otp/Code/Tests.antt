-- ===== src/Otp/Code/Tests.antt =====
-- A run of packages/db/src/otp-code.ts: a word above the limit, and the word of the code 42.
use labpics_id.Prelude.{String, ℕ, ◌+◌, ◌*◌, ◌<◌, ◌≡◌, ◌↔◌, some, [], ◌∷◌, ◌++◌, arith}
use Prim.Native.String.{count}
use labpics_id.Otp.Code.Decimal.{decimal}
use labpics_id.Otp.Code.{code_space, random_code}
use labpics_id.Otp.Code.Uniform.{words_per_code, random_code-words}

random_code-words_example :
    (text : String) × (decimal text ≡ 42)
    × (count text ≡ 6)
    × (random_code (1_000_042 ∷ []) ≡ some text
        ↔ ((j : ℕ) × (j < words_per_code) × (1_000_042 ≡ j * code_space + 42)))
    × (random_code ((4_294_967_295 ∷ []) ++ (1 * code_space + 42) ∷ []) ≡ some text)
random_code-words_example =
    random_code-words (4_294_967_295 ∷ []) [] 42 1_000_042 1 (omega arith, tt) (omega arith)
      (omega arith)
