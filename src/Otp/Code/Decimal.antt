-- ===== src/Otp/Code/Decimal.antt =====
-- A text of digits read as a number, to which the padded codes of packages/db/src/otp-code.ts are
-- compared.
use Prim.Native.Char.{Char, code}
use Prim.Native.String.append
use Prim.Native.String.{[], ◌∷◌, ◌++◌, count}
use Prim.Native.String.count
use labpics_id.Prelude.{
  ℕ, zero, suc, ◌+◌, ◌-◌, ◌*◌, ◌/◌, ◌%◌, ◌<◌, ◌≡◌, refl, ap, ◌∙◌, String, arith,
}
use labpics_id.Otp.Code.{digit, six_digits, code_space}

-- The number that a text of decimal digits writes, after the digits of `read`.
unfoldable pub decimal_from : (read : ℕ) → String → ℕ
decimal_from read String.[] = read
decimal_from read (String.◌∷◌ c s) = decimal_from (read * 10 + (code c - 48)) s

unfoldable pub decimal : String → ℕ
unfolding decimal_from
decimal s = decimal_from 0 s

-- The text of a digit is the one character of its number.
digit-char : (d : ℕ) → d < 10 → (c : Char) × (digit d ≡ c ∷ []) × (code c ≡ 48 + d)
digit-char zero h = ("0", refl, refl)
digit-char (suc zero) h = ("1", refl, refl)
digit-char (suc (suc zero)) h = ("2", refl, refl)
digit-char (suc (suc (suc zero))) h = ("3", refl, refl)
digit-char (suc (suc (suc (suc zero)))) h = ("4", refl, refl)
digit-char (suc (suc (suc (suc (suc zero))))) h = ("5", refl, refl)
digit-char (suc (suc (suc (suc (suc (suc zero)))))) h = ("6", refl, refl)
digit-char (suc (suc (suc (suc (suc (suc (suc zero))))))) h = ("7", refl, refl)
digit-char (suc (suc (suc (suc (suc (suc (suc (suc zero)))))))) h = ("8", refl, refl)
digit-char (suc (suc (suc (suc (suc (suc (suc (suc (suc zero))))))))) h = ("9", refl, refl)
digit-char (suc (suc (suc (suc (suc (suc (suc (suc (suc (suc d)))))))))) h = absurd (omega arith)

-- A digit in front is the next of the number, and one character.
digit-append :
    (d read : ℕ) (s : String)
    → d < 10
    → (decimal_from read (digit d ++ s) ≡ decimal_from (read * 10 + d) s)
      × (count (digit d ++ s) ≡ 1 + count s)
unfolding decimal_from
digit-append d read s h =
    let (c, same, value) = digit-char d h in
    let joined : (c ∷ []) ++ s ≡ c ∷ s = append.cons c [] s ∙ ap (λ t. c ∷ t) (append.nil s) in
    let next : read * 10 + (code c - 48) ≡ read * 10 + d = omega (arith, value) in
    rw (same, joined) (ap (λ n. decimal_from n s) next, count.cons c s ∙ omega arith)

digit-last :
    (d read : ℕ) → d < 10 → (decimal_from read (digit d) ≡ read * 10 + d) × (count (digit d) ≡ 1)
unfolding decimal_from
digit-last d read h =
    let (c, same, value) = digit-char d h in
    rw same (omega (arith, value), count.cons c [] ∙ ap suc count.nil)

six_read :
    (a b c d e f : ℕ)
    → (a < 10) × (b < 10) × (c < 10) × (d < 10) × (e < 10) × (f < 10)
    → let text = digit a ++ (digit b ++ (digit c ++ (digit d ++ (digit e ++ digit f)))) in
      (decimal text ≡ a * 100000 + b * 10000 + c * 1000 + d * 100 + e * 10 + f) × (count text ≡ 6)
unfolding decimal
six_read a b c d e f (ha, hb, hc, hd, he, hf) =
    let (ra, na) = digit-append a 0 _ ha in
    let (rb, nb) = digit-append b (0 * 10 + a) _ hb in
    let (rc, nc) = digit-append c ((0 * 10 + a) * 10 + b) _ hc in
    let (rd, nd) = digit-append d (((0 * 10 + a) * 10 + b) * 10 + c) _ hd in
    let (re, ne) = digit-append e ((((0 * 10 + a) * 10 + b) * 10 + c) * 10 + d) (digit f) he in
    let (rf, nf) = digit-last f (((((0 * 10 + a) * 10 + b) * 10 + c) * 10 + d) * 10 + e) hf in
    (ra ∙ rb ∙ rc ∙ rd ∙ re ∙ rf ∙ omega arith, omega (arith, na, nb, nc, nd, ne, nf))

-- The padded text of a number below the code space writes that number, with six characters.
pub six_digits-decimal :
    (c : ℕ) → c < code_space → (decimal (six_digits c) ≡ c) × (count (six_digits c) ≡ 6)
unfolding decimal six_digits
six_digits-decimal c h =
    let (reads, long) =
      six_read (c / 100000 % 10) (c / 10000 % 10) (c / 1000 % 10) (c / 100 % 10) (c / 10 % 10)
        (c % 10) (omega arith, omega arith, omega arith, omega arith, omega arith, omega arith) in
    (reads ∙ omega arith, long)
