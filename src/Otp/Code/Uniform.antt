-- ===== src/Otp/Code/Uniform.antt =====
-- The codes of packages/db/src/otp-code.ts are equally likely: each comes from equally many words.
use labpics_id.Prelude.{
  inl, inr, Bool-cases, ap, String, sym, ltb, All, ℕ, ◌+◌, ◌*◌, ◌/◌, ◌%◌, ◌≤◌, ◌<◌, ◌≡◌, refl, ◌∙◌,
  ◌↔◌, true, false, some, List, [], ◌∷◌, ◌++◌, arith,
}
use Prim.Native.String.{count}
use labpics_id.Otp.Code.Decimal.{decimal, six_digits-decimal}
use labpics_id.Otp.Code.{code_space, limit, six_digits, random_code}

-- How many words each code comes from.
abbrev pub words_per_code : ℕ
words_per_code = 4294

word_accepted :
    (k c : ℕ)
    → k < words_per_code
    → c < code_space
    → (ltb (k * code_space + c) limit ≡ true) × ((k * code_space + c) % code_space ≡ c)
word_accepted k c hk hc = (ground arith, omega arith)

skips_refused :
    (refused rest : List ℕ) (w : ℕ)
    → All (λ r. limit ≤ r) refused
    → random_code (refused ++ w ∷ rest) ≡ random_code (w ∷ rest)
unfolding random_code
skips_refused [] rest w h = refl
skips_refused (r ∷ refused) rest w h =
    let above : ltb r limit ≡ false = ground (arith, h.0) in
    rw above (skips_refused refused rest w h.1)

coded :
    (c w : ℕ)
    → c < code_space
    → (random_code (w ∷ []) ≡ some (six_digits c)
        ↔ ((j : ℕ) × (j < words_per_code) × (w ≡ j * code_space + c)))
unfolding random_code
coded c w hc = (from_code, to_code)
  where
    same_number : (a : ℕ) → a < code_space → some (six_digits a) ≡ some (six_digits c) → a ≡ c
    same_number a ha e =
        let texts : six_digits a ≡ six_digits c = cc in
        sym (six_digits-decimal a ha).0 ∙ ap decimal texts ∙ (six_digits-decimal c hc).0

    from_code :
        random_code (w ∷ []) ≡ some (six_digits c)
        → (j : ℕ) × (j < words_per_code) × (w ≡ j * code_space + c)
    from_code e = elim (Bool-cases (ltb w limit)) [
      | inr above ↦ absurd (let e' = rw above at e in cc)
      | inl below ↦
          let rest : w % code_space ≡ c =
            same_number (w % code_space) (omega arith) (rw below at e) in
          (w / code_space, ground (arith, below), omega arith)
    ]

    to_code :
        ((j : ℕ) × (j < words_per_code) × (w ≡ j * code_space + c))
        → random_code (w ∷ []) ≡ some (six_digits c)
    to_code (j, small, e) =
        let (below, left) = word_accepted j c small hc in rw (e, below, left) refl

-- For every number below a million there is a code, of six characters that write the number. The
-- words that are answered with that code are the 4294 ones that have the number as the rest and a
-- multiple below 4294: equally many for every number. The loop passes over the words before that
-- are refused, and answers the code of the first such word.
pub random_code-words :
    (refused rest : List ℕ) (c w k : ℕ)
    → All (λ r. limit ≤ r) refused
    → c < code_space
    → k < words_per_code
    → (text : String) × (decimal text ≡ c)
      × (count text ≡ 6)
      × (random_code (w ∷ []) ≡ some text
          ↔ ((j : ℕ) × (j < words_per_code) × (w ≡ j * code_space + c)))
      × (random_code (refused ++ (k * code_space + c) ∷ rest) ≡ some text)
unfolding random_code
random_code-words refused rest c w k h hc hk =
    let (below, left) = word_accepted k c hk hc in
    let (reads, long) = six_digits-decimal c hc in
    (
      six_digits c,
      reads,
      long,
      coded c w hc,
      skips_refused refused rest (k * code_space + c) h ∙ rw (below, left) refl,
    )
