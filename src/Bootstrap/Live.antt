-- ===== src/Bootstrap/Live.antt =====
-- The tokens that a claim of packages/db/src/first-admin-bootstrap.ts can take.
use labpics_id.Prelude.{◌<◌, eq_iff, none, ℕ, String, ◌≡◌, true, false, arith}
use labpics_id.Bootstrap.{BootstrapTokenRow, ClaimInput, claimable}

module _ (sha256 lower_case : String → String) (iso : ℕ → String) (digest : String → String) where
  -- A token that the claim presents: of its digest and email, neither consumed nor expired.
  pub record IsLive (input : ClaimInput) (t : BootstrapTokenRow) : Type 0 where
    pub same_digest : t.token_digest ≡ digest input.raw_token
    pub same_email : t.email ≡ input.verified_email.value
    pub unused : t.consumed_at ≡ none
    pub unexpired : input.now < t.expires_at

  pub claimable-IsLive :
      (input : ClaimInput) (t : BootstrapTokenRow)
      → claimable sha256 lower_case iso digest input t ≡ true
      → IsLive input t
  unfolding claimable
  claimable-IsLive input t h = record {
    same_digest = grind (arith, eq_iff t.token_digest (digest input.raw_token));
    same_email = grind (arith, eq_iff t.email input.verified_email.value);
    unused = ground arith;
    unexpired = ground arith;
  }

  pub unclaimable-IsLive :
      (input : ClaimInput) (t : BootstrapTokenRow)
      → claimable sha256 lower_case iso digest input t ≡ false
      → ¬ IsLive input t
  unfolding claimable
  unclaimable-IsLive input t h live =
      let d = (eq_iff t.token_digest (digest input.raw_token)).1 live.same_digest in
      let e = (eq_iff t.email input.verified_email.value).1 live.same_email in
      let u = live.unused in
      let l = live.unexpired in absurd (let h' = rw (d, e, u) at h in ground arith)
