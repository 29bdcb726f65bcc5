-- ===== src/Boundary/ReplayStore.antt =====
-- MemoryReplayStore of packages/contracts/src/boundary-auth.ts: the keys that were seen, each with
-- the time at which it is forgotten. The Map is the list of its entries.
use labpics_id.Prelude.{
  ◌⊎◌, ℕ, ◌≤◌, ◌<◌, ◌≡◌, refl, Bool, true, false, ◌||◌, List, [], ◌∷◌, String, ◌==◌, eq_iff, arith,
  leb, if◌then◌else◌,
}

abbrev pub Seen : Type 0
Seen = List (String × ℕ)

-- The loop that forgets what has expired.
unfoldable pub purge : ℕ → Seen → Seen
purge now [] = []
purge now ((key, expiry) ∷ seen) =
    let rest = purge now seen in if leb expiry now then rest else (key, expiry) ∷ rest

-- #seen.has(key)
unfoldable pub has : String → Seen → Bool
has key [] = false
has key ((k, expiry) ∷ seen) = k == key || has key seen

-- consume(key, expiresAt) at the time `now`; a key that is set is a new one.
unfoldable pub consume : String → ℕ → ℕ → Seen → Bool × Seen
consume key expires_at now seen =
    let live = purge now seen in
    if has key live then (false, live) else (true, (key, expires_at) ∷ live)

-- The key is held, and for longer than `until`.
abbrev pub HeldUntil : String → ℕ → Seen → Type 0
HeldUntil key until [] = ⊥
HeldUntil key until ((k, expiry) ∷ seen) = ((k ≡ key) × (until ≤ expiry)) ⊎ HeldUntil key until seen

pub purge-HeldUntil :
    (key : String) (until now : ℕ) (seen : Seen)
    → now < until
    → HeldUntil key until seen
    → HeldUntil key until (purge now seen)
unfolding purge
purge-HeldUntil key until now [] h held = held
purge-HeldUntil key until now ((k, expiry) ∷ seen) h held =
    ground (arith, purge-HeldUntil key until now seen h)

pub has_of_HeldUntil :
    (key : String) (until : ℕ) (seen : Seen) → HeldUntil key until seen → has key seen ≡ true
unfolding has
has_of_HeldUntil key until [] held = absurd held
has_of_HeldUntil key until ((k, expiry) ∷ seen) held =
    ground (arith, has_of_HeldUntil key until seen, eq_iff k key)

-- A key that the store does not hold after a purge is not in what it held for longer.
pub has-purge_absent :
    (key : String) (now : ℕ) (seen : Seen) → has key seen ≡ false → has key (purge now seen) ≡ false
unfolding has purge
has-purge_absent key now [] h = refl
has-purge_absent key now ((k, expiry) ∷ seen) h = ground (arith, has-purge_absent key now seen)

pub consume-HeldUntil :
    (key other : String) (until expires_at now : ℕ) (seen : Seen)
    → now < until
    → HeldUntil key until seen
    → HeldUntil key until (consume other expires_at now seen).1
unfolding consume
consume-HeldUntil key other until expires_at now seen h held =
    ground (arith, purge-HeldUntil key until now seen h held)
