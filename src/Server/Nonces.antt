-- ===== src/Server/Nonces.antt =====
-- internal/server/auth.go: nonceCache.
use sund.Prelude.{
  ℕ, Bool, true, false, Option, none, some, List, [], ◌∷◌, String, ◌==◌, ltb, if◌then◌else◌,
}

abbrev pub Nonces : Type 0
Nonces = List (String × ℕ)

-- The loop of checkAndAdd: entries whose expiry is before `now` are deleted.
unfoldable pub sweep : ℕ → Nonces → Nonces
sweep now [] = []
sweep now ((k, exp) ∷ c) = let rest = sweep now c in if ltb exp now then rest else (k, exp) ∷ rest

unfoldable pub seen : String → Nonces → Option ℕ
seen key [] = none
seen key ((k, exp) ∷ c) = if k == key then some exp else seen key c

-- c.seen[key] = expiry
unfoldable pub put_nonce : String → ℕ → Nonces → Nonces
put_nonce key expiry [] = (key, expiry) ∷ []
put_nonce key expiry ((k, exp) ∷ c) =
    let rest = (k, exp) ∷ put_nonce key expiry c in if k == key then (key, expiry) ∷ c else rest

-- A key still within its expiry window is a replay.
unfoldable pub is_replay : ℕ → Option ℕ → Bool
is_replay now none = false
is_replay now (some exp) = ltb now exp

-- checkAndAdd
unfoldable pub check_and_add : String → ℕ → ℕ → Nonces → Bool × Nonces
unfolding sweep seen put_nonce is_replay
check_and_add key expiry now c =
    let c' = sweep now c in
    if is_replay now (seen key c') then (false, c') else (true, put_nonce key expiry c')
