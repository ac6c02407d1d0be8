-- ===== src/Server/Replay.antt =====
-- internal/server/auth.go: the nonce cache and replays, and the instants at which they happen.
use sund.Prelude.{
  ℕ, ◌+◌, ◌<◌, ◌≤◌, ◌≡◌, refl, true, false, none, some, List, [], ◌∷◌, String, ◌==◌, Bytes, ltb,
  if◌then◌else◌, arith, eq_iff, Bool-cases, inl, inr, All,
}
use sund.Server.Nonces.{Nonces, sweep, seen, put_nonce, is_replay, check_and_add}
use sund.Server.Types.{Library, Request, Server, next}
use sund.Server.Auth.{SigEnvelope, is_signed, nonce_key, verify_and_record, extract_signature}

pub seen-put_nonce :
    (key key' : String) (exp : ℕ) (c : Nonces)
    → seen key' (put_nonce key exp c) ≡ (if key == key' then some exp else seen key' c)
unfolding seen put_nonce
seen-put_nonce key key' exp [] = refl
seen-put_nonce key key' exp ((k, e) ∷ c) =
    ground (arith, eq_iff k key, eq_iff k key', eq_iff key key', seen-put_nonce key key' exp c)

-- An entry that has not expired outlives the sweep.
seen-sweep :
    (now : ℕ) (key : String) (exp : ℕ) (c : Nonces)
    → seen key c ≡ some exp
    → now ≤ exp
    → seen key (sweep now c) ≡ some exp
unfolding seen sweep
seen-sweep now key exp [] e h = e
seen-sweep now key exp ((k, x) ∷ c) e h = ground (arith, seen-sweep now key exp c)

-- One call of checkAndAdd: the key, its expiry and the instant.
abbrev pub Check : Type 0
Check = String × ℕ × ℕ

unfoldable pub check_all : List Check → Nonces → Nonces
check_all [] c = c
check_all ((key, exp, now) ∷ calls) c = check_all calls (check_and_add key exp now c).1

-- A remembered key is refused before its expiry, and stays remembered.
refused :
    (key : String) (exp exp' now : ℕ) (c : Nonces)
    → seen key c ≡ some exp
    → now < exp
    → (check_and_add key exp' now c).0 ≡ false
unfolding check_and_add
refused key exp exp' now c e h = ground (arith, seen-sweep now key exp c)

remembered :
    (key key' : String) (exp exp' now : ℕ) (c : Nonces)
    → seen key c ≡ some exp
    → now < exp
    → seen key (check_and_add key' exp' now c).1 ≡ some exp
unfolding check_and_add
remembered key key' exp exp' now c e h =
    ground
      (arith, seen-sweep now key exp c, eq_iff key' key, seen-put_nonce key' key exp' (sweep now c))

remembered-All :
    (key : String) (exp : ℕ) (calls : List Check) (c : Nonces)
    → seen key c ≡ some exp
    → All (λ (k : Check). k.2 < exp) calls
    → seen key (check_all calls c) ≡ some exp
unfolding check_all
remembered-All key exp [] c e h = e
remembered-All key exp ((k, x, now) ∷ calls) c e h =
    remembered-All key exp calls _ (remembered key k exp x now c e h.0) h.1

accepted :
    (key : String) (exp now : ℕ) (c : Nonces)
    → (check_and_add key exp now c).0 ≡ true
    → seen key (check_and_add key exp now c).1 ≡ some exp
unfolding check_and_add
accepted key exp now c h = ground (arith, seen-put_nonce key key exp (sweep now c), eq_iff key key)

-- A key that was accepted is refused at every instant before its expiry, whatever other keys and
-- repetitions the cache is asked for in between, as long as those calls too come before the expiry.
pub replay_refused :
    (key : String) (exp exp' now later : ℕ) (calls : List Check) (c : Nonces)
    → (check_and_add key exp now c).0 ≡ true
    → All (λ (k : Check). k.2 < exp) calls
    → later < exp
    → (check_and_add key exp' later (check_all calls (check_and_add key exp now c).1)).0 ≡ false
replay_refused key exp exp' now later calls c h before late =
    refused key exp exp' later _ (remembered-All key exp calls _ (accepted key exp now c h) before)
      late

-- Every entry of the key has expired.
abbrev Over : String → ℕ → Nonces → Type 0
Over key now [] = Unit
Over key now ((k, e) ∷ c) = ((k == key) ≡ true → e ≤ now) × Over key now c

Over-sweep :
    (key : String) (now later : ℕ) (c : Nonces) → Over key later c → Over key later (sweep now c)
unfolding sweep
Over-sweep key now later [] o = tt
Over-sweep key now later ((k, e) ∷ c) o = elim (Bool-cases (ltb e now)) [
  | inl t ↦ rw t (Over-sweep key now later c o.1)
  | inr t ↦ rw t (o.0, Over-sweep key now later c o.1)
]

Over-put_nonce :
    (key : String) (exp now : ℕ) (c : Nonces)
    → seen key c ≡ none
    → exp ≤ now
    → Over key now (put_nonce key exp c)
unfolding put_nonce seen
Over-put_nonce key exp now [] n h = (λ _. h, tt)
Over-put_nonce key exp now ((k, e) ∷ c) n h = elim (Bool-cases (k == key)) [
  | inl t ↦ cc (let found : some e ≡ none = rw t at n in found)
  | inr t ↦ rw t ((λ u. cc (t, u)), Over-put_nonce key exp now c (rw t at n) h)
]

seen-sweep-none :
    (now : ℕ) (key : String) (c : Nonces) → seen key c ≡ none → seen key (sweep now c) ≡ none
unfolding seen sweep
seen-sweep-none now key [] n = refl
seen-sweep-none now key ((k, e) ∷ c) n = ground (arith, seen-sweep-none now key c)

Over-is_replay :
    (key : String) (now : ℕ) (c : Nonces) → Over key now c → is_replay now (seen key c) ≡ false
unfolding seen is_replay
Over-is_replay key now [] o = refl
Over-is_replay key now ((k, e) ∷ c) o = ground (arith, o.0, Over-is_replay key now c o.1)

-- A new key is accepted.
fresh :
    (key : String) (exp now : ℕ) (c : Nonces)
    → seen key c ≡ none
    → (check_and_add key exp now c).0 ≡ true
unfolding check_and_add
fresh key exp now c n = ground (arith, seen-sweep-none now key c)

-- From its expiry on a key is accepted again.
accepted_again :
    (key : String) (exp exp' now later : ℕ) (c : Nonces)
    → seen key c ≡ none
    → exp ≤ later
    → (check_and_add key exp' later (check_and_add key exp now c).1).0 ≡ true
unfolding check_and_add
accepted_again key exp exp' now later c n h = ground (
  arith,
  seen-sweep-none now key c,
  Over-is_replay key later _ (
      Over-sweep key later later _
        (Over-put_nonce key exp later (sweep now c) (seen-sweep-none now key c n) h)),
)

module _ (lib : Library) (r : Request) (env : SigEnvelope) (principal : String) (key : Bytes) where
  passes :
      (s : Server)
      → is_signed lib r env key ≡ true
      → (check_and_add
          (nonce_key lib principal env.nonce)
          (env.signed_at + s.clock_skew)
          r.time_recorded
          s.nonces).0
        ≡ true
      → (verify_and_record lib r env principal key s).0 ≡ next tt
  unfolding verify_and_record
  passes s signed h = ground arith

  leaves :
      (s : Server)
      → is_signed lib r env key ≡ true
      → (verify_and_record lib r env principal key s).1 ≡ record s {
        nonces =
            (check_and_add
              (nonce_key lib principal env.nonce)
              (env.signed_at + s.clock_skew)
              r.time_recorded
              s.nonces).1;
      }
  unfolding verify_and_record
  leaves s signed = ground arith

  -- The window of the timestamp and the life of the nonce do not meet: a signed request whose
  -- timestamp is checked in time, but whose nonce is looked up at the end of the window or later,
  -- passes, and the same request passes once more.
  pub replay_at_expiry :
      (s : Server)
      → extract_signature lib r s.clock_skew ≡ some env
      → is_signed lib r env key ≡ true
      → seen (nonce_key lib principal env.nonce) s.nonces ≡ none
      → env.signed_at + s.clock_skew ≤ r.time_recorded
      → ((verify_and_record lib r env principal key s).0 ≡ next tt)
        × ((verify_and_record lib r env principal key
              (verify_and_record lib r env principal key s).1).0
            ≡ next tt)
  replay_at_expiry s e signed new late = (
    passes s signed (fresh _ _ _ s.nonces new),
    rw (leaves s signed)
        (passes _ signed (accepted_again _ _ _ r.time_recorded r.time_recorded s.nonces new late)),
  )
