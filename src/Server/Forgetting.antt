-- ===== src/Server/Forgetting.antt =====
-- internal/server/auth.go: the nonce cache against one that never forgets.
use sund.Prelude.{
  ℕ, ◌≤◌, ◌≡◌, refl, ap, ◌∙◌, Bool, true, false, Option, none, some, List, [], ◌∷◌, String, ◌==◌,
  ltb, if◌then◌else◌, arith, eq_iff, Bool-cases, inl, inr,
}
use sund.Server.Nonces.{Nonces, sweep, seen, put_nonce, is_replay, check_and_add}
use sund.Server.Replay.{Check, seen-put_nonce}

-- The specification: every key is remembered with its last expiry, and nothing is deleted.
unfoldable pub remember : String → ℕ → ℕ → Nonces → Bool × Nonces
remember key expiry now c =
    if is_replay now (seen key c) then (false, c) else (true, put_nonce key expiry c)

-- The answers to a list of calls.
unfoldable pub answers : (String → ℕ → ℕ → Nonces → Bool × Nonces) → List Check → Nonces → List Bool
answers step [] c = []
answers step ((key, exp, now) ∷ calls) c =
    (step key exp now c).0 ∷ answers step calls (step key exp now c).1

-- The instants of the calls do not go back.
abbrev pub IsForward : ℕ → List Check → Type 0
IsForward t [] = Unit
IsForward t ((key, exp, now) ∷ calls) = (t ≤ now) × IsForward now calls

-- A key stands in the map once.
abbrev Distinct : Nonces → Type 0
Distinct [] = Unit
Distinct ((k, e) ∷ c) = (seen k c ≡ none) × Distinct c

abbrev unexpired : ℕ → Option ℕ → Option ℕ
unexpired now none = none
unexpired now (some e) = if ltb e now then none else some e

seen-swept :
    (now : ℕ) (key : String) (c : Nonces)
    → Distinct c
    → seen key (sweep now c) ≡ unexpired now (seen key c)
unfolding seen sweep
seen-swept now key [] d = refl
seen-swept now key ((k, e) ∷ c) d = ground (arith, seen-swept now key c d.1, eq_iff k key)

sweep-Distinct : (now : ℕ) (c : Nonces) → Distinct c → Distinct (sweep now c)
unfolding sweep
sweep-Distinct now [] d = tt
sweep-Distinct now ((k, e) ∷ c) d = elim (Bool-cases (ltb e now)) [
  | inl h ↦ rw h (sweep-Distinct now c d.1)
  | inr h ↦ rw h (seen-swept now k c d.1 ∙ ap (unexpired now) d.0, sweep-Distinct now c d.1)
]

put_nonce-Distinct :
    (key : String) (exp : ℕ) (c : Nonces) → Distinct c → Distinct (put_nonce key exp c)
unfolding put_nonce seen
put_nonce-Distinct key exp [] d = (refl, tt)
put_nonce-Distinct key exp ((k, e) ∷ c) d = elim (Bool-cases (k == key)) [
  | inl h ↦ rw h (ground (arith, eq_iff k key, d.0), d.1)
  | inr h ↦ rw h (
    ground (arith, eq_iff k key, eq_iff key k, d.0, seen-put_nonce key k exp c),
    put_nonce-Distinct key exp c d.1,
  )
]

-- The two maps answer alike from the instant `t` on.
abbrev Agree : ℕ → Nonces → Nonces → Type 0
Agree t c c' =
    (key : String) (now : ℕ) → t ≤ now → is_replay now (seen key c) ≡ is_replay now (seen key c')

replay-swept :
    (t now : ℕ) (key : String) (c : Nonces)
    → Distinct c
    → t ≤ now
    → is_replay now (seen key (sweep t c)) ≡ is_replay now (seen key c)
unfolding is_replay
replay-swept t now key c d h = rw (seen-swept t key c d) (forgotten (seen key c))
  where
    forgotten : (o : Option ℕ) → is_replay now (unexpired t o) ≡ is_replay now o
    forgotten none = refl
    forgotten (some e) = ground arith

module _ (t now : ℕ) (key : String) (exp : ℕ) (c c' : Nonces) (d : Distinct c) (a : Agree t c c')
    (h : t ≤ now) where
  step-same : (check_and_add key exp now c).0 ≡ (remember key exp now c').0
  unfolding check_and_add remember
  step-same = ground (arith, replay-swept now now key c d, a key now h)

  step-Distinct : Distinct (check_and_add key exp now c).1
  unfolding check_and_add
  step-Distinct = elim (Bool-cases (is_replay now (seen key (sweep now c)))) [
    | inl e ↦ rw e (sweep-Distinct now c d)
    | inr e ↦ rw e (put_nonce-Distinct key exp (sweep now c) (sweep-Distinct now c d))
  ]

  step-Agree : Agree now (check_and_add key exp now c).1 (remember key exp now c').1
  unfolding check_and_add remember
  step-Agree other later k = ground (
    arith,
    replay-swept now now key c d,
    replay-swept now later other c d,
    a key now h,
    a other later,
    eq_iff key other,
    seen-put_nonce key other exp (sweep now c),
    seen-put_nonce key other exp c',
  )

same_answers :
    (calls : List Check) (t : ℕ) (c c' : Nonces)
    → Distinct c
    → Agree t c c'
    → IsForward t calls
    → answers check_and_add calls c ≡ answers remember calls c'
unfolding answers
same_answers [] t c c' d a f = refl
same_answers ((key, exp, now) ∷ calls) t c c' d a f = cc (
  step-same t now key exp c c' d a f.0,
  same_answers calls now _ _ (step-Distinct t now key exp c c' d a f.0)
      (step-Agree t now key exp c c' d a f.0) f.1,
)

-- As long as the clock does not go back, the cache that deletes expired entries at each call gives
-- the same answers as one that never deletes any.
pub check_and_add-remember :
    (calls : List Check)
    → IsForward 0 calls
    → answers check_and_add calls [] ≡ answers remember calls []
check_and_add-remember calls f = same_answers calls 0 [] [] tt (λ key now h. refl) f
