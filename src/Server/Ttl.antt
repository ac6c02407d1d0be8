-- ===== src/Server/Ttl.antt =====
-- The clamp on a message's time to live.
use Prim.Native.Nat.{min}
use sund.Prelude.{
  ℕ, ◌*◌, ◌≤◌, ◌<◌, ◌≡◌, refl, sym, subst, true, String, Bytes, ℤ, pos, negsuc, is_neg, to_int64,
  to_int64_small, arith,
}
use sund.Store.Tables.{Db, Message, ok, format, add_time, second}
use sund.Store.Messages.{append_message}
use sund.Server.Transport.{clamp_message_ttl, default_message_ttl, max_message_ttl}

clamp_zero : clamp_message_ttl (pos 0) ≡ pos default_message_ttl
unfolding clamp_message_ttl to_int64
clamp_zero = refl

clamp_positive :
    (n : ℕ)
    → 0 < n
    → n ≤ 9223372036
    → clamp_message_ttl (pos n) ≡ pos (min (n * second) max_message_ttl)
unfolding clamp_message_ttl
clamp_positive n h k = rw (to_int64_small (n * second) (omega arith)) (ground arith)

-- The clamped time to live is one day if the request asks for no seconds or a negative number. It
-- is what the request asks for, but seven days at most, if that is a number of seconds from 1 to
-- 9223372036, the most that a time.Duration holds.
pub clamp_bounded :
    (n k : ℕ)
    → 0 < n
    → n ≤ 9223372036
    → (clamp_message_ttl (negsuc k) ≡ pos default_message_ttl)
      × (clamp_message_ttl (pos 0) ≡ pos default_message_ttl)
      × (clamp_message_ttl (pos n) ≡ pos (min (n * second) max_message_ttl))
unfolding clamp_message_ttl
clamp_bounded n k h l = (refl, clamp_zero, clamp_positive n h l)

-- In the range where the product with a nanosecond count overflows into the sign
-- the time to live is negative.
overflow_negative :
    (n : ℕ) → 9223372036 < n → n ≤ 18446744073 → is_neg (clamp_message_ttl (pos n)) ≡ true
unfolding clamp_message_ttl to_int64
overflow_negative n h k = ground arith

format_mono : (a b : ℕ) → a ≤ b → format a ≤ format b
format_mono a b h = omega arith

negative_past : (now : ℕ) (d : ℤ) → is_neg d ≡ true → add_time now d ≤ now
negative_past now (pos d) h = cc
negative_past now (negsuc d) h = omega arith

module _ (db : Db) {db' : Db} {m : Message} where
  expires_at :
      (id : String) (payload : Bytes) (ttl : ℤ) (random : Bytes) (now : ℕ)
      → append_message id payload ttl random now db ≡ ok (m, db')
      → m.expires ≡ format (add_time now ttl)
  unfolding append_message
  expires_at id payload ttl random now e = ground arith

  -- A message sent with a time to live of 9223372037 to 18446744073 seconds, which is accepted
  -- like any other, has expired when it is stored.
  pub overflow_expired :
      (n : ℕ) (id : String) (payload random : Bytes) (now : ℕ)
      → 9223372036 < n
      → n ≤ 18446744073
      → append_message id payload (clamp_message_ttl (pos n)) random now db ≡ ok (m, db')
      → m.expires ≤ format now
  overflow_expired n id payload random now h k e =
      subst (λ t. t ≤ format now) (sym (expires_at id payload _ random now e))
        (format_mono _ now (negative_past now _ (overflow_negative n h k)))
