-- ===== src/Dashboard/Login/Tests.antt =====
-- Runs of `LoginRateLimiter` and its theorems at concrete inputs.
use anglerfish_ai.Base.{◌-◌, ◌*◌, ◌≤◌, ◌≡◌, refl, true, false, [], ◌∷◌, length, arith}
use anglerfish_ai.Base.Text.{Text, text}
use anglerfish_ai.Dashboard.Login.{
  LoginRateLimiter, refilled, evict, tokens_at, decide, consume_login,
}
use anglerfish_ai.Dashboard.Login.Promise.{consume_login-recovers}

program : Unit {0}
unfolding refilled evict tokens_at decide consume_login
program = tt

-- One token is twelve units and a tick refills one of them; the address has spent its burst.
abbrev spent : LoginRateLimiter
spent = record {
  capacity = 5;
  refill = 1;
  max_buckets = 3;
  buckets = (text "10.0.0.7", (2, 100)) ∷ [];
}

abbrev address : Text
address = text "10.0.0.7"

refused : (consume_login 12 spent address 103).1.allowed ≡ false
unfolding program
refused = refl

stays_small : length (consume_login 12 spent address 103).0.buckets ≤ 3
unfolding program
stays_small = omega arith

seven_missing : (consume_login 12 spent address 103).1.missing ≤ (110 - 103) * 1
unfolding program
seven_missing = omega arith

consume_login-recovers_example :
    (consume_login 12 (consume_login 12 spent address 103).0 address 110).1.allowed ≡ true
consume_login-recovers_example =
    consume_login-recovers 12 spent address 103 110 refused stays_small (omega arith) seven_missing
