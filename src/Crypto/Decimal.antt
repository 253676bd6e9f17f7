-- ===== src/Crypto/Decimal.antt =====
-- strconv.FormatInt in base 10, on the numbers that an int64 holds.
use native.Mathlib.Numerals.{unary_clauses}
use wilt_key.Prelude.{ℕ, zero, suc, ◌*◌, ◌/◌, ◌%◌, ◌^◌, ◌<◌, ◌≤◌, ◌≡◌, String, arith}
use wilt_key.Prelude.Text.{concat}
use wilt_key.Crypto.{digits, hex_digit, decimal}

power_suc : (k : ℕ) → 10 ^ suc k ≡ 10 * 10 ^ k
power_suc k = simp unary_clauses (omega arith)

-- Fuel beyond the number of digits changes nothing.
digits-fuel :
    (fuel m n : ℕ) (acc : String)
    → n < 10 ^ suc fuel
    → suc fuel ≤ m
    → digits m n acc ≡ digits (suc fuel) n acc
unfolding digits
digits-fuel fuel zero n acc h enough = absurd (omega arith)
digits-fuel zero (suc m) n acc h enough = ground arith
digits-fuel (suc fuel) (suc m) n acc h enough =
    let less : n / 10 < 10 ^ suc fuel = omega (arith, power_suc (suc fuel)) in
    rw (digits-fuel fuel m (n / 10) (concat (hex_digit (n % 10)) acc) less (omega arith))

-- The twenty steps suffice: a number of at most twenty digits, as every int64 is, is printed as with
-- any greater number of steps.
pub decimal_enough : (n fuel : ℕ) → n < 10 ^ 20 → 20 ≤ fuel → digits fuel n "" ≡ decimal n
unfolding decimal
decimal_enough n fuel h enough = digits-fuel 19 fuel n "" h enough
