-- ===== src/Protocol/BigInts.antt =====
-- JavaScript's bigint arithmetic, as far as the versions of the events need it.
use view_server.Prelude.{ℕ, ◌+◌, ◌-◌, Bool, false, ltb, if◌then◌else◌, ◌≡◌, ◌≤◌, arith, ap}
use view_server.Protocol.Value.{BigInt, pos, negsuc}

-- `m - n`
unfoldable pub difference : ℕ → ℕ → BigInt
difference m n = if ltb m n then negsuc (n - m - 1) else pos (m - n)

infixl 60 ◌+ℤ◌
unfoldable pub ◌+ℤ◌ : BigInt → BigInt → BigInt
unfolding difference
pos m +ℤ pos n = pos (m + n)
pos m +ℤ negsuc n = difference m (n + 1)
negsuc m +ℤ pos n = difference n (m + 1)
negsuc m +ℤ negsuc n = negsuc (m + n + 1)

-- `i > n`
abbrev pub greater_than_nat : BigInt → ℕ → Bool
greater_than_nat (pos m) n = ltb n m
greater_than_nat (negsuc m) n = false

-- Adjacent spans add up, if the versions do not go back.
pub difference-add : (a b c : ℕ) → a ≤ b → b ≤ c → difference b a +ℤ difference c b ≡ difference c a
unfolding difference ◌+ℤ◌
difference-add a b c h k =
    let p : ltb b a ≡ false = ground arith in
    let q : ltb c b ≡ false = ground arith in
    let r : ltb c a ≡ false = ground arith in rw (p, q, r) (ap pos (omega arith))
