-- ===== src/Prelude/Tables.antt =====
-- Facts about every byte, by evaluation of a table.
use Prim.Native.Nat.{ℕ, zero, suc, ◌<◌}
use mathlib.Core.Path.{◌≡◌}
use mathlib.Core.Bool.{Bool, true, false, ◌&&◌}
use native.Mathlib.Omega.{arith}

-- The test holds at each number less than the bound.
unfoldable pub every_below : ℕ → (ℕ → Bool) → Bool
every_below (suc k) test = every_below k test && test k
every_below zero test = true

pub table_row :
    (k : ℕ) (test : ℕ → Bool) (i : ℕ) → every_below k test ≡ true → i < k → test i ≡ true
unfolding every_below
table_row (suc k) test i all le = let earlier = table_row k test i in ground (arith, earlier)
table_row zero test i all le = absurd (omega (arith, le))

pub table_holds :
    (n m : ℕ) (p : ℕ → ℕ → Bool) (x y : ℕ)
    → every_below n (λ a. every_below m (p a)) ≡ true
    → x < n
    → y < m
    → p x y ≡ true
table_holds n m p x y h hx hy =
    table_row m (p x) y (table_row n (λ a. every_below m (p a)) x h hx) hy

-- A table of implications, read as one.
abbrev pub implies : Bool → Bool → Bool
implies true b = b
implies false b = true
