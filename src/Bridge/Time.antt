-- ===== src/Bridge/Time.antt =====
-- bridge.c: the monotonic clock and its differences in milliseconds.
-- A function of the bridge reads the clock once; the reading is an argument.
use adn_bridge.Prelude.{ℕ, Bool, ◌-◌, leb, ◌/◌, ◌+◌, ◌*◌}
use Prim.Native.Nat.{ℕ}

-- `struct timespec`
pub record Timespec : Type 0 where
  pub sec : ℕ
  pub nsec : ℕ

-- The two halves of (now.tv_nsec - since.tv_nsec) / 1000000, which C rounds towards zero: at most
-- one of them is not 0.
abbrev pub ms_up : Timespec → Timespec → ℕ
ms_up since now = (now.nsec - since.nsec) / 1000000

abbrev pub ms_down : Timespec → Timespec → ℕ
ms_down since now = (since.nsec - now.nsec) / 1000000

-- ms_elapsed, and `ms_since(since) >= interval`: the signed comparison, with what C subtracts moved
-- to the other side.
unfoldable pub ms_elapsed : Timespec → Timespec → ℕ → Bool
ms_elapsed since now interval =
    leb (interval + since.sec * 1000 + ms_down since now) (now.sec * 1000 + ms_up since now)
