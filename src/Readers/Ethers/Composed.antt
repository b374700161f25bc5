-- ===== src/Readers/Ethers/Composed.antt =====
-- The reads from the contracts compose, as those through a cache do.
use liquity.Common.{refl}
use liquity.Readers.Cached.Coherent.{IsComposed}
use liquity.Readers.Ethers.{Connection, Contracts}
use liquity.Readers.Ethers.Reads.{
  ethers, read_trove, read_troves, read_troves_before_redistribution,
}

pub ethers-IsComposed : (k : Connection) (c : Contracts) → IsComposed (ethers k c)
unfolding ethers read_trove read_troves read_troves_before_redistribution
ethers-IsComposed k c = record { trove = λ a o. refl; troves = λ p o. refl }
