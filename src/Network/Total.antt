-- ===== src/Network/Total.antt =====
-- The reads of 16-bit words in src/drivers/network.c stay inside the buffer.
use heat_os.Prelude.{ℕ, ◌+◌, ◌<◌, List, length, arith, byte, Gives, Any, bind-Gives, byte-Gives}
use heat_os.Network.Bytes.{rd16be}

pub rd16be-Gives : (p : List ℕ) (i : ℕ) → i + 1 < length p → Gives Any (rd16be p i)
unfolding rd16be
rd16be-Gives p i h =
    bind-Gives Any Any (byte p i) _ (byte-Gives p i (omega arith))
      (λ hi u. bind-Gives Any Any (byte p (i + 1)) _ (byte-Gives p (i + 1) h) (λ lo v. tt))
