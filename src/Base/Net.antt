-- ===== src/Base/Net.antt =====
-- platform/net.h: the address of a peer.
use Prim.Native.Nat.{ℕ}
use mathlib.Core.List.{List}

-- `net_addr_t`; the text is the list of its bytes up to the zero byte.
pub record Endpoint : Type 0 where
  pub ip : List ℕ
  pub port : ℕ
