-- ===== src/Blk/Order.antt =====
-- `in_order` of kernel/blk/rw_blk.c is a strict order of the requests.
use lychee_os.Base.{◌≡◌, true, false, arith}
use lychee_os.Blk.{Request, in_order}

-- The requests agree in what `in_order` compares.
pub record SamePlace (a b : Request) : Type 0 where
  pub cmd : a.cmd ≡ b.cmd
  pub dev : a.dev ≡ b.dev
  pub start_sector : a.start_sector ≡ b.start_sector

-- No request goes before itself, the order is transitive, and of two requests one goes before the
-- other unless they agree in command, device and start sector.
pub in_order_strict :
    (a b c : Request)
    → (in_order a a ≡ false)
      × (in_order a b ≡ true → in_order b c ≡ true → in_order a c ≡ true)
      × (in_order a b ≡ false → in_order b a ≡ false → SamePlace a b)
unfolding in_order
in_order_strict a b c = (ground arith, ground arith, ground arith)
