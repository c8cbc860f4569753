-- ===== src/File/Poll.antt =====
-- main.c: fscc_poll.
use fscc_linux.Prelude.{Bool}
use fscc_linux.Kernel.{truthy}
use fscc_linux.State.{Port}
use fscc_linux.Io.Ready.{user_read_ready, user_get_tx_space}

-- The mask: POLLIN | POLLRDNORM, and POLLOUT | POLLWRNORM. The poll semaphore is free again when
-- the call returns, and nothing else is changed.
pub record PollMask : Type 0 where
  pub poll_in : Bool
  pub poll_out : Bool

unfoldable pub poll : Port → PollMask
poll p = record { poll_in = user_read_ready p; poll_out = truthy (user_get_tx_space p) }
