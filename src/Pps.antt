-- ===== src/Pps.antt =====
-- The kernel's publish/subscribe objects as the managers use them: what a handler publishes, and what it
-- prints on the UART, in order. The kernel is not part of the repository; a handler drops what its calls
-- return, so the events are the whole of its effect on it.
use rp4_demo.Base.{Text, [], ◌∷◌}

pub data Event : Type 0 where
  -- `pps.publish(path, key, value)`
  publish : Text → Text → Text → Event
  -- `uart::puts` and `uart::putc`
  print : Text → Event

-- `Notification`, less its kind.
pub record Notification : Type 0 where
  pub path : Text
  pub key : Text
  pub value : Text

-- The bytes of a dash.
abbrev pub dash : Text
dash = 0xE2 ∷ 0x80 ∷ 0x94 ∷ []

-- `Notification::Kind`
pub data Kind : Type 0 where
  created modified deleted : Kind
