-- ===== src/Bt/Tests.antt =====
-- The theorem on the Bluetooth manager (src/apps/btmgr.cpp) at a concrete input.
use rp4_demo.Base.{◌≡◌, ◌↔◌, true, false, [], ◌∷◌, codes}
use rp4_demo.Pps.{created, modified}
use rp4_demo.Bt.Presence.{Usb, present_after, Plugged, present_after_iff}

abbrev found : Usb
found = (
  created,
  record { path = codes "/pps/usb/1"; key = codes "subclass"; value = codes "bluetooth" },
)

abbrev removed : Usb
removed =
    (modified, record { path = codes "/pps/usb/1"; key = codes "state"; value = codes "removed" })

present_after_iff_example :
    (present_after false (found ∷ removed ∷ []) ≡ true) ↔ Plugged (found ∷ removed ∷ [])
present_after_iff_example = present_after_iff (found ∷ removed ∷ [])
