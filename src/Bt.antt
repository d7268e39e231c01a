-- ===== src/Bt.antt =====
-- src/apps/btmgr.cpp: the Bluetooth manager. Its state is `dongle_present`.
mod Tests
pub mod Presence
use rp4_demo.Base.{
  Bool, true, false, ◌&&◌, List, [], ◌∷◌, ◌++◌, if◌then◌else◌, Text, text_eq, codes,
}
use rp4_demo.Pps.{Event, publish, print, Notification, Kind, created, modified, deleted}

abbrev pub bt_status : Text → Text → Event
bt_status key value = publish (codes "/pps/bt/status") key value

pub on_start : List Event
on_start = bt_status (codes "state") (codes "no dongle") ∷ []

abbrev pub is_bluetooth : Notification → Bool
is_bluetooth n = text_eq n.key (codes "subclass") && text_eq n.value (codes "bluetooth")

abbrev pub is_removed : Notification → Bool
is_removed n = text_eq n.key (codes "state") && text_eq n.value (codes "removed")

abbrev pub is_set : Kind → Bool
is_set created = true
is_set modified = true
is_set deleted = false

-- The handler of /pps/usb/.
pub on_usb : Kind → Notification → Bool → Bool × List Event
on_usb kind n present =
    let found = is_bluetooth n && is_set kind in
    let arrived =
      if found
      then bt_status (codes "state") (codes "dongle found")
        ∷ bt_status (codes "dongle") n.path
        ∷ print (codes "btmgr: BT dongle detected\n")
        ∷ bt_status (codes "state") (codes "needs HCI init")
        ∷ []
      else [] in
    if is_removed n
    then (
      false,
      arrived
          ++ bt_status (codes "state") (codes "no dongle")
            ∷ print (codes "btmgr: BT dongle removed\n")
            ∷ [],
    )
    else (if found then true else present, arrived)

-- The handler of /pps/cmd/btpair.
pub on_pair : Bool → List Event
on_pair present =
    if present
    then bt_status (codes "state") (codes "pairing")
      ∷ bt_status (codes "state") (codes "needs HCI pairing impl")
      ∷ []
    else bt_status (codes "error") (codes "no dongle") ∷ []

-- The handler of /pps/cmd/btdisco.
pub on_disconnect : List Event
on_disconnect = bt_status (codes "state") (codes "disconnected") ∷ []
