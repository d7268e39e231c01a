-- ===== src/Probes/UsbAudio.antt =====
-- src/apps/usbaudmgr.cpp: what is read of the USB controller, and the handlers of /pps/cmd/usbinit and
-- /pps/audio/usb.
use rp4_demo.Base.{
  ℕ, ◌+◌, ◌/◌, ◌%◌, ◌^◌, Option, none, some, List, [], ◌∷◌, ◌++◌, length, Text, codes, to_string,
  parse_digits,
}
use rp4_demo.Pps.{Event, publish, print, dash}
use rp4_demo.Hal.{Device}

abbrev pub xhci_base : ℕ
xhci_base = 0xFD500000

abbrev pub hcsparams1 : ℕ
hcsparams1 = xhci_base + 0x04

abbrev usb_status : Text → Text → Event
usb_status key value = publish (codes "/pps/usb/status") key value

abbrev usb_audio : Text → Text → Event
usb_audio key value = publish (codes "/pps/usb/audio") key value

module _ (d : Device) where
  open d use {State, load}

  pub xhci_version : State → ℕ × State
  xhci_version s = let (v, s') = load (xhci_base + 0x02) s in (v / 2 ^ 16, s')

  pub num_ports : State → ℕ × State
  num_ports s = let (v, s') = load hcsparams1 s in (v / 2 ^ 24 % 2 ^ 8, s')

  -- The handler of /pps/cmd/usbinit.
  pub on_usbinit : State → State × List Event
  unfolding xhci_version num_ports
  on_usbinit s =
      let (ver, s') = xhci_version s in
      let (ports, s'') = num_ports s' in
      (
        s'',
        print (codes "usbaudmgr: probing xHCI...\n")
            ∷ usb_status (codes "xhci_version") (to_string ver)
            ∷ usb_status (codes "ports") (to_string ports)
            ∷ usb_audio (codes "state") (codes "needs xHCI init")
            ∷ print (codes "usbaudmgr: xHCI probed " ++ dash ++ codes " needs full init\n")
            ∷ [],
      )

-- The handler of /pps/audio/usb; the bytes that a capability lets read are a parameter.
pub on_usb : (ℕ → Option (List ℕ)) → Text → List Event
on_usb read_span value = elim (read_span (parse_digits 0 value)) [
  | none ↦ []
  | some pcm ↦
      usb_audio (codes "state") (codes "playing")
      ∷ usb_audio (codes "frames") (to_string (length pcm / 4))
      ∷ usb_audio (codes "state") (codes "idle")
      ∷ []
]

-- What the entry publishes of itself, before and behind the subscriptions.
pub at_start : List Event
at_start =
    publish (codes "/pps/usb/audio") (codes "state") (codes "init")
    ∷ publish (codes "/pps/cmd/usbinit") (codes "value") (codes "1")
    ∷ []
