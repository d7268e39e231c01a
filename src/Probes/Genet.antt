-- ===== src/Probes/Genet.antt =====
-- src/apps/genetmgr.cpp: the Ethernet controller's version, reset and hardware address, and the handler of
-- /pps/cmd/netstart.
use rp4_demo.Base.{ℕ, ◌+◌, ◌-◌, ◌/◌, ◌%◌, ◌^◌, List, [], ◌∷◌, ◌++◌, ltb, if◌then◌else◌, Text, codes}
use Prim.Native.Nat.{bit_or}
use rp4_demo.Pps.{Event, publish, print, dash}
use rp4_demo.Hal.{Device}

abbrev pub genet_base : ℕ
genet_base = 0xFD580000

abbrev pub sys_rev_ctrl : ℕ
sys_rev_ctrl = genet_base + 0x00

abbrev pub sys_rbuf_flush : ℕ
sys_rbuf_flush = genet_base + 0x08

abbrev pub umac_base : ℕ
umac_base = genet_base + 0x0800

abbrev pub umac_cmd : ℕ
umac_cmd = umac_base + 0x008

abbrev pub umac_mac0 : ℕ
umac_mac0 = umac_base + 0x00C

abbrev pub umac_mac1 : ℕ
umac_mac1 = umac_base + 0x010

abbrev pub umac_max_frame : ℕ
umac_max_frame = umac_base + 0x014

-- `h[b]` of the table of digits
abbrev pub nibble : ℕ → ℕ
nibble b = if ltb b 10 then b'0' + b else b'a' + (b - 10)

-- `hex`
pub hex : ℕ → Text
hex b = nibble (b / 2 ^ 4) ∷ nibble (b % 2 ^ 4) ∷ []

-- The loop that fills `macstr`, less its terminator.
pub mac_text : List ℕ → Text
unfolding hex
mac_text [] = []
mac_text (b ∷ []) = hex b
mac_text (b ∷ c ∷ mac) = hex b ++ b':' ∷ mac_text (c ∷ mac)

abbrev net_status : Text → Text → Event
net_status key value = publish (codes "/pps/net/status") key value

module _ (d : Device) where
  open d use {State, load, store}

  pub genet_version : State → ℕ × State
  genet_version s = let (v, s') = load sys_rev_ctrl s in (v / 2 ^ 24, s')

  pub read_mac : State → List ℕ × State
  read_mac s =
      let (mac0, s') = load umac_mac0 s in
      let (mac1, s'') = load umac_mac1 s' in
      (
        mac0 / 2 ^ 24 % 2 ^ 8
            ∷ mac0 / 2 ^ 16 % 2 ^ 8
            ∷ mac0 / 2 ^ 8 % 2 ^ 8
            ∷ mac0 % 2 ^ 8
            ∷ mac1 / 2 ^ 24 % 2 ^ 8
            ∷ mac1 / 2 ^ 16 % 2 ^ 8
            ∷ [],
        s'',
      )

  pub reset_genet : State → State
  reset_genet s =
      store umac_max_frame 1536
        (store umac_cmd 0 (store sys_rbuf_flush 0 (store sys_rbuf_flush 1 s)))

  -- `enable`, which nothing calls yet.
  pub enable : State → State
  enable s = let (cmd, s') = load umac_cmd s in store umac_cmd (bit_or (bit_or cmd 1) 2) s'

  -- The handler of /pps/cmd/netstart.
  pub on_netstart : State → State × List Event
  unfolding genet_version read_mac reset_genet mac_text
  on_netstart s =
      let (ver, s') = genet_version s in
      let (mac, s'') = read_mac (reset_genet s') in
      (
        s'',
        print (codes "genetmgr: initializing GENET v")
            ∷ print ((b'0' + ver) % 2 ^ 8 ∷ b'\n' ∷ [])
            ∷ net_status (codes "mac") (mac_text mac)
            ∷ net_status (codes "state") (codes "reset")
            ∷ net_status (codes "hostname") (codes "rp4.local")
            ∷ net_status (codes "state") (codes "waiting for PHY/DMA init")
            ∷ print (codes "genetmgr: MAC ")
            ∷ print (mac_text mac)
            ∷ print (codes " " ++ dash ++ codes " needs PHY + DMA to go live\n")
            ∷ [],
      )

-- What the entry publishes of itself behind the subscription.
pub at_start : List Event
at_start = publish (codes "/pps/cmd/netstart") (codes "value") (codes "1") ∷ []
