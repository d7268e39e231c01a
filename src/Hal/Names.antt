-- ===== src/Hal/Names.antt =====
-- The names of the registers in src/hal/hal.cppm, and the registers that are not logged.
use rp4_demo.Base.{ℕ, ◌+◌, Bool, ◌||◌, List, [], ◌∷◌, ◌==◌, if◌then◌else◌, Text, codes}

abbrev pub peripheral_base : ℕ
peripheral_base = 0xFE000000

abbrev pub gpio_base : ℕ
gpio_base = peripheral_base + 0x200000

abbrev pub pcm_base : ℕ
pcm_base = peripheral_base + 0x203000

abbrev pub uart_base : ℕ
uart_base = peripheral_base + 0x215000

-- `RegEntry`
pub record RegEntry : Type 0 where
  pub addr : ℕ
  pub name : Text

abbrev entry : ℕ → Text → RegEntry
entry a n = record { addr = a; name = n }

-- `reg_names`
abbrev pub reg_names : List RegEntry
reg_names =
    entry (gpio_base + 0x00) (codes "GPFSEL0")
    ∷ entry (gpio_base + 0x04) (codes "GPFSEL1")
    ∷ entry (gpio_base + 0x08) (codes "GPFSEL2")
    ∷ entry (gpio_base + 0x1C) (codes "GPSET0")
    ∷ entry (gpio_base + 0x28) (codes "GPCLR0")
    ∷ entry (pcm_base + 0x00) (codes "PCM_CS")
    ∷ entry (pcm_base + 0x04) (codes "PCM_FIFO")
    ∷ entry (pcm_base + 0x08) (codes "PCM_MODE")
    ∷ entry (pcm_base + 0x10) (codes "PCM_TXC")
    ∷ entry (pcm_base + 0x18) (codes "PCM_INTEN")
    ∷ entry (uart_base + 0x40) (codes "AUX_MU_IO")
    ∷ entry (uart_base + 0x54) (codes "AUX_MU_LSR")
    ∷ entry (peripheral_base + 0x804000) (codes "BSC1_C")
    ∷ entry (peripheral_base + 0x804004) (codes "BSC1_S")
    ∷ entry (peripheral_base + 0x804008) (codes "BSC1_DLEN")
    ∷ entry (peripheral_base + 0x80400C) (codes "BSC1_A")
    ∷ entry (peripheral_base + 0x804010) (codes "BSC1_FIFO")
    ∷ entry (peripheral_base + 0x804014) (codes "BSC1_DIV")
    ∷ entry (peripheral_base + 0x101098) (codes "CM_PCMCTL")
    ∷ entry (peripheral_base + 0x10109C) (codes "CM_PCMDIV")
    ∷ entry (peripheral_base + 0x340000) (codes "EMMC_ARG2")
    ∷ entry (peripheral_base + 0x34000C) (codes "EMMC_CMDTM")
    ∷ entry (peripheral_base + 0x340024) (codes "EMMC_STATUS")
    ∷ entry (peripheral_base + 0x34002C) (codes "EMMC_CONTROL1")
    ∷ entry (0xFD580000) (codes "GENET_SYS_REV")
    ∷ entry (0xFD580800 + 0x008) (codes "UMAC_CMD")
    ∷ entry (0xFD580800 + 0x00C) (codes "UMAC_MAC0")
    ∷ entry (0xFD580800 + 0x010) (codes "UMAC_MAC1")
    ∷ entry (0xFF800040) (codes "TIMER_CNTRL0")
    ∷ []

pub name_in : ℕ → List RegEntry → Text
name_in a [] = codes "?"
name_in a (r ∷ rs) = if r.addr == a then r.name else name_in a rs

pub reg_name : ℕ → Text
unfolding name_in
reg_name a = name_in a reg_names

pub is_hot_path : ℕ → Bool
is_hot_path a = a == pcm_base + 0x04 || (a == uart_base + 0x40 || a == uart_base + 0x54)
