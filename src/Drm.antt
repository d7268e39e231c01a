-- ===== src/Drm.antt =====
-- src/apps/drmmgr.cpp: the buffer objects and the ioctl handlers.
mod Tests
pub mod Table
pub mod Invariant
pub mod Ioctl
pub mod Init
use rp4_demo.Base.{
  ℕ, zero, suc, ◌+◌, ◌-◌, ◌*◌, ◌/◌, ◌%◌, ◌^◌, Bool, true, false, not, ◌&&◌, ◌||◌, Option, none,
  some, List, [], ◌∷◌, ltb, ◌==◌, if◌then◌else◌, replicate,
}
use rp4_demo.Hal.{Device, u32_mod}

abbrev pub hub_base : ℕ
hub_base = 0xFEC00000

abbrev pub core_base : ℕ
core_base = 0xFEC04000

abbrev pub hub_ident0 : ℕ
hub_ident0 = hub_base + 0x0000

abbrev hub_ident1 : ℕ
hub_ident1 = hub_base + 0x0004

abbrev hub_ident2 : ℕ
hub_ident2 = hub_base + 0x0008

abbrev hub_ident3 : ℕ
hub_ident3 = hub_base + 0x000C

abbrev ct0cs : ℕ
ct0cs = core_base + 0x0100

abbrev ct0ea : ℕ
ct0ea = core_base + 0x0104

abbrev ct0ca : ℕ
ct0ca = core_base + 0x0108

abbrev ct1cs : ℕ
ct1cs = core_base + 0x0110

abbrev ct1ea : ℕ
ct1ea = core_base + 0x0114

abbrev ct1ca : ℕ
ct1ca = core_base + 0x0118

abbrev tfu_su : ℕ
tfu_su = core_base + 0x0400

abbrev v3d_param_v3d_uifcfg : ℕ
v3d_param_v3d_uifcfg = 0

abbrev v3d_param_v3d_hub_ident1 : ℕ
v3d_param_v3d_hub_ident1 = 1

abbrev v3d_param_v3d_hub_ident2 : ℕ
v3d_param_v3d_hub_ident2 = 2

abbrev v3d_param_v3d_hub_ident3 : ℕ
v3d_param_v3d_hub_ident3 = 3

abbrev v3d_param_v3d_core0_ident0 : ℕ
v3d_param_v3d_core0_ident0 = 4

abbrev v3d_param_v3d_core0_ident1 : ℕ
v3d_param_v3d_core0_ident1 = 5

abbrev v3d_param_v3d_core0_ident2 : ℕ
v3d_param_v3d_core0_ident2 = 6

abbrev v3d_param_supports_tfu : ℕ
v3d_param_supports_tfu = 7

abbrev v3d_param_supports_csd : ℕ
v3d_param_supports_csd = 8

abbrev v3d_param_supports_cache_flush : ℕ
v3d_param_supports_cache_flush = 9

abbrev v3d_param_supports_perfmon : ℕ
v3d_param_supports_perfmon = 10

abbrev v3d_param_supports_multisync : ℕ
v3d_param_supports_multisync = 11

-- `struct BufferObject`.
pub record BufferObject : Type 0 where
  pub handle : ℕ
  pub size : ℕ
  pub phys_addr : ℕ
  pub v3d_addr : ℕ
  pub in_use : Bool

abbrev pub max_bos : ℕ
max_bos = 256

abbrev pub bo_pool_base : ℕ
bo_pool_base = 0xF0000000

abbrev pub bo_pool_size : ℕ
bo_pool_size = 256 * 1024 * 1024

-- The file's static variables.
pub record Drm : Type 0 where
  pub bo_table : List BufferObject
  pub next_handle : ℕ
  pub bo_pool_next : ℕ
  pub submit_cl_count : ℕ
  pub submit_tfu_count : ℕ

abbrev pub empty_bo : BufferObject
empty_bo = record { handle = 0; size = 0; phys_addr = 0; v3d_addr = 0; in_use = false }

abbrev pub initial : ℕ → Drm
initial slots = record {
  bo_table = replicate slots empty_bo;
  next_handle = 1;
  bo_pool_next = bo_pool_base;
  submit_cl_count = 0;
  submit_tfu_count = 0;
}

-- `(size + 0xFFF) & ~0xFFF` on 32 bits.
pub page_align : ℕ → ℕ
page_align size = (size + 0xFFF) % u32_mod / 4096 * 4096

-- The first slot that is not in use takes the object.
pub fill_slot : BufferObject → List BufferObject → Option (List BufferObject)
fill_slot n [] = none
fill_slot n (b ∷ bs) =
    if b.in_use
    then elim (fill_slot n bs) [ none ↦ none | some bs' ↦ some (b ∷ bs') ]
    else some (n ∷ bs)

-- The object that `bo_alloc` writes.
abbrev pub next_bo : ℕ → Drm → BufferObject
next_bo size s = record {
  handle = s.next_handle;
  size = page_align size;
  phys_addr = s.bo_pool_next;
  v3d_addr = s.bo_pool_next;
  in_use = true;
}

pub bo_alloc : ℕ → Drm → Option BufferObject × Drm
bo_alloc size s =
    if ltb (bo_pool_base + bo_pool_size) (s.bo_pool_next + page_align size)
    then (none, s)
    else elim (fill_slot (next_bo size s) s.bo_table) [
      | none ↦ (none, s)
      | some t ↦ (
        some (next_bo size s),
        record s {
          bo_table = t;
          next_handle = (s.next_handle + 1) % u32_mod;
          bo_pool_next = s.bo_pool_next + page_align size;
        },
      )
    ]

pub bo_find : ℕ → List BufferObject → Option BufferObject
bo_find handle [] = none
bo_find handle (b ∷ bs) = if b.in_use && b.handle == handle then some b else bo_find handle bs

-- The slot that `bo_find` finds is given back.
pub clear_slot : ℕ → List BufferObject → List BufferObject
clear_slot handle [] = []
clear_slot handle (b ∷ bs) =
    if b.in_use && b.handle == handle
    then record b { in_use = false } ∷ bs
    else b ∷ clear_slot handle bs

pub bo_free : ℕ → Drm → Bool × Drm
bo_free handle s = elim (bo_find handle s.bo_table) [
  | none ↦ (false, s)
  | some b ↦ (true, record s { bo_table = clear_slot handle s.bo_table })
]

-- What a handler returns: 0 with what it writes to its arguments, or -1.
pub data Reply {ℓ} (A : Type ℓ) : Type ℓ where
  done : A → Reply A
  failed : Reply A

-- The handle and the 32-bit offset.
abbrev pub created : Option BufferObject → Reply (ℕ × ℕ)
created none = failed
created (some b) = done (b.handle, b.v3d_addr % u32_mod)

pub handle_create_bo : ℕ → Drm → Reply (ℕ × ℕ) × Drm
handle_create_bo size s = let r = bo_alloc size s in (created r.0, r.1)

pub handle_mmap_bo : ℕ → Drm → Reply ℕ
handle_mmap_bo handle s = elim (bo_find handle s.bo_table) [
  | none ↦ failed
  | some b ↦ done b.phys_addr
]

pub handle_get_bo_offset : ℕ → Drm → Reply ℕ
handle_get_bo_offset handle s = elim (bo_find handle s.bo_table) [
  | none ↦ failed
  | some b ↦ done (b.v3d_addr % u32_mod)
]

pub handle_wait_bo : ℕ → Reply (Unit {0})
handle_wait_bo handle = done tt

module _ (d : Device) where
  open d use {State, load, store}

  -- `while (mmio_read(addr) & (1 << bit)) {}`, with fuel.
  pub wait_clear : ℕ → ℕ → ℕ → State → Option State
  wait_clear zero addr bit w = none
  wait_clear (suc f) addr bit w =
      let (v, w') = load addr w in
      let rest = wait_clear f addr bit w' in if v / 2 ^ bit % 2 == 0 then some w' else rest

  -- `while (!(mmio_read(addr) & (1 << bit))) {}`, with fuel.
  pub wait_set : ℕ → ℕ → ℕ → State → Option State
  wait_set zero addr bit w = none
  wait_set (suc f) addr bit w =
      let (v, w') = load addr w in
      let rest = wait_set f addr bit w' in if v / 2 ^ bit % 2 == 0 then rest else some w'

  abbrev pub reg : ℕ → State → Reply ℕ × State
  reg a w = (done (load a w).0, (load a w).1)

  pub handle_get_param : ℕ → State → Reply ℕ × State
  handle_get_param param w =
      if param == v3d_param_v3d_uifcfg
      then reg (hub_base + 0x45c) w
      else if param == v3d_param_v3d_hub_ident1
      then reg hub_ident1 w
      else if param == v3d_param_v3d_hub_ident2
      then reg hub_ident2 w
      else if param == v3d_param_v3d_hub_ident3
      then reg hub_ident3 w
      else if param == v3d_param_v3d_core0_ident0
      then reg (core_base + 0x0000) w
      else if param == v3d_param_v3d_core0_ident1
      then reg (core_base + 0x0004) w
      else if param == v3d_param_v3d_core0_ident2
      then reg (core_base + 0x0008) w
      else if param == v3d_param_supports_tfu
          || param == v3d_param_supports_csd
          || param == v3d_param_supports_cache_flush
          || param == v3d_param_supports_perfmon
          || param == v3d_param_supports_multisync
      then (done 1, w)
      else (failed, w)

  pub record SubmitCl : Type 0 where
    pub bcl_start : ℕ
    pub bcl_end : ℕ
    pub rcl_start : ℕ
    pub rcl_end : ℕ

  -- Bin, then render; `none` where the fuel runs out while a list is still running.
  pub handle_submit_cl : ℕ → SubmitCl → Drm → State → Option (Drm × State)
  handle_submit_cl fuel args s w =
      let bin = store ct0ea args.bcl_end (store ct0ca args.bcl_start w) in
      elim (wait_clear fuel ct0cs 5 bin) [
        | none ↦ none
        | some w' ↦
            let render = store ct1ea args.rcl_end (store ct1ca args.rcl_start w') in
            elim (wait_clear fuel ct1cs 5 render) [
              | none ↦ none
              | some w'' ↦
                  some (record s { submit_cl_count = (s.submit_cl_count + 1) % u32_mod }, w'')
            ]
      ]

  pub record SubmitTfu : Type 0 where
    pub iia : ℕ
    pub icfg : ℕ
    pub oa : ℕ
    pub os : ℕ

  pub handle_submit_tfu : ℕ → SubmitTfu → Drm → State → Option (Drm × State)
  handle_submit_tfu fuel args s w =
      let started = store (core_base + 0x040C) args.os (
        store (core_base + 0x0408) args.oa
          (store (core_base + 0x0404) args.icfg (store tfu_su args.iia w))) in
      elim (wait_set fuel (core_base + 0x0410) 0 started) [
        | none ↦ none
        | some w' ↦ some (record s { submit_tfu_count = (s.submit_tfu_count + 1) % u32_mod }, w')
      ]
