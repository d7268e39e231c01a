-- ===== src/Drm/Init.antt =====
-- The start of the GPU in src/apps/drmmgr.cpp: the handler of /pps/cmd/drm_init.
use rp4_demo.Base.{
  ℕ, ◌/◌, ◌%◌, ◌^◌, Bool, not, ◌&&◌, List, [], ◌∷◌, ◌++◌, ◌==◌, if◌then◌else◌, Text, codes,
  to_string,
}
use rp4_demo.Pps.{Event, publish, print, dash}
use rp4_demo.Hal.{Device}
use rp4_demo.Drm.{hub_ident0}

abbrev drm_status : Text → Text → Event
drm_status key value = publish (codes "/pps/drm/status") key value

module _ (d : Device) where
  open d use {State, load}

  pub read_ident : State → ℕ × State
  read_ident s = load hub_ident0 s

  pub is_present : State → Bool × State
  is_present s =
      let (id, s') = load hub_ident0 s in
      (not (id % 2 ^ 24 == 0) && not (id % 2 ^ 24 == 0xFFFFFF), s')

  -- The text of the version has at most seven characters, so it is not cut.
  abbrev pub version : ℕ → Text
  version ident =
      to_string (ident / 2 ^ 24 % 2 ^ 8) ++ codes "." ++ to_string (ident / 2 ^ 16 % 2 ^ 8)

  pub on_drm_init : State → State × List Event
  unfolding read_ident is_present
  on_drm_init s =
      let (present, s1) = is_present s in
      let (ident, s2) = read_ident s1 in
      let start = print (codes "drmmgr: initializing V3D...\n") in
      if present
      then (
        s2,
        start
            ∷ drm_status (codes "state") (codes "ready")
            ∷ drm_status (codes "version") (version ident)
            ∷ drm_status (codes "bo_pool_mb") (codes "256")
            ∷ print (codes "drmmgr: V3D ")
            ∷ print (version ident)
            ∷ print (codes " ready, 256 MB BO pool\n")
            ∷ [],
      )
      else (
        s1,
        start
            ∷ drm_status (codes "state") (codes "no V3D")
            ∷ print (codes "drmmgr: V3D not found " ++ dash ++ codes " check power domain\n")
            ∷ [],
      )

-- What the entry publishes of itself behind the subscription.
pub at_start : List Event
at_start = publish (codes "/pps/cmd/drm_init") (codes "value") (codes "1") ∷ []
