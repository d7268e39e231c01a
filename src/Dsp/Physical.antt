-- ===== src/Dsp/Physical.antt =====
-- The physical models of src/dsp/dsp.cppm: strings, tubes and bars, each with its own buffers.
mod Sound
mod Strings
mod Tubes
mod Bars
pub mod Buffers
mod Tests
unfoldable pub use Sound.*
unfoldable pub use Strings.*
unfoldable pub use Tubes.*
unfoldable pub use Bars.*
use rp4_demo.Base.{List}
use rp4_demo.Dsp.Floats.{Floats}

module _ (fl : Floats) where
  open fl use {Float}

  -- The native nodes.
  pub data Physical : Type 0 where
    plucked : Plucked fl → Physical
    bowed : Bowed fl → Physical
    flute : Flute fl → Physical
    clarinet : Clarinet fl → Physical
    modal : ModalBar fl → Physical

  pub tick_physical : Physical → List Float → Physical × Float
  unfolding tick_plucked tick_bowed tick_flute tick_clarinet tick_modal
  tick_physical (plucked p) xs = (plucked (tick_plucked fl p xs).0, (tick_plucked fl p xs).1)
  tick_physical (bowed p) xs = (bowed (tick_bowed fl p xs).0, (tick_bowed fl p xs).1)
  tick_physical (flute p) xs = (flute (tick_flute fl p xs).0, (tick_flute fl p xs).1)
  tick_physical (clarinet p) xs = (clarinet (tick_clarinet fl p xs).0, (tick_clarinet fl p xs).1)
  tick_physical (modal p) xs = (modal (tick_modal fl p xs).0, (tick_modal fl p xs).1)
