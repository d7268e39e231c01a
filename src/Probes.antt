-- ===== src/Probes.antt =====
-- src/apps/emmcmgr.cpp, src/apps/genetmgr.cpp and src/apps/usbaudmgr.cpp: the managers that so far probe
-- their devices and publish what they found.
mod Tests
pub mod Emmc
pub mod Genet
pub mod UsbAudio
