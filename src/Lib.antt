-- ===== src/Lib.antt =====
-- The managers of rp4, an audio system on a microkernel for the Raspberry Pi 4.
--
-- The program is a set of servers that share a kernel: each subscribes to the objects /pps/cmd/<name>
-- of the kernel's publish/subscribe tree, obeys the commands that the shell publishes there, drives its
-- device and publishes its status. Under them lie the heap, the process table and the registers.
--
-- Base: the shared names, lists, texts, decimal digits, bits and memories.
-- Arena: src/boot/allocator.cpp. `Memory` gives the header at an address; `arena_alloc` and `arena_free`
--   are `arena_alloc` and `arena_free`, with `split`, `take_block`, `join` for the bodies of their loops.
--   Arena/Segments, Alloc, Free, Live, Merge and State relate it to a list of segments; Arena/Calls has
--   the theorems on whole calls.
-- Proc: src/proc/proc.cppm. `Manager` is `ProcessManager`; the kernel's calls are `KernelCalls`. Proc/Top is
--   src/apps/top.cpp, which shows the table.
-- Drm: src/apps/drmmgr.cpp. `Drm` holds the static variables; `bo_alloc`, `bo_find`, `bo_free` and the
--   ioctl handlers have the code's names. Drm/Init is the handler of /pps/cmd/drm_init.
-- MemFs: src/apps/memfsmgr.cpp. `MemFs` holds the static variables; `on_store`, `on_load`, `on_memls`
--   and `on_memrm` are the handlers of the commands.
-- Dsp: src/dsp/dsp.cppm. Dsp/Floats has the operators, Dsp/State has `State` with its delay lines, and
--   Dsp/Node has the nodes as one data type with `tick`, which returns the scratch buffers too. Floats
--   are a parameter; an `int` is its 32 bits. Dsp/Physical has the physical models, each a record with its
--   buffers. Dsp/Tokens is `tokenize`, Dsp/Ast the expressions, Dsp/Parser the parser with the tokens that
--   are left as its state, and Dsp/Program `parse` up to `eval`, as `parse_program`; `std::stof` is a parameter.
--   Dsp/Eval is `try_const_eval` and `eval`, on fuel, since a definition that names itself has no value; a
--   call of one of the natives that `register_pm` installs is an outcome of its own, and Dsp/Eval/Natives has
--   what each of them builds. Dsp/Buffer is `process_buffer`, and Dsp/Buffer/Channels `process_buffer_mc`.
-- Storage: src/apps/storagemgr.cpp. Storage/Formats is `detect_format`, Storage/Dsd `parse_dsf` and
--   `pack_dop`, Storage/Tags the tags and what is published of a track. Storage/Play has the handlers: `play`
--   is the one of /pps/cmd/play, as a list of the calls that it makes of the card, the decoders, the heap and
--   the kernel, from an `Answers` that says what they return; Storage/Play/Resources reads the list as an
--   automaton of what is held.
-- Shell: src/apps/shell.cpp. `History`, `LineEditor` and `dispatch` have the code's names; `recall` is
--   `History::get`, and `key` is one round of the loop of `LineEditor::read`. Shell/Session is `shell_main`.
--   Shell/Stores follows a line from `dispatch` to the files; the kernel between them is `Delivery`.
-- ConfigSrv: src/apps/configsrv.cpp. `route` is the handler given to the HTTP server; SQLite and Poco are
--   `Services`. ConfigSrv/Server is `load_config` and the handler of src/http/http.cppm that calls `route`.
-- Display: src/apps/displaymgr.cpp. `Screen` holds the static variables, and the words of the framebuffer
--   are a function; `on_display` and `on_status` are the handlers. The answer of the mailbox is a parameter;
--   Display/Mailbox is the call.
-- Audio: src/apps/audiomgr.cpp. `Effect` is a call of the kernel, the DAC or I2S; Audio/Frames is about the
--   samples.
-- Probes: src/apps/emmcmgr.cpp, src/apps/genetmgr.cpp and src/apps/usbaudmgr.cpp, over `Device`.
--   Probes/Emmc/Reset is about the wait for the card's controller.
-- Http: src/apps/httpmgr.cpp. `handle_pps_get`, `handle_pps_put` and `handle_reboot` have the code's names;
--   Http/Json reads the answers back.
-- Bt: src/apps/btmgr.cpp. The flag `dongle_present` is an argument and a result of `on_usb`.
-- Console: src/apps/console.cpp. Boot: src/boot/boot.cpp, as the list of the calls that it makes.
-- Amp: src/apps/lv2_amp.c. The ports are addresses in one memory; `run` and `connect_port` have the code's names.
-- Libos: src/libos. The trap is a parameter; `open_path` is `open`. Libos/Errors is about errno.
-- Shim: src/shim/libc_shim.c. Shim/Division is `__udivti3` and `__umodti3`, Shim/Print `vfprintf` with the
--   digit loops of Shim/Digits, Shim/Snprintf `snprintf`, Shim/Memory `calloc` and `realloc`.
-- Hal: src/hal/hal.cppm. `Device` is a device behind its registers, as a parameter; Hal/Names, Pins, I2s and
--   Dac have the code's functions; Hal/System has interrupts, timer, mailbox and reboots. The log of
--   register accesses is left out: nothing switches it on.
-- Pps: the events that a handler publishes.
--
-- Loops. The walks over the arena's blocks run on the fuel `walk_fuel`, the size of the arena: each block
-- takes at least 24 bytes, so no walk over a tiled arena runs out, and the theorems on the calls say that
-- they return. The loops that poll a register run on a fuel given by the caller, since it is the device
-- that ends them.
--
-- The tokenizer runs on as many rounds as there are bytes and one more, and `p_expr` on as much fuel as
-- there are tokens and one more; the theorem on `parse_program` rests on this being enough. The digit loops run on the
-- cells of their buffer.
--
-- Numbers are natural; machine words wrap where they are written `% 2 ^ w`. Pids, thread numbers and exit
-- codes are the bits that the code passes on unread.
--
-- Not modelled: the kernel, FatFs, the decoders, lwIP, TinyUSB and Poco, which are not part of the
-- repository; assembly, linker scripts and the scripts in other languages; what a tick writes outside of the
-- buffers of a node.
pub mod Base
pub mod Arena
pub mod Proc
pub mod Hal
pub mod Drm
pub mod Pps
pub mod Http
pub mod Bt
pub mod Amp
pub mod Console
pub mod Boot
pub mod Libos
pub mod MemFs
pub mod Dsp
pub mod Storage
pub mod Shell
pub mod ConfigSrv
pub mod Shim
pub mod Audio
pub mod Probes
pub mod Display
