-- ===== src/Http.antt =====
-- src/apps/httpmgr.cpp: the bridge from HTTP to the kernel's objects. The server that would call it is not
-- written yet; the kernel is a parameter.
mod Tests
pub mod Json
use rp4_demo.Base.{
  ℕ, Bool, true, false, Option, none, some, List, [], ◌∷◌, ◌++◌, if◌then◌else◌, Text, text_eq,
  codes, to_string,
}
use rp4_demo.Pps.{Event, publish, print}

-- `configsrv_port` of src/config/config.cppm.
abbrev pub configsrv_port : ℕ
configsrv_port = 9090

-- What `read_object` gives: the attributes, each a key and a value.
abbrev pub Attributes : Type 0
Attributes = List (Text × Text)

-- The loop of `handle_pps_get`; `first` tells the first attribute.
pub members : Bool → Attributes → Text
members first [] = []
members first ((key, value) ∷ rest) =
    (if first then [] else b',' ∷ [])
    ++ b'"' ∷ key
    ++ codes "\":"
    ++ b'"' ∷ value
    ++ b'"' ∷ members false rest

-- `handle_pps_get`. `g_kernel` is none until `httpmgr_main` has run; of the kernel, only `read_object` is used.
pub handle_pps_get : Option (Text → Option Attributes) → Text → Text
unfolding members
handle_pps_get none path = codes "{\"error\":\"no kernel\"}"
handle_pps_get (some read_object) path = elim (read_object path) [
  | none ↦ codes "{\"error\":\"not found\"}"
  | some attrs ↦ b'{' ∷ members true attrs ++ codes "}"
]

-- `handle_pps_put`: what it publishes, and its answer. `kernel` tells whether `g_kernel` is set.
pub handle_pps_put : Bool → Text → Text → List Event × Text
handle_pps_put kernel key value =
    if kernel
    then (
      publish (codes "/pps/cmd/" ++ key) (codes "value") value ∷ [],
      codes "{\"key\":\"" ++ key ++ codes "\",\"value\":\"" ++ value ++ codes "\",\"ok\":true}",
    )
    else ([], codes "{\"error\":\"no kernel\"}")

-- `handle_reboot` prints a line and reboots, which does not return, or answers.
pub data Reboot : Type 0 where
  to_kodi to_microkernel : Reboot
  answer : Text → Reboot

pub handle_reboot : Text → List Event × Reboot
handle_reboot target =
    if text_eq target (codes "kodi")
    then (print (codes "httpmgr: reboot to Kodi requested\n") ∷ [], to_kodi)
    else if text_eq target (codes "kernel")
    then (print (codes "httpmgr: reboot to microkernel requested\n") ∷ [], to_microkernel)
    else ([], answer (codes "{\"error\":\"unknown target, use kodi or kernel\"}"))

-- The handler of /pps/cmd/httpstart.
pub on_httpstart : List Event
on_httpstart =
    publish (codes "/pps/http/status") (codes "state") (codes "waiting for GENET driver")
    ∷ publish (codes "/pps/http/status") (codes "hostname") (codes "rp4.local")
    ∷ print (codes "httpmgr: lwIP httpd + mDNS needs GENET driver\n")
    ∷ []

-- What `httpmgr_main` publishes itself, before and behind the subscription.
pub on_start : List Event
on_start =
    publish (codes "/pps/http/status") (codes "state") (codes "init")
    ∷ publish (codes "/pps/http/status") (codes "port") (to_string configsrv_port)
    ∷ publish (codes "/pps/cmd/httpstart") (codes "value") (codes "1")
    ∷ []
