-- ===== src/Http/Tests.antt =====
-- The theorems on the HTTP bridge (src/apps/httpmgr.cpp) at concrete inputs.
use rp4_demo.Base.{◌≡◌, refl, some, [], ◌∷◌, codes}
use rp4_demo.Http.{Attributes, handle_pps_get}
use rp4_demo.Http.Json.{read_json, read_json-handle_pps_get}

abbrev two_attributes : Attributes
two_attributes = (codes "volume", codes "40") ∷ (codes "state", []) ∷ []

read_json-handle_pps_get_example :
    read_json (handle_pps_get (some (λ path. some two_attributes)) (codes "/pps/audio/status"))
    ≡ some two_attributes
read_json-handle_pps_get_example =
    read_json-handle_pps_get (λ path. some two_attributes) (codes "/pps/audio/status")
      two_attributes refl (refl, refl, (refl, refl, tt))
