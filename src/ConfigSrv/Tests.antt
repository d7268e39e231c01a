-- ===== src/ConfigSrv/Tests.antt =====
-- The answers of the configuration server (src/apps/configsrv.cpp) on a database of one value.
use rp4_demo.Base.{
  ◌≡◌, refl, true, false, some, [], ◌∷◌, Text, codes, if◌then◌else◌, text_eq, none, text_eq→eq,
  Bool-cases, inl, inr, arith,
}
use rp4_demo.ConfigSrv.{Services, Request, Response, ServerConfig, route}
use rp4_demo.ConfigSrv.Safety.{route_lem}

abbrev one_value : Services
one_value = record {
  Db = Text;
  open_ok = λ path db. true;
  select_all = λ db. (codes "port", db) ∷ [];
  select_value = λ key db. if text_eq key (codes "port") then some db else none;
  update_value = λ value key db. if text_eq key (codes "port") then (1, value) else (0, db);
  json_parse_value = λ body key. some body;
  file_exists = λ path. false;
  file_extension = λ path. [];
}

abbrev paths : ServerConfig
paths = record { db_path = codes "config.db"; dist_dir = codes "dist" }

abbrev get_port : Request
get_port = record { method = codes "GET"; uri = codes "/api/config/port"; body = [] }

not_put : text_eq (codes "GET") (codes "PUT") ≡ false
not_put = elim (Bool-cases (text_eq (codes "GET") (codes "PUT"))) [
  | inl same ↦ absurd (ground (arith, text_eq→eq (codes "GET") (codes "PUT") same))
  | inr other ↦ other
]

route_lem_example :
    (r : Response) × (route one_value paths get_port (codes "8080") ≡ some (r, codes "8080"))
route_lem_example = route_lem one_value paths get_port (codes "8080") (rw not_put refl)
