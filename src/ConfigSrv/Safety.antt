-- ===== src/ConfigSrv/Safety.antt =====
-- What a request to the server of src/apps/configsrv.cpp can do to the database.
use rp4_demo.Base.{
  ◌≡◌, refl, arith, not, ◌&&◌, false, some, text_eq, codes, take, length, ◌==◌, Bool-cases, inl,
  inr,
}
use rp4_demo.ConfigSrv.{
  Services, Request, Response, ServerConfig, api_prefix, key_of, route_api, route_file, route,
}

-- A request whose method is not PUT, or that names no key in the API, gets an answer and leaves the
-- database as it is, whatever the services do.
pub route_lem :
    (sv : Services) (cfg : ServerConfig) (req : Request) (db : sv.Db)
    → text_eq req.method (codes "PUT") && not (length (key_of sv req.uri) == 0) ≡ false
    → (r : Response) × (route sv cfg req db ≡ some (r, db))
unfolding route route_api
route_lem sv cfg req db h =
    elim (Bool-cases (text_eq (take (length (api_prefix sv)) req.uri) (api_prefix sv))) [
      | inr file ↦ (route_file sv cfg req.uri, rw file refl)
      | inl api ↦ elim (Bool-cases (text_eq req.method (codes "GET"))) [
        | inl get ↦ rw (api, get) (_, refl)
        | inr not_get ↦ elim (Bool-cases (text_eq req.method (codes "PUT"))) [
          | inr other ↦ rw (api, not_get, other) (_, refl)
          | inl put ↦ elim (Bool-cases (length (key_of sv req.uri) == 0)) [
            | inl empty ↦ rw (api, not_get, put, empty) (_, refl)
            | inr named ↦ absurd (ground (arith, put, named, h))
          ]
        ]
      ]
    ]
