-- ===== src/ConfigSrv.antt =====
-- src/apps/configsrv.cpp: the answers of the configuration server. SQLite and the wrappers of Poco in
-- src/http/http.cppm are parameters.
mod Tests
pub mod Safety
pub mod Server
use rp4_demo.Base.{
  ℕ, ◌+◌, Bool, true, false, not, ◌&&◌, ◌||◌, Option, none, some, List, [], ◌∷◌, ◌++◌, ltb, ◌==◌,
  if◌then◌else◌, Text, text_eq, codes, take, drop, get_or, length,
}

-- The statements that the server runs on the table `build`, and the functions of rp4::http.
pub record Services : Type 1 where
  pub Db : Type 0
  -- `sqlite3_open_v2(path, ...) == SQLITE_OK`
  pub open_ok : Text → Db → Bool
  -- `SELECT key, value FROM build ORDER BY key`
  pub select_all : Db → List (Text × Text)
  -- `SELECT value FROM build WHERE key = ?`
  pub select_value : Text → Db → Option Text
  -- `UPDATE build SET value = ? WHERE key = ?`, with the number of changes
  pub update_value : Text → Text → Db → ℕ × Db
  -- `none` is an exception.
  pub json_parse_value : Text → Text → Option Text
  pub file_exists : Text → Bool
  pub file_extension : Text → Text

pub record Request : Type 0 where
  pub method : Text
  pub uri : Text
  pub body : Text

pub record Response : Type 0 where
  pub status : ℕ
  pub content_type : Text
  pub body : Text
  pub file_path : Text

abbrev pub json : ℕ → Text → Response
json status body = record {
  status = status;
  content_type = codes "application/json";
  body = body;
  file_path = [];
}

pub record ServerConfig : Type 0 where
  pub db_path : Text
  pub dist_dir : Text

pub content_type_of : Text → Text
content_type_of ext =
    if text_eq ext (codes ".html")
    then codes "text/html"
    else if text_eq ext (codes ".js")
    then codes "application/javascript"
    else if text_eq ext (codes ".css")
    then codes "text/css"
    else if text_eq ext (codes ".json")
    then codes "application/json"
    else if text_eq ext (codes ".svg")
    then codes "image/svg+xml"
    else if text_eq ext (codes ".png")
    then codes "image/png"
    else if text_eq ext (codes ".ico")
    then codes "image/x-icon"
    else codes "application/octet-stream"

abbrev pub no_db : Response
no_db = json 500 (codes "{\"error\":\"cannot open config.db\"}")

abbrev pub no_key : Response
no_key = json 404 (codes "{\"error\":\"key not found\"}")

-- `{"key":"<k>","value":"<v>"`
abbrev pub pair : Text → Text → Text
pair k v = codes "{\"key\":\"" ++ (k ++ (codes "\",\"value\":\"" ++ (v ++ codes "\"")))

pub rows : Bool → List (Text × Text) → Text
rows first [] = []
rows first ((k, v) ∷ rs) =
    (if first then [] else codes ",") ++ (pair k v ++ (codes "}" ++ rows false rs))

module _ (sv : Services) where
  open sv use {
    Db, open_ok, select_all, select_value, update_value, json_parse_value, file_exists,
    file_extension,
  }

  pub db_get_all : Text → Db → Response
  unfolding rows
  db_get_all path db =
      if open_ok path db
      then json 200 (codes "[" ++ (rows true (select_all db) ++ codes "]"))
      else no_db

  pub db_get_key : Text → Text → Db → Response
  db_get_key path key db =
      if open_ok path db
      then elim (select_value key db) [
        | none ↦ no_key
        | some v ↦ json 200 (pair key v ++ codes "}")
      ]
      else no_db

  -- `none` where the body is not a JSON object with a string "value".
  pub db_put_key : Text → Text → Text → Db → Option (Response × Db)
  db_put_key path key body db = elim (json_parse_value body (codes "value")) [
    | none ↦ none
    | some value ↦
        let (changes, db') = update_value value key db in
        if open_ok path db
        then some (
            if ltb 0 changes
            then (json 200 (pair key value ++ codes ",\"updated\":true}"), db')
            else (no_key, db'))
        else some (no_db, db)
  ]

  abbrev pub api_prefix : Text
  api_prefix = codes "/api/config"

  -- The key that a URI of the API names, if any.
  pub key_of : Text → Text
  key_of uri = if ltb 12 (length uri) && get_or uri 11 0 == b'/' then drop 12 uri else []

  pub route_api : ServerConfig → Request → Db → Option (Response × Db)
  unfolding key_of db_get_all db_get_key db_put_key
  route_api cfg req db =
      let key = key_of req.uri in
      let empty : Bool = length key == 0 in
      if text_eq req.method (codes "GET")
      then some (if empty then db_get_all cfg.db_path db else db_get_key cfg.db_path key db, db)
      else if text_eq req.method (codes "PUT")
      then (if empty
          then some (json 400 (codes "{\"error\":\"key required\"}"), db)
          else db_put_key cfg.db_path key req.body db)
      else some (json 405 (codes "{\"error\":\"method not allowed\"}"), db)

  pub route_file : ServerConfig → Text → Response
  unfolding content_type_of
  route_file cfg uri =
      let path =
        if text_eq uri (codes "/") || text_eq uri (codes "/index.html")
        then cfg.dist_dir ++ codes "/index.html"
        else cfg.dist_dir ++ uri in
      if file_exists path
      then record {
        status = 200;
        content_type = content_type_of (file_extension path);
        body = [];
        file_path = path;
      }
      else record {
        status = 404;
        content_type = codes "text/plain";
        body = codes "404 Not Found";
        file_path = [];
      }

  pub route : ServerConfig → Request → Db → Option (Response × Db)
  unfolding route_api route_file
  route cfg req db =
      if text_eq (take (length api_prefix) req.uri) api_prefix
      then route_api cfg req db
      else some (route_file cfg req.uri, db)
