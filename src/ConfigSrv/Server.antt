-- ===== src/ConfigSrv/Server.antt =====
-- The start of src/apps/configsrv.cpp, and the handler of src/http/http.cppm that stands between Poco's server
-- and `route`.
use rp4_demo.Base.{
  ℕ, ◌||◌, Option, none, some, [], if◌then◌else◌, Text, text_eq, codes, length, ◌==◌, not,
}
use rp4_demo.ConfigSrv.{Services, Request, Response, ServerConfig, route}

-- What is sent: the status, the content type, and a file or a body.
pub data Content : Type 0 where
  file body_text : Text → Content

pub record Sent : Type 0 where
  pub status : ℕ
  pub content_type : Text
  pub content : Content

-- What `handleRequest` writes of an answer.
pub send : Response → Sent
send r = record {
  status = r.status;
  content_type = r.content_type;
  content = if not (length r.file_path == 0) then file r.file_path else body_text r.body;
}

-- The request: the body of the stream is read for two methods only.
pub read_request : Text → Text → Text → Request
read_request method uri stream = record {
  method = method;
  uri = uri;
  body = if text_eq method (codes "PUT") || text_eq method (codes "POST") then stream else [];
}

module _ (sv : Services) where
  open sv use {Db, open_ok, select_value}

  pub read_build_key : Db → Text → Text → Text
  read_build_key db key fallback = elim (select_value key db) [ none ↦ fallback | some v ↦ v ]

  -- `load_config`, with the port as its text, which `stoi` reads; `none` is the exit where the database does not open.
  pub load_config : Text → Db → Option (ServerConfig × Text)
  unfolding read_build_key
  load_config db_path db =
      if open_ok db_path db
      then some (
        record {
          db_path = db_path;
          dist_dir = read_build_key db (codes "configsrv_dist") (codes "dist");
        },
        read_build_key db (codes "configsrv_port") (codes "8080"),
      )
      else none

  -- `handleRequest`; `none` where `route` throws.
  pub handle_request : ServerConfig → Text → Text → Text → Db → Option (Sent × Db)
  unfolding send read_request
  handle_request cfg method uri stream db =
      elim (route sv cfg (read_request method uri stream) db) [
        | none ↦ none
        | some (r, db') ↦ some (send r, db')
      ]
