-- ===== src/Http.antt =====
-- The http.Server of net/http, as app/turl/http.go and pkg/observability/server.go fill it.
use Prim.Native.String.{String}
use turl.Base.Int.{ℤ}
use turl.Expiry.{Duration}

-- The address is the host and the port, written with a colon between them. A time limit of 0 is none.
pub record HttpServer : Type 0 where
  pub host : String
  pub port : ℤ
  pub read_header_timeout : Duration
  pub read_timeout : Duration
  pub write_timeout : Duration
