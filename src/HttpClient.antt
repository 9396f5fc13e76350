-- ===== src/HttpClient.antt =====
-- internal/httpclient/httpclient.go: the client for deliveries over HTTP, and PostRaw. What the library resty
-- answers to a request is a parameter.
use gua.Base.{ℕ, ◌*◌, ◌^◌, Bool, Option, Text, codes}
use gua.Base.Int.{ℤ, pos}

abbrev pub max_conns_per_host : ℕ
max_conns_per_host = 100

-- The settings of the transport and of the client.
pub record HttpClient : Type 0 where
  pub timeout : ℤ
  pub conns_per_host : ℕ
  pub idle_conns : ℕ
  pub idle_conns_per_host : ℕ
  pub idle_timeout : ℤ
  pub response_body_limit : ℕ
  pub debug : Bool

-- `New`.
abbrev pub new_client : ℤ → Bool → HttpClient
new_client max_timeout debug = record {
  timeout = max_timeout;
  conns_per_host = max_conns_per_host;
  idle_conns = max_conns_per_host;
  idle_conns_per_host = max_conns_per_host;
  idle_timeout = pos (90 * 1_000_000_000);
  response_body_limit = 8 * 2 ^ 20;
  debug = debug;
}

pub record Post : Type 0 where
  pub url : Text
  pub content_type : Text
  pub body : Text

-- What resty answers to a request under a deadline: the body and the status, or an error.
abbrev pub Resty : Type 0
Resty = HttpClient → ℤ → Post → Option (Text × ℕ)

-- `PostRaw`; the context is its deadline.
pub post_raw : Resty → ℤ → HttpClient → Text → Text → Option (Text × ℕ)
post_raw resty deadline client url body =
    resty client deadline
      (record { url = url; content_type = codes "application/json"; body = body })
