-- ===== src/Examples/S3.antt =====
-- examples/s3/main.go: the configuration, the client, and the handler that stores each message as an
-- object. The client library, gzip, SHA-256 and the clock are parameters.
pub mod Stored
pub mod Durable
use smtp_gateway.Base.{
  ℕ, ◌+◌, ◌-◌, ◌/◌, ◌%◌, Bool, true, false, not, ◌&&◌, ◌||◌, Option, none, some, List, [], ◌∷◌,
  ◌++◌, reverse, is_nil, take, ltb, ◌==◌, if◌then◌else◌, Bytes, codes, equal,
}
use smtp_gateway.Base.Int.{ℤ, pos}
use smtp_gateway.Text.Number.{parse_int}
use smtp_gateway.Response.{Response, format_int, hello_ok, mail_ok, data_ok, sys_error}
use smtp_gateway.Server.{Server}
use smtp_gateway.Server.Start.{
  ServerOption, with_hostname, with_max_message_size, with_max_connections, with_read_timeout,
  with_write_timeout, with_idle_timeout, with_logger, new_server,
}
use smtp_gateway.Postcat.{format_null_sender, format_envelope}
use smtp_gateway.Session.{returned, Tx}
use smtp_gateway.Examples.{Environment, env_default, seconds, Handler, accept, rcpt_to}

-- `config`
pub record Config : Type 0 where
  pub s3_endpoint : Bytes
  pub s3_bucket : Bytes
  pub s3_region : Bytes
  pub s3_prefix : Bytes
  pub s3_access_key : Bytes
  pub s3_secret_key : Bytes
  pub s3_use_ssl : Bool
  pub s3_path_style : Bool
  pub smtp_listen : Bytes
  pub smtp_hostname : Bytes
  pub smtp_max_size : ℤ

-- `envBool`
unfoldable pub env_bool : Environment → Bytes → Bool → Bool
unfolding equal
env_bool getenv key def =
    let v = getenv key in if is_nil v then def else equal v (codes "true") || equal v (codes "1")

-- `envInt`
unfoldable pub env_int : Environment → Bytes → ℤ → ℤ
unfolding parse_int
env_int getenv key def =
    let v = getenv key in if is_nil v then def else elim (parse_int v) [ none ↦ def | some n ↦ n ]

-- `loadConfig`
unfoldable pub load_config : Environment → Config
unfolding env_default env_bool env_int
load_config getenv = record {
  s3_endpoint = env_default getenv (codes "S3_ENDPOINT") (codes "s3.amazonaws.com");
  s3_bucket = getenv (codes "S3_BUCKET");
  s3_region = env_default getenv (codes "S3_REGION") (codes "us-east-1");
  s3_prefix = env_default getenv (codes "S3_PREFIX") (codes "mail");
  s3_access_key = getenv (codes "S3_ACCESS_KEY");
  s3_secret_key = getenv (codes "S3_SECRET_KEY");
  s3_use_ssl = env_bool getenv (codes "S3_USE_SSL") true;
  s3_path_style = env_bool getenv (codes "S3_PATH_STYLE") false;
  smtp_listen = env_default getenv (codes "SMTP_LISTEN") (codes ":2525");
  smtp_hostname = getenv (codes "SMTP_HOSTNAME");
  smtp_max_size = env_int getenv (codes "SMTP_MAX_SIZE") (pos 0);
}

-- The options of the client: its credentials, if there are any, and whether buckets are looked up by
-- path.
pub record Options : Type 0 where
  pub region : Bytes
  pub secure : Bool
  pub creds : Option (Bytes × Bytes)
  pub path_lookup : Bool

unfoldable pub client_options : Config → Options
unfolding equal
client_options cfg = record {
  region = cfg.s3_region;
  secure = cfg.s3_use_ssl;
  creds =
      if not (is_nil cfg.s3_access_key) && not (is_nil cfg.s3_secret_key)
      then some (cfg.s3_access_key, cfg.s3_secret_key)
      else none;
  path_lookup = not (equal cfg.s3_endpoint (codes "s3.amazonaws.com")) || cfg.s3_path_style;
}

-- An object of the store, with the metadata that is sent along.
pub record Object : Type 0 where
  pub bucket : Bytes
  pub key : Bytes
  pub content : Bytes
  pub sender : Bytes
  pub recipients : Bytes
  pub helo : Bytes

-- The library's calls, over a state `W` of their own. Each may fail: `bucket_exists` has an error
-- beside its answer, and `compress` stands for the two calls of the gzip writer.
pub record Cloud (W : Type 0) (T : Type 0) : Type 0 where
  pub connect : W → Bytes → Options → Bool × W
  pub bucket_exists : W → Bytes → Option Bool × W
  pub now : W → T × W
  pub compress : W → Bytes → Option Bytes × W
  pub put_object : W → Object → Bool × W

-- Why there is no client.
pub data ClientError : Type 0 where
  bucket_required client_failed bucket_check_failed bucket_missing : ClientError

-- `newS3Client`: `none` if the bucket can be used.
unfoldable pub new_s3_client : {W T : Type 0} → Cloud W T → Config → W → Option ClientError × W
unfolding client_options
new_s3_client cloud cfg w =
    let (made, w') = cloud.connect w cfg.s3_endpoint (client_options cfg) in
    let (found, w'') = cloud.bucket_exists w' cfg.s3_bucket in
    if is_nil cfg.s3_bucket
    then (some bucket_required, w)
    else if not made
    then (some client_failed, w')
    else (elim found [
      | none ↦ (some bucket_check_failed, w'')
      | some exists ↦ ((if exists then none else some bucket_missing), w'')
    ])

abbrev pub hex_digit : ℕ → ℕ
hex_digit n = if ltb n 10 then b'0' + n else b'a' + (n - 10)

-- `hex.EncodeToString`
unfoldable pub encode_hex : Bytes → Bytes
encode_hex [] = []
encode_hex (c ∷ s) = hex_digit (c / 16) ∷ hex_digit (c % 16) ∷ encode_hex s

unfoldable pub drop_slashes : Bytes → Bytes
drop_slashes [] = []
drop_slashes (c ∷ s) = let rest = drop_slashes s in if c == b'/' then rest else c ∷ s

-- `strings.Join` by a comma and a space.
unfoldable pub join : List Bytes → Bytes
join [] = []
join (a ∷ []) = a
join (a ∷ b ∷ rest) = a ++ (codes ", " ++ join (b ∷ rest))

-- The parts of Go's package time and of SHA-256 that the handler uses.
module _ {T : Type 0} (format_time : T → Bytes) (parse_time : Bytes → Option T) (date : T → Bytes)
    (unix : T → ℤ) (sha256 : Bytes → Bytes) where
  -- `objectKey`
  unfoldable pub object_key : Bytes → T → Bytes → Bytes
  unfolding drop_slashes format_int
  object_key prefix t hash =
      reverse (drop_slashes (reverse prefix))
      ++ (codes "/"
          ++ (date t
              ++ (codes "/" ++ (format_int (unix t) ++ (codes "-" ++ (hash ++ codes ".eml.gz"))))))

  unfoldable pub object_of : Bytes → Bytes → Tx → T → Bytes → Object
  unfolding object_key encode_hex join format_null_sender
  object_of bucket prefix tx t packed = record {
    bucket = bucket;
    key = object_key prefix t (encode_hex (take 4 (sha256 packed)));
    content = packed;
    sender = format_null_sender tx.mail_from;
    recipients = join tx.accepted;
    helo = tx.helo;
  }

  module _ {W : Type 0} (cloud : Cloud W T) (bucket prefix : Bytes) where
    -- The upload of `Data`.
    unfoldable pub upload : Tx → T → Bytes → W → Response × W
    upload tx t packed w =
        let (ok, w') = cloud.put_object w (object_of bucket prefix tx t packed) in
        ((if ok then data_ok else sys_error), w')

    unfoldable pub compressed : Tx → T → Option Bytes × W → Response × W
    compressed tx t (none, w) = (sys_error, w)
    compressed tx t (some packed, w) = upload tx t packed w

    -- `Data` of `s3Handler`
    unfoldable pub store_data : W → Tx → Bytes → Response × W
    store_data w tx body =
        let (t, w') = cloud.now w in
        compressed tx t (
          cloud.compress w'
            (format_envelope format_time parse_time tx.mail_from tx.accepted t body))

    -- `s3Handler`
    unfoldable pub s3_handler : Handler W
    s3_handler = record {
      hello = λ w tx. accept hello_ok w;
      mail_from = λ w tx. accept mail_ok w;
      rcpt_to = rcpt_to;
      receive = λ w tx body. (let (r, w') = store_data w tx body in (returned (some r), w'));
    }

unfoldable pub s3_options : Config → List ServerOption
s3_options cfg =
    with_hostname cfg.smtp_hostname
    ∷ with_max_message_size cfg.smtp_max_size
    ∷ with_max_connections (pos 100)
    ∷ with_read_timeout (seconds 300)
    ∷ with_write_timeout (seconds 60)
    ∷ with_idle_timeout (seconds 300)
    ∷ with_logger
    ∷ []

-- The server that `run` starts, behind its client and its listener.
unfoldable pub s3_gateway : Bytes → Config → Server
unfolding s3_options new_server
s3_gateway host cfg = new_server host true (s3_options cfg)
