-- ===== src/Dns/Forward.antt =====
-- `forward_doh` of dns.rs: a query as the body of one HTTP request.
use fictional_octo_spork.Prelude.{List, [], ◌∷◌}
use fictional_octo_spork.Text.{Bytes, Text, text}
use fictional_octo_spork.Failure.{Result, Reported, ok, from_reqwest, map_err, ◌>>=◌}

pub record Post : Type 0 where
  pub url : Text
  pub headers : List (Text × Text)
  pub body : Bytes

-- What reqwest makes of a response: `error_for_status` and `bytes`.
pub record Reqwest : Type 1 where
  pub Response : Type 0
  pub error_for_status : Response → Reported Response
  pub bytes : Response → Reported Bytes

-- The request that is built
abbrev pub doh_post : Text → Bytes → Post
doh_post url query = record {
  url = url;
  headers =
      (text "accept", text "application/dns-message")
      ∷ (text "content-type", text "application/dns-message")
      ∷ [];
  body = query;
}

-- `forward_doh`; `send` is what the network does with a request at that moment.
unfoldable pub forward_doh :
    (reqwest : Reqwest) → (Post → Reported reqwest.Response) → Text → Bytes → Result Bytes
forward_doh reqwest send url query = do
  sent ← map_err from_reqwest (send (doh_post url query))
  resp ← map_err from_reqwest (reqwest.error_for_status sent)
  bytes ← map_err from_reqwest (reqwest.bytes resp)
  ok bytes
