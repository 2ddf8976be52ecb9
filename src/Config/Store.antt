-- ===== src/Config/Store.antt =====
-- `AppConfig::fetch`, `AppConfig::save` and `AppConfig::load` of rust/core/src/config.rs.
use fictional_octo_spork.Prelude.{ℕ, ◌<◌, ◌≤◌, ◌≡◌, ◌⊎◌, inl, inr, refl, sym, subst, ◌++◌}
use fictional_octo_spork.Text.{Text, text}
use fictional_octo_spork.Failure.{
  Result, Reported, Error, good, failed, ok, err, io, json, from_reqwest, http, map_err, ◌>>=◌,
}
use fictional_octo_spork.Action.{Action, lift}
use fictional_octo_spork.Action
use fictional_octo_spork.Config.{RawRoot, AppConfig, from_raw, from_json}

-- A client or a server error
abbrev pub IsErrorStatus : ℕ → Type 0
IsErrorStatus status = (400 ≤ status) × (status < 600)

-- The HTTP client, as `fetch` uses it: `error_for_status` makes an error of a response whose status is that of a client
-- or a server error, and of no other.
pub record Http : Type 1 where
  pub Client : Type 0
  pub Response : Type 0
  pub status : Response → ℕ
  pub build : (user_agent : Text) (timeout : ℕ) → Reported Client
  pub get : Client → Text → Reported Response
  pub error_for_status : Response → Reported Response
  pub body : Response → Reported Text
  pub error_for_status-good :
      (r : Response) {r' : Response}
      → error_for_status r ≡ good r'
      → (r' ≡ r) × ¬ IsErrorStatus (status r)
  pub error_for_status-failed :
      (r : Response) {m : Text} → error_for_status r ≡ failed m → IsErrorStatus (status r)

-- What serde_json makes of the configuration, and the files: what `fs::write` wrote, `fs::read` reads.
pub record Store : Type 1 where
  pub Document : Type 0  -- a `Vec<u8>`
  pub Files : Type 0
  pub to_vec_pretty : AppConfig → Reported Document
  pub from_slice : Document → Reported AppConfig
  pub write : Text → Document → Files → Reported (Unit {0}) × Files
  pub read : Text → Files → Reported Document
  pub from_slice-to_vec_pretty :
      (cfg : AppConfig) {bs : Document} → to_vec_pretty cfg ≡ good bs → from_slice bs ≡ good cfg
  pub read-write :
      (path : Text) (bs : Document) (fs fs' : Files)
      → write path bs fs ≡ (good tt, fs')
      → read path fs' ≡ good bs

module _ (reqwest : Http) (version : Text) (decode : Text → Reported RawRoot) where
  -- `AppConfig::fetch`
  unfoldable pub fetch : Text → Result AppConfig
  unfolding from_json
  fetch url = do
    client ← map_err from_reqwest (reqwest.build (text "ff-vpn-client/" ++ version) 30)
    sent ← map_err from_reqwest (reqwest.get client url)
    response ← map_err from_reqwest (reqwest.error_for_status sent)
    body ← map_err from_reqwest (reqwest.body response)
    from_json decode body

module _ (store : Store) where
  write_file : Text → store.Document → Action store.Files (Unit {0})
  write_file path bs fs = let (r, fs') = store.write path bs fs in (map_err io r, fs')

  -- `AppConfig::save`
  unfoldable pub save : AppConfig → Text → Action store.Files (Unit {0})
  unfolding write_file
  save cfg path =
      Action.◌>>=◌ (lift (map_err json (store.to_vec_pretty cfg))) λ bytes. write_file path bytes

  -- `AppConfig::load`
  unfoldable pub load : Text → store.Files → Result AppConfig
  load path fs = do bytes ← map_err io (store.read path fs); map_err json (store.from_slice bytes)

  -- What `save` leaves: the file that `load` reads, or an error, of serde_json before any file is touched.
  abbrev pub Saved : AppConfig → Text → store.Files → Result (Unit {0}) × store.Files → Type 0
  Saved cfg path fs (r, fs') =
      ((r ≡ ok tt) × (load path fs' ≡ ok cfg))
      ⊎ (((m : Text) × (r ≡ err (json m)) × (fs' ≡ fs)) ⊎ ((m : Text) × (r ≡ err (io m))))

  pub save-Saved :
      (cfg : AppConfig) (path : Text) (fs : store.Files) → Saved cfg path fs (save cfg path fs)
  unfolding save write_file load
  save-Saved cfg path fs = encoded (store.to_vec_pretty cfg) refl
    where
      written :
          (bs : store.Document) (w : Reported (Unit {0}) × store.Files)
          → store.to_vec_pretty cfg ≡ good bs
          → store.write path bs fs ≡ w
          → Saved cfg path fs (map_err io w.0, w.1)
      written bs (good t, fs') e h =
          let back = store.read-write path bs fs fs' h in
          inl (refl, rw (back, store.from_slice-to_vec_pretty cfg e) refl)
      written bs (failed m, fs') e h = inr (inr (m, refl))

      encoded :
          (r : Reported store.Document)
          → store.to_vec_pretty cfg ≡ r
          → Saved cfg path fs
              (Action.◌>>=◌ (lift (map_err json r)) (λ bytes. write_file path bytes) fs)
      encoded (good bs) e = written bs (store.write path bs fs) e refl
      encoded (failed m) e = inr (inl (m, refl, refl))

module _ (reqwest : Http) (version : Text) (decode : Text → Reported RawRoot) (url : Text) where
  -- The configuration is that of a document which the server sent as the body of a response that is no error.
  pub record Published (cfg : AppConfig) : Type 0 where
    pub client : reqwest.Client
    pub response : reqwest.Response
    pub body : Text
    pub raw : RawRoot
    pub is_client : reqwest.build (text "ff-vpn-client/" ++ version) 30 ≡ good client
    pub is_response : reqwest.get client url ≡ good response
    pub no_error : ¬ IsErrorStatus (reqwest.status response)
    pub is_body : reqwest.body response ≡ good body
    pub is_raw : decode body ≡ good raw
    pub is_config : from_raw raw ≡ ok cfg

  -- What went wrong, and the error that is made of it: no client, no response, a response whose status is an error,
  -- none that could be read, no document, or none of a configuration.
  pub data Refused : Error → Type 0 where
    no_client :
        (m : Text)
        → reqwest.build (text "ff-vpn-client/" ++ version) 30 ≡ failed m
        → Refused (http m)
    not_sent :
        (client : reqwest.Client) (m : Text) → reqwest.get client url ≡ failed m → Refused (http m)
    bad_status :
        (client : reqwest.Client) (response : reqwest.Response) (m : Text)
        → reqwest.get client url ≡ good response
        → IsErrorStatus (reqwest.status response)
        → Refused (http m)
    no_body :
        (response : reqwest.Response) (m : Text)
        → ¬ IsErrorStatus (reqwest.status response)
        → reqwest.body response ≡ failed m
        → Refused (http m)
    no_document : (body m : Text) → decode body ≡ failed m → Refused (json m)
    no_config : (raw : RawRoot) (e : Error) → from_raw raw ≡ err e → Refused e

  abbrev pub Fetched : Result AppConfig → Type 0
  Fetched (ok cfg) = Published cfg
  Fetched (err e) = Refused e

  module _ (client : reqwest.Client)
      (is_client : reqwest.build (text "ff-vpn-client/" ++ version) 30 ≡ good client)
      (response : reqwest.Response) (is_response : reqwest.get client url ≡ good response)
      (no_error : ¬ IsErrorStatus (reqwest.status response)) where
    converted :
        (body : Text) (raw : RawRoot) (r : Result AppConfig)
        → reqwest.body response ≡ good body
        → decode body ≡ good raw
        → from_raw raw ≡ r
        → Fetched r
    converted body raw (err e) b d f = no_config raw e f
    converted body raw (ok cfg) b d f = record {
      client = client;
      response = response;
      body = body;
      raw = raw;
      is_client = is_client;
      is_response = is_response;
      no_error = no_error;
      is_body = b;
      is_raw = d;
      is_config = f;
    }

    decoded :
        (body : Text) (r : Reported RawRoot)
        → reqwest.body response ≡ good body
        → decode body ≡ r
        → Fetched (do raw ← map_err json r; from_raw raw)
    decoded body (failed m) b d = no_document body m d
    decoded body (good raw) b d = converted body raw (from_raw raw) b d refl

    has_read :
        (r : Reported Text)
        → reqwest.body response ≡ r
        → Fetched (do body ← map_err from_reqwest r; from_json decode body)
    unfolding from_json
    has_read (failed m) b = no_body response m no_error b
    has_read (good body) b = decoded body (decode body) b refl

  checked :
      (client : reqwest.Client) (sent : reqwest.Response) (r : Reported reqwest.Response)
      → reqwest.build (text "ff-vpn-client/" ++ version) 30 ≡ good client
      → reqwest.get client url ≡ good sent
      → reqwest.error_for_status sent ≡ r
      → Fetched (do
        response ← map_err from_reqwest r
        body ← map_err from_reqwest (reqwest.body response)
        from_json decode body)
  checked client sent (failed m) c s e =
      bad_status client sent m s (reqwest.error_for_status-failed sent e)
  checked client sent (good response) c s e =
      let (same, fine) = reqwest.error_for_status-good sent e in
      subst (λ x. Fetched (do body ← map_err from_reqwest (reqwest.body x); from_json decode body))
        (sym same) (has_read client c sent s fine (reqwest.body sent) refl)

  answered :
      (client : reqwest.Client) (r : Reported reqwest.Response)
      → reqwest.build (text "ff-vpn-client/" ++ version) 30 ≡ good client
      → reqwest.get client url ≡ r
      → Fetched (do
        sent ← map_err from_reqwest r
        response ← map_err from_reqwest (reqwest.error_for_status sent)
        body ← map_err from_reqwest (reqwest.body response)
        from_json decode body)
  answered client (failed m) c s = not_sent client m s
  answered client (good sent) c s = checked client sent (reqwest.error_for_status sent) c s refl

  fetch-Fetched : Fetched (fetch reqwest version decode url)
  unfolding fetch
  fetch-Fetched = go (reqwest.build (text "ff-vpn-client/" ++ version) 30) refl
    where
      go :
          (r : Reported reqwest.Client)
          → reqwest.build (text "ff-vpn-client/" ++ version) 30 ≡ r
          → Fetched (do
            client ← map_err from_reqwest r
            sent ← map_err from_reqwest (reqwest.get client url)
            response ← map_err from_reqwest (reqwest.error_for_status sent)
            body ← map_err from_reqwest (reqwest.body response)
            from_json decode body)
      go (failed m) c = no_client m c
      go (good client) c = answered client (reqwest.get client url) c refl

  -- `fetch` returns an error, which is that of the step that went wrong, a response with a status from 400 to 599
  -- among them; or the configuration of a document which the server sent, in answer to a request for the URL, with a
  -- status outside of that range. Saved to a file, it is what `load` reads from there afterwards, unless `save` returns
  -- an error, which is that of the encoder, with no file touched, or that of writing.
  pub load-save :
      (store : Store) (path : Text) (fs : store.Files)
      → ((e : Error) × (fetch reqwest version decode url ≡ err e) × Refused e)
        ⊎ ((cfg : AppConfig) × (fetch reqwest version decode url ≡ ok cfg)
            × Published cfg
            × Saved store cfg path fs (save store cfg path fs))
  load-save store path fs = go (fetch reqwest version decode url) refl fetch-Fetched
    where
      go :
          (r : Result AppConfig)
          → fetch reqwest version decode url ≡ r
          → Fetched r
          → ((e : Error) × (r ≡ err e) × Refused e)
            ⊎ ((cfg : AppConfig) × (r ≡ ok cfg)
                × Published cfg
                × Saved store cfg path fs (save store cfg path fs))
      go (err e) h f = inl (e, refl, f)
      go (ok cfg) h f = inr (cfg, refl, f, save-Saved store cfg path fs)
