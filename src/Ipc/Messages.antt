-- ===== src/Ipc/Messages.antt =====
-- Requests, replies, and `Status` of rust/core/src/engine.rs, which a reply carries.
use fictional_octo_spork.Prelude.{Bool, false, Option, none}
use fictional_octo_spork.Text.{Text}

pub data Request : Type 0 where
  auth : (token : Text) → Request
  status : Request
  subscribe_logs : Request
  stop : Request

pub record Status : Type 0 where
  pub running : Bool
  pub pt_provider : Option Text
  pub pt_socks : Option Text
  pub arti_socks : Option Text
  pub tun_addr : Option Text

-- `Status::default()`
abbrev pub idle_status : Status
idle_status = record {
  running = false;
  pt_provider = none;
  pt_socks = none;
  arti_socks = none;
  tun_addr = none;
}

pub data Reply : Type 0 where
  done : Reply  -- `Reply::Ok`
  refused : (message : Text) → Reply  -- `Reply::Err`
  snapshot : Status → Reply  -- `Reply::Status`
  log : (line : Text) → Reply
