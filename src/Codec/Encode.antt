-- ===== src/Codec/Encode.antt =====
-- The encoder of tokio-opengauss/src/codec.rs.
use rust_opengauss.Prelude.{Bytes}
use rust_opengauss.Crates.{Crates}
use rust_opengauss.Write.{Writer, put}
use rust_opengauss.Frontend.{CopyData, copy_data_write}
use rust_opengauss.Backend.Message.{Message}

pub data FrontendMessage : Type 0 where
  raw : Bytes → FrontendMessage
  copy_data : CopyData → FrontendMessage

module _ ⦃c : Crates⦄ where
  -- `PostgresCodec::encode`
  unfoldable pub encode_message : FrontendMessage → Writer (Unit {0})
  encode_message (raw buf) = put buf
  encode_message (copy_data d) = copy_data_write d
