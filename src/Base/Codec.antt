-- ===== src/Base/Codec.antt =====
-- How the program makes an opaque text of a record: json.Marshal, then base64url; and back.
pub mod Unary
use Prim.Native.String.{String}
use mathlib.Core.Path.{◌≡◌}
use mathlib.Core.Logic.{◌≢◌}
use mathlib.Core.Option.{Option, none, some}

pub record Codec (Bytes C : Type 0) : Type 0 where
  pub marshal : C → Option Bytes
  pub to_text : Bytes → String
  pub of_text : String → Option Bytes
  pub unmarshal : Bytes → Option C

-- What the packages promise: marshalling a record of texts and numbers succeeds, its bytes are read
-- back, and so is the text of bytes, which is not empty.
pub record IsCodec {Bytes C : Type 0} (codec : Codec Bytes C) : Type 0 where
  pub bytes : C → Bytes
  pub marshals : (c : C) → codec.marshal c ≡ some (bytes c)
  pub reads : (c : C) → codec.unmarshal (bytes c) ≡ some c
  pub decodes : (bs : Bytes) → codec.of_text (codec.to_text bs) ≡ some bs
  pub is_text : (c : C) → codec.to_text (bytes c) ≢ ""
