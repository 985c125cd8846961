-- ===== src/Configuration/Codec.antt =====
-- pkg/config/config.go: fromFile and Encode. Texts are read and written by the libraries.
use Prim.Native.String.{◌++◌}
use kombiner.Prelude.{String, Option, none, some, ◌⊎◌, inl, inr}
use kombiner.Api.Config.{Configuration}

-- The reading of the file and the strict decoder, which writes the configuration that it is given, are
-- parameters.
unfoldable pub from_file :
    {Content : Type 0}
    → (String → String ⊎ Content)
    → (Content → Configuration → Option String × Configuration)
    → String
    → Configuration
    → Option String × Configuration
from_file read_file decode_into path cfg = elim (read_file path) [
  | inl err ↦ (some err, cfg)
  | inr content ↦ decode_into content cfg
]

-- The encoders by media type, and what an encoder writes, are parameters. The result is an error or the
-- text.
unfoldable pub encode :
    {Info : Type 0}
    → (String → String)
    → (String → Option Info)
    → (Info → Configuration → String ⊎ String)
    → Configuration
    → String ⊎ String
encode quote find_info encode_with cfg = elim (find_info "application/yaml") [
  | none ↦ inl (
      "unable to locate encoder -- "
      ++ quote "application/yaml"
      ++ " is not a supported media type")
  | some info ↦ encode_with info cfg
]
