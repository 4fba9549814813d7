-- ===== src/Texts.antt =====
-- The bounds of texts of src/mtbank_ai/domain/base.py, on texts that are stripped already.
use Prim.Native.String.{count}
use mtbank_ai_call_analytics.Prelude.{String, Bool, ◌&&◌, leb}

-- `NonEmptyId`: 1 to 256 characters.
unfoldable pub is_id : String → Bool
is_id text = leb 1 (count text) && leb (count text) 256

-- `LongText`: 1 to 20000 characters.
unfoldable pub is_long_text : String → Bool
is_long_text text = leb 1 (count text) && leb (count text) 20000
