-- ===== src/Text/Trim.antt =====
-- `str::trim` on the bytes of a text.
use protocol_proxy.Text.Utf8.{is_whitespace, from_utf8}
use protocol_proxy.Text.Words.{trim}
use mathlib.Core.List.{flatten}
use protocol_proxy.Prelude.{[], Bytes, unwrap_or}

unfoldable pub trim_text : Bytes → Bytes
trim_text text = flatten (trim is_whitespace (unwrap_or (from_utf8 text) []))
