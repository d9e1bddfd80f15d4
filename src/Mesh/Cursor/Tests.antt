-- ===== src/Mesh/Cursor/Tests.antt =====
-- The cursors of mesh/store.ts at concrete offsets.
use ultra_fabric.Prelude.{◌≡◌, refl, none, some, arith}
use ultra_fabric.Mesh.Cursor.{log_limits, encode_cursor, decode_cursor, decode-encode}

decode-encode_example : decode_cursor 4_294_967_303 ≡ some (1, 7)
unfolding log_limits encode_cursor
decode-encode_example = decode-encode 100 none none 1 7 4_294_967_303 (omega arith) refl
