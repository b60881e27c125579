-- ===== src/Query/Cursor.antt =====
-- The cursors of internal/application/query/cursor.go, and PageKey of domain/payment/repository.go.
use payment_module.Common.{
  String, ◌<>◌, Bool, true, false, Option, none, some, is_empty, if◌then◌else◌,
}
use payment_module.Common.Strings.{cut}
use payment_module.Errors.{Error, Result, ok, err, invalid_input}
use payment_module.Domain.Types.{Time, Uuid}

pub record PageKey : Type 0 where
  pub created_at : Time
  pub id : Uuid

-- base64.RawURLEncoding, RFC 3339 times with nanoseconds, and UUIDs.
pub record CursorCodec : Type 0 where
  pub encode : String → String
  pub decode : String → Option String
  pub format : Time → String
  pub parse_time : String → Option Time
  pub show : Uuid → String
  pub parse : String → Option Uuid

abbrev invalid_cursor : Error
invalid_cursor =
    invalid_input "cursor is invalid; pass next_cursor from the previous page unchanged"

module _ (codec : CursorCodec) where
  unfoldable pub encode_cursor : PageKey → String
  encode_cursor k = codec.encode (codec.format k.created_at <> ("|" <> codec.show k.id))

  abbrev key_of : Option Time → Option Uuid → Result (Option PageKey)
  key_of (some t) (some id) = ok (some (record { created_at = t; id = id }))
  key_of _ _ = err invalid_cursor

  unfoldable pub decode_parts : String × String × Bool → Result (Option PageKey)
  decode_parts (ts, id, false) = err invalid_cursor
  decode_parts (ts, id, true) = key_of (codec.parse_time ts) (codec.parse id)

  unfoldable pub decode_raw : Option String → Result (Option PageKey)
  unfolding decode_parts cut
  decode_raw none = err invalid_cursor
  decode_raw (some raw) = decode_parts (cut "|" raw)

  -- No cursor is the first page.
  unfoldable pub decode_cursor : String → Result (Option PageKey)
  unfolding decode_raw
  decode_cursor s = if is_empty s then ok none else decode_raw (codec.decode s)
