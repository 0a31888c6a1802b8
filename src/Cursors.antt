-- ===== src/Cursors.antt =====
-- app/subscriptions/services/cursors.py, and the cursors of listing.py: maps of cursors as opaque
-- texts.
use Prim.Native.Char.{code}
use Prim.Native.String.{◌++◌ as append}
use app_suscriptions_back.Prelude.{
  ℕ, zero, suc, ◌-◌, ◌%◌, ◌&&◌, str_eq, ◌≡◌, refl, String, Bool, true, false, Option, none, some,
  List, [], ◌∷◌, ◌==◌, if◌then◌else◌, arith, filter, map,
}
use app_suscriptions_back.Dict.{Dict, keys, has}
use app_suscriptions_back.Domain.{
  is_set, is_nonempty, providers, value, Value, null, object, Fields, end, field,
}
pub mod RoundTrip

abbrev pub CursorMap : Type 0
CursorMap = Dict (Option String)

-- Python's libraries: `json.dumps(…, separators=(",", ":"), sort_keys=True)` and `json.loads`, which
-- refuses some texts with a ValueError; the base64url encoding and decoding of the UTF-8 bytes of a
-- text, of which the decoding refuses some with a ValueError; and `str` of a value.
pub record Codec : Type 0 where
  pub dumps : CursorMap → String
  pub loads : String → Option Value
  pub b64encode : String → String
  pub b64decode : String → Option String
  pub text_of : Value → String

-- `"=" * n`
unfoldable pub equals_signs : ℕ → String
equals_signs zero = ""
equals_signs (suc n) = String.◌∷◌ "=" (equals_signs n)

-- `text.rstrip("=")`
unfoldable pub rstrip_equals : String → String
rstrip_equals String.[] = String.[]
rstrip_equals (String.◌∷◌ c s) =
    let rest = rstrip_equals s in
    if str_eq rest "" && code c == 61 then String.[] else String.◌∷◌ c rest

-- `len(text)`
unfoldable pub length_of : String → ℕ
length_of String.[] = 0
length_of (String.◌∷◌ c s) = suc (length_of s)

-- `token + ("=" * (-len(token) % 4))`
unfoldable pub pad : String → String
unfolding equals_signs length_of
pad token = append token (equals_signs ((4 - length_of token % 4) % 4))

-- `str(v) if v is not None else None`
abbrev pub cursor_text : (Value → String) → Value → Option String
cursor_text text_of null = none
cursor_text text_of v = some (text_of v)

-- `{str(k): … for k, v in decoded.items()}`
unfoldable pub cursors_of : (Value → String) → Fields → CursorMap
cursors_of text_of end = []
cursors_of text_of (field k v fs) = (k, cursor_text text_of v) ∷ cursors_of text_of fs

-- `{}` for what is no dict
abbrev pub dict_cursors : (Value → String) → Value → CursorMap
dict_cursors text_of (object fs) = cursors_of text_of fs
dict_cursors text_of v = []

-- `text.startswith(prefix)`, with `text[len(prefix):]`
unfoldable pub drop_prefix : String → String → Option String
drop_prefix String.[] s = some s
drop_prefix (String.◌∷◌ c p) String.[] = none
drop_prefix (String.◌∷◌ c p) (String.◌∷◌ d s) =
    let rest = drop_prefix p s in if code c == code d then rest else none

-- the cursors that are not None
abbrev pub active : CursorMap → CursorMap
active mapping = filter (λ entry. is_set entry.1) mapping

-- `known` of `_decode_global_cursor`
abbrev pub known : CursorMap
known = map (λ provider. (value provider, none)) providers

module _ (codec : Codec) where
  -- the token of a map
  unfoldable pub dump : CursorMap → String
  unfolding rstrip_equals
  dump mapping = rstrip_equals (codec.b64encode (codec.dumps mapping))

  -- the map of a token, `{}` for one that is refused
  unfoldable pub load : String → CursorMap
  unfolding pad cursors_of
  load token = elim (codec.b64decode (pad token)) [
    | none ↦ []
    | some payload ↦ elim (codec.loads payload) [
      | none ↦ []
      | some decoded ↦ dict_cursors codec.text_of decoded
    ]
  ]

  -- `encode_cursor`
  unfoldable pub encode_cursor : String → CursorMap → Option String
  unfolding dump
  encode_cursor prefix mapping =
      if is_nonempty (active mapping) then some (append prefix (dump (active mapping))) else none

  -- `decode_cursor`
  unfoldable pub decode_cursor : String → Option String → Option CursorMap
  unfolding load
  decode_cursor prefix none = none
  decode_cursor prefix (some cursor) = elim (drop_prefix prefix cursor) [
    | none ↦ none
    | some token ↦ some (load token)
  ]

  -- `_encode_global_cursor`: the cursors that are None are kept.
  unfoldable pub encode_global_cursor : CursorMap → Option String
  unfolding dump
  encode_global_cursor [] = none
  encode_global_cursor (entry ∷ mapping) = some (append "global:" (dump (entry ∷ mapping)))

  -- `_decode_global_cursor`. A cursor without the prefix goes to every provider.
  unfoldable pub decode_global_cursor : Option String → Option CursorMap
  unfolding has value load
  decode_global_cursor none = none
  decode_global_cursor (some cursor) = elim (drop_prefix "global:" cursor) [
    | none ↦ some (map (λ provider. (value provider, some cursor)) providers)
    | some token ↦ some (filter (λ entry. has entry.0 known) (load token))
  ]

  -- `_encode_admin_cursor`
  unfoldable pub encode_admin_cursor : CursorMap → Option String
  encode_admin_cursor = encode_cursor "admin:"

  -- `_decode_admin_cursor`: a cursor without the prefix is an empty map.
  unfoldable pub decode_admin_cursor : Option String → Option CursorMap
  unfolding decode_cursor
  decode_admin_cursor none = none
  decode_admin_cursor (some cursor) = elim (decode_cursor "admin:" (some cursor)) [
    | none ↦ some []
    | some mapping ↦ some mapping
  ]

  -- `_encode_status_cursor`
  unfoldable pub encode_status_cursor : CursorMap → Option String
  encode_status_cursor = encode_cursor "statuses:"

  -- `_decode_status_cursor`
  unfoldable pub decode_status_cursor : Option String → Option CursorMap
  decode_status_cursor = decode_cursor "statuses:"

-- `_status_cursor_key`
unfoldable pub status_cursor_key : Option String → String
status_cursor_key none = ""
status_cursor_key (some status) = status

-- `_admin_cursor_key`; ids are written by `id_text`, `str` of a UUID.
unfoldable pub admin_cursor_key : (ℕ → String) → ℕ → String → Option String → String
admin_cursor_key id_text company name none = append (id_text company) (append ":" name)
admin_cursor_key id_text company name (some status) =
    append (id_text company) (append ":" (append name (append ":" status)))
