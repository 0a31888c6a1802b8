-- ===== src/Cursors/RoundTrip.antt =====
-- What is read back from a cursor: the round trips of the cursor maps.
use Prim.Native.Char.{code}
use Prim.Native.String.{◌++◌ as append}
use Prim.Native.String.append.{nil as append_nil, cons as append_cons}
use app_suscriptions_back.Prelude.{
  ℕ, zero, suc, ◌+◌, ◌≤◌, ◌%◌, ◌||◌, ◌==◌, true, false, str_eq, sym, ◌≡◌, refl, ap, String, Bool,
  Option, none, some, [], ◌∷◌, str_eq_iff, if◌then◌else◌, arith, filter, ◌∙◌,
}
use app_suscriptions_back.Dict.{get, has}
use app_suscriptions_back.Domain.{Value, null, string, object, Fields, end, field, is_set}
use app_suscriptions_back.Cursors.{
  Codec, CursorMap, known, drop_prefix, encode_global_cursor, decode_global_cursor, dump, load, pad,
  rstrip_equals, equals_signs, length_of, cursors_of, cursor_text,
}

drop_prefix-append : (p s : String) → drop_prefix p (append p s) ≡ some s
unfolding drop_prefix
drop_prefix-append String.[] s = rw (append_nil s) refl
drop_prefix-append (String.◌∷◌ c p) s =
    rw (append_cons c p s) (ground (arith, drop_prefix-append p s))

-- keeping the keys of a set leaves their entries alone
get-filter_keys :
    (key : String) (is_kept : String → Bool) (d : CursorMap)
    → get key (filter (λ entry. is_kept entry.0) d) ≡ (if is_kept key then get key d else none)
unfolding get
get-filter_keys key is_kept [] = ground arith
get-filter_keys key is_kept ((k, v) ∷ d) =
    ground
      (arith, get-filter_keys key is_kept d, str_eq_iff k key, λ (same : k ≡ key). ap is_kept same)

-- `fields.get(key)` and `key in fields` of a JSON object
unfoldable pub find : String → Fields → Value
find key end = null
find key (field k v fs) = if str_eq k key then v else find key fs

unfoldable pub has_key : String → Fields → Bool
has_key key end = false
has_key key (field k v fs) = if str_eq k key then true else has_key key fs

decode_prefixed :
    (codec : Codec) (cursor token : String)
    → drop_prefix "global:" cursor ≡ some token
    → decode_global_cursor codec (some cursor)
      ≡ some (filter (λ e. has e.0 known) (load codec token))
unfolding decode_global_cursor
decode_prefixed codec cursor token h = rw (decode_global_cursor, h) refl

-- whether a text has an equals sign
abbrev pub has_equals : String → Bool
has_equals String.[] = false
has_equals (String.◌∷◌ c s) = code c == 61 || has_equals s

-- The form of base64: whole groups of four characters, of which the last ones may be padding.
pub record IsPadded (text : String) : Type 0 where
  pub body : String
  pub signs : ℕ
  pub made : text ≡ append body (equals_signs signs)
  pub plain : has_equals body ≡ false
  pub few : signs ≤ 2
  pub whole : (length_of body + signs) % 4 ≡ 0

rstrip_equals-equals_signs : (n : ℕ) → rstrip_equals (equals_signs n) ≡ ""
unfolding rstrip_equals equals_signs
rstrip_equals-equals_signs zero = refl
rstrip_equals-equals_signs (suc n) = rw (rstrip_equals, rstrip_equals-equals_signs n) refl

rstrip_equals-append :
    (body : String) (n : ℕ)
    → has_equals body ≡ false
    → rstrip_equals (append body (equals_signs n)) ≡ body
unfolding rstrip_equals
rstrip_equals-append String.[] n h = rw (append_nil (equals_signs n)) (rstrip_equals-equals_signs n)
rstrip_equals-append (String.◌∷◌ c body) n h =
    rw (append_cons c body (equals_signs n)) (ground (arith, h, rstrip_equals-append body n))

pad-body :
    (body : String) (n : ℕ)
    → n ≤ 2
    → (length_of body + n) % 4 ≡ 0
    → pad body ≡ append body (equals_signs n)
unfolding pad
pad-body body n few whole = ap (λ k. append body (equals_signs k)) (omega (arith, few, whole))

-- the padding that is stripped is put back
pad-rstrip_equals : (text : String) → IsPadded text → pad (rstrip_equals text) ≡ text
pad-rstrip_equals text p =
    ap (λ t. pad (rstrip_equals t)) p.made
    ∙ ap pad (rstrip_equals-append p.body p.signs p.plain)
    ∙ pad-body p.body p.signs p.few p.whole
    ∙ sym p.made

-- a cursor as a JSON value
abbrev pub json_of : Option (Option String) → Value
json_of (some (some cursor)) = string cursor
json_of _ = null

get-cursors_of :
    (text_of : Value → String) (key : String) (fs : Fields)
    → get key (cursors_of text_of fs)
      ≡ (if has_key key fs then some (cursor_text text_of (find key fs)) else none)
unfolding get cursors_of has_key find
get-cursors_of text_of key end = refl
get-cursors_of text_of key (field k v fs) = ground (arith, get-cursors_of text_of key fs)

-- The object has the entries of the map, in any order.
abbrev pub Writes : CursorMap → Fields → Type 0
Writes mapping fs =
    (key : String) → (has_key key fs ≡ has key mapping) × (find key fs ≡ json_of (get key mapping))

has-get : (key : String) (d : CursorMap) → has key d ≡ is_set (get key d)
unfolding has get
has-get key [] = refl
has-get key ((k, v) ∷ d) = ground (arith, has-get key d)

cursors_of-Writes :
    (text_of : Value → String) (mapping : CursorMap) (fs : Fields)
    → ((cursor : String) → text_of (string cursor) ≡ cursor)
    → Writes mapping fs
    → (key : String) → get key (cursors_of text_of fs) ≡ get key mapping
cursors_of-Writes text_of mapping fs text writes key =
    get-cursors_of text_of key fs ∙ go (get key mapping) refl
  where
    go :
        (o : Option (Option String))
        → get key mapping ≡ o
        → (if has_key key fs then some (cursor_text text_of (find key fs)) else none)
          ≡ get key mapping
    go none e = rw ((writes key).0, (writes key).1, has-get key mapping, e) refl
    go (some none) e = rw ((writes key).0, (writes key).1, has-get key mapping, e) refl
    go (some (some cursor)) e =
        rw ((writes key).0, (writes key).1, has-get key mapping, e)
          (ap (λ t. some (some t)) (text cursor))

load-dump :
    (codec : Codec) (mapping : CursorMap) (fs : Fields)
    → IsPadded (codec.b64encode (codec.dumps mapping))
    → codec.b64decode (codec.b64encode (codec.dumps mapping)) ≡ some (codec.dumps mapping)
    → codec.loads (codec.dumps mapping) ≡ some (object fs)
    → load codec (dump codec mapping) ≡ cursors_of codec.text_of fs
unfolding load dump
load-dump codec mapping fs padded decodes reads =
    rw (load, pad-rstrip_equals (codec.b64encode (codec.dumps mapping)) padded, decodes, reads) refl

-- The cursor of the next global page, decoded, has for every provider the cursor that was put there,
-- None included, and no other key; a map with an entry always has a cursor. What is asked of the
-- libraries is what they document: base64 has its form, padded to groups of four, and decodes to what
-- was encoded; JSON reads back an object with the entries that were written; `str` of a text is it.
pub decode-encode_global_cursor :
    (codec : Codec) (entry : String × Option String) (rest : CursorMap) (fs : Fields)
    → IsPadded (codec.b64encode (codec.dumps (entry ∷ rest)))
    → codec.b64decode (codec.b64encode (codec.dumps (entry ∷ rest)))
      ≡ some (codec.dumps (entry ∷ rest))
    → codec.loads (codec.dumps (entry ∷ rest)) ≡ some (object fs)
    → Writes (entry ∷ rest) fs
    → ((cursor : String) → codec.text_of (string cursor) ≡ cursor)
    → (back : CursorMap) × (decode_global_cursor codec (encode_global_cursor codec (entry ∷ rest))
        ≡ some back)
      × ((key : String) → get key back ≡ (if has key known then get key (entry ∷ rest) else none))
unfolding encode_global_cursor
decode-encode_global_cursor codec entry rest fs padded decodes reads writes text = (
  filter (λ e. has e.0 known) (load codec (dump codec (entry ∷ rest))),
  decode_prefixed codec _ _ (drop_prefix-append "global:" (dump codec (entry ∷ rest))),
  λ key.
      get-filter_keys key (λ k. has k known) (load codec (dump codec (entry ∷ rest)))
      ∙ rw
          (
            load-dump codec (entry ∷ rest) fs padded decodes reads,
            cursors_of-Writes codec.text_of (entry ∷ rest) fs text writes key,
          )
          refl,
)
