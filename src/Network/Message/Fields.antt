-- ===== src/Network/Message/Fields.antt =====
-- A message's layout as a list of fields: what writes it, what reads it, and its bytes.
use odirion_mmoserver.Base.{ℕ, ◌^◌, ◌≤◌, ◌<◌, List, [], ◌∷◌, ◌++◌, length}
use odirion_mmoserver.Base.Bytes.{to_le}
use odirion_mmoserver.Position.{Position, IsPosition}
use odirion_mmoserver.Network.Message.{
  M, ◌>>=◌, ◌>>◌, pure, add, get, add_string, add_position, get_string, get_position,
}

-- One item of a message's layout, and its value.
pub data Field : Type 0 where
  byte word double_word : ℕ → Field
  text : List ℕ → Field
  place : Position → Field

pub data Kind : Type 0 where
  bytes words double_words texts places : Kind

unfoldable pub kind : Field → Kind
kind (byte v) = bytes
kind (word v) = words
kind (double_word v) = double_words
kind (text s) = texts
kind (place p) = places

-- The value is in its type's range; a string is no longer than `addString` takes.
abbrev pub IsField : Field → Type 0
IsField (byte v) = v < 2 ^ 8
IsField (word v) = v < 2 ^ 16
IsField (double_word v) = v < 2 ^ 32
IsField (text s) = length s ≤ 8192
IsField (place p) = IsPosition p

unfoldable pub encoding : Field → List ℕ
encoding (byte v) = to_le 1 v
encoding (word v) = to_le 2 v
encoding (double_word v) = to_le 4 v
encoding (text s) = to_le 2 (length s) ++ s
encoding (place p) = to_le 2 p.x ++ (to_le 2 p.y ++ to_le 1 p.z)

unfoldable pub encodings : List Field → List ℕ
encodings [] = []
encodings (f ∷ fs) = encoding f ++ encodings fs

unfoldable pub add_field : Field → M (Unit {0})
add_field (byte v) = add 1 v
add_field (word v) = add 2 v
add_field (double_word v) = add 4 v
add_field (text s) = add_string s
add_field (place p) = add_position p

unfoldable pub add_fields : List Field → M (Unit {0})
add_fields [] = pure tt
add_fields (f ∷ fs) = do add_field f; add_fields fs

unfoldable pub get_field : Kind → M Field
get_field bytes = do v ← get 1; pure (byte v)
get_field words = do v ← get 2; pure (word v)
get_field double_words = do v ← get 4; pure (double_word v)
get_field texts = do s ← get_string 0; pure (text s)
get_field places = do p ← get_position; pure (place p)

unfoldable pub get_fields : List Kind → M (List Field)
get_fields [] = pure []
get_fields (k ∷ ks) = do f ← get_field k; fs ← get_fields ks; pure (f ∷ fs)
