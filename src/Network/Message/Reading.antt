-- ===== src/Network/Message/Reading.antt =====
-- Reading fields from a message whose buffer holds their bytes at the reader's position.
use mathlib.Core.List.{append_assoc}
use odirion_mmoserver.Base.{
  ℕ, ◌+◌, ◌≤◌, ◌<◌, ◌≡◌, refl, sym, ap, subst, ◌∙◌, true, some, List, [], ◌∷◌, ◌++◌, map, arith,
  length, length-append, u16, All,
}
use odirion_mmoserver.Base.Bytes.{
  to_le, from_le, length-to_le, from_le_one, from_le_two, from_le_four, read_at_parts, read_at,
}
use odirion_mmoserver.Position.{Position, IsPosition}
use odirion_mmoserver.Network.Message.{
  NetworkMessage, M, ◌>>=◌, max_body_length, can_read, fetch, get, read_string, get_string,
  get_position,
}
use odirion_mmoserver.Network.Message.Buffer.{>>=-eq-some}
use odirion_mmoserver.Network.Message.Fields.{
  Field, byte, word, double_word, text, place, kind, IsField, encoding, encodings, get_field,
  get_fields,
}

-- The reader stands before `bs`, which the message's length covers.
pub record IsAt (m : NetworkMessage) (bs : List ℕ) : Type 0 where
  pub pre : List ℕ
  pub post : List ℕ
  pub contents : m.buffer ≡ pre ++ (bs ++ post)
  pub here : length pre ≡ m.position
  pub within : m.position + length bs ≤ m.len + 8
  pub room : m.position + length bs < max_body_length

abbrev pub moved : ℕ → NetworkMessage → NetworkMessage
moved n m = record m { position = m.position + n }

moved-IsAt :
    (m : NetworkMessage) (ws bs : List ℕ) → IsAt m (ws ++ bs) → IsAt (moved (length ws) m) bs
moved-IsAt m ws bs a = record {
  pre = a.pre ++ ws;
  post = a.post;
  contents =
      a.contents
      ∙ ap (◌++◌ a.pre) (append_assoc ws bs a.post)
      ∙ sym (append_assoc a.pre ws (bs ++ a.post));
  here = omega (arith, length-append a.pre ws, a.here);
  within = omega (arith, length-append ws bs, a.within);
  room = omega (arith, length-append ws bs, a.room);
}

fetch-IsAt :
    (m : NetworkMessage) (ws bs : List ℕ) (n : ℕ)
    → length ws ≡ n
    → IsAt m (ws ++ bs)
    → fetch n m ≡ some (ws, moved n m)
unfolding fetch
fetch-IsAt m ws bs n e a =
    let found : read_at m.buffer m.position n ≡ some ws =
      rw (a.contents, append_assoc ws bs a.post)
        (read_at_parts a.pre ws (bs ++ a.post) m.position n (a.here) e) in
    let small : u16 (m.position + n) ≡ m.position + n =
      omega (arith, length-append ws bs, a.room) in
    rw (found, fetch) (rw small)

can_read-IsAt :
    (m : NetworkMessage) (ws bs : List ℕ) (n : ℕ)
    → length ws ≡ n
    → IsAt m (ws ++ bs)
    → can_read m n ≡ true
unfolding can_read
can_read-IsAt m ws bs n e a =
    let w : m.position + n ≤ m.len + 8 = omega (arith, length-append ws bs, a.within) in
    let r : m.position + n < max_body_length = omega (arith, length-append ws bs, a.room) in
    ground arith

get-IsAt :
    (m : NetworkMessage) (ws bs : List ℕ) (n : ℕ)
    → length ws ≡ n
    → IsAt m (ws ++ bs)
    → get n m ≡ some (from_le ws, moved n m)
unfolding get
get-IsAt m ws bs n e a = rw (can_read-IsAt m ws bs n e a) (rw (fetch-IsAt m ws bs n e a, ◌>>=◌))

read_string-IsAt :
    (m : NetworkMessage) (s bs : List ℕ)
    → IsAt m (s ++ bs)
    → read_string (length s) m ≡ some (s, moved (length s) m)
unfolding read_string
read_string-IsAt m s bs a =
    rw (can_read-IsAt m s bs (length s) refl a) (fetch-IsAt m s bs (length s) refl a)

-- Reading one field that starts here gives its value, and the reader stands behind it.
abbrev Reads : {A : Type 0} → M A → NetworkMessage → List ℕ → A → Type 0
Reads f m ws v = f m ≡ some (v, moved (length ws) m)

get_number-IsAt :
    (n v : ℕ) (m : NetworkMessage) (bs : List ℕ)
    → from_le (to_le n v) ≡ v
    → IsAt m (to_le n v ++ bs)
    → get n m ≡ some (v, moved n m)
get_number-IsAt n v m bs e a =
    get-IsAt m (to_le n v) bs n (length-to_le n v) a ∙ ap (λ w. some (w, moved n m)) e

pub after_number-IsAt :
    (n v : ℕ) (m : NetworkMessage) (bs : List ℕ) → IsAt m (to_le n v ++ bs) → IsAt (moved n m) bs
after_number-IsAt n v m bs a =
    subst (λ k. IsAt (moved k m) bs) (length-to_le n v) (moved-IsAt m (to_le n v) bs a)

get_text-IsAt :
    (s : List ℕ) (m : NetworkMessage) (bs : List ℕ)
    → length s ≤ 8192
    → IsAt m (to_le 2 (length s) ++ (s ++ bs))
    → get_string 0 m ≡ some (s, moved (length s) (moved 2 m))
unfolding get_string
get_text-IsAt s m bs h a =
    >>=-eq-some (get 2) read_string m
      (get_number-IsAt 2 (length s) m (s ++ bs) (from_le_two (length s) (omega arith)) a)
    ∙ read_string-IsAt (moved 2 m) s bs (after_number-IsAt 2 (length s) m (s ++ bs) a)

get_place-IsAt :
    (p : Position) (m : NetworkMessage) (bs : List ℕ)
    → IsPosition p
    → IsAt m (to_le 2 p.x ++ (to_le 2 p.y ++ (to_le 1 p.z ++ bs)))
    → get_position m ≡ some (p, moved 1 (moved 2 (moved 2 m)))
unfolding get_position
get_place-IsAt p m bs h a =
    let b = after_number-IsAt 2 p.x m (to_le 2 p.y ++ (to_le 1 p.z ++ bs)) a in
    let c = after_number-IsAt 2 p.y (moved 2 m) (to_le 1 p.z ++ bs) b in
    rw (
      get_number-IsAt 2 p.x m (to_le 2 p.y ++ (to_le 1 p.z ++ bs)) (from_le_two p.x (h.0)) a,
      ◌>>=◌,
      get_number-IsAt 2 p.y (moved 2 m) (to_le 1 p.z ++ bs) (from_le_two p.y (h.1)) b,
      get_number-IsAt 1 p.z (moved 2 (moved 2 m)) bs (from_le_one p.z (h.2)) c,
    )

moved-moved : (a b : ℕ) (m : NetworkMessage) → moved b (moved a m) ≡ moved (a + b) m
moved-moved a b m = ap (λ k. record m { position = k }) (omega arith)

moved_eq : (a b : ℕ) (m : NetworkMessage) → a ≡ b → moved a m ≡ moved b m
moved_eq a b m e = ap (λ k. moved k m) e

get_field-IsAt :
    (f : Field) (m : NetworkMessage) (bs : List ℕ)
    → IsField f
    → IsAt m (encoding f ++ bs)
    → get_field (kind f) m ≡ some (f, moved (length (encoding f)) m)
unfolding get_field kind encoding
get_field-IsAt (byte v) m bs h a =
    rw (get_number-IsAt 1 v m bs (from_le_one v h) a, ◌>>=◌) (rw (length-to_le 1 v))
get_field-IsAt (word v) m bs h a =
    rw (get_number-IsAt 2 v m bs (from_le_two v h) a, ◌>>=◌) (rw (length-to_le 2 v))
get_field-IsAt (double_word v) m bs h a =
    rw (get_number-IsAt 4 v m bs (from_le_four v h) a, ◌>>=◌) (rw (length-to_le 4 v))
get_field-IsAt (text s) m bs h a =
    let b = subst (IsAt m) (append_assoc (to_le 2 (length s)) s bs) a in
    let size : 2 + length s ≡ length (to_le 2 (length s) ++ s) =
      omega (arith, length-append (to_le 2 (length s)) s, length-to_le 2 (length s)) in
    rw (get_text-IsAt s m bs h b, ◌>>=◌)
      (ap (λ k. some (text s, k)) (moved-moved 2 (length s) m ∙ moved_eq _ _ m size))
get_field-IsAt (place p) m bs h a =
    let b =
      subst (IsAt m)
        (append_assoc (to_le 2 p.x) (to_le 2 p.y ++ to_le 1 p.z) bs
          ∙ ap (◌++◌ (to_le 2 p.x)) (append_assoc (to_le 2 p.y) (to_le 1 p.z) bs))
        a in
    let size : 5 ≡ length (encoding (place p)) = omega (
      arith,
      length-append (to_le 2 p.x) (to_le 2 p.y ++ to_le 1 p.z),
      length-append (to_le 2 p.y) (to_le 1 p.z),
      length-to_le 2 p.x,
      length-to_le 2 p.y,
      length-to_le 1 p.z,
    ) in
    rw (get_place-IsAt p m bs h b, ◌>>=◌)
      (ap (λ k. some (place p, k))
        (moved-moved 2 1 (moved 2 m) ∙ moved-moved 2 3 m ∙ moved_eq _ _ m size))

-- A reader that stands before the bytes of some fields gets exactly these, and stands behind them.
pub get_fields-IsAt :
    (fs : List Field) (m : NetworkMessage) (bs : List ℕ)
    → All IsField fs
    → IsAt m (encodings fs ++ bs)
    → get_fields (map kind fs) m ≡ some (fs, moved (length (encodings fs)) m)
unfolding get_fields encodings
get_fields-IsAt [] m bs h a =
    ap (λ k. some ([], k)) (ap (λ k. record m { position = k }) (omega arith))
get_fields-IsAt (f ∷ fs) m bs h a =
    let b = subst (IsAt m) (append_assoc (encoding f) (encodings fs) bs) a in
    let rest =
      get_fields-IsAt fs (moved (length (encoding f)) m) bs (h.1)
        (moved-IsAt m (encoding f) (encodings fs ++ bs) b) in
    rw (get_field-IsAt f m (encodings fs ++ bs) (h.0) b, ◌>>=◌, rest)
      (ap (λ k. some (f ∷ fs, k))
        (moved-moved (length (encoding f)) (length (encodings fs)) m
          ∙ moved_eq _ _ m (sym (length-append (encoding f) (encodings fs)))))
