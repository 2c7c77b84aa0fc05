-- ===== src/Network/Message/RoundTrip.antt =====
-- Fields that are added to a message are read back from it.
use mathlib.Core.List.{append_assoc, append-nil}
use odirion_mmoserver.Base.{
  ℕ, ◌+◌, ◌≤◌, ◌<◌, ◌≡◌, sym, ap, ◌∙◌, some, List, [], ◌∷◌, ◌++◌, arith, length, length-append,
  take, drop, drop-append_add, drop-drop, take-append_eq, take-append-drop, map, u16, All,
}
use odirion_mmoserver.Base.Bytes.{to_le, length-to_le, length-take_le}
use odirion_mmoserver.Network.Message.{
  NetworkMessage, M, ◌>>◌, max_body_length, add, add_string, add_position, set_buffer_position,
}
use odirion_mmoserver.Network.Message.Buffer.{
  IsBuffer, after_put, put_fits, >>=-eq-some, add_fits, add_string_fits, add_string_lem,
}
use odirion_mmoserver.Network.Message.Fields.{
  Field, byte, word, double_word, text, place, kind, IsField, encoding, encodings, add_field,
  add_fields, get_fields,
}
use odirion_mmoserver.Network.Message.Reading.{IsAt, get_fields-IsAt}

after_put-append :
    (ws bs : List ℕ) (m : NetworkMessage)
    → IsBuffer m
    → m.position + length (ws ++ bs) < max_body_length
    → after_put bs (after_put ws m) ≡ after_put (ws ++ bs) m
after_put-append ws bs m h fits =
    λ i. record m { buffer = contents i; position = place_after i; len = len_after i }
  where
    p : ℕ
    p = m.position

    pre : List ℕ
    pre = take p m.buffer

    post : List ℕ
    post = drop (p + length ws) m.buffer

    total : length (ws ++ bs) ≡ length ws + length bs
    total = length-append ws bs

    at_middle : u16 (p + length ws) ≡ p + length ws
    at_middle = omega (arith, total, fits)

    at_pre : length pre ≡ p
    at_pre = length-take_le p m.buffer (omega (arith, total, fits, h))

    place_after : u16 (u16 (p + length ws) + length bs) ≡ u16 (p + length (ws ++ bs))
    place_after = omega (arith, total)

    len_after : u16 (u16 (m.len + length ws) + length bs) ≡ u16 (m.len + length (ws ++ bs))
    len_after = omega (arith, total)

    front : take (p + length ws) (pre ++ (ws ++ post)) ≡ pre ++ ws
    front =
        ap (take (p + length ws)) (sym (append_assoc pre ws post))
        ∙ take-append_eq (p + length ws) (pre ++ ws) post
            (omega (arith, length-append pre ws, at_pre))

    back :
        drop (p + length ws + length bs) (pre ++ (ws ++ post))
        ≡ drop (p + length (ws ++ bs)) m.buffer
    back =
        ap (drop (p + length ws + length bs)) (sym (append_assoc pre ws post))
        ∙ drop-append_add (length bs) (p + length ws + length bs) (pre ++ ws) post
            (omega (arith, length-append pre ws, at_pre))
        ∙ drop-drop (p + length ws) (length bs) (p + length (ws ++ bs)) m.buffer
            (omega (arith, total))

    contents :
        take (u16 (p + length ws)) (pre ++ (ws ++ post))
          ++ (bs ++ drop (u16 (p + length ws) + length bs) (pre ++ (ws ++ post)))
        ≡ pre ++ ((ws ++ bs) ++ drop (p + length (ws ++ bs)) m.buffer)
    contents =
        rw (at_middle, front, back)
          (append_assoc pre ws _ ∙ ap (◌++◌ pre) (sym (append_assoc ws bs _)))

-- A message that is being written: all that `length` counts stands before the position.
pub record IsOpen (m : NetworkMessage) : Type 0 where
  pub full : IsBuffer m
  pub written : m.position ≡ m.len + 8
  pub fits : m.position < max_body_length

-- `add_field` puts the field's bytes, where they fit.
Puts : M (Unit {0}) → List ℕ → NetworkMessage → Type 0
Puts f bs m =
    IsBuffer m → m.position + length bs < max_body_length → f m ≡ some (tt, after_put bs m)

after_put-IsBuffer :
    (bs : List ℕ) (m : NetworkMessage)
    → IsBuffer m
    → m.position + length bs < max_body_length
    → IsBuffer (after_put bs m)
after_put-IsBuffer bs m h fits = (put_fits bs m h (omega arith)).1

add-Puts : (n v : ℕ) (m : NetworkMessage) → Puts (add n v) (to_le n v) m
unfolding Puts
add-Puts n v m h fits =
    add_fits n v m (omega (arith, length-to_le n v)) ∙ (put_fits (to_le n v) m h (omega arith)).0

-- A part of what fits, fits; and so does the rest behind it.
>>-Puts :
    (f g : M (Unit {0})) (ws bs : List ℕ)
    → ((m : NetworkMessage) → Puts f ws m)
    → ((m : NetworkMessage) → Puts g bs m)
    → (m : NetworkMessage) → Puts (f >> g) (ws ++ bs) m
unfolding Puts
>>-Puts f g ws bs pf pg m h fits =
    let total = length-append ws bs in
    let first : m.position + length ws < max_body_length = omega (arith, total, fits) in
    >>=-eq-some f (λ _. g) m (pf m h first)
    ∙ pg (after_put ws m) (after_put-IsBuffer ws m h first) (omega (arith, total, fits, first))
    ∙ ap (λ k. some (tt, k)) (after_put-append ws bs m h fits)

add_string-Puts :
    (value : List ℕ) (m : NetworkMessage)
    → length value ≤ 8192
    → Puts (add_string value) (to_le 2 (length value) ++ value) m
unfolding Puts
add_string-Puts value m short h fits =
    let total = length-append (to_le 2 (length value)) value in
    let room : length value + 2 + m.position < max_body_length =
      omega (arith, total, fits, length-to_le 2 (length value)) in
    add_string_lem value m short room
    ∙ (add_string_fits value m h room).0
    ∙ ap (λ k. some (tt, k)) (after_put-append (to_le 2 (length value)) value m h fits)

add_field-Puts : (f : Field) (m : NetworkMessage) → IsField f → Puts (add_field f) (encoding f) m
unfolding add_field encoding add_position
add_field-Puts (byte v) m ok = add-Puts 1 v m
add_field-Puts (word v) m ok = add-Puts 2 v m
add_field-Puts (double_word v) m ok = add-Puts 4 v m
add_field-Puts (text s) m ok = add_string-Puts s m ok
add_field-Puts (place p) m ok =
    >>-Puts (add 2 p.x) (add 2 p.y >> add 1 p.z) _ _ (add-Puts 2 p.x)
      (>>-Puts (add 2 p.y) (add 1 p.z) _ _ (add-Puts 2 p.y) (add-Puts 1 p.z)) m

after_put_nil : (m : NetworkMessage) → IsOpen m → after_put [] m ≡ m
after_put_nil m o =
    λ i. record m { buffer = take-append-drop_zero i; position = place_after i; len = len_after i }
  where
    place_after : u16 (m.position + 0) ≡ m.position
    place_after = omega (arith, o.fits)

    len_after : u16 (m.len + 0) ≡ m.len
    len_after = omega (arith, o.fits, o.written)

    take-append-drop_zero : take m.position m.buffer ++ drop (m.position + 0) m.buffer ≡ m.buffer
    take-append-drop_zero =
        ap (λ k. take m.position m.buffer ++ drop k m.buffer) (omega arith)
        ∙ take-append-drop m.position m.buffer

add_fields-Puts :
    (fs : List Field) (m : NetworkMessage)
    → All IsField fs
    → IsOpen m
    → m.position + length (encodings fs) < max_body_length
    → add_fields fs m ≡ some (tt, after_put (encodings fs) m)
unfolding add_fields encodings Puts
add_fields-Puts [] m ok o fits = ap (λ k. some (tt, k)) (sym (after_put_nil m o))
add_fields-Puts (f ∷ fs) m ok o fits =
    let total = length-append (encoding f) (encodings fs) in
    let first : m.position + length (encoding f) < max_body_length = omega (arith, total, fits) in
    let m' = after_put (encoding f) m in
    let o' : IsOpen m' = record {
      full = after_put-IsBuffer (encoding f) m (o.full) first;
      written = omega (arith, o.written, first);
      fits = omega (arith, o.written, first);
    } in
    >>=-eq-some (add_field f) (λ _. add_fields fs) m (add_field-Puts f m (ok.0) (o.full) first)
    ∙ add_fields-Puts fs m' (ok.1) o' (omega (arith, total, fits, first))
    ∙ ap (λ k. some (tt, k)) (after_put-append (encoding f) (encodings fs) m (o.full) fits)

-- Fields in their ranges that fit behind the position are all added; from the place where they
-- begin, a reader that knows their kinds gets the same fields, and ends where the writer ended.
pub get_fields-add_fields :
    (fs : List Field) (m : NetworkMessage)
    → All IsField fs
    → IsOpen m
    → m.position + length (encodings fs) < max_body_length
    → (m' : NetworkMessage) × (add_fields fs m ≡ some (tt, m'))
      × (get_fields (map kind fs) (set_buffer_position m.position m') ≡ some (fs, m'))
unfolding set_buffer_position
get_fields-add_fields fs m ok o fits = (
  after_put (encodings fs) m,
  add_fields-Puts fs m ok o fits,
  get_fields-IsAt fs start [] ok before ∙ ap (λ k. some (fs, record after { position = k })) at_end,
)
  where
    after : NetworkMessage
    after = after_put (encodings fs) m

    start : NetworkMessage
    start = record after { position = u16 m.position }

    at_end : u16 m.position + length (encodings fs) ≡ u16 (m.position + length (encodings fs))
    at_end = omega (arith, fits)

    before : IsAt start (encodings fs ++ [])
    before = record {
      pre = take m.position m.buffer;
      post = drop (m.position + length (encodings fs)) m.buffer;
      contents = rw (append-nil (encodings fs));
      here = omega (arith, length-take_le m.position m.buffer (omega (arith, fits, o.full)), fits);
      within = rw (append-nil (encodings fs)) (omega (arith, fits, o.written));
      room = rw (append-nil (encodings fs)) (omega (arith, fits));
    }
