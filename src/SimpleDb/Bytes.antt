-- ===== src/SimpleDb/Bytes.antt =====
-- The bytes that MBT_simpleDbPut of src/core/src/MBT_simpleDb.c leaves in the file.
use modbus_things.Base.{
  ℕ, suc, ◌+◌, ◌-◌, ◌≤◌, ◌<◌, ◌≡◌, ◌≢◌, refl, sym, ap, ◌∙◌, true, some, List, [], ◌∷◌, ◌++◌, arith,
  ltb, length, take, set, take-front, length-append, append_assoc,
}
use modbus_things.Base.Int.{pos, neg}
use modbus_things.Base.Text.{Text, codes}
use modbus_things.Base.Decimal.{digits}
use modbus_things.SimpleDb.{
  Cell, null, dangling, at, SimpleDb, update_path, db_file_path, entry, whole_entry, entries,
  overlay, put, get,
}
use modbus_things.SimpleDb.Saving.{
  AllTexts, put_ends, length-set, get_elem?-set_self, get_elem?-set_ne,
}

-- the bytes of `text` without the last `n`
abbrev pub less : ℕ → Text → Text
less n text = take (length text - n) text

-- What the file has for a text: the number of its key in quotes, and the text behind a quote, without as
-- many of its last bytes as the number has digits; the quote and the brace behind it are missing.
abbrev pub line_of : ℕ → Text → Text
line_of i v = (codes "{\"" ++ (digits i ++ codes "\":\"")) ++ less (length (digits i)) v

-- the lines from number `i` on, as the file has them
unfoldable pub lines_of : ℕ → List Cell → Text
lines_of i [] = []
lines_of i (at v ∷ []) = line_of i v ++ codes "]"
lines_of i (at v ∷ c ∷ cells) = line_of i v ++ (codes ",\n" ++ lines_of (suc i) (c ∷ cells))
lines_of i (_ ∷ cells) = []

-- Every text has as many bytes as its key has digits.
abbrev pub AllLong : ℕ → List Cell → Type 0
AllLong i [] = Unit
AllLong i (null ∷ cells) = ⊥
AllLong i (dangling ∷ cells) = ⊥
AllLong i (at v ∷ cells) = (length (digits i) ≤ length v) × AllLong (suc i) cells

take-past : (p q : Text) (n : ℕ) → take (length p + n) (p ++ q) ≡ p ++ take n q
take-past [] q n = ap (λ m. take m q) (omega arith)
take-past (c ∷ p) q n =
    let more : length (c ∷ p) + n ≡ suc (length p + n) = omega arith in
    ap (λ m. take m (c ∷ (p ++ q))) more ∙ ap (λ r. c ∷ r) (take-past p q n)

entry-line_of : (i : ℕ) (v : Text) → length (digits i) ≤ length v → entry i v ≡ line_of i v
unfolding entry
entry-line_of i v h =
    let front = codes "{\"" ++ (digits i ++ codes "\":\"") in
    let size : length front ≡ 5 + length (digits i) =
      omega (arith, length-append {0} (digits i) (codes "\":\"")) in
    let whole : whole_entry i v ≡ front ++ (v ++ codes "\"}") =
      ap (λ r. codes "{\"" ++ r)
        (sym (append_assoc (digits i) (codes "\":\"") (v ++ codes "\"}"))) in
    ap (take (length v + 5)) whole
    ∙ ap (λ n. take n (front ++ (v ++ codes "\"}"))) (omega (arith, size, h))
    ∙ take-past front (v ++ codes "\"}") (length v - length (digits i))
    ∙ ap (λ r. front ++ r) (take-front (length v - length (digits i)) v (codes "\"}") (omega arith))

AllLong-AllTexts : (i : ℕ) (cells : List Cell) → AllLong i cells → AllTexts cells
AllLong-AllTexts i [] a = tt
AllLong-AllTexts i (null ∷ cells) a = a
AllLong-AllTexts i (dangling ∷ cells) a = a
AllLong-AllTexts i (at v ∷ cells) a = AllLong-AllTexts (suc i) cells a.1

entries-lines_of :
    (i : ℕ) (cells : List Cell) → AllLong i cells → entries i cells ≡ some (lines_of i cells)
unfolding entries lines_of
entries-lines_of i [] a = refl
entries-lines_of i (null ∷ cells) a = absurd a
entries-lines_of i (dangling ∷ cells) a = absurd a
entries-lines_of i (at v ∷ []) a = rw (entry-line_of i v a.0) refl
entries-lines_of i (at v ∷ c ∷ cells) a =
    rw (entries-lines_of (suc i) (c ∷ cells) a.1, entry-line_of i v a.0) refl

-- With a text for each of the other keys, MBT_simpleDbPut of a text under a key in range ends. It
-- returns -1, although the text is then what MBT_simpleDbGet gives for the key, and the other keys
-- have what they had. Where each of the texts has at least as many bytes as its key has digits, and the
-- file of the update opens and has room, the table's file holds for each key its number and its text,
-- without the end of the text, a byte for each digit of the key, and without what closes the entry; and
-- behind them what a longer update file that was there before has left over.
pub put_lem :
    (k : ℕ) (v : Text) (s : SimpleDb)
    → k < length s.array
    → AllLong 0 (set s.array k (at v))
    → let t = codes "[" ++ lines_of 0 (set s.array k (at v)) in
      (s' : SimpleDb) × (put (pos k) (at v) s ≡ some (neg 1, s'))
      × (get (pos k) s' ≡ some (at v))
      × ((j : ℕ) → j ≢ k → get (pos j) s' ≡ get (pos j) s)
      × (s.disk.can_open update_path ≡ true
          → length t ≤ s.disk.room update_path
          → s'.disk.files db_file_path ≡ some (overlay (s.disk.files update_path) t))
unfolding get
put_lem k v s h a =
    let (t, s', c, e, kept, file) = put_ends k v s h (AllLong-AllTexts 0 _ a) in
    let inside : ltb k (length s.array) ≡ true = ground arith in
    let same : t ≡ lines_of 0 (set s.array k (at v)) =
      cc (entries-lines_of 0 (set s.array k (at v)) a, e) in
    (
      s',
      c,
      rw (kept, length-set s.array k (at v), inside) (get_elem?-set_self s.array k (at v) h),
      λ j n.
          rw
            (
              kept,
              length-set s.array k (at v),
              get_elem?-set_ne s.array k j (at v) (λ q. n (sym q)),
            )
            refl,
      rw same at file,
    )
