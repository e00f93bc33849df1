-- ===== src/SimpleDb/Saving.antt =====
-- MBT_simpleDbPut, MBT_simpleDbGet and convert_save of src/core/src/MBT_simpleDb.c.
use modbus_things.Base.{
  ℕ, zero, suc, ◌+◌, ◌≤◌, ◌<◌, ◌/◌, ◌%◌, ◌≡◌, ◌≢◌, refl, sym, ap, subst, ◌∙◌, ◌⊎◌, inl, inr, true,
  Option, none, some, List, [], ◌∷◌, ◌++◌, arith, ltb, length, take, get_elem?, set, take-all,
  take-front, length-append, append_assoc, Bool-cases,
}
use modbus_things.Base.Int.{ℤ, pos, neg}
use modbus_things.Base.Text.{Text, codes, text_eq}
use modbus_things.Base.Decimal.{digits, digits_from}
use modbus_things.SimpleDb.{
  Cell, null, dangling, at, SimpleDb, update_path, db_file_path, entry, whole_entry, entries,
  convert_save, written, overlay, put,
}
use modbus_things.Disk.{rename}

module _ {ℓ} {A : Type ℓ} where
  pub length-set : (xs : List A) (i : ℕ) (v : A) → length (set xs i v) ≡ length xs
  length-set [] i v = refl
  length-set (x ∷ xs) zero v = refl
  length-set (x ∷ xs) (suc i) v = ap suc (length-set xs i v)

  pub get_elem?-set_self :
      (xs : List A) (i : ℕ) (v : A) → i < length xs → get_elem? (set xs i v) i ≡ some v
  get_elem?-set_self [] i v h = absurd (omega arith)
  get_elem?-set_self (x ∷ xs) zero v h = refl
  get_elem?-set_self (x ∷ xs) (suc i) v h = get_elem?-set_self xs i v (omega arith)

  pub get_elem?-set_ne :
      (xs : List A) (i j : ℕ) (v : A) → i ≢ j → get_elem? (set xs i v) j ≡ get_elem? xs j
  get_elem?-set_ne [] i j v n = refl
  get_elem?-set_ne (x ∷ xs) zero zero v n = absurd (n refl)
  get_elem?-set_ne (x ∷ xs) zero (suc j) v n = refl
  get_elem?-set_ne (x ∷ xs) (suc i) zero v n = refl
  get_elem?-set_ne (x ∷ xs) (suc i) (suc j) v n = get_elem?-set_ne xs i j v (λ e. n (ap suc e))

-- The entry holds no text that can be read.
abbrev pub IsLost : Option Cell → Type 0
IsLost c = (c ≡ some null) ⊎ (c ≡ some dangling)

-- One entry without a text makes the whole save undefined.
entries-lost : (i k : ℕ) (cells : List Cell) → IsLost (get_elem? cells k) → entries i cells ≡ none
unfolding entries
entries-lost i k [] (inl e) = cc
entries-lost i k [] (inr e) = cc
entries-lost i k (null ∷ cells) l = refl
entries-lost i k (dangling ∷ cells) l = refl
entries-lost i zero (at v ∷ cells) (inl e) = cc
entries-lost i zero (at v ∷ cells) (inr e) = cc
entries-lost i (suc k) (at v ∷ []) (inl e) = cc
entries-lost i (suc k) (at v ∷ []) (inr e) = cc
entries-lost i (suc k) (at v ∷ c ∷ cells) l = rw (entries-lost (suc i) k (c ∷ cells) l) refl

-- While any other key of the table has no text, or one whose memory is gone, MBT_simpleDbPut of a key
-- in range is undefined, if the file for the update can be opened.
pub put_lost :
    (k j : ℕ) (v : Cell) (s : SimpleDb)
    → k < length s.array
    → j ≢ k
    → IsLost (get_elem? s.array j)
    → s.disk.can_open update_path ≡ true
    → put (pos k) v s ≡ none
unfolding put convert_save
put_lost k j v s h n l o =
    let kept = get_elem?-set_ne s.array k j v (λ e. n (sym e)) in
    let gone : entries 0 (set s.array k v) ≡ none =
      entries-lost 0 j (set s.array k v) (subst IsLost (sym kept) l) in
    let inside : ltb k (length s.array) ≡ true = ground arith in rw (inside, o, gone) refl

-- Every entry has its text.
abbrev pub AllTexts : List Cell → Type 0
AllTexts [] = Unit
AllTexts (null ∷ cells) = ⊥
AllTexts (dangling ∷ cells) = ⊥
AllTexts (at v ∷ cells) = AllTexts cells

entries-AllTexts :
    (i : ℕ) (cells : List Cell) → AllTexts cells → (t : Text) × (entries i cells ≡ some t)
unfolding entries
entries-AllTexts i [] a = ([], refl)
entries-AllTexts i (null ∷ cells) a = absurd a
entries-AllTexts i (dangling ∷ cells) a = absurd a
entries-AllTexts i (at v ∷ []) a = (entry i v ++ codes "]", refl)
entries-AllTexts i (at v ∷ c ∷ cells) a =
    let (t, e) = entries-AllTexts (suc i) (c ∷ cells) a in
    (entry i v ++ (codes ",\n" ++ t), rw e refl)

-- The save ends, with the array as it was and, where there is room, with the new bytes at the start of
-- the table's file, over what an update that was broken off has left.
convert_save-AllTexts :
    (s : SimpleDb) (t : Text)
    → entries 0 s.array ≡ some t
    → (rc : ℤ) × (s' : SimpleDb) × (convert_save s ≡ some (rc, s'))
      × (s'.array ≡ s.array)
      × (s.disk.can_open update_path ≡ true
          → length (codes "[" ++ t) ≤ s.disk.room update_path
          → s'.disk.files db_file_path ≡ some (overlay (s.disk.files update_path) (codes "[" ++ t)))
unfolding convert_save text_eq
convert_save-AllTexts s t e = elim (Bool-cases (s.disk.can_open update_path)) [
  | inr shut ↦ (neg 1, s, rw shut refl, refl, λ o. absurd (ground arith))
  | inl opens ↦ (
    pos 0,
    record s { disk = (rename update_path db_file_path (written (codes "[" ++ t) s.disk)).1 },
    rw (opens, e) refl,
    refl,
    λ o r. rw (take-all (s.disk.room update_path) (codes "[" ++ t) r) refl,
  )
]

abbrev PutEnds : ℕ → Text → SimpleDb → Type 0
PutEnds k v s =
    (t : Text) × (s' : SimpleDb) × (put (pos k) (at v) s ≡ some (neg 1, s'))
    × (entries 0 (set s.array k (at v)) ≡ some t)
    × (s'.array ≡ set s.array k (at v))
    × (s.disk.can_open update_path ≡ true
        → length (codes "[" ++ t) ≤ s.disk.room update_path
        → s'.disk.files db_file_path ≡ some (overlay (s.disk.files update_path) (codes "[" ++ t)))

pub put_ends :
    (k : ℕ) (v : Text) (s : SimpleDb)
    → k < length s.array
    → AllTexts (set s.array k (at v))
    → PutEnds k v s
unfolding put
put_ends k v s h a =
    let (t, e) = entries-AllTexts 0 (set s.array k (at v)) a in
    let (rc, s', c, kept, file) =
      convert_save-AllTexts (record s { array = set s.array k (at v) }) t e in
    let inside : ltb k (length s.array) ≡ true = ground arith in
    (t, s', rw (inside, c) refl, e, kept, file)

some_digits : (n : ℕ) → 0 < length (digits n)
unfolding digits digits_from
some_digits n = elim (Bool-cases (ltb n 10)) [
  | inl e ↦ rw e (omega arith)
  | inr e ↦ rw e (omega (arith, length-append {0} (digits_from n (n / 10)) ((48 + n % 10) ∷ [])))
]

-- what comes before the last byte of a value in its entry
abbrev front : ℕ → Text → Text
front i v = codes "{\"" ++ (digits i ++ (codes "\":\"" ++ v))

whole_entry-front :
    (i : ℕ) (v : Text) (a : ℕ) → whole_entry i (v ++ (a ∷ [])) ≡ front i v ++ (a ∷ codes "\"}")
whole_entry-front i v a =
    ap (λ r. codes "{\"" ++ r)
      (ap (λ r. digits i ++ (codes "\":\"" ++ r)) (append_assoc v (a ∷ []) (codes "\"}"))
        ∙ sym (append_assoc (digits i) (codes "\":\"" ++ v) (a ∷ codes "\"}")))

entry-front : (i : ℕ) (v : Text) (a : ℕ) → entry i (v ++ (a ∷ [])) ≡ take (length v + 6) (front i v)
unfolding entry
entry-front i v a =
    ap (λ n. take n (whole_entry i (v ++ (a ∷ [])))) (omega (arith, length-append {0} v (a ∷ [])))
    ∙ ap (take (length v + 6)) (whole_entry-front i v a)
    ∙ take-front (length v + 6) (front i v) (a ∷ codes "\"}")
        (omega (arith, some_digits i, length-append {0} (digits i) (codes "\":\"" ++ v)))

-- The entry of a value that is not empty has no quote or brace behind the value, nor its last byte:
-- two values that differ in no more than that are saved as the same bytes.
pub entry_cut :
    (i : ℕ) (v : Text) (a b : ℕ)
    → (entry i (v ++ (a ∷ [])) ≡ entry i (v ++ (b ∷ [])))
      × (entry i (v ++ (a ∷ []))
          ≡ take (length v + 6) (codes "{\"" ++ (digits i ++ (codes "\":\"" ++ v))))
entry_cut i v a b = (entry-front i v a ∙ sym (entry-front i v b), entry-front i v a)
