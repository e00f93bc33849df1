-- ===== src/Disk/Old/Names.antt =====
-- The names of rotated log files, and which of them are old.
use modbus_things.Base.{
  ℕ, ◌+◌, ◌-◌, ◌*◌, ◌/◌, ◌^◌, leb, ◌<◌, ◌≡◌, refl, sym, ap, ◌∙◌, Bool, true, false, ◌&&◌, ◌||◌,
  none, some, List, [], ◌∷◌, ◌++◌, arith, ltb, ◌==◌, if◌then◌else◌, length, take, drop,
  length-append, take-append, drop-append, take-drop-append, append-nil, Bool-cases, inl, inr,
}
use modbus_things.Base.Int.{ℤ, pos, ◌-ℤ◌, signed32, bits32, pos_part, neg_part}
use modbus_things.Base.Text.{
  Text, codes, text_eq, text_eq→eq, text_eq_refl, last_byte, last_byte-append,
}
use modbus_things.Base.Decimal.{
  digits, AllDigits, digits-AllDigits, atoi_digits, read_digits-digits,
}
use modbus_things.Disk.{Disk}
use modbus_things.Disk.Old.{
  Dirent, after_dot, stem, file_sec, age_days, is_old, skips, path, visit, remove_old_log_files,
}

after_dot-AllDigits : (s : Text) → AllDigits s → after_dot s ≡ none
unfolding after_dot
after_dot-AllDigits [] a = refl
after_dot-AllDigits (c ∷ s) a = rw (after_dot-AllDigits s a.1, after_dot) (ground arith)

after_dot-append : (s t : Text) → AllDigits t → after_dot (s ++ (b'.' ∷ t)) ≡ some t
unfolding after_dot
after_dot-append [] t a = rw (after_dot-AllDigits t a, after_dot) refl
after_dot-append (c ∷ s) t a = rw (after_dot-append s t a, after_dot) refl

-- the name that a rotation gives: the number of seconds behind a dot, and ".gz" if it is packed
abbrev pub rotated : Text → ℕ → Bool → Text
rotated base sec packed = (base ++ (b'.' ∷ digits sec)) ++ (if packed then codes ".gz" else [])

stem_packed : (s : Text) → 0 < length s → stem (s ++ codes ".gz") ≡ s
unfolding stem
stem_packed s h =
    let n : length (s ++ codes ".gz") ≡ length s + 3 = length-append {0} s (codes ".gz") in
    let m : length (s ++ codes ".gz") - 3 ≡ length s = omega arith in
    rw (m, drop-append s (codes ".gz"), take-append s (codes ".gz"), text_eq_refl (codes ".gz"))
      (ground arith)

last_byte-AllDigits :
    (d : ℕ) (t : Text) → (d == b'z') ≡ false → AllDigits t → (last_byte d t == b'z') ≡ false
unfolding last_byte
last_byte-AllDigits d [] h a = h
last_byte-AllDigits d (c ∷ t) h a = last_byte-AllDigits c t (ground arith) a.1

-- A name that ends in digits behind a dot does not end in ".gz".
not_packed :
    (s t : Text) (n : ℕ) → AllDigits t → text_eq (drop n (s ++ (b'.' ∷ t))) (codes ".gz") ≡ false
unfolding last_byte
not_packed s t n a = elim (Bool-cases (text_eq (drop n (s ++ (b'.' ∷ t))) (codes ".gz"))) [
  | inr e ↦ e
  | inl e ↦
      let w : s ++ (b'.' ∷ t) ≡ take n (s ++ (b'.' ∷ t)) ++ codes ".gz" =
        sym (take-drop-append n (s ++ (b'.' ∷ t)))
        ∙ ap (λ r. take n (s ++ (b'.' ∷ t)) ++ r) (text_eq→eq _ _ e) in
      let z : last_byte b'.' t ≡ b'z' =
        sym (last_byte-append 0 b'.' s t)
        ∙ ap (last_byte 0) w
        ∙ last_byte-append 0 b'.' (take n (s ++ (b'.' ∷ t))) (codes "gz") in
      absurd (ground (arith, z, last_byte-AllDigits b'.' t refl a))
]

stem_plain : (s t : Text) → AllDigits t → stem (s ++ (b'.' ∷ t)) ≡ s ++ (b'.' ∷ t)
unfolding stem
stem_plain s t a = rw (not_packed s t (length (s ++ (b'.' ∷ t)) - 3) a) (ground arith)

stem-rotated :
    (base : Text) (sec : ℕ) (packed : Bool)
    → stem (rotated base sec packed) ≡ base ++ (b'.' ∷ digits sec)
stem-rotated base sec true =
    stem_packed (base ++ (b'.' ∷ digits sec))
      (omega (arith, length-append {0} base (b'.' ∷ digits sec)))
stem-rotated base sec false =
    ap stem (append-nil (base ++ (b'.' ∷ digits sec)))
    ∙ stem_plain base (digits sec) (digits-AllDigits sec)

-- The number of seconds in a rotated name is read back, packed or not.
pub file_sec-rotated :
    (base : Text) (sec : ℕ) (packed : Bool) → file_sec (rotated base sec packed) ≡ pos sec
unfolding file_sec
file_sec-rotated base sec packed =
    rw
      (
        stem-rotated base sec packed,
        after_dot-append base (digits sec) (digits-AllDigits sec),
        file_sec,
      )
      (atoi_digits (digits sec) (digits-AllDigits sec) ∙ ap pos (read_digits-digits sec))

-- the entry for a file of this name
abbrev pub lists : Text → Text → Dirent → Bool
lists root name e = if skips e then false else text_eq (path root e) name

unfoldable pub listed : Text → Text → List Dirent → Bool
listed root name [] = false
listed root name (e ∷ es) = lists root name e || listed root name es

visit_lem :
    (now : ℤ) (keep : ℕ) (root name : Text) (e : Dirent) (d : Disk)
    → (visit now keep root e d).files name
      ≡ (if lists root name e && is_old now keep name then none else d.files name)
visit_lem now keep root name e d = elim (Bool-cases (text_eq (path root e) name)) [
  | inl p ↦
      let q : path root e ≡ name = text_eq→eq _ _ p in
      let same : is_old now keep (path root e) ≡ is_old now keep name = ap (is_old now keep) q in
      ground (arith, p, same)
  | inr p ↦ ground (arith, p)
]

remove_old_lem :
    (now : ℤ) (keep : ℕ) (root name : Text) (es : List Dirent) (d : Disk)
    → (remove_old_log_files now keep root es d).files name
      ≡ (if listed root name es && is_old now keep name then none else d.files name)
unfolding remove_old_log_files listed
remove_old_lem now keep root name [] d = refl
remove_old_lem now keep root name (e ∷ es) d = ground (
  arith,
  remove_old_lem now keep root name es (visit now keep root e d),
  visit_lem now keep root name e d,
)

-- how far two times are apart
abbrev pub apart : ℕ → ℕ → ℕ
apart now sec = (now - sec) + (sec - now)

-- the difference as the code has it
distance :
    (now sec : ℕ)
    → apart now sec < 2 ^ 31
    → let d = signed32 (bits32 (pos now -ℤ pos sec)) in pos_part d + neg_part d ≡ apart now sec
unfolding ◌-ℤ◌
distance now sec h = ground arith

older : (keep n : ℕ) → ltb keep (n / 86400 + 1) ≡ leb (keep * 86400) n
older keep n = ground arith

age_days-apart :
    (now keep sec : ℕ)
    → apart now sec < 2 ^ 31
    → ltb keep (age_days (pos now) (pos sec)) ≡ leb (keep * 86400) (apart now sec)
age_days-apart now keep sec h =
    ap (λ d. ltb keep (d / 86400 + 1)) (distance now sec h) ∙ older keep (apart now sec)

-- The clock and the time in the name are less than 2^31 seconds apart. Of the files with names as a
-- rotation gives them, packed or not, m_removeOldLogFiles removes those that the directory lists, with a
-- time after 100, that are `keep` times 86400 seconds or more before the clock, or as far behind it, and
-- no others; so the two files that the log writes to, with the numbers 0 and 1, always stay.
pub remove_old_log_files_lem :
    (now keep : ℕ) (root base : Text) (sec : ℕ) (packed : Bool) (es : List Dirent) (d : Disk)
    → apart now sec < 2 ^ 31
    → let name = rotated base sec packed in
      (remove_old_log_files (pos now) keep root es d).files name ≡ (
        if listed root name es && (ltb 100 sec && leb (keep * 86400) (apart now sec))
        then none
        else d.files name)
unfolding is_old
remove_old_log_files_lem now keep root base sec packed es d h =
    let name : Text = rotated base sec packed in
    remove_old_lem (pos now) keep root name es d
    ∙ rw (file_sec-rotated base sec packed, is_old, age_days-apart now keep sec h) (ground arith)
