-- ===== src/Log/Ring.antt =====
-- The ring of the log as a queue of bytes: where copyLogBuffer writes, and what pushLogBuffer adds.
use native.Mathlib.Nat.{mod-eq_of_lt, mod-eq-sub-mod}
use mathlib.Core.Path.{ap₂}
use native.Mathlib.Decide.{dec_lt}
use modbus_things.Base.{
  ℕ, ◌+◌, ◌-◌, ◌%◌, ◌≤◌, ◌<◌, ◌≡◌, refl, ap, ◌∙◌, ◌⊎◌, inl, inr, some, ◌++◌, arith, length, take,
  drop, length-take, length-drop,
}
use modbus_things.Base.Text.{Text}
use modbus_things.Log.{LogBuff, copy_bytes, move_end, copy_log_buffer, get_log_remain_size}
use modbus_things.Log.Tabulate.{byte, tab, tab_eq, tab-append, tab-byte, byte-take, byte-drop}

-- Both ends are inside the ring.
pub record IsValid (s : LogBuff) : Type 0 where
  pub start_in : s.buff_start < s.buff_size
  pub end_in : s.buff_end < s.buff_size

-- the number of bytes that wait
abbrev pub waiting : LogBuff → ℕ
waiting s = get_log_remain_size s s.buff_start s.buff_end

-- the byte at a place of the ring
abbrev pub at_index : LogBuff → ℕ → ℕ
at_index s i = s.buffer ((s.buff_start + i) % s.buff_size)

-- the bytes that wait, oldest first
unfoldable pub contents : LogBuff → Text
contents s = tab (at_index s) 0 (waiting s)

pub wrap : (x m : ℕ) → x < m + m → ((x < m) × (x % m ≡ x)) ⊎ ((m ≤ x) × (x % m ≡ x - m))
wrap x m h = elim (dec_lt x m) [
  | yes p ↦ inl (p, mod-eq_of_lt p)
  | no p ↦
      inr (omega arith, mod-eq-sub-mod {n = x} {m = m} (omega arith) ∙ mod-eq_of_lt (omega arith))
]

copy_bytes_out :
    (b : ℕ → ℕ) (at : ℕ) (msg : Text) (j : ℕ)
    → (j < at) ⊎ (at + length msg ≤ j)
    → copy_bytes b at msg j ≡ b j
copy_bytes_out b at msg j h = ground arith

copy_bytes_in :
    (b : ℕ → ℕ) (at : ℕ) (msg : Text) (j k : ℕ)
    → j ≡ at + k
    → k < length msg
    → copy_bytes b at msg j ≡ byte msg k
copy_bytes_in b at msg j k e h = let d : j - at ≡ k = omega arith in ground (arith, ap (byte msg) d)

-- What a copy of `msg` behind the waiting bytes does to the memory of the ring.
record Copied (s : LogBuff) (msg : Text) (b : ℕ → ℕ) : Type 0 where
  new : (k : ℕ) → k < length msg → b ((s.buff_end + k) % s.buff_size) ≡ byte msg k
  old : (i : ℕ) → i < waiting s → b ((s.buff_start + i) % s.buff_size) ≡ at_index s i

module _ (s : LogBuff) (msg : Text) (v : IsValid s)
    (fits : waiting s + length msg < s.buff_size) where
  copy_once :
      s.buff_end + length msg ≤ s.buff_size → Copied s msg (copy_bytes s.buffer s.buff_end msg)
  copy_once h = record {
    new = λ k l. elim (wrap (s.buff_end + k) s.buff_size (omega arith)) [
      | inl (_, e) ↦ rw e (copy_bytes_in s.buffer s.buff_end msg _ k refl l)
      | inr (p, e) ↦ absurd (omega arith)
    ];
    old = λ i l. elim (wrap (s.buff_start + i) s.buff_size (ground arith)) [
      | inl (p, e) ↦ (copy_bytes_out s.buffer s.buff_end msg _ (ground arith))
      | inr (p, e) ↦ (copy_bytes_out s.buffer s.buff_end msg _ (ground arith))
    ];
  }

  abbrev first_part : Text
  first_part = take (s.buff_size - s.buff_end) msg

  abbrev second_part : Text
  second_part = drop (s.buff_size - s.buff_end) msg

  copy_twice :
      s.buff_start ≤ s.buff_end
      → s.buff_size < s.buff_end + length msg
      → Copied s msg (copy_bytes (copy_bytes s.buffer s.buff_end first_part) 0 second_part)
  copy_twice above h =
      let m : ℕ = s.buff_size - s.buff_end in
      let b : (ℕ → ℕ) = copy_bytes s.buffer s.buff_end first_part in
      let f : length first_part ≡ m = omega (arith, length-take {0} m msg) in
      let g : length second_part ≡ length msg - m = length-drop m msg in
      record {
        new = λ k l. elim (wrap (s.buff_end + k) s.buff_size (omega arith)) [
          | inl (p, e) ↦
              copy_bytes_out b 0 second_part _ (inr (ground arith))
              ∙ copy_bytes_in s.buffer s.buff_end first_part _ k e (omega arith)
              ∙ byte-take m msg k (omega arith)
          | inr (p, e) ↦
              copy_bytes_in b 0 second_part _ (k - m) (omega arith) (omega arith)
              ∙ byte-drop m msg (k - m)
              ∙ ap (byte msg) (omega arith)
        ];
        old = λ i l. elim (wrap (s.buff_start + i) s.buff_size (ground arith)) [
          | inl (p, e) ↦
              copy_bytes_out b 0 second_part _ (inr (ground arith))
              ∙ copy_bytes_out s.buffer s.buff_end first_part _ (inl (ground arith))
          | inr (p, e) ↦ absurd (ground arith)
        ];
      }

  -- the state that the copy leaves
  abbrev copied : (ℕ → ℕ) → LogBuff
  copied b = move_end (length msg) (record s { buffer = b })

  copy_log_buffer_lem :
      (b : ℕ → ℕ) × (copy_log_buffer s s.buff_start s.buff_end msg ≡ some (copied b))
      × Copied s msg b
  unfolding copy_log_buffer
  copy_log_buffer_lem = elim (dec_lt s.buff_end s.buff_start) [
    | yes p ↦ (_, ground arith, copy_once (ground arith))
    | no p ↦ elim (dec_lt s.buff_size (s.buff_end + length msg)) [
      | yes q ↦ (
        _,
        ground (
          arith,
          length-take {0} (s.buff_size - s.buff_end) msg,
          length-drop {0} (s.buff_size - s.buff_end) msg,
        ),
        copy_twice (omega arith) q,
      )
      | no q ↦ (_, ground arith, copy_once (omega arith))
    ]
  ]

  copied-waiting : (b : ℕ → ℕ) → waiting (copied b) ≡ waiting s + length msg
  copied-waiting b = elim (wrap (s.buff_end + length msg) s.buff_size (ground arith)) [
    | inl (p, e) ↦ ground arith
    | inr (p, e) ↦ ground arith
  ]

  copied-IsValid : (b : ℕ → ℕ) → IsValid (copied b)
  copied-IsValid b = elim (wrap (s.buff_end + length msg) s.buff_size (ground arith)) [
    | inl (p, e) ↦ record { start_in = v.start_in; end_in = omega arith }
    | inr (p, e) ↦ record { start_in = v.start_in; end_in = omega arith }
  ]

  -- Behind the waiting bytes the ring goes on at `buff_end`.
  index_at_end :
      (k : ℕ) → (s.buff_start + (waiting s + k)) % s.buff_size ≡ (s.buff_end + k) % s.buff_size
  index_at_end k = elim (dec_lt s.buff_end s.buff_start) [
    | yes p ↦
        let e : s.buff_start + (waiting s + k) ≡ s.buff_size + s.buff_end + k = ground arith in
        rw e (
          mod-eq-sub-mod {n = s.buff_size + s.buff_end + k} {m = s.buff_size} (omega arith)
          ∙ ap (λ r. r % s.buff_size) (omega arith))
    | no p ↦
        let e : s.buff_start + (waiting s + k) ≡ s.buff_end + k = ground arith in
        ap (λ r. r % s.buff_size) e
  ]

  contents-copied : (b : ℕ → ℕ) → Copied s msg b → contents (copied b) ≡ contents s ++ msg
  unfolding contents
  contents-copied b c =
      ap (tab (at_index (copied b)) 0) (copied-waiting b)
      ∙ tab-append (at_index (copied b)) 0 (waiting s) (length msg)
      ∙ ap₂ ◌++◌
          (tab_eq (at_index (copied b)) (at_index s) 0 0 (waiting s)
            λ k l. let e : 0 + k ≡ k = omega arith in rw e (c.old k l))
          (tab-byte (at_index (copied b)) (0 + waiting s) msg λ k l.
            let e : 0 + waiting s + k ≡ waiting s + k = omega arith in
            ap (at_index (copied b)) e ∙ ap b (index_at_end k) ∙ c.new k l)

  -- copyLogBuffer of a text for which there is room writes inside the buffer only, and adds exactly
  -- the text behind the bytes that wait.
  pub copy_log_buffer_appends :
      (s' : LogBuff) × (copy_log_buffer s s.buff_start s.buff_end msg ≡ some s')
      × IsValid s'
      × (contents s' ≡ contents s ++ msg)
      × (waiting s' ≡ waiting s + length msg)
      × (s'.buff_size ≡ s.buff_size)
      × (s'.file ≡ s.file)
      × (s'.lost_line ≡ s.lost_line)
      × (s'.stop ≡ s.stop)
      × (s'.min_buff_size ≡ s.min_buff_size)
  copy_log_buffer_appends =
      let (b, e, c) = copy_log_buffer_lem in
      (
        copied b,
        e,
        copied-IsValid b,
        contents-copied b c,
        copied-waiting b,
        refl,
        refl,
        refl,
        refl,
        refl,
      )
