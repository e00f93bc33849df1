-- ===== src/EasyFlash/Store.antt =====
-- src/port/src/easyflash/portDB.c as the store of the attributes. The names that a load adds to its
-- table are left out, since they are made again.
use modbus_things.Base.{
  ℕ, ◌≡◌, refl, sym, ap, ◌∙◌, ◌⊎◌, inl, inr, Option, none, some, Option-cases, if◌then◌else◌, arith,
  Bool-cases, leb, ◌==◌,
}
use modbus_things.Base.Int.{ℤ, pos, neg, is_zero}
use modbus_things.Base.Text.{Text}
use modbus_things.Attributes.{Db}
use modbus_things.Attributes.Key
use modbus_things.EasyFlash.{
  Ef, Flash, str_key, int_bytes, with_key, convert_str_key, service_db_load, service_db_load_int,
}
use modbus_things.EasyFlash.Keys.{IsKeyed, convert_str_key_lem}
use modbus_things.EasyFlash.Ints.{loaded}

-- the port with right names in its table
pub record Keyed (E : Type 0) : Type 0 where
  pub flash : Flash E
  pub keyed : IsKeyed flash

module _ {E : Type 0} (ef : Ef E) where
  -- What a call leaves has right names again.
  with_key-IsKeyed :
      {A : Type 0} (f : Text → Flash E → A × Flash E) (key : ℕ) (s : Flash E)
      → ((t : Text) (s : Flash E) → (f t s).1.key_map ≡ s.key_map)
      → IsKeyed s
      → (r : A × Flash E) → with_key f (convert_str_key key s) ≡ some r
      → IsKeyed r.1
  unfolding convert_str_key
  with_key-IsKeyed f key s same h r e = elim (Bool-cases (leb Key.key_num key)) [
    | inl out ↦ absurd (ground (arith, out, e))
    | inr inside ↦
        let (s', c, k, _) = convert_str_key_lem key s h (ground (arith, inside)) in
        let q : some (f (str_key key) s') ≡ some r = sym (ap (with_key f) c) ∙ e in
        let last : f (str_key key) s' ≡ r = cc in
        λ j t p.
          k j t (ap (λ m. m j) (sym (same (str_key key) s')) ∙ ap (λ x. x.1.key_map j) last ∙ p)
  ]

  -- A call that sets, and that EasyFlash does without touching the names.
  abbrev Setting : Type 0
  Setting =
      (f : Text → Flash E → ℤ × Flash E) × ((t : Text) (s : Flash E)
        → (f t s).1.key_map ≡ s.key_map)

  abbrev Outcome : Option (ℤ × Flash E) → Type 0
  Outcome x = (x ≡ none) ⊎ ((r : ℤ × Flash E) × (x ≡ some r))

  -- what the service sees of it; a key that is out of range is not set
  pub finish :
      (g : Setting) (key : ℕ) (w : Keyed E)
      → Outcome (with_key g.0 (convert_str_key key w.flash))
      → ℤ × Keyed E
  finish g key w (inl e) = (neg 1, w)
  finish g key w (inr (r, e)) =
      (r.0, record { flash = r.1; keyed = with_key-IsKeyed g.0 key w.flash g.1 w.keyed r e })

  abbrev set : Setting → ℕ → Keyed E → ℤ × Keyed E
  set g key w = finish g key w (Option-cases (with_key g.0 (convert_str_key key w.flash)))

  abbrev text_setting : Text → Setting
  text_setting v =
      (λ t s. let (rc, e) = ef.set_env t v s.env in (pos rc, record s { env = e }), λ t s. refl)

  abbrev int_setting : ℤ → Setting
  int_setting v = (
    λ t s.
        let (rc, e) = ef.set_env_blob t (int_bytes v) s.env in
        (if rc == 0 then pos 0 else neg 1, record s { env = e }),
    λ t s. refl,
  )

  abbrev text_of : Option (Option Text × Flash E) → Option Text
  text_of none = none
  text_of (some (t, s)) = t

  abbrev int_of : Option (ℤ × ℤ) → Option ℤ
  int_of none = none
  int_of (some (rc, v)) = if is_zero rc then some v else none

  -- the store; a number is loaded into a variable that is 0.
  abbrev pub easy_flash : Db (Keyed E)
  easy_flash = record {
    load = λ k w. text_of (service_db_load ef k w.flash);
    save = λ k v w. set (text_setting v) k w;
    load_int = λ k w. int_of (loaded (service_db_load_int ef k (pos 0) w.flash));
    save_int = λ k v w. set (int_setting v) k w;
  }
