-- ===== src/Bulk/Names.antt =====
-- The names of the spool's files and the address of the bulk service.
use mathlib.Core.Path.{ap₂}
use modbus_things.Base.{
  take-all, ℕ, ◌<◌, ◌^◌, ◌≡◌, sym, ap, ◌≢◌, append_assoc, take-append, ◌∙◌, Option, none, some,
  ◌++◌, arith, leb, if◌then◌else◌, length, take, drop, length-append,
}
use modbus_things.Base.Int.{ℤ, pos, negsuc}
use modbus_things.Base.Text.{Text, codes, last_byte, last_byte-append}
use modbus_things.Base.Decimal.{
  print_int, print_int-injective, length-print_int-pos, length-print_int-negsuc,
}

-- "%s_%d.%s" of BULK_SAVE_FILE_PREFIX, the index and BULK_SAVE_FILE_SUFFIX
abbrev pub cache_filename : ℤ → Text
cache_filename index = codes "mbt_" ++ (print_int index ++ codes ".dat")

-- `gen_cache_filename`: NULL where the name does not fit in 64 bytes. The version is not used.
unfoldable pub gen_cache_filename : ℤ → ℤ → Option Text
gen_cache_filename index version =
    if leb 64 (length (cache_filename index)) then none else some (cache_filename index)

-- `snprintf(new_name, 64, "%s.%s", name, BULK_UPLOADED_FILE_SUFFIX)`
abbrev pub uploaded_name : Text → Text
uploaded_name name = take 63 (name ++ codes ".bk")

-- `sprintf(api, "%s/%s/%s", …)` into 128 bytes, undefined past them
unfoldable pub bulk_api : Text → Option Text
bulk_api token =
    let api = codes "api/v1/" ++ (token ++ codes "/bulktelemetry") in
    if leb 128 (length api) then none else some api

-- An `int`.
abbrev pub IsInt : ℤ → Type 0
IsInt (pos n) = n < 2 ^ 31
IsInt (negsuc n) = n < 2 ^ 31

length-print_int : (z : ℤ) → IsInt z → length (print_int z) < 12
length-print_int (pos n) h = omega (arith, length-print_int-pos n (omega arith))
length-print_int (negsuc n) h = omega (arith, length-print_int-negsuc n h)

-- Every index has a name: NULL is never returned for an `int`.
pub gen_cache_filename-some :
    (index version : ℤ)
    → IsInt index
    → gen_cache_filename index version ≡ some (cache_filename index)
unfolding gen_cache_filename
gen_cache_filename-some index version h =
    ground (arith, length-append (print_int index) (codes ".dat"), length-print_int index h)

-- The same, where the index is known by an equation.
pub gen_cache_filename-pos :
    (z version : ℤ) (n : ℕ)
    → z ≡ pos n
    → n < 2 ^ 31
    → gen_cache_filename z version ≡ some (cache_filename (pos n))
gen_cache_filename-pos z version n e h = rw e (gen_cache_filename-some (pos n) version h)

append-cancel : (s t u : Text) → s ++ u ≡ t ++ u → s ≡ t
append-cancel s t u e =
    sym (take-append s u)
    ∙ ap₂ take (omega (arith, ap length e, length-append {0} s u, length-append {0} t u)) e
    ∙ take-append t u

-- Different indices have different names.
pub cache_filename-injective : (i j : ℤ) → cache_filename i ≡ cache_filename j → i ≡ j
cache_filename-injective i j e =
    print_int-injective i j (append-cancel _ _ (codes ".dat") (ap (drop 4) e))

-- Two files of the spool with one name have one index, whatever the format versions.
pub gen_cache_filename-injective :
    (i j v w : ℤ) → IsInt i → IsInt j → gen_cache_filename i v ≡ gen_cache_filename j w → i ≡ j
gen_cache_filename-injective i j v w h k e =
    cache_filename-injective i j
      (cc (gen_cache_filename-some i v h, gen_cache_filename-some j w k, e))

length-cache_filename : (i : ℤ) → IsInt i → length (cache_filename i) < 20
length-cache_filename i h =
    omega (arith, length-append {0} (print_int i) (codes ".dat"), length-print_int i h)

-- The name of an uploaded file is never cut.
pub uploaded_name-cache_filename :
    (i : ℤ) → IsInt i → uploaded_name (cache_filename i) ≡ cache_filename i ++ codes ".bk"
uploaded_name-cache_filename i h =
    take-all 63 _
      (omega (arith, length-append {0} (cache_filename i) (codes ".bk"), length-cache_filename i h))

-- No telemetry file has the name of an uploaded one.
pub dat_ne_uploaded : (i j : ℤ) → IsInt j → cache_filename i ≢ uploaded_name (cache_filename j)
unfolding last_byte
dat_ne_uploaded i j h e =
    let k = ap (last_byte 0) (e ∙ uploaded_name-cache_filename j h) in
    omega (
      arith,
      k,
      last_byte-append 0 46 (codes "mbt_" ++ print_int i) (codes "dat"),
      last_byte-append 0 46 (cache_filename j) (codes "bk"),
      ap (last_byte 0) (append_assoc (codes "mbt_") (print_int i) (codes ".dat")),
    )

pub uploaded_name-injective :
    (i j : ℤ)
    → IsInt i
    → IsInt j
    → uploaded_name (cache_filename i) ≡ uploaded_name (cache_filename j)
    → i ≡ j
uploaded_name-injective i j h k e = cache_filename-injective i j (
    append-cancel _ _ (codes ".bk")
      (sym (uploaded_name-cache_filename i h) ∙ e ∙ uploaded_name-cache_filename j k))
