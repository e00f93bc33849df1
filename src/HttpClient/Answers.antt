-- ===== src/HttpClient/Answers.antt =====
-- The buffer for the answer of src/port/src/libcurl/portHttpClient.c.
use modbus_things.Base.{
  ◌+◌, ◌≤◌, ◌<◌, ◌≡◌, none, some, List, [], ◌∷◌, ◌++◌, arith, leb, if◌then◌else◌, length,
  length-append, append-nil, append_assoc, Bool-cases, inl, inr,
}
use modbus_things.Base.Text.{Text, before_nul}
use modbus_things.HttpClient.{max_write_size, string_body_write, received}

-- all the bytes that the calls of a transfer append
abbrev pub joined : List Text → Text
joined [] = []
joined (chunk ∷ chunks) = before_nul chunk ++ joined chunks

fitting :
    (recv chunk : Text)
    → length recv + length (before_nul chunk) + 1 ≤ max_write_size
    → string_body_write recv chunk ≡ some (recv ++ before_nul chunk)
unfolding string_body_write
fitting recv chunk h = ground arith

too_long :
    (recv chunk : Text)
    → max_write_size < length recv + length (before_nul chunk) + 1
    → string_body_write recv chunk ≡ none
unfolding string_body_write
too_long recv chunk h = ground arith

-- The buffer holds the bytes of all calls, each up to its first NUL, exactly if they and the NUL
-- behind them fit in CURL_MAX_WRITE_SIZE bytes; otherwise a call writes past its end.
pub received_lem :
    (recv : Text) (chunks : List Text)
    → length recv + 1 ≤ max_write_size
    → received recv chunks ≡ (
        if leb (length recv + length (joined chunks) + 1) max_write_size
        then some (recv ++ joined chunks)
        else none)
unfolding received
received_lem recv [] h = rw (append-nil recv) (ground arith)
received_lem recv (chunk ∷ chunks) h =
    elim (Bool-cases (leb (length recv + length (before_nul chunk) + 1) max_write_size)) [
      | inl fits ↦
          let size = length-append {0} recv (before_nul chunk) in
          let more = length-append {0} (before_nul chunk) (joined chunks) in
          rw
            (
              fitting recv chunk (ground arith),
              received,
              received_lem (recv ++ before_nul chunk) chunks (ground (arith, size)),
              append_assoc recv (before_nul chunk) (joined chunks),
            )
            (ground (arith, size, more))
      | inr full ↦
          let more = length-append {0} (before_nul chunk) (joined chunks) in
          rw (too_long recv chunk (ground arith), received) (ground (arith, more))
    ]
